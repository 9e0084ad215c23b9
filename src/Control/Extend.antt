-- ===== src/Control/Extend.antt =====
-- `extend_vm`
use gsm_sv.Prelude.{
  ℕ, ◌+◌, ◌-◌, ◌*◌, ◌/◌, ◌<◌, false, Bool-cases, inl, inr, Option, none, some, String, ◌≡◌, refl,
  arith, ltb, ltb_false→le, ap, ◌∙◌,
}
use gsm_sv.Exec.{Result, ok, err}
use gsm_sv.Models.{User, Vm, Db, seconds_per_day}
use gsm_sv.Auth.{get_vm_with_owner_check}
use gsm_sv.Auth.Access.{Own, OwnBy, owner_check-OwnBy}
use gsm_sv.Control.{set_vm, extended, extend_vm}

module _ (now : ℕ) (node : Option String) (vmid : ℕ) (u : User) (db : Db) where
  -- The extension of an accepted request.
  pub record Extended (until : ℕ) (db' : Db) : Type 0 where
    pub vm : Vm
    pub own : Own vmid u node db vm
    pub before : ℕ
    pub had : vm.expires_at ≡ some before
    pub fortnight : until ≡ before + 14 * seconds_per_day
    pub bounded : until < now + 22 * seconds_per_day
    pub stored : db' ≡ set_vm vm.id (extended until) db

  abbrev pub ExtendedBy : Result ℕ × Db → Type 0
  ExtendedBy (ok until, db') = Extended until db'
  ExtendedBy (err x, db') = db' ≡ db

  within :
      (before : ℕ) → ltb 7 ((before - now) / 86400) ≡ false → before + 14 * 86400 < now + 22 * 86400
  within before h = let small = ltb_false→le 7 ((before - now) / 86400) h in omega (arith, small)

  -- `extend_vm` gives a VM of the user's own (an administrator: any VM) fourteen days more than it
  -- had, only if it has an end and less than eight days are left; so the new end is less than 22 days
  -- away however often the request is repeated. A refusal writes nothing.
  pub extend_vm-ExtendedBy : ExtendedBy (extend_vm now node vmid u db)
  unfolding extend_vm
  extend_vm-ExtendedBy =
      found (get_vm_with_owner_check vmid u node db) refl (owner_check-OwnBy vmid u node db)
    where
      ending :
          (vm : Vm)
          → get_vm_with_owner_check vmid u node db ≡ (ok vm, db)
          → Own vmid u node db vm
          → (o : Option ℕ) → vm.expires_at ≡ o
          → ExtendedBy (extend_vm now node vmid u db)
      ending vm h own none e = rw (h, e) refl
      ending vm h own (some before) e =
          elim (Bool-cases (ltb 7 ((before - now) / seconds_per_day))) [
            | inl early ↦ rw (h, e, early) refl
            | inr late ↦
                rw (h, e, late)
                  (record {
                    vm = vm;
                    own = own;
                    before = before;
                    had = e;
                    fortnight = refl;
                    bounded = within before late;
                    stored = refl;
                  })
          ]

      found :
          (t : Result Vm × Db)
          → get_vm_with_owner_check vmid u node db ≡ t
          → OwnBy vmid u node db t
          → ExtendedBy (extend_vm now node vmid u db)
      found (err x, db') h same = rw (h, same) refl
      found (ok vm, db') h (own, same) =
          ending vm (h ∙ ap (λ d. (ok vm, d)) same) own vm.expires_at refl
