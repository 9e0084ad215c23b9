-- ===== src/Background/Expire/Grace.antt =====
-- What a pass over the VMs in their grace period leaves in the notifications, and what a later one adds.
use gsm_sv.Prelude.{
  any-append, any_last, ℕ, ==_refl, Bool, true, ◌||◌, Bool-cases, inl, inr, Option, none, some,
  String, List, [], ◌∷◌, ◌++◌, ◌≡◌, refl, any, leb, false, not, suc, ◌+◌, ◌≤◌, arith, ap, ◌∙◌,
  subst, sym, length, length-append, All, All-map, and_true,
}
use gsm_sv.Table.{Table, select}
use gsm_sv.Table.Laws.{All-select}
use gsm_sv.Models.{Text, Vm, vm_grace, Db, Settings}
use gsm_sv.Network.{Gateway}
use gsm_sv.Platform.{Platform}
use gsm_sv.Platform.World.{World}
use gsm_sv.Vm.Names.{codes}
use gsm_sv.Vm.Delete.{Caddy}
use gsm_sv.Background.Messages.{text_of_notice, starts_with, contains, contains_later}
use gsm_sv.Background.Expire.{
  truthy, end_of, ends_in_grace, in_grace, notice_row, grace_notice_of, tell_if, serve_grace,
  serve_each, process_grace_vms,
}

quoted : (name rest : Text) → starts_with (name ++ codes "'") (name ++ 39 ∷ rest) ≡ true
quoted [] rest = refl
quoted (c ∷ cs) rest = rw (==_refl c) (quoted cs rest)

or_first : {a : Bool} (b : Bool) → a ≡ true → (a || b) ≡ true
or_first b h = rw h refl

names_it :
    (name : Text)
    → contains (codes "'" ++ name ++ codes "'") (text_of_notice (vm_grace name)) ≡ true
names_it name = or_first _ (quoted name _)

says_three_days :
    (name : Text) → contains (codes "3일 후 완전 삭제") (text_of_notice (vm_grace name)) ≡ true
says_three_days name = contains_later (codes "3일 후 완전 삭제") name _ refl

ended : (now : ℕ) (o : Option ℕ) → ends_in_grace now o ≡ true → leb (end_of o) now ≡ true
ended now none h = absurd cc
ended now (some end) h = (and_true _ _ h).0

-- The owner, if there is one, has a notice of this grace period.
abbrev pub ToldIf : Vm → Option ℕ → Db → Type 0
ToldIf vm none db = Unit
ToldIf vm (some owner) db = any (grace_notice_of owner vm) db.notifications.rows ≡ true

abbrev pub Told : Db → Vm → Type 0
Told db vm = ToldIf vm (truthy vm.owner_id) db

-- Who has been told is not told again.
quiet : (now : ℕ) (vm : Vm) (o : Option ℕ) (db : Db) → ToldIf vm o db → tell_if now vm o db ≡ db
quiet now vm none db h = refl
quiet now vm (some owner) db h = rw h refl

new_notice :
    (now : ℕ) (vm : Vm) (owner id : ℕ)
    → in_grace now vm ≡ true
    → grace_notice_of owner vm (notice_row owner (vm_grace vm.name) now id) ≡ true
new_notice now vm owner id h =
    rw (==_refl owner, names_it vm.name, says_three_days vm.name) (ended now vm.expires_at h)

tells :
    (now : ℕ) (vm : Vm) (o : Option ℕ) (db : Db)
    → in_grace now vm ≡ true
    → ToldIf vm o (tell_if now vm o db)
tells now vm none db h = tt
tells now vm (some owner) db h =
    elim (Bool-cases (any (grace_notice_of owner vm) db.notifications.rows)) [
      | inl e ↦ rw e e
      | inr e ↦ rw e (
          any_last (grace_notice_of owner vm) db.notifications.rows _
            (new_notice now vm owner db.notifications.next_id h))
    ]

-- A notice more does not take one away.
keeps_told :
    (now : ℕ) (vm : Vm) (o : Option ℕ) (other : Vm) (o' : Option ℕ) (db : Db)
    → ToldIf other o' db
    → ToldIf other o' (tell_if now vm o db)
keeps_told now vm none other o' db h = h
keeps_told now vm (some owner) other none db h = tt
keeps_told now vm (some owner) other (some to) db h =
    elim (Bool-cases (any (grace_notice_of owner vm) db.notifications.rows)) [
      | inl e ↦ rw e h
      | inr e ↦ rw e (any-append (grace_notice_of to other) db.notifications.rows _ h)
    ]

module _ {E : Type 0} (p : Platform E) (g : Gateway E) (c : Caddy E) (is_network : String → Bool)
    (cfg : Settings) (now : ℕ) where
  serve_each_keeps :
      (vms : List Vm) (other : Vm) (w : World E)
      → Told w.db other
      → Told (serve_each p g c is_network cfg now vms w).db other
  serve_each_keeps [] other w h = h
  serve_each_keeps (vm ∷ vms) other w h =
      serve_each_keeps vms other (serve_grace p g c is_network cfg now vm w)
        (keeps_told now vm (truthy vm.owner_id) other (truthy other.owner_id) w.db h)

  serve_each-Told :
      (vms : List Vm) (w : World E)
      → All (λ vm. in_grace now vm ≡ true) vms
      → All (Told (serve_each p g c is_network cfg now vms w).db) vms
  serve_each-Told [] w h = tt
  serve_each-Told (vm ∷ vms) w h =
      let w₁ = serve_grace p g c is_network cfg now vm w in
      (
        serve_each_keeps vms vm w₁ (tells now vm (truthy vm.owner_id) w.db h.0),
        serve_each-Told vms w₁ h.1,
      )

  notices : World E → ℕ
  notices w = length w.db.notifications.rows

  one_notice :
      (vm : Vm) (o : Option ℕ) (db : Db)
      → length (tell_if now vm o db).notifications.rows ≤ suc (length db.notifications.rows)
  one_notice vm none db = omega arith
  one_notice vm (some owner) db =
      elim (Bool-cases (any (grace_notice_of owner vm) db.notifications.rows)) [
        | inl e ↦ rw e (omega arith)
        | inr e ↦ rw e (
            omega (
              arith,
              length-append db.notifications.rows
                  (notice_row owner (vm_grace vm.name) now db.notifications.next_id ∷ []),
            ))
      ]

  -- A VM adds one notice at most, and none if its owner has been told.
  serve_each_few :
      (old : Vm → Bool) (vms : List Vm) (w : World E)
      → All (λ vm. old vm ≡ true → Told w.db vm) vms
      → notices (serve_each p g c is_network cfg now vms w)
        ≤ notices w + length (select (λ vm. not (old vm)) vms)
  unfolding notices
  serve_each_few old [] w h = omega arith
  serve_each_few old (vm ∷ vms) w h =
      let w₁ = serve_grace p g c is_network cfg now vm w in
      let later : All (λ other. old other ≡ true → Told w₁.db other) vms =
        All-map
          (λ other told t.
            keeps_told now vm (truthy vm.owner_id) other (truthy other.owner_id) w.db (told t))
          vms h.1 in
      let rest = serve_each_few old vms w₁ later in
      elim (Bool-cases (old vm)) [
        | inl e ↦
            let same =
              ap (λ (db : Db). length db.notifications.rows)
                (quiet now vm (truthy vm.owner_id) w.db (h.0 e)) in
            rw e (omega (arith, rest, same))
        | inr e ↦
            let one = one_notice vm (truthy vm.owner_id) w.db in rw e (omega (arith, rest, one))
      ]

  serve_each-vms :
      (vms : List Vm) (w : World E) → (serve_each p g c is_network cfg now vms w).db.vms ≡ w.db.vms
  serve_each-vms [] w = refl
  serve_each-vms (vm ∷ vms) w =
      serve_each-vms vms (serve_grace p g c is_network cfg now vm w)
      ∙ tell-vms vm (truthy vm.owner_id) w.db
    where
      tell-vms : (vm : Vm) (o : Option ℕ) (db : Db) → (tell_if now vm o db).vms ≡ db.vms
      tell-vms vm none db = refl
      tell-vms vm (some owner) db =
          elim (Bool-cases (any (grace_notice_of owner vm) db.notifications.rows)) [
            | inl e ↦ rw e refl
            | inr e ↦ rw e refl
          ]

select_every : {A : Type 0} (xs : List A) → select (λ x. true) xs ≡ xs
select_every [] = refl
select_every (x ∷ xs) = ap (λ rest. x ∷ rest) (select_every xs)

-- What holds of the rows of one query holds, in another query, of the rows of the first.
All-both :
    {A : Type 0} (p q : A → Bool) (P : A → Type 0) (xs : List A)
    → All P (select p xs)
    → All (λ x. p x ≡ true → P x) (select q xs)
All-both p q P [] h = tt
All-both p q P (x ∷ xs) h = elim (Bool-cases (p x)) [
  | inl e ↦
      let both : P x × All P (select p xs) = rw e at h in
      elim (Bool-cases (q x)) [
        | inl f ↦ rw f ((λ t. both.0), All-both p q P xs both.1)
        | inr f ↦ rw f (All-both p q P xs both.1)
      ]
  | inr e ↦
      let rest = All-both p q P xs (rw e at h) in
      elim (Bool-cases (q x)) [ inl f ↦ rw f ((λ t. absurd (cc (t, e))), rest) | inr f ↦ rw f rest ]
]

module _ {E : Type 0} (p : Platform E) (g : Gateway E) (c : Caddy E) (is_network : String → Bool)
    (cfg : Settings) (now later : ℕ) (w : World E) where
  abbrev pass : ℕ → World E → World E
  pass time = process_grace_vms p g c is_network cfg time

  -- The VMs in their grace period now, and those in it later that are not in it now.
  abbrev pub in_it : List Vm
  in_it = select (in_grace now) w.db.vms.rows

  abbrev pub newly_in_it : List Vm
  newly_in_it = select (λ vm. not (in_grace now vm)) (select (in_grace later) w.db.vms.rows)

  -- `_process_grace_vms` leaves each VM in its grace period with a notice to its owner, if it has one,
  -- of this end, and adds no more notices than there are such VMs. A later pass adds no more notices
  -- than there are VMs whose grace period the first one did not meet.
  pub process_grace_vms-once :
      All (Told (pass now w).db) in_it
      × (length (pass now w).db.notifications.rows ≤ length w.db.notifications.rows + length in_it)
      × (length (pass later (pass now w)).db.notifications.rows
          ≤ length (pass now w).db.notifications.rows + length newly_in_it)
  unfolding process_grace_vms notices
  process_grace_vms-once =
      let told =
        serve_each-Told p g c is_network cfg now in_it w
          (All-select (in_grace now) w.db.vms.rows) in
      let w₁ = serve_each p g c is_network cfg now in_it w in
      let same = serve_each-vms p g c is_network cfg now in_it w in
      let few =
        serve_each_few p g c is_network cfg now (λ vm. false) in_it w
          (All-map (λ vm t e. absurd cc) in_it told) in
      (
        told,
        omega (arith, few, ap length (select_every in_it)),
        subst
            (λ (vms : Table Vm).
              length
                (serve_each p g c is_network cfg later (select (in_grace later) vms.rows)
                  w₁).db.notifications.rows
              ≤ length w₁.db.notifications.rows + length newly_in_it)
            (sym same)
            (serve_each_few p g c is_network cfg later (in_grace now)
              (select (in_grace later) w.db.vms.rows) w₁
              (All-both (in_grace now) (in_grace later) (Told w₁.db) w.db.vms.rows told)),
      )
