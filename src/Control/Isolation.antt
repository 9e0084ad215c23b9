-- ===== src/Control/Isolation.antt =====
-- The requests that extend a VM, set its purpose or switch its daily snapshots, and the VMs of others.
use gsm_sv.Prelude.{
  ℕ, ◌≤◌, ◌==◌, Bool, true, false, not, ◌&&◌, Bool-cases, inl, inr, Option, none, some, String, ◌≡◌,
  ◌≢◌, refl, sym, subst, arith, All, All-map, and_true, ltb, ◌-◌, ◌/◌, ◌*◌, ◌+◌,
}
use gsm_sv.Table.{find_first, select, count_where}
use gsm_sv.Table.Keys.{keyed, only_found, select-update_where}
use gsm_sv.Table.Laws.{find_first_sound}
use gsm_sv.Models.{admin, eq_role, User, Vm, Db, eq_opt_nat, seconds_per_day}
use gsm_sv.Auth.{on_node, may_use, get_vm_with_owner_check}
use gsm_sv.Vm.Request.{owns}
use gsm_sv.Control.{set_vm, extended, extend_vm}
use gsm_sv.Control.Fields.{
  with_purpose, with_auto, update_vm_purpose, toggle_auto_snapshot, VmRequest, to_extend,
  to_set_purpose, to_toggle, serve_vm,
}

abbrev pub vm_key : Vm → ℕ
vm_key vm = vm.id

module _ (u : User) (other : ℕ) (someone_else : other ≢ u.id) (plain : eq_role u.role admin ≡ false)
    (node : String) (vmid : ℕ) (db : Db)
    (one : (id : ℕ) → count_where (keyed vm_key id) db.vms.rows ≤ 1) where
  abbrev test : Vm → Bool
  test vm = vm.hypervisor_vmid == vmid && (on_node db.servers.rows (some node) vm && may_use u vm)

  not_theirs : (o : Option ℕ) → eq_opt_nat o u.id ≡ true → eq_opt_nat o other ≡ false
  not_theirs none h = refl
  not_theirs (some owner) h = ground (arith, h, someone_else)

  own_key :
      (vm : Vm)
      → find_first test db.vms.rows ≡ some vm
      → All (λ x. keyed vm_key vm.id x ≡ true → owns other x ≡ false) db.vms.rows
  own_key vm found =
      let passes =
        and_true (vm.hypervisor_vmid == vmid)
          (on_node db.servers.rows (some node) vm && may_use u vm)
          (find_first_sound test db.vms.rows found) in
      let mine : owns u.id vm ≡ true =
        rw plain at (and_true (on_node db.servers.rows (some node) vm) (may_use u vm) passes.1).1 in
      All-map
        (λ x is t.
          subst (λ (v : Vm). owns other v ≡ false) (sym (is t)) (not_theirs vm.owner_id mine))
        db.vms.rows (only_found vm_key test vm db.vms.rows found (one vm.id))

  -- A change of the row found that keeps its owner.
  set_vm_spares :
      (vm : Vm) (f : Vm → Vm)
      → ((x : Vm) → owns other (f x) ≡ owns other x)
      → find_first test db.vms.rows ≡ some vm
      → select (owns other) (set_vm vm.id f db).vms.rows ≡ select (owns other) db.vms.rows
  set_vm_spares vm f same found =
      select-update_where vm_key (owns other) vm.id f same db.vms.rows (own_key vm found)

  -- Where keys of VMs are unique, a request of a user who is no administrator to extend a VM, to change
  -- its purpose or to switch its daily snapshots leaves the VMs of every other user as they were, in
  -- their order.
  pub serve_vm_spares :
      (r : VmRequest)
      → select (owns other) (serve_vm r node vmid u db).1.vms.rows ≡ select (owns other) db.vms.rows
  unfolding serve_vm extend_vm update_vm_purpose toggle_auto_snapshot get_vm_with_owner_check
  serve_vm_spares r = go r (find_first test db.vms.rows) refl
    where
      extend :
          (now : ℕ) (vm : Vm) (o : Option ℕ)
          → find_first test db.vms.rows ≡ some vm
          → vm.expires_at ≡ o
          → select (owns other) (serve_vm (to_extend now) node vmid u db).1.vms.rows
            ≡ select (owns other) db.vms.rows
      extend now vm none found e = rw (found, e) refl
      extend now vm (some end) found e = elim (Bool-cases (ltb 7 ((end - now) / seconds_per_day))) [
        | inl early ↦ rw (found, e, early) refl
        | inr late ↦
            rw (found, e, late)
              (set_vm_spares vm (extended (end + 14 * seconds_per_day)) (λ x. refl) found)
      ]

      go :
          (r : VmRequest) (o : Option Vm)
          → find_first test db.vms.rows ≡ o
          → select (owns other) (serve_vm r node vmid u db).1.vms.rows
            ≡ select (owns other) db.vms.rows
      go (to_extend now) none found = rw found refl
      go (to_extend now) (some vm) found = extend now vm vm.expires_at found refl
      go (to_set_purpose purpose) none found = rw found refl
      go (to_set_purpose purpose) (some vm) found =
          rw found (set_vm_spares vm (with_purpose purpose) (λ x. refl) found)
      go to_toggle none found = rw found refl
      go to_toggle (some vm) found =
          rw found (set_vm_spares vm (with_auto (not vm.auto_snapshot)) (λ x. refl) found)
