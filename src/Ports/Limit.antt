-- ===== src/Ports/Limit.antt =====
-- The limit and the external ports of the port table under adding a custom port.
use gsm_sv.Prelude.{
  ℕ, ◌+◌, ◌≤◌, ◌<◌, ◌==◌, ==_iff, Bool, false, Bool-cases, inl, inr, Option, String, List, [], ◌∷◌,
  ◌≡◌, any, arith, subst, if◌then◌else◌,
}
use gsm_sv.Exec.{Result, ok, err}
use gsm_sv.Table.{count_where, insert}
use gsm_sv.Table.Laws.{count_where-append, count_where-new}
use gsm_sv.Models.{User, Vm, VmPort, Settings}
use gsm_sv.Network.{Gateway}
use gsm_sv.Platform.World.{World}
use gsm_sv.Ports.{VmPortCreate, has_external, has_port_id, is_custom_of, port_row, add_custom_port}
use gsm_sv.Ports.Stored.{AddedBy, add_custom_port-AddedBy}

-- At most thirty custom ports of the VM, and at most one record of the external port.
abbrev pub WithinLimits : ℕ → ℕ → List VmPort → Type 0
WithinLimits vm_id port rows =
    (count_where (is_custom_of vm_id) rows ≤ 30) × (count_where (has_external port) rows ≤ 1)

module _ {E : Type 0} (g : Gateway E) (is_network : String → Bool) (cfg : Settings) where
  module _ (draws : List ℕ) (node : Option String) (vmid : ℕ) (body : VmPortCreate) (u : User)
      (w : World E) where
    -- `add_custom_port`, run where the next key of the port table is not in use, keeps every VM at no
    -- more than thirty custom ports and every external port at no more than one record, whatever
    -- numbers are drawn and whatever the gateway answers.
    pub add_custom_port-WithinLimits :
        (vm_id port : ℕ)
        → count_where (has_port_id w.db.vm_ports.next_id) w.db.vm_ports.rows ≡ 0
        → WithinLimits vm_id port w.db.vm_ports.rows
        → WithinLimits vm_id port
            (add_custom_port g is_network cfg draws node vmid body u w).1.db.vm_ports.rows
    add_custom_port-WithinLimits vm_id port fresh h =
        go (add_custom_port g is_network cfg draws node vmid body u w)
          (add_custom_port-AddedBy g is_network cfg draws node vmid body u w fresh)
      where
        room :
            (vm : Vm) (external : ℕ)
            → count_where (is_custom_of vm.id) w.db.vm_ports.rows < 30
            → count_where
                (is_custom_of vm_id)
                (insert (port_row vm body external) w.db.vm_ports).rows
              ≤ 30
        room vm external few = elim (Bool-cases (vm.id == vm_id)) [
          | inl e ↦ omega (
            arith,
            rw e at appended,
            subst (λ v. count_where (is_custom_of v) w.db.vm_ports.rows < 30)
                ((==_iff vm.id vm_id).0 e) few,
          )
          | inr e ↦ omega (arith, rw e at appended, h.0)
        ]
          where
            appended :
                count_where
                  (is_custom_of vm_id)
                  (insert (port_row vm body external) w.db.vm_ports).rows
                ≡ count_where (is_custom_of vm_id) w.db.vm_ports.rows
                  + ((if is_custom_of vm_id (port_row vm body external w.db.vm_ports.next_id)
                        then 1
                        else 0)
                      + 0)
            appended =
                count_where-append (is_custom_of vm_id) w.db.vm_ports.rows
                  (port_row vm body external w.db.vm_ports.next_id ∷ [])

        go :
            (t : Result (ℕ × ℕ) × World E)
            → AddedBy g is_network cfg draws node vmid body u w fresh t
            → WithinLimits vm_id port t.1.db.vm_ports.rows
        go (err x, w') same = rw same h
        go (ok answer, w') a = rw a.stored (
          room a.vm answer.1 a.room,
          count_where-new (has_external port) (port_row a.vm body answer.1) w.db.vm_ports h.1 (λ e.
              subst (λ p. any (has_external p) w.db.vm_ports.rows ≡ false)
                ((==_iff answer.1 port).0 e) a.unused),
        )
