-- ===== src/Vm/Select.antt =====
-- `_get_next_vmid`, `_is_vmid_free_in_proxmox`, `_vmid_conflicts_in_db`, `_select_vmid`
pub mod Free
use gsm_sv.Prelude.{
  ℕ, zero, suc, ◌+◌, Bool, true, false, not, ◌&&◌, ◌||◌, Option, none, some, String, List, [], ◌∷◌,
  any, leb, ◌==◌, is_some, if◌then◌else◌,
}
use gsm_sv.Exec.{
  Exec, Exc, Result, ok, err, resource_exception, http_exception, pure, raise, http, gets, ◌>>=◌,
  ◌>>◌, catch, vmid_exhausted,
}
use gsm_sv.Models.{Server, Vm, VmPort, Db}
use gsm_sv.Network.{Ports, calculate_ports}
use gsm_sv.Platform.{Platform}

-- `max` of a non-empty list
abbrev pub max_of : ℕ → List ℕ → ℕ
max_of m [] = m
max_of m (x ∷ xs) = max_of (if leb m x then x else m) xs

abbrev pub after_max : List ℕ → ℕ
after_max [] = 100
after_max (x ∷ xs) = max_of x xs + 1

-- A VM record of the node with that VMID.
abbrev pub is_vm_at : ℕ → ℕ → Vm → Bool
is_vm_at server_id vmid vm = vm.server_id == server_id && vm.hypervisor_vmid == vmid

abbrev pub in_ports : Ports → VmPort → Bool
in_ports ports p =
    p.external_port == ports.ssh || p.external_port == ports.svc1 || p.external_port == ports.svc2

-- `_vmid_conflicts_in_db`: the ports are computed, and may raise, only if no record has the VMID.
unfoldable pub vmid_conflicts_in_db : Db → Server → ℕ → Result Bool
vmid_conflicts_in_db db server vmid =
    if any (is_vm_at server.id vmid) db.vms.rows
    then ok true
    else elim (calculate_ports server.base_port vmid) [
      | ok ports ↦ ok (any (in_ports ports) db.vm_ports.rows)
      | err e ↦ err e
    ]

-- `_MAX_VMID_PROBES`
abbrev pub max_vmid_probes : ℕ
max_vmid_probes = 50

module _ {E : Type 0} (p : Platform E) where
  unfoldable pub get_next_vmid : String → Exec E ℕ
  get_next_vmid node = catch (p.nextid none) (λ e. do ids ← p.qemu_ids node; pure (after_max ids))

  -- A ResourceException is an answer; on any other exception the node's list is searched.
  abbrev free_or_list : String → ℕ → Exc → Exec E Bool
  free_or_list node vmid resource_exception = pure false
  free_or_list node vmid other = do ids ← p.qemu_ids node; pure (not (any (λ id. id == vmid) ids))

  unfoldable pub is_vmid_free_in_proxmox : String → ℕ → Exec E Bool
  is_vmid_free_in_proxmox node vmid =
      catch (do id ← p.nextid (some vmid); pure true) (free_or_list node vmid)

  -- `not conflicts and free`: Proxmox is asked only if the database has no conflict.
  abbrev pub usable : Db → Server → ℕ → Exec E Bool
  usable db server vmid = elim (vmid_conflicts_in_db db server vmid) [
    | ok true ↦ pure false
    | ok false ↦ is_vmid_free_in_proxmox server.name vmid
    | err e ↦ raise e
  ]

  abbrev pub probe_next : Exec E ℕ → ℕ → Bool → Exec E ℕ
  probe_next rest vmid true = pure vmid
  probe_next rest vmid false = rest

  -- The `for` loop, by the rounds left.
  unfoldable pub probe : ℕ → Db → Server → ℕ → Exec E ℕ
  probe zero db server vmid = http 507 vmid_exhausted
  probe (suc rounds) db server vmid =
      let rest = probe rounds db server (vmid + 1) in usable db server vmid >>= probe_next rest vmid

  unfoldable pub select_vmid : Db → Server → Exec E ℕ
  select_vmid db server = do vmid ← get_next_vmid server.name; probe max_vmid_probes db server vmid
