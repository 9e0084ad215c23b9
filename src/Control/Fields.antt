-- ===== src/Control/Fields.antt =====
-- The purpose and the daily snapshots of a VM, its snapshots, and the listing of a node
-- (api/routes/vmcontrol.py).
use gsm_sv.Prelude.{ℕ, ◌==◌, Bool, not, ◌&&◌, some, String, str_eq, List, any, if◌then◌else◌}
use gsm_sv.Exec.{
  Exec, http_exception, pure, gets, modify, or_raise, catch, ◌>>=◌, ◌>>◌, node_not_found,
}
use gsm_sv.Table.{find_first, select}
use gsm_sv.Models.{admin, eq_role, User, Server, Vm, Db, Settings}
use gsm_sv.Platform.{Platform}
use gsm_sv.Platform.World.{World, call, on_db}
use gsm_sv.Auth.{get_vm_with_owner_check}
use gsm_sv.Ports.{server_of}
use gsm_sv.Vm.Request.{owns}
use gsm_sv.Vm.Delete.{Caddy, delete_vm}
use gsm_sv.Network.{Gateway}
use gsm_sv.Control.{Guest, Snapshot, set_vm, as_proxmox, extend_vm, real_snapshots}

abbrev pub with_purpose : String → Vm → Vm
with_purpose purpose vm = record vm { purpose = some purpose }

-- `update_vm_purpose`
unfoldable pub update_vm_purpose : String → ℕ → (purpose : String) → User → Exec Db (Unit {0})
update_vm_purpose node vmid purpose u = do
  vm ← get_vm_with_owner_check vmid u (some node)
  modify (set_vm vm.id (with_purpose purpose))

-- `get_auto_snapshot`
unfoldable pub get_auto_snapshot : String → ℕ → User → Exec Db Bool
get_auto_snapshot node vmid u = do
  vm ← get_vm_with_owner_check vmid u (some node)
  pure vm.auto_snapshot

abbrev pub with_auto : Bool → Vm → Vm
with_auto b vm = record vm { auto_snapshot = b }

-- `toggle_auto_snapshot`
unfoldable pub toggle_auto_snapshot : String → ℕ → User → Exec Db Bool
toggle_auto_snapshot node vmid u = do
  vm ← get_vm_with_owner_check vmid u (some node)
  modify (set_vm vm.id (with_auto (not vm.auto_snapshot)))
  pure (not vm.auto_snapshot)

module _ {E : Type 0} (p : Platform E) (k : Guest E) where
  -- `list_snapshots`: without the entry of the present state.
  unfoldable pub list_snapshots : String → ℕ → User → Exec (World E) (List Snapshot)
  list_snapshots node vmid u = do
    vm ← on_db (get_vm_with_owner_check vmid u (some node))
    server ← on_db (server_of vm)
    call (p.connect server)
    all ← catch (call (k.snapshots server.name vm.hypervisor_vmid)) (as_proxmox p k)
    pure (real_snapshots p k all)

  -- `rollback_snapshot`
  unfoldable pub rollback_snapshot : String → ℕ → String → User → Exec (World E) (Unit {0})
  rollback_snapshot node vmid name u = do
    vm ← on_db (get_vm_with_owner_check vmid u (some node))
    server ← on_db (server_of vm)
    call (p.connect server)
    catch (call (k.rollback server.name vm.hypervisor_vmid name)) (as_proxmox p k)

  -- `delete_snapshot`
  unfoldable pub delete_snapshot : String → ℕ → String → User → Exec (World E) (Unit {0})
  delete_snapshot node vmid name u = do
    vm ← on_db (get_vm_with_owner_check vmid u (some node))
    server ← on_db (server_of vm)
    call (p.connect server)
    catch (call (k.delete_snapshot server.name vm.hypervisor_vmid name)) (as_proxmox p k)

  abbrev pub shown : User → List Vm → List ℕ → List ℕ
  shown u mine ids =
      if eq_role u.role admin
      then ids
      else select (λ id. any (λ (vm : Vm). vm.hypervisor_vmid == id) mine) ids

  -- `get_vms`: the VMIDs of the node that the user may see.
  unfoldable pub get_vms : String → User → Exec (World E) (List ℕ)
  get_vms node u = do
    servers ← gets (λ (w : World E). w.db.servers.rows)
    server ←
        or_raise (find_first (λ (s : Server). str_eq s.name node && s.is_active) servers)
          (http_exception 404 node_not_found)
    call (p.connect server)
    ids ← catch (call (p.qemu_ids node)) (as_proxmox p k)
    vms ← gets (λ (w : World E). w.db.vms.rows)
    pure (shown u (select (owns u.id) vms) ids)

module _ {E : Type 0} (p : Platform E) (g : Gateway E) (c : Caddy E) (is_network : String → Bool)
    (cfg : Settings) where
  -- `delete_vm_endpoint`
  unfoldable pub delete_vm_endpoint :
      (now : ℕ) → String → ℕ → (purge : Bool) → User → Exec (World E) (Unit {0})
  delete_vm_endpoint now node vmid purge u = do
    vm ← on_db (get_vm_with_owner_check vmid u (some node))
    server ← on_db (server_of vm)
    delete_vm p g c is_network cfg server vm purge now

-- The requests about one VM that write only to its row.
pub data VmRequest : Type 0 where
  to_extend : (now : ℕ) → VmRequest
  to_set_purpose : String → VmRequest
  to_toggle : VmRequest

abbrev pub forget : {A : Type 0} → Exec Db A → Exec Db (Unit {0})
forget m = do a ← m; pure tt

unfoldable pub serve_vm : VmRequest → String → ℕ → User → Exec Db (Unit {0})
unfolding update_vm_purpose toggle_auto_snapshot
serve_vm (to_extend now) node vmid u = forget (extend_vm now (some node) vmid u)
serve_vm (to_set_purpose purpose) node vmid u = update_vm_purpose node vmid purpose u
serve_vm to_toggle node vmid u = forget (toggle_auto_snapshot node vmid u)
