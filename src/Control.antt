-- ===== src/Control.antt =====
-- What an owner does with a VM (api/routes/vmcontrol.py): extension, power, resize, snapshots.
pub mod Extend
pub mod Power
pub mod Resize
pub mod Snapshots
pub mod Fields
pub mod Isolation
use gsm_sv.Prelude.{
  ℕ, zero, suc, ◌+◌, ◌-◌, ◌*◌, ◌/◌, ◌==◌, Bool, true, false, not, ◌&&◌, ◌||◌, Option, none, some,
  String, str_eq, List, [], ◌∷◌, any, length, ltb, leb, if◌then◌else◌, is_some,
}
use gsm_sv.Exec.{
  Exec, Exc, Result, ok, err, http_exception, pure, raise, http, gets, modify, or_raise, reject_if,
  catch, ◌>>=◌, ◌>>◌, no_expiry, too_early_to_extend, not_ready, vm_expired, provisioning,
  proxmox_failed, resize_forbidden, hotplug_disabled, nothing_to_change, cores_choice, resize_range,
  resize_failed, snapshot_exists, too_many_manual, too_many_snapshots, snapshot_failed,
}
use gsm_sv.Table.{set_where, select}
use gsm_sv.Models.{
  UserRole, admin, project_owner, eq_role, User, Server, Vm, Db, seconds_per_day,
  provisioning_uptime_threshold_seconds,
}
use gsm_sv.Platform.{
  Platform, VmAction, start, stop, shutdown, reboot, StatusReply, status_is, missing, failing,
}
use gsm_sv.Platform.World.{World, call, on_db}
use gsm_sv.Auth.{get_vm_with_owner_check}
use gsm_sv.Ports.{server_of}
use gsm_sv.Vm.Create.{has_id}
use gsm_sv.Vm.Request.{is_plain}
use gsm_sv.Vm.Names.{codes}
use gsm_sv.Background.Messages.{starts_with}

-- One entry of `snapshot.get()`.
pub record Snapshot : Type 0 where
  pub name : String

-- AUTO_SNAP_PREFIX, and `name.startswith(AUTO_SNAP_PREFIX)`
abbrev pub auto_snap_prefix : String
auto_snap_prefix = "auto-daily"

abbrev pub is_auto : String → Bool
is_auto name = starts_with (codes auto_snap_prefix) (codes name)

-- The calls of the Proxmox API that these handlers make besides those of `Platform`.
pub record Guest (E : Type 0) : Type 0 where
  -- Whether `hotplug` of the configuration names "cpu" or "memory".
  pub hotplug : String → ℕ → E → Result Bool × E
  pub resize : String → ℕ → Option ℕ → Option ℕ → E → Result (Unit {0}) × E
  -- The two calls of the guest agent: whether the answer has the marker "OK".
  pub marker : String → ℕ → E → Result Bool × E
  pub snapshots : String → ℕ → E → Result (List Snapshot) × E
  pub take_snapshot : String → ℕ → String → E → Result (Unit {0}) × E
  pub rollback : String → ℕ → String → E → Result (Unit {0}) × E
  pub delete_snapshot : String → ℕ → String → E → Result (Unit {0}) × E

abbrev pub set_vm : ℕ → (Vm → Vm) → Db → Db
set_vm id f db = record db { vms = set_where (has_id id) f db.vms }

abbrev pub extended : ℕ → Vm → Vm
extended until vm = record vm { expires_at = some until }

-- `extend_vm`: the new end. A VM that has run out has a negative number of days left, here 0.
unfoldable pub extend_vm : (now : ℕ) → Option String → ℕ → User → Exec Db ℕ
extend_vm now node vmid u = do
  vm ← get_vm_with_owner_check vmid u node
  expires_at ← or_raise vm.expires_at (http_exception 400 no_expiry)
  reject_if (ltb 7 ((expires_at - now) / seconds_per_day)) 400 too_early_to_extend
  modify (set_vm vm.id (extended (expires_at + 14 * seconds_per_day)))
  pure (expires_at + 14 * seconds_per_day)

abbrev pub has_expired : ℕ → Option ℕ → Bool
has_expired now none = false
has_expired now (some end) = leb end now

abbrev pub starts : VmAction → Bool
starts start = true
starts reboot = true
starts stop = false
starts shutdown = false

abbrev pub stops : VmAction → Bool
stops start = false
stops stop = true
stops shutdown = true
stops reboot = true

abbrev pub is_running : StatusReply → Bool
is_running (status_is running) = running
is_running missing = false
is_running failing = false

-- `0 < seconds_since_created < PROVISIONING_UPTIME_THRESHOLD_SECONDS`
abbrev pub in_first_boot : ℕ → Vm → Bool
in_first_boot now vm =
    ltb vm.created_at now && ltb (now - vm.created_at) provisioning_uptime_threshold_seconds

module _ {E : Type 0} (p : Platform E) (k : Guest E) where
  abbrev pub not_marked : Result Bool → Bool
  not_marked (ok found) = not found
  not_marked (err x) = true

  -- `_check_cloud_init_provisioning`
  abbrev pub check_cloud_init : ℕ → Server → Vm → E → Bool × E
  check_cloud_init now server vm e =
      let (r, e') = k.marker server.name vm.hypervisor_vmid e in
      if in_first_boot now vm then (not_marked r, e') else (false, e)

  abbrev pub still_provisioning : ℕ → Server → Vm → StatusReply × E → Bool × E
  still_provisioning now server vm (reply, e) =
      if is_running reply then check_cloud_init now server vm e else (false, e)

  -- An exception of Proxmox that is not an HTTPException becomes one (`raise_proxmox_http_exception`).
  abbrev pub as_proxmox : {A : Type 0} → Exc → Exec (World E) A
  as_proxmox (http_exception code d) = http code d
  as_proxmox other = http 500 proxmox_failed

  abbrev pub stop_or_go : Bool → Bool × E → Exec (World E) (Unit {0})
  stop_or_go false answer w = (ok tt, w)
  stop_or_go true (busy, e) w = reject_if busy 409 provisioning (record w { env = e })

  abbrev pub check_stop : ℕ → VmAction → Server → Vm → Exec (World E) (Unit {0})
  check_stop now action server vm w =
      stop_or_go (stops action)
        (still_provisioning now server vm (p.status_current server.name vm.hypervisor_vmid w.env)) w

  -- `control_vm`
  unfoldable pub control_vm :
      (now : ℕ) → Option String → ℕ → VmAction → User → Exec (World E) (Unit {0})
  control_vm now node vmid action u = do
    vm ← on_db (get_vm_with_owner_check vmid u node)
    reject_if (not vm.ready) 409 not_ready
    reject_if (starts action && has_expired now vm.expires_at && not (eq_role u.role admin)) 403
        vm_expired
    server ← on_db (server_of vm)
    call (p.connect server)
    check_stop now action server vm
    catch (call (p.power action server.name vm.hypervisor_vmid)) as_proxmox

  -- Python's `not n` for an absent or zero number.
  abbrev pub is_unset : Option ℕ → Bool
  is_unset none = true
  is_unset (some n) = n == 0

  abbrev pub cores_ok : Option ℕ → Bool
  cores_ok none = true
  cores_ok (some n) = n == 2 || n == 4

  abbrev pub memory_ok : Option ℕ → Bool
  memory_ok none = true
  memory_ok (some m) = leb 4096 m && leb m 16384

  abbrev pub or_old : Option ℕ → ℕ → ℕ
  or_old none old = old
  or_old (some new) old = new

  abbrev pub resized : Option ℕ → Option ℕ → Vm → Vm
  resized cores memory vm = record vm {
    allocated_cores = or_old cores vm.allocated_cores;
    allocated_ram_mb = or_old memory vm.allocated_ram_mb;
  }

  -- The checks of the new values, the change and its record.
  abbrev pub apply_resize : Vm → Server → (cores memory : Option ℕ) → Exec (World E) (Unit {0})
  apply_resize vm server cores memory = do
    reject_if (is_unset cores && is_unset memory) 400 nothing_to_change
    reject_if (not (cores_ok cores)) 400 cores_choice
    reject_if (not (memory_ok memory)) 400 resize_range
    catch (call (k.resize server.name vm.hypervisor_vmid cores memory)) as_proxmox
    modify (λ w. record w { db = set_vm vm.id (resized cores memory) w.db })

  abbrev pub resize_on : Vm → Server → (cores memory : Option ℕ) → Exec (World E) (Unit {0})
  resize_on vm server cores memory = do
    call (p.connect server)
    hot ← call (k.hotplug server.name vm.hypervisor_vmid)
    reject_if (not hot) 400 hotplug_disabled
    apply_resize vm server cores memory

  -- `resize_vm`
  unfoldable pub resize_vm :
      Option String → ℕ → (cores memory : Option ℕ) → User → Exec (World E) (Unit {0})
  resize_vm node vmid cores memory u = do
    reject_if (is_plain u.role) 403 resize_forbidden
    vm ← on_db (get_vm_with_owner_check vmid u node)
    server ← on_db (server_of vm)
    resize_on vm server cores memory

  -- The checks of `create_snapshot`, on the snapshots without "current".
  abbrev pub real_snapshots : List Snapshot → List Snapshot
  real_snapshots all = select (λ (s : Snapshot). not (str_eq s.name "current")) all

  abbrev pub manual_snapshots : List Snapshot → List Snapshot
  manual_snapshots all = select (λ (s : Snapshot). not (is_auto s.name)) (real_snapshots all)

  abbrev pub may_take : String → List Snapshot → Exec (World E) (Unit {0})
  may_take name all = do
    reject_if (any (λ (s : Snapshot). str_eq s.name name) (real_snapshots all)) 400 snapshot_exists
    reject_if (leb 2 (length (manual_snapshots all))) 400 too_many_manual
    reject_if (leb 3 (length (real_snapshots all))) 400 too_many_snapshots

  abbrev pub take_on : Vm → Server → String → Exec (World E) (Unit {0})
  take_on vm server name = do
    all ← call (k.snapshots server.name vm.hypervisor_vmid)
    may_take name all
    call (k.take_snapshot server.name vm.hypervisor_vmid name)

  -- `create_snapshot`; the lock makes the list and the new snapshot one step.
  unfoldable pub create_snapshot : Option String → ℕ → String → User → Exec (World E) (Unit {0})
  create_snapshot node vmid name u = do
    vm ← on_db (get_vm_with_owner_check vmid u node)
    server ← on_db (server_of vm)
    call (p.connect server)
    catch (take_on vm server name) as_proxmox
