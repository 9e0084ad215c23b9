-- ===== src/Vm/Request.antt =====
-- The checks of `create_vm` before anything is reserved: quota, tier, node and custom resources
-- (steps 0 and 1), and the load of the node (1-1).
pub mod Bounds
use gsm_sv.Prelude.{
  ℕ, Bool, true, false, not, ◌&&◌, ◌||◌, Option, none, some, String, str_eq, List, [], ◌∷◌, leb,
  ltb, if◌then◌else◌,
}
use gsm_sv.Exec.{
  Exec, Result, ok, err, Exc, http_exception, pure, raise, http, gets, or_raise, reject_if, ◌>>=◌,
  ◌>>◌, too_many_vms, project_tier_forbidden, project_node_forbidden, invalid_tier, cores_range,
  memory_range, disk_range, node_not_found, node_name_missing, node_overloaded, ram_short,
}
use gsm_sv.Table.{count_where, find_first}
use gsm_sv.Models.{
  UserRole, admin, project_owner, user, eq_role, eq_opt_nat, VmTier, project_custom, eq_tier, User,
  Server, Vm, Db, VmCreate, Settings, Specs, tier_specs, usage_threshold_tenths,
}
use gsm_sv.Monitor.{Usage}

abbrev pub owns : ℕ → Vm → Bool
owns user_id vm = eq_opt_nat vm.owner_id user_id

-- `db.query(Vm).filter(Vm.owner_id == …).count()`
abbrev pub vm_count : Db → ℕ → ℕ
vm_count db user_id = count_where (owns user_id) db.vms.rows

-- `role not in (ADMIN, PROJECT_OWNER)`
abbrev pub is_plain : UserRole → Bool
is_plain role = not (eq_role role admin || eq_role role project_owner)

abbrev pub names_node : Option String → String → Bool
names_node none node = false
names_node (some name) node = str_eq name node

-- `lo <= value <= hi`
abbrev pub in_range : ℕ → ℕ → ℕ → Bool
in_range lo hi value = leb lo value && leb value hi

abbrev pub custom_value : Option ℕ → ℕ → ℕ
custom_value none default = default
custom_value (some v) default = v

abbrev pub custom_ok : ℕ → ℕ → Option ℕ → Bool
custom_ok lo hi none = true
custom_ok lo hi (some v) = in_range lo hi v

-- The custom resources of a project_custom VM, against the tier's upper limits.
unfoldable pub customize : VmCreate → Specs → Exec Db Specs
customize req specs = do
  reject_if (not (custom_ok 2 specs.cores req.custom_cores)) 400 cores_range
  reject_if (not (custom_ok 2048 specs.memory req.custom_memory)) 400 memory_range
  reject_if (not (custom_ok 20 specs.disk req.custom_disk)) 400 disk_range
  pure (record {
    memory = custom_value req.custom_memory specs.memory;
    cores = custom_value req.custom_cores specs.cores;
    disk = custom_value req.custom_disk specs.disk;
  })

-- `Server.name == node_name, Server.is_active == True`
abbrev pub active_named : String → Server → Bool
active_named name server = str_eq server.name name && server.is_active

unfoldable pub choose_server : Option String → Exec Db Server
choose_server none = http 400 node_name_missing
choose_server (some name) = if str_eq name "" then http 400 node_name_missing else do
  servers ← gets (λ (db : Db). db.servers.rows)
  or_raise (find_first (active_named name) servers) (http_exception 404 node_not_found)

-- Steps 0 and 1 of `create_vm`.
unfoldable pub check_request : Settings → User → VmCreate → Exec Db (Specs × Server)
check_request cfg current_user req = do
  owned ← gets (λ (db : Db). vm_count db current_user.id)
  reject_if (eq_role current_user.role user && leb cfg.max_vms_per_user owned) 409 too_many_vms
  reject_if (eq_tier req.tier project_custom && is_plain current_user.role) 403
      project_tier_forbidden
  reject_if (eq_role current_user.role user && names_node req.node_name cfg.project_node_name) 403
      project_node_forbidden
  base ← or_raise (tier_specs req.tier) (http_exception 400 invalid_tier)
  specs ← if eq_tier req.tier project_custom then customize req base else pure base
  server ← choose_server req.node_name
  pure (specs, server)

abbrev pub disk_full : List String → Option ℕ → Bool
disk_full (s ∷ ss) tenths = false
disk_full [] none = false
disk_full [] (some tenths) = leb usage_threshold_tenths tenths

-- Step 1-1 on the usage of the node. `err` of the query is logged, and the check left out, unless it
-- is an HTTPException.
unfoldable pub check_usage : {S : Type 0} → List String → Specs → Result Usage → Exec S (Unit {0})
check_usage clone_storages specs (ok usage) = do
  reject_if
      (leb usage_threshold_tenths usage.ram_tenths
        || leb usage_threshold_tenths usage.cpu_tenths
        || disk_full clone_storages usage.disk_tenths)
      507 node_overloaded
  reject_if (ltb usage.free_ram_mb specs.memory) 507 ram_short
check_usage clone_storages specs (err (http_exception code detail)) = http code detail
check_usage clone_storages specs (err other) = pure tt
