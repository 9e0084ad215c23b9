-- ===== src/Vm/Create.antt =====
-- `create_vm`, put together.
pub mod Restore
pub mod Outcome
pub mod Load
use gsm_sv.Prelude.{
  ℕ, ◌+◌, ◌==◌, Bool, true, false, Option, none, some, String, List, [], ◌∷◌, if◌then◌else◌,
}
use gsm_sv.Exec.{
  Exec, Exc, Result, ok, err, http_exception, pure, raise, http, gets, modify, ◌>>=◌, ◌>>◌, catch,
  vm_create_failed,
}
use gsm_sv.Table.{Table, insert, delete_where, set_where}
use gsm_sv.Models.{
  User, Server, Vm, VmPort, Notification, success, vm_created, Db, VmCreate, VmCreated, Text, Ip,
  Settings, Specs, get_clone_storages, VmOs, ubuntu2204, windows_server,
}
use gsm_sv.Network.{Gateway}
use gsm_sv.Platform.{Platform}
use gsm_sv.Platform.World.{World, call, on_db}
use gsm_sv.Monitor.{get_server_resource_usage, select_clone_storage}
use gsm_sv.Vm.Names.{generate_vm_name}
use gsm_sv.Vm.Request.{check_request, check_usage}
use gsm_sv.Vm.Select.{select_vmid}
use gsm_sv.Vm.Reserve.{NewVm, reserve}
use gsm_sv.Vm.Provision.{Job, start_clone, configure, boot, cleanup_failed_vm_resources}

-- What a run draws from outside: the clock, the name's suffix and the password.
pub record Draws : Type 0 where
  pub now : ℕ
  pub suffix : Text
  pub password : String

abbrev pub has_id : ℕ → Vm → Bool
has_id id vm = vm.id == id

abbrev pub of_vm : ℕ → VmPort → Bool
of_vm id port = port.vm_id == id

-- `_cleanup_vm_db_record`
abbrev pub cleanup_vm_db_record : ℕ → Db → Db
cleanup_vm_db_record id db = record db {
  vms = delete_where (has_id id) db.vms;
  vm_ports = delete_where (of_vm id) db.vm_ports;
}

abbrev pub notification : ℕ → Text → String → ℕ → ℕ → Notification
notification user_id name node now id = record {
  id = id;
  user_id = user_id;
  kind = success;
  message = vm_created name node;
  is_read = false;
  created_at = now;
}

-- Step 11: the VM is ready, and its owner is told.
abbrev pub finish_db : User → Job → ℕ → ℕ → Db → Db
finish_db u j id now db = record db {
  vms = set_where (has_id id) (λ vm. record vm { ready = true }) db.vms;
  notifications = insert (notification u.id j.name j.server.name now) db.notifications;
}

abbrev pub default_user : Settings → VmOs → String
default_user cfg windows_server = cfg.vm_default_user_windows
default_user cfg ubuntu2204 = cfg.vm_default_user

abbrev pub created : Settings → Job → VmCreated
created cfg j = record {
  assigned_node = j.server.name;
  vmid = j.vmid;
  name = j.name;
  tier = j.tier;
  internal_ip = j.ip;
  ssh_user = default_user cfg j.os;
  ssh_password = j.password;
}

-- What is raised after the clean-up: an HTTPException as it is, anything else as a 500.
abbrev pub as_http : Exc → Exc
as_http (http_exception code d) = http_exception code d
as_http other = http_exception 500 vm_create_failed

module _ {E : Type 0} (p : Platform E) (g : Gateway E) (cfg : Settings) where
  -- Step 1-2: `select_clone_storage`, where the node has candidates.
  abbrev pub storage_for : Server → Specs → List String → Exec E (Option String)
  storage_for server specs [] = pure none
  storage_for server specs (c ∷ cs) = do
    name ← select_clone_storage p server (c ∷ cs) specs.disk
    pure (some name)

  -- The two `except` clauses, with the flags as they stand where the exception is raised.
  abbrev pub give_up :
      {A : Type 0} → (clone_started iptables_added : Bool) → ℕ → Job → Exc → Exec (World E) A
  give_up clone_started iptables_added id j e w = (
    err (as_http e),
    record w {
      db = cleanup_vm_db_record id w.db;
      env = cleanup_failed_vm_resources p g cfg clone_started iptables_added j w.env;
    },
  )

  -- The `try` block of `create_vm`, in the three parts between which the flags change.
  unfoldable pub provision : User → ℕ → ℕ → Job → Exec (World E) VmCreated
  provision u now id j = do
    upid ← catch (call (start_clone p g cfg j)) (give_up false false id j)
    catch (call (configure p g cfg j upid)) (give_up true false id j)
    catch (call (boot p g cfg j)) (give_up true true id j)
    modify (λ w. record w { db = finish_db u j id now w.db })
    pure (created cfg j)

  -- Steps 0 to 1-2: the checks, the load of the node and the clone storage.
  unfoldable pub admit : User → VmCreate → Exec (World E) (Specs × Server × Option String)
  admit u req = do
    (specs, server) ← on_db (check_request cfg u req)
    let candidates = get_clone_storages cfg server.name
    usage ←
        λ w. let (r, e) = get_server_resource_usage p server w.env in (ok r, record w { env = e })
    check_usage candidates specs usage
    storage ← call (storage_for server specs candidates)
    pure (specs, server, storage)

  abbrev pub job_of : Draws → VmCreate → Specs × Server × Option String → ℕ → Text → Ip → Job
  job_of draws req (specs, server, storage) vmid name ip = record {
    server = server;
    vmid = vmid;
    name = name;
    ip = ip;
    os = req.os;
    tier = req.tier;
    specs = specs;
    storage = storage;
    password = draws.password;
  }

  abbrev pub new_vm : Draws → User → VmCreate → ℕ → NewVm
  new_vm draws u req vmid =
      let (name, display_name) = generate_vm_name u.email req.tier req.name draws.suffix in
      record {
        vmid = vmid;
        name = name;
        display_name = display_name;
        password = draws.password;
        purpose = req.purpose;
        now = draws.now;
      }

  -- Steps 3 and 4: the VMID, then the reservation. The key of the new record comes back too.
  unfoldable pub prepare :
      Draws → User → VmCreate → Specs × Server × Option String → Exec (World E) (ℕ × Job)
  prepare draws u req (specs, server, storage) = do
    call (p.connect server)
    db ← gets (λ (w : World E). w.db)
    vmid ← call (select_vmid p db server)
    (ip, id) ← on_db (reserve cfg u server specs (new_vm draws u req vmid))
    pure (id, job_of draws req (specs, server, storage) vmid (new_vm draws u req vmid).name ip)

  unfoldable pub create_vm : Draws → User → VmCreate → Exec (World E) VmCreated
  create_vm draws u req = do
    admitted ← admit u req
    (id, j) ← prepare draws u req admitted
    provision u draws.now id j
