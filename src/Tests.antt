-- ===== src/Tests.antt =====
-- A small installation on which the development is run: one node, one gateway that counts its rules,
-- a clock, two accounts and a job.
pub mod OnGateway
pub mod OnVms
pub mod OnJobs
pub mod OnAccounts
pub mod OnOwners
pub mod OnRoutes
pub mod OnTasks
pub mod OnInbox
pub mod OnSignIn
pub mod OnSnapshots
pub mod OnRequests
use gsm_sv.Prelude.{
  ℕ, zero, suc, ◌+◌, ◌-◌, ◌==◌, Bool, true, false, Option, none, some, String, List, [], ◌∷◌,
  if◌then◌else◌,
}
use gsm_sv.Exec.{Result, ok, err}
use gsm_sv.Table.{Table}
use gsm_sv.Models.{
  UserRole, admin, project_owner, user, User, Student, Server, Vm, VmPort, Ip, Db, Settings,
  VmCreate, standard, ubuntu2204, VmCreationJob, JobId, queued, running, EmailVerification,
  signup_user, tcp,
}
use gsm_sv.Network.{
  Gateway, Rule, eq_rule, Command, check, append, check_or_append, remove_all, check_and_remove,
}
use gsm_sv.Platform.{
  Platform, CloneParams, TaskStatus, VmConfig, Storage, NodeStatus, StatusReply, status_is,
  VmAction,
}
use gsm_sv.Platform.World.{World, QueueItem, job}
use gsm_sv.Vm.Create.{Draws}
use gsm_sv.Queue.Worker.{RunDraws}
use gsm_sv.Auth.{Services, Claims, access}
use gsm_sv.Auth.Signup.{CodeDraws}

-- How often each rule stands, and the time.
pub record Lab : Type 0 where
  pub standing : Rule → ℕ
  pub clock : ℕ

abbrev pub empty_lab : Lab
empty_lab = record { standing = λ q. 0; clock = 0 }

abbrev pub plus_one : Rule → (Rule → ℕ) → Rule → ℕ
plus_one r f q = if eq_rule q r then suc (f q) else f q

abbrev pub minus_one : Rule → (Rule → ℕ) → Rule → ℕ
minus_one r f q = if eq_rule q r then f q - 1 else f q

abbrev pub none_of : Rule → (Rule → ℕ) → Rule → ℕ
none_of r f q = if eq_rule q r then 0 else f q

abbrev pub is_there : ℕ → ℕ
is_there zero = 1
is_there (suc n) = 0

abbrev pub run : Command → Lab → Result ℕ × Lab
run (check r) e = (ok (is_there (e.standing r)), e)
run (append r) e = (ok 0, record e { standing = plus_one r e.standing })
run (check_or_append r) e = (
  ok 0,
  if is_there (e.standing r) == 0 then e else record e { standing = plus_one r e.standing },
)
run (remove_all r) e = (ok 0, record e { standing = none_of r e.standing })
run (check_and_remove r) e =
    (ok (is_there (e.standing r)), record e { standing = minus_one r e.standing })

abbrev pub counting_gateway : Gateway Lab
counting_gateway = record { connect = λ s e. (ok tt, e); exec = run }

abbrev pub lab_platform : Platform Lab
lab_platform = record {
  connect = λ s e. (ok tt, e);
  nextid = λ asked e. (ok 101, e);
  qemu_ids = λ node e. (ok [], e);
  node_status = λ node e.
      (ok (record { memory_total = 68719476736; memory_used = 1073741824; cpu_tenths = 50 }), e);
  storages = λ node e. (ok [], e);
  clone = λ node template params e. (ok 7, e);
  task_status = λ node upid e. (ok (record { stopped = true; exit_ok = true }), e);
  config_lock = λ node vmid e. (ok false, e);
  config_put = λ node vmid config e. (ok tt, e);
  resize_put = λ node vmid disk e. (ok tt, e);
  status_current = λ node vmid e. (status_is false, e);
  power = λ action node vmid e. (ok tt, e);
  delete_vm = λ node vmid purge e. (ok tt, e);
  upload_snippet = λ server vmid password e. (ok tt, e);
  delete_snippet = λ server vmid e. (ok tt, e);
  time = λ e. e.clock;
  sleep = λ d e. record e { clock = e.clock + d };
}

abbrev pub settings : Settings
settings = record {
  max_vms_per_user = 2;
  project_node_name = "project";
  template_vmid = 9000;
  template_vmid_windows = 9001;
  vm_default_user = "ubuntu";
  vm_default_user_windows = "Administrator";
  verification_code_expire_minutes = 5;
  internal_subnet = record { a = 10; b = 0; c = 0; d = 0 };
  internal_ip_start = 10;
  internal_ip_end = 12;
  gateway_public_ip = record { a = 203; b = 0; c = 113; d = 7 };
  max_https_routes_per_vm = 3;
  nodes = [];
}

abbrev pub node : Server
node = record {
  id = 1;
  name = "node1";
  is_active = true;
  ssh_user = some "root";
  gateway_ip = some (record { a = 10; b = 0; c = 0; d = 1 });
  gateway_user = some "root";
  base_port = 21000;
  last_free_ram_mb = 60000;
}

abbrev pub nobody : Student
nobody = record { name = none; grade = none; class_num = none; number = none; major = none }

abbrev pub student : User
student = record {
  id = 1;
  email = "s24001@gsm.hs.kr";
  hashed_password = some "hash";
  role = user;
  is_active = true;
  oauth_provider = none;
  oauth_sub = none;
  student = nobody;
  avatar_url = none;
  project_name = none;
  project_reason = none;
}

abbrev pub owner : User
owner = record student {
  id = 2;
  email = "s24002@gsm.hs.kr";
  role = project_owner;
  is_active = false;
}

abbrev pub old_vm : Vm
old_vm = record {
  id = 1;
  hypervisor_vmid = 100;
  name = [];
  display_name = [];
  server_id = 1;
  owner_id = some 1;
  allocated_ram_mb = 4096;
  allocated_cores = 2;
  internal_ip = some (record { a = 10; b = 0; c = 0; d = 10 });
  vm_password = none;
  created_at = 0;
  expires_at = some 700000;
  auto_snapshot = false;
  purpose = none;
  ready = true;
}

abbrev pub old_port : VmPort
old_port = record {
  id = 1;
  vm_id = 1;
  internal_port = 3000;
  external_port = 30001;
  protocol = tcp;
  source = none;
  description = none;
  is_default = false;
}

abbrev pub signup_record : EmailVerification
signup_record = record {
  id = 1;
  email = "s24003@gsm.hs.kr";
  hashed_password = "hash";
  code = "123456";
  student_info = some nobody;
  signup_role = signup_user;
  project_name = none;
  project_reason = none;
  created_at = 1000;
  expires_at = 1300;
  verified = false;
  attempts = 0;
}

abbrev pub vm_request : VmCreate
vm_request = record {
  tier = standard;
  os = ubuntu2204;
  node_name = some "node1";
  name = none;
  purpose = "a server";
  custom_cores = none;
  custom_memory = none;
  custom_disk = none;
}

abbrev pub first_id : JobId
first_id = record { time_ns = 5; pid = 1; counter = 0 }

abbrev pub second_id : JobId
second_id = record { time_ns = 6; pid = 1; counter = 1 }

abbrev pub waiting_job : VmCreationJob
waiting_job = record {
  id = first_id;
  user_id = 1;
  status = queued;
  node_name = some "node1";
  requested_name = none;
  queued_at = 5;
  started_at = none;
  finished_at = none;
  vmid = none;
  attempts = 0;
  payload = vm_request;
  result = none;
  error_message = none;
}

-- A job that a crash left running.
abbrev pub crashed_job : VmCreationJob
crashed_job = record waiting_job {
  id = second_id;
  user_id = 9;
  status = running;
  queued_at = 4;
  attempts = 1;
}

abbrev pub tables : Db
tables = record {
  users = record { rows = student ∷ owner ∷ []; next_id = 3 };
  servers = record { rows = node ∷ []; next_id = 2 };
  vms = record { rows = old_vm ∷ []; next_id = 2 };
  vm_ports = record { rows = old_port ∷ []; next_id = 2 };
  https_routes = record { rows = []; next_id = 1 };
  email_verifications = record { rows = signup_record ∷ []; next_id = 2 };
  notifications = record { rows = []; next_id = 1 };
  faq_questions = record { rows = []; next_id = 1 };
  vm_creation_jobs = waiting_job ∷ crashed_job ∷ [];
}

abbrev pub world : World Lab
world = record { db = tables; queue = []; env = empty_lab }

abbrev pub draws : Draws
draws = record { now = 1000; suffix = []; password = "secret" }

abbrev pub run_draws : RunDraws
run_draws = record { claimed_at = 1000; finished_at = 1100; creation = draws }

abbrev pub code_draws : CodeDraws
code_draws = record { code = "654321"; now = 2000 }

abbrev pub services : Services
services = record {
  utf8_length = λ s. 8;
  bcrypt_hash = λ s. "hash";
  bcrypt_check = λ plain hashed. ok true;
  decode = λ t. some (record { kind = access; sub = some 1 });
  strip = λ s. s;
  lookup_student = λ e. ok (some nobody);
  lookup_projects = λ e. "gsm" ∷ [];
  send_mail = λ e c. true;
}

abbrev pub no_network : String → Bool
no_network s = false
