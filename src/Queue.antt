-- ===== src/Queue.antt =====
-- services/vm_creation_queue.py: the jobs that create VMs, the in-process queue of their ids, and
-- the requests that fill it.
pub mod Worker
pub mod Settle
pub mod Quota
pub mod Drain
pub mod Restart
use gsm_sv.Prelude.{
  ℕ, suc, ◌+◌, ◌==◌, Bool, true, false, not, ◌&&◌, ◌||◌, Option, none, some, String, List, [], ◌∷◌,
  ◌++◌, ltb, leb, if◌then◌else◌,
}
use gsm_sv.Exec.{
  Exec, Result, ok, err, http_exception, pure, http, gets, modify, or_raise, reject_if, ◌>>=◌, ◌>>◌,
  node_name_missing, project_node_forbidden, project_tier_forbidden, too_many_vms, node_not_found,
  job_not_found,
}
use gsm_sv.Table.{find_first, select, count_where, update_where}
use gsm_sv.Models.{
  admin, user, eq_role, project_custom, eq_tier, JobStatus, queued, running, completed, failed,
  eq_status, User, Server, VmCreate, VmCreationJob, JobId, Db, Settings, eq_opt_text,
}
use gsm_sv.Platform.World.{World, QueueItem, job, on_db}
use gsm_sv.Vm.Request.{vm_count, active_named}
use gsm_sv.Network.Manage.{has_text}

abbrev pub eq_job_id : JobId → JobId → Bool
eq_job_id x y = x.time_ns == y.time_ns && x.pid == y.pid && x.counter == y.counter

-- The order of the ids as texts: their parts have leading zeros.
abbrev pub le_job_id : JobId → JobId → Bool
le_job_id x y =
    ltb x.time_ns y.time_ns
    || (x.time_ns == y.time_ns && (ltb x.pid y.pid || (x.pid == y.pid && leb x.counter y.counter)))

abbrev pub has_job_id : JobId → VmCreationJob → Bool
has_job_id id j = eq_job_id j.id id

abbrev pub is_pending : VmCreationJob → Bool
is_pending j = eq_status j.status queued || eq_status j.status running

-- The order of the queue: by `queued_at`, then by id.
abbrev pub not_after : VmCreationJob → VmCreationJob → Bool
not_after x y = ltb x.queued_at y.queued_at || (x.queued_at == y.queued_at && le_job_id x.id y.id)

-- `_get_queue_position`
abbrev pub queue_position : List VmCreationJob → VmCreationJob → Option ℕ
queue_position jobs j =
    if eq_status j.status queued
    then some (count_where (λ x. eq_status x.status queued && not_after x j) jobs)
    else none

-- `order_by(queued_at.asc(), id.asc())`
abbrev pub insert_job : VmCreationJob → List VmCreationJob → List VmCreationJob
insert_job x [] = x ∷ []
insert_job x (y ∷ ys) = let rest = insert_job x ys in if not_after x y then x ∷ y ∷ ys else y ∷ rest

abbrev pub sort_jobs : List VmCreationJob → List VmCreationJob
sort_jobs [] = []
sort_jobs (x ∷ xs) = insert_job x (sort_jobs xs)

-- A running job goes back to the queue.
abbrev pub requeue : VmCreationJob → VmCreationJob
requeue j = record j { status = queued; started_at = none; attempts = suc j.attempts }

abbrev pub put_ids : List VmCreationJob → List QueueItem → List QueueItem
put_ids [] q = q
put_ids (j ∷ js) q = put_ids js (q ++ job j.id ∷ [])

-- `_recover_pending_jobs`
unfoldable pub recover_pending_jobs : {E : Type 0} → World E → World E
recover_pending_jobs w = record w {
  db = record w.db {
    vm_creation_jobs = update_where (λ j. eq_status j.status running) requeue w.db.vm_creation_jobs;
  };
  queue = put_ids (sort_jobs (select is_pending w.db.vm_creation_jobs)) w.queue;
}

-- The queued and running jobs of a user.
abbrev pub active_jobs : List VmCreationJob → ℕ → ℕ
active_jobs jobs uid = count_where (λ j. (j.user_id == uid) && is_pending j) jobs

-- `validate_vm_creation_request`
unfoldable pub validate_vm_creation_request : Settings → User → VmCreate → Exec Db Server
validate_vm_creation_request cfg u req = do
  reject_if (not (has_text req.node_name)) 400 node_name_missing
  reject_if (eq_role u.role user && eq_opt_text req.node_name cfg.project_node_name) 403
      project_node_forbidden
  reject_if (eq_tier req.tier project_custom && eq_role u.role user) 403 project_tier_forbidden
  db ← gets (λ (db : Db). db)
  reject_if
      (eq_role u.role user
        && leb cfg.max_vms_per_user (vm_count db u.id + active_jobs db.vm_creation_jobs u.id))
      409 too_many_vms
  or_raise
      (find_first (λ (s : Server). eq_opt_text req.node_name s.name && s.is_active) db.servers.rows)
      (http_exception 404 node_not_found)

abbrev pub new_job : User → VmCreate → JobId → ℕ → VmCreationJob
new_job u req id now = record {
  id = id;
  user_id = u.id;
  status = queued;
  node_name = req.node_name;
  requested_name = req.name;
  queued_at = now;
  started_at = none;
  finished_at = none;
  vmid = none;
  attempts = 0;
  payload = req;
  result = none;
  error_message = none;
}

-- `enqueue_vm_creation`: the job, with its position. The id is that of `_next_job_id`, the time is
-- the database's default for `queued_at`.
unfoldable pub enqueue_vm_creation :
    {E : Type 0}
    → Settings
    → User
    → VmCreate
    → JobId
    → ℕ
    → Exec (World E) (VmCreationJob × Option ℕ)
enqueue_vm_creation {E} cfg u req id now = do
  on_db (validate_vm_creation_request cfg u req)
  let j = new_job u req id now
  modify (λ (w : World E). record w {
    db = record w.db { vm_creation_jobs = w.db.vm_creation_jobs ++ j ∷ [] };
    queue = w.queue ++ job id ∷ [];
  })
  jobs ← gets (λ (w : World E). w.db.vm_creation_jobs)
  pure (j, queue_position jobs j)

-- `get_vm_creation_job`
unfoldable pub get_vm_creation_job : User → JobId → Exec Db (VmCreationJob × Option ℕ)
get_vm_creation_job u id = do
  jobs ← gets (λ (db : Db). db.vm_creation_jobs)
  j ← or_raise (find_first (has_job_id id) jobs) (http_exception 404 job_not_found)
  reject_if (not (eq_role u.role admin) && not (j.user_id == u.id)) 404 job_not_found
  pure (j, queue_position jobs j)
