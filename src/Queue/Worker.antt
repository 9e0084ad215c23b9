-- ===== src/Queue/Worker.antt =====
-- The worker of services/vm_creation_queue.py. A commit of the job's session that fails is left out.
use gsm_sv.Prelude.{
  ℕ, suc, ◌==◌, Bool, ◌&&◌, Option, none, some, List, [], ◌∷◌, if◌then◌else◌, str_eq,
}
use gsm_sv.Exec.{Exc, Result, ok, err, http_exception, runtime_error}
use gsm_sv.Table.{find_first, count_where, update_where}
use gsm_sv.Models.{
  queued, running, completed, failed, eq_status, User, VmCreated, VmCreationJob, JobError, detail,
  generic, JobId, Db, Settings,
}
use gsm_sv.Network.{Gateway}
use gsm_sv.Platform.{Platform}
use gsm_sv.Platform.World.{World, QueueItem, job, stop}
use gsm_sv.Vm.Create.{Draws, create_vm}
use gsm_sv.Queue.{eq_job_id, has_job_id}

-- The clock where a job is claimed and where it ends, and what its creation draws.
pub record RunDraws : Type 0 where
  pub claimed_at : ℕ
  pub finished_at : ℕ
  pub creation : Draws

abbrev pub is_claimable : JobId → VmCreationJob → Bool
is_claimable id j = eq_job_id j.id id && eq_status j.status queued

abbrev pub claim : ℕ → VmCreationJob → VmCreationJob
claim now j = record j { status = running; started_at = some now; attempts = suc j.attempts }

abbrev pub complete_as_made : ℕ → VmCreationJob → VmCreationJob
complete_as_made now j = record j { status = completed; finished_at = some now }

abbrev pub complete : ℕ → VmCreated → VmCreationJob → VmCreationJob
complete now r j = record j {
  status = completed;
  finished_at = some now;
  vmid = some r.vmid;
  node_name = if str_eq r.assigned_node "" then j.node_name else some r.assigned_node;
  result = some r;
  error_message = none;
}

abbrev pub job_error : Exc → JobError
job_error (http_exception code d) = detail d
job_error other = generic

abbrev pub fail : ℕ → Exc → VmCreationJob → VmCreationJob
fail now x j = record j {
  status = failed;
  finished_at = some now;
  error_message = some (job_error x);
}

module _ {E : Type 0} (p : Platform E) (g : Gateway E) (cfg : Settings) where
  -- Assignments to the fields of the job `id`, and the commit.
  abbrev pub set_job : JobId → (VmCreationJob → VmCreationJob) → World E → World E
  set_job id f w = record w {
    db = record w.db { vm_creation_jobs = update_where (has_job_id id) f w.db.vm_creation_jobs };
  }

  abbrev pub settle : JobId → ℕ → Result VmCreated × World E → World E
  settle id now (ok r, w) = set_job id (complete now r) w
  settle id now (err x, w) = set_job id (fail now x) w

  abbrev pub find_user : ℕ → Db → Option User
  find_user uid db = find_first (λ (u : User). u.id == uid) db.users.rows

  -- The creation itself, in the session `work_db`.
  abbrev pub create_for : Draws → VmCreationJob → Option User → World E → Result VmCreated × World E
  create_for draws j none w = (err runtime_error, w)
  create_for draws j (some u) w = create_vm p g cfg draws u j.payload w

  unfoldable pub run_claimed : RunDraws → JobId → Option VmCreationJob → World E → World E
  run_claimed draws id none w = w
  run_claimed draws id (some j) w = elim j.vmid [
    | some vmid ↦ set_job id (complete_as_made draws.finished_at) w
    | none ↦ settle id draws.finished_at (create_for draws.creation j (find_user j.user_id w.db) w)
  ]

  abbrev pub claimed : RunDraws → JobId → World E → World E
  claimed draws id w = record w {
    db = record w.db {
      vm_creation_jobs =
          update_where (is_claimable id) (claim draws.claimed_at) w.db.vm_creation_jobs;
    };
  }

  -- `process_vm_creation_job`
  unfoldable pub process_vm_creation_job : RunDraws → JobId → World E → World E
  process_vm_creation_job draws id w =
      if count_where (is_claimable id) w.db.vm_creation_jobs == 0
      then w
      else run_claimed draws id
          (find_first (has_job_id id) (claimed draws id w).db.vm_creation_jobs) (claimed draws id w)

  -- One round of `_worker_loop`, on the queue as it is; the stop mark ends the loop.
  abbrev pub take_item : RunDraws → (World E → World E) → List QueueItem → World E → World E
  take_item draws next [] w = next w
  take_item draws next (stop ∷ items) w = record w { queue = items }
  take_item draws next (job id ∷ items) w =
      next (process_vm_creation_job draws id (record w { queue = items }))

  -- `_worker_loop`: it takes ids from the queue until the stop mark, waiting where there is none.
  -- One round for each set of draws.
  unfoldable pub worker_loop : List RunDraws → World E → World E
  worker_loop [] w = w
  worker_loop (draws ∷ rest) w = take_item draws (worker_loop rest) w.queue w
