-- ===== src/Tests/OnJobs.antt =====
-- The queue on the small installation: one job waits and one was left running by a crash.
use gsm_sv.Prelude.{◌≤◌, [], ◌∷◌, ◌≡◌, refl, arith}
use gsm_sv.Table.{count_where}
use gsm_sv.Models.{JobId}
use gsm_sv.Platform.World.{World, job}
use gsm_sv.Queue.{has_job_id, recover_pending_jobs, enqueue_vm_creation}
use gsm_sv.Queue.Worker.{process_vm_creation_job, worker_loop}
use gsm_sv.Queue.Settle.{Settled, process-Settled}
use gsm_sv.Queue.Quota.{pending_load, process-load, EnqueuedBy, enqueue-EnqueuedBy}
use gsm_sv.Queue.Drain.{Drained, worker-Drained}
use gsm_sv.Queue.Restart.{AllOver, restart-AllOver}
use gsm_sv.Tests.{
  Lab, counting_gateway, lab_platform, settings, student, vm_request, tables, world, run_draws,
  first_id, waiting_job, crashed_job,
}

keyed : (id : JobId) → count_where (has_job_id id) (waiting_job ∷ crashed_job ∷ []) ≤ 1
keyed id = ground arith

process-Settled_example :
    Settled first_id run_draws
      (waiting_job ∷ crashed_job ∷ [])
      (process_vm_creation_job lab_platform counting_gateway settings run_draws first_id
        world).db.vm_creation_jobs
    × ((process_vm_creation_job lab_platform counting_gateway settings run_draws first_id
          world).queue
        ≡ [])
process-Settled_example =
    process-Settled lab_platform counting_gateway settings run_draws first_id world (keyed first_id)

process-load_example :
    pending_load
      (process_vm_creation_job lab_platform counting_gateway settings run_draws first_id world).db
      1
    ≤ pending_load tables 1
process-load_example =
    process-load lab_platform counting_gateway settings run_draws first_id world 1 (keyed first_id)

abbrev third_id : JobId
third_id = record { time_ns = 7; pid = 1; counter = 2 }

enqueue-EnqueuedBy_example :
    EnqueuedBy lab_platform counting_gateway settings student vm_request third_id 1000 world
      (enqueue_vm_creation settings student vm_request third_id 1000 world)
enqueue-EnqueuedBy_example =
    enqueue-EnqueuedBy lab_platform counting_gateway settings student vm_request third_id 1000 world

abbrev queued_world : World Lab
queued_world = record world { queue = job first_id ∷ [] }

worker-Drained_example :
    Drained lab_platform counting_gateway settings
      (first_id ∷ [])
      (worker_loop lab_platform counting_gateway settings (run_draws ∷ []) queued_world)
worker-Drained_example =
    worker-Drained lab_platform counting_gateway settings (run_draws ∷ []) (first_id ∷ [])
      queued_world keyed refl (omega arith)

restart-AllOver_example : AllOver lab_platform counting_gateway settings (
    worker_loop lab_platform counting_gateway settings
      (run_draws ∷ run_draws ∷ [])
      (recover_pending_jobs world))
restart-AllOver_example =
    restart-AllOver lab_platform counting_gateway settings (run_draws ∷ run_draws ∷ []) world keyed
      refl (omega arith)
