-- ===== src/Queue/Restart.antt =====
-- A restart of the worker: the recovered jobs, and what the worker makes of them.
use gsm_sv.Prelude.{
  suc, ◌≤◌, true, false, Bool-cases, inl, inr, ◌⊎◌, List, [], ◌∷◌, ◌++◌, ◌≡◌, ◌∙◌, refl, arith,
  subst, sym, ap, if◌then◌else◌, length, All, append_assoc, append-nil,
}
use gsm_sv.Table.{count_where, select, update_where}
use gsm_sv.Table.Laws.{count_where-update_where}
use gsm_sv.Models.{
  queued, running, completed, failed, JobStatus, eq_status, VmCreationJob, JobId, Settings,
}
use gsm_sv.Network.{Gateway}
use gsm_sv.Platform.{Platform}
use gsm_sv.Platform.World.{World, QueueItem, job}
use gsm_sv.Queue.{
  has_job_id, is_pending, not_after, insert_job, sort_jobs, requeue, put_ids, recover_pending_jobs,
}
use gsm_sv.Queue.Worker.{RunDraws, is_claimable, process_vm_creation_job, take_item, worker_loop}
use gsm_sv.Queue.Settle.{IsOver, SettledRow, Settled, process-Settled}
use gsm_sv.Queue.Drain.{as_queue, IsKeyed, process-IsKeyed}

abbrev IsIn : JobId → List JobId → Type 0
IsIn id [] = ⊥
IsIn id (x ∷ xs) = (id ≡ x) ⊎ IsIn id xs

-- The job is over, or it is queued and its id waits.
abbrev IsCovered : List JobId → VmCreationJob → Type 0
IsCovered ids j = IsOver j.status ⊎ ((j.status ≡ queued) × IsIn j.id ids)

claimable_of : (j : VmCreationJob) → j.status ≡ queued → is_claimable j.id j ≡ true
claimable_of j h = rw h (ground arith)

module _ (id : JobId) (draws : RunDraws) (ids : List JobId) where
  row-IsCovered :
      (j j' : VmCreationJob) → SettledRow id draws j j' → IsCovered (id ∷ ids) j → IsCovered ids j'
  row-IsCovered j j' (inr (c, r)) h = inl r.over
  row-IsCovered j j' (inl (c, e)) (inl o) = rw e (inl o)
  row-IsCovered j j' (inl (c, e)) (inr (q, inr m)) = rw e (inr (q, m))
  row-IsCovered j j' (inl (c, e)) (inr (q, inl t)) =
      absurd (cc (subst (λ i. is_claimable i j ≡ true) t (claimable_of j q), c))

  Settled-IsCovered :
      (js js' : List VmCreationJob)
      → Settled id draws js js'
      → All (IsCovered (id ∷ ids)) js
      → All (IsCovered ids) js'
  Settled-IsCovered [] [] s h = tt
  Settled-IsCovered (j ∷ js) [] s h = absurd s
  Settled-IsCovered [] (j' ∷ js') s h = absurd s
  Settled-IsCovered (j ∷ js) (j' ∷ js') (r, s) (h, hs) =
      (row-IsCovered j j' r h, Settled-IsCovered js js' s hs)

IsOver-of_covered :
    (js : List VmCreationJob) → All (IsCovered []) js → All (λ j. IsOver j.status) js
IsOver-of_covered [] h = tt
IsOver-of_covered (j ∷ js) (inl o, hs) = (o, IsOver-of_covered js hs)
IsOver-of_covered (j ∷ js) (inr (q, m), hs) = absurd m

abbrev ids_of : List VmCreationJob → List JobId
ids_of [] = []
ids_of (j ∷ js) = j.id ∷ ids_of js

put_ids_queue :
    (js : List VmCreationJob) (q : List QueueItem) → put_ids js q ≡ q ++ as_queue (ids_of js)
put_ids_queue [] q = sym (append-nil q)
put_ids_queue (j ∷ js) q =
    put_ids_queue js (q ++ job j.id ∷ []) ∙ append_assoc q (job j.id ∷ []) (as_queue (ids_of js))

insert_job-length :
    (x : VmCreationJob) (ys : List VmCreationJob)
    → length (ids_of (insert_job x ys)) ≡ suc (length (ids_of ys))
insert_job-length x [] = refl
insert_job-length x (y ∷ ys) = ground (arith, insert_job-length x ys)

sort_jobs-length : (js : List VmCreationJob) → length (ids_of (sort_jobs js)) ≡ length (ids_of js)
sort_jobs-length [] = refl
sort_jobs-length (j ∷ js) = insert_job-length j (sort_jobs js) ∙ ap suc (sort_jobs-length js)

select-length :
    (js : List VmCreationJob) → length (ids_of (select is_pending js)) ≡ count_where is_pending js
select-length [] = refl
select-length (j ∷ js) = ground (arith, select-length js)

insert_job-here :
    (x : VmCreationJob) (ys : List VmCreationJob) → IsIn x.id (ids_of (insert_job x ys))
insert_job-here x [] = inl refl
insert_job-here x (y ∷ ys) = elim (Bool-cases (not_after x y)) [
  | inl e ↦ rw e (inl refl)
  | inr e ↦ rw e (inr (insert_job-here x ys))
]

insert_job-there :
    (id : JobId) (x : VmCreationJob) (ys : List VmCreationJob)
    → IsIn id (ids_of ys)
    → IsIn id (ids_of (insert_job x ys))
insert_job-there id x [] h = absurd h
insert_job-there id x (y ∷ ys) (inl h) = elim (Bool-cases (not_after x y)) [
  | inl e ↦ rw e (inr (inl h))
  | inr e ↦ rw e (inl h)
]
insert_job-there id x (y ∷ ys) (inr h) = elim (Bool-cases (not_after x y)) [
  | inl e ↦ rw e (inr (inr h))
  | inr e ↦ rw e (inr (insert_job-there id x ys h))
]

sort_jobs-IsIn :
    (id : JobId) (js : List VmCreationJob) → IsIn id (ids_of js) → IsIn id (ids_of (sort_jobs js))
sort_jobs-IsIn id [] h = absurd h
sort_jobs-IsIn id (j ∷ js) (inl h) =
    subst (λ i. IsIn i (ids_of (insert_job j (sort_jobs js)))) (sym h)
      (insert_job-here j (sort_jobs js))
sort_jobs-IsIn id (j ∷ js) (inr h) = insert_job-there id j (sort_jobs js) (sort_jobs-IsIn id js h)

requeued : VmCreationJob → VmCreationJob
requeued j = if eq_status j.status running then requeue j else j

recovered_row :
    (ids : List JobId) (j : VmCreationJob)
    → is_pending j ≡ true
    → IsIn j.id ids
    → IsCovered ids (requeued j)
unfolding requeued
recovered_row ids j h m = go j.status refl
  where
    go :
        (s : JobStatus)
        → j.status ≡ s
        → IsCovered ids (if eq_status j.status running then requeue j else j)
    go queued e = rw e (inr (refl, m))
    go running e = rw e (inr (refl, m))
    go completed e = absurd (cc (rw e at h))
    go failed e = absurd (cc (rw e at h))

over_row :
    (ids : List JobId) (j : VmCreationJob) → is_pending j ≡ false → IsCovered ids (requeued j)
unfolding requeued
over_row ids j h = go j.status refl
  where
    go :
        (s : JobStatus)
        → j.status ≡ s
        → IsCovered ids (if eq_status j.status running then requeue j else j)
    go queued e = absurd (cc (rw e at h))
    go running e = absurd (cc (rw e at h))
    go completed e = rw e (inl (inl refl))
    go failed e = rw e (inl (inr refl))

-- Every job that is not over is queued after the recovery, and its id is among those put.
recovered-IsCovered :
    (ids : List JobId) (js : List VmCreationJob)
    → ((i : JobId) → IsIn i (ids_of (select is_pending js)) → IsIn i ids)
    → All (IsCovered ids) (update_where (λ j. eq_status j.status running) requeue js)
unfolding requeued
recovered-IsCovered ids [] f = tt
recovered-IsCovered ids (j ∷ js) f = elim (Bool-cases (is_pending j)) [
  | inl e ↦ (
    recovered_row ids j e (f j.id (rw e (inl refl))),
    recovered-IsCovered ids js (λ i m. f i (rw e (inr m))),
  )
  | inr e ↦ (over_row ids j e, recovered-IsCovered ids js (λ i m. f i (rw e m)))
]

module _ {E : Type 0} (p : Platform E) (g : Gateway E) (cfg : Settings) where
  abbrev pub AllOver : World E → Type 0
  AllOver w = (w.queue ≡ []) × All (λ (j : VmCreationJob). IsOver j.status) w.db.vm_creation_jobs

  worker-AllOver :
      (draws : List RunDraws) (ids : List JobId) (w : World E)
      → IsKeyed p g cfg w
      → w.queue ≡ as_queue ids
      → All (IsCovered ids) w.db.vm_creation_jobs
      → length ids ≤ length draws
      → AllOver (worker_loop p g cfg draws w)
  unfolding worker_loop
  worker-AllOver [] [] w k q c le = (q, IsOver-of_covered w.db.vm_creation_jobs c)
  worker-AllOver [] (id ∷ ids) w k q c le = absurd (omega (arith, le))
  worker-AllOver (d ∷ ds) [] w k q c le =
      subst (λ x. AllOver (take_item p g cfg d (worker_loop p g cfg ds) x w)) (sym q)
        (worker-AllOver ds [] w k q c (omega arith))
  worker-AllOver (d ∷ ds) (id ∷ ids) w k q c le =
      subst (λ x. AllOver (take_item p g cfg d (worker_loop p g cfg ds) x w)) (sym q)
        (worker-AllOver ds ids (process_vm_creation_job p g cfg d id popped)
          (process-IsKeyed p g cfg d id popped k) settled.1
          (Settled-IsCovered id d ids w.db.vm_creation_jobs
            (process_vm_creation_job p g cfg d id popped).db.vm_creation_jobs settled.0 c)
          (omega arith))
    where
      popped : World E
      popped = record w { queue = as_queue ids }

      settled :
          Settled id d w.db.vm_creation_jobs
            (process_vm_creation_job p g cfg d id popped).db.vm_creation_jobs
          × ((process_vm_creation_job p g cfg d id popped).queue ≡ popped.queue)
      settled = process-Settled p g cfg d id popped (k id)

  -- `start_vm_creation_worker` with an empty queue and a table whose ids are unique: the recovery and
  -- then as many rounds of the worker as there were queued and running jobs leave the queue empty
  -- and every job of the table completed or failed, jobs that a crash left running included.
  pub restart-AllOver :
      (draws : List RunDraws) (w : World E)
      → IsKeyed p g cfg w
      → w.queue ≡ []
      → count_where is_pending w.db.vm_creation_jobs ≤ length draws
      → AllOver (worker_loop p g cfg draws (recover_pending_jobs w))
  unfolding recover_pending_jobs
  restart-AllOver draws w k q le =
      worker-AllOver draws ids (recover_pending_jobs w) keyed
        (put_ids_queue (sort_jobs (select is_pending w.db.vm_creation_jobs)) w.queue ∙ rw q refl)
        (recovered-IsCovered ids w.db.vm_creation_jobs
          (λ i m. sort_jobs-IsIn i (select is_pending w.db.vm_creation_jobs) m))
        (omega (
          arith,
          sort_jobs-length (select is_pending w.db.vm_creation_jobs),
          select-length w.db.vm_creation_jobs,
          le,
        ))
    where
      ids : List JobId
      ids = ids_of (sort_jobs (select is_pending w.db.vm_creation_jobs))

      keyed : IsKeyed p g cfg (recover_pending_jobs w)
      keyed i =
          rw
            (count_where-update_where (λ j. eq_status j.status running) (has_job_id i) requeue
              (λ j. refl) w.db.vm_creation_jobs)
            (k i)
