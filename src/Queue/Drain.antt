-- ===== src/Queue/Drain.antt =====
-- The worker loop over the ids of the queue.
use gsm_sv.Prelude.{
  ◌≤◌, false, inl, inr, ◌⊎◌, List, [], ◌∷◌, ◌≡◌, refl, arith, subst, sym, length, All,
}
use gsm_sv.Table.{count_where}
use gsm_sv.Models.{VmCreationJob, JobId, Settings}
use gsm_sv.Network.{Gateway}
use gsm_sv.Platform.{Platform}
use gsm_sv.Platform.World.{World, QueueItem, job}
use gsm_sv.Queue.{has_job_id}
use gsm_sv.Queue.Worker.{RunDraws, is_claimable, process_vm_creation_job, take_item, worker_loop}
use gsm_sv.Queue.Settle.{IsOver, SettledRow, Settled, process-Settled}

over_not_claimable : (i : JobId) (j : VmCreationJob) → IsOver j.status → is_claimable i j ≡ false
over_not_claimable i j (inl h) = rw h (ground arith)
over_not_claimable i j (inr h) = rw h (ground arith)

module _ (id : JobId) (draws : RunDraws) where
  row_keys :
      (i : JobId) (j j' : VmCreationJob)
      → SettledRow id draws j j'
      → has_job_id i j' ≡ has_job_id i j
  row_keys i j j' (inl (c, h)) = rw h refl
  row_keys i j j' (inr (c, r)) = rw r.id refl

  row_claimable :
      (i : JobId) (j j' : VmCreationJob)
      → SettledRow id draws j j'
      → (is_claimable i j' ≡ is_claimable i j) ⊎ (is_claimable i j' ≡ false)
  row_claimable i j j' (inl (c, h)) = inl (rw h refl)
  row_claimable i j j' (inr (c, r)) = inr (over_not_claimable i j' r.over)

  row_done : (j j' : VmCreationJob) → SettledRow id draws j j' → is_claimable id j' ≡ false
  row_done j j' (inl (c, h)) = rw h c
  row_done j j' (inr (c, r)) = over_not_claimable id j' r.over

  Settled-keys :
      (i : JobId) (js js' : List VmCreationJob)
      → Settled id draws js js'
      → count_where (has_job_id i) js' ≡ count_where (has_job_id i) js
  Settled-keys i [] [] s = refl
  Settled-keys i (j ∷ js) [] s = absurd s
  Settled-keys i [] (j' ∷ js') s = absurd s
  Settled-keys i (j ∷ js) (j' ∷ js') (r, s) = rw (row_keys i j j' r, Settled-keys i js js' s) refl

  Settled-claimable :
      (i : JobId) (js js' : List VmCreationJob)
      → Settled id draws js js'
      → count_where (is_claimable i) js' ≤ count_where (is_claimable i) js
  Settled-claimable i [] [] s = omega arith
  Settled-claimable i (j ∷ js) [] s = absurd s
  Settled-claimable i [] (j' ∷ js') s = absurd s
  Settled-claimable i (j ∷ js) (j' ∷ js') (r, s) =
      by_row (Settled-claimable i js js' s) (row_claimable i j j' r)
    where
      by_row :
          count_where (is_claimable i) js' ≤ count_where (is_claimable i) js
          → (is_claimable i j' ≡ is_claimable i j) ⊎ (is_claimable i j' ≡ false)
          → count_where (is_claimable i) (j' ∷ js') ≤ count_where (is_claimable i) (j ∷ js)
      by_row le (inl h) = rw h (omega (arith, le))
      by_row le (inr h) = rw h (omega (arith, le))

  Settled-done :
      (js js' : List VmCreationJob)
      → Settled id draws js js'
      → count_where (is_claimable id) js' ≡ 0
  Settled-done [] [] s = refl
  Settled-done (j ∷ js) [] s = absurd s
  Settled-done [] (j' ∷ js') s = absurd s
  Settled-done (j ∷ js) (j' ∷ js') (r, s) = rw (row_done j j' r, Settled-done js js' s) refl

abbrev pub as_queue : List JobId → List QueueItem
as_queue [] = []
as_queue (id ∷ ids) = job id ∷ as_queue ids

module _ {E : Type 0} (p : Platform E) (g : Gateway E) (cfg : Settings) where
  abbrev pub NotQueued : World E → JobId → Type 0
  NotQueued w id = count_where (is_claimable id) w.db.vm_creation_jobs ≡ 0

  abbrev pub IsKeyed : World E → Type 0
  IsKeyed w = (id : JobId) → count_where (has_job_id id) w.db.vm_creation_jobs ≤ 1

  module _ (d : RunDraws) (id : JobId) (w : World E) (k : IsKeyed w) where
    pub process-IsKeyed : IsKeyed (process_vm_creation_job p g cfg d id w)
    process-IsKeyed i =
        rw
          (Settled-keys id d i w.db.vm_creation_jobs
            (process_vm_creation_job p g cfg d id w).db.vm_creation_jobs
            (process-Settled p g cfg d id w (k id)).0)
          (k i)

    process-keeps :
        (i : JobId) → NotQueued w i → NotQueued (process_vm_creation_job p g cfg d id w) i
    process-keeps i n = omega (
      arith,
      Settled-claimable id d i w.db.vm_creation_jobs
          (process_vm_creation_job p g cfg d id w).db.vm_creation_jobs
          (process-Settled p g cfg d id w (k id)).0,
      n,
    )

    process-ends : NotQueued (process_vm_creation_job p g cfg d id w) id
    process-ends =
        Settled-done id d w.db.vm_creation_jobs
          (process_vm_creation_job p g cfg d id w).db.vm_creation_jobs
          (process-Settled p g cfg d id w (k id)).0

  abbrev popped : World E → List JobId → World E
  popped w ids = record w { queue = as_queue ids }

  -- What is over stays so.
  worker-NotQueued :
      (draws : List RunDraws) (ids : List JobId) (w : World E) (i : JobId)
      → IsKeyed w
      → w.queue ≡ as_queue ids
      → NotQueued w i
      → NotQueued (worker_loop p g cfg draws w) i
  unfolding worker_loop
  worker-NotQueued [] ids w i k q n = n
  worker-NotQueued (d ∷ ds) [] w i k q n =
      subst (λ x. NotQueued (take_item p g cfg d (worker_loop p g cfg ds) x w) i) (sym q)
        (worker-NotQueued ds [] w i k q n)
  worker-NotQueued (d ∷ ds) (id ∷ ids) w i k q n =
      subst (λ x. NotQueued (take_item p g cfg d (worker_loop p g cfg ds) x w) i) (sym q)
        (worker-NotQueued ds ids (process_vm_creation_job p g cfg d id (popped w ids)) i
          (process-IsKeyed d id (popped w ids) k)
          (process-Settled p g cfg d id (popped w ids) (k id)).1
          (process-keeps d id (popped w ids) k i n))

  abbrev pub Drained : List JobId → World E → Type 0
  Drained ids w = (w.queue ≡ []) × All (NotQueued w) ids

  -- `_worker_loop`, on a table whose ids are unique and a queue of job ids: once it has made as many
  -- rounds as the queue has entries, the queue is empty and no job whose id was in it is queued.
  pub worker-Drained :
      (draws : List RunDraws) (ids : List JobId) (w : World E)
      → IsKeyed w
      → w.queue ≡ as_queue ids
      → length ids ≤ length draws
      → Drained ids (worker_loop p g cfg draws w)
  unfolding worker_loop
  worker-Drained [] [] w k q le = (q, tt)
  worker-Drained [] (id ∷ ids) w k q le = absurd (omega (arith, le))
  worker-Drained (d ∷ ds) [] w k q le =
      subst (λ x. Drained [] (take_item p g cfg d (worker_loop p g cfg ds) x w)) (sym q)
        (worker-Drained ds [] w k q (omega arith))
  worker-Drained (d ∷ ds) (id ∷ ids) w k q le =
      let rest = worker-Drained ds ids next next_keyed next_queue (omega arith) in
      subst (λ x. Drained (id ∷ ids) (take_item p g cfg d (worker_loop p g cfg ds) x w)) (sym q)
        (
          rest.0,
          (
            worker-NotQueued ds ids next id next_keyed next_queue
                (process-ends d id (popped w ids) k),
            rest.1,
          ),
        )
    where
      next : World E
      next = process_vm_creation_job p g cfg d id (popped w ids)

      next_keyed : IsKeyed next
      next_keyed = process-IsKeyed d id (popped w ids) k

      next_queue : next.queue ≡ as_queue ids
      next_queue = (process-Settled p g cfg d id (popped w ids) (k id)).1
