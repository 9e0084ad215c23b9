-- ===== src/Queue/Settle.antt =====
-- What one run of the worker on a job does to the table of jobs.
use gsm_sv.Prelude.{
  ℕ, suc, ◌≤◌, ◌==◌, true, false, Bool-cases, inl, inr, ◌⊎◌, Option, none, some, List, [], ◌∷◌, ◌≡◌,
  refl, arith, Option-cases,
}
use gsm_sv.Exec.{Exc, Result, ok, err}
use gsm_sv.Table.{find_first, count_where, update_where}
use gsm_sv.Table.Laws.{find_first-none, count_where-update_where}
use gsm_sv.Models.{
  queued, completed, failed, JobStatus, User, VmCreated, VmCreationJob, JobId, Settings,
}
use gsm_sv.Network.{Gateway}
use gsm_sv.Platform.{Platform}
use gsm_sv.Platform.World.{World}
use gsm_sv.Vm.Create.{create_vm}
use gsm_sv.Vm.Create.Load.{LoadsBy, create_vm-LoadsBy}
use gsm_sv.Queue.{has_job_id}
use gsm_sv.Queue.Worker.{
  RunDraws, is_claimable, claim, complete, complete_as_made, fail, claimed, settle, find_user,
  create_for, run_claimed, process_vm_creation_job,
}

abbrev pub IsOver : JobStatus → Type 0
IsOver s = (s ≡ completed) ⊎ (s ≡ failed)

-- A job that was run: it is over, with both times, one attempt more, and the same request.
pub record Ran (draws : RunDraws) (j j' : VmCreationJob) : Type 0 where
  pub was : j.status ≡ queued
  pub over : IsOver j'.status
  pub id : j'.id ≡ j.id
  pub user_id : j'.user_id ≡ j.user_id
  pub payload : j'.payload ≡ j.payload
  pub attempts : j'.attempts ≡ suc j.attempts
  pub started_at : j'.started_at ≡ some draws.claimed_at
  pub finished_at : j'.finished_at ≡ some draws.finished_at

-- The queued job of this id was run, and every other row is the same.
abbrev pub SettledRow : JobId → RunDraws → VmCreationJob → VmCreationJob → Type 0
SettledRow id draws j j' =
    ((is_claimable id j ≡ false) × (j' ≡ j)) ⊎ ((is_claimable id j ≡ true) × Ran draws j j')

abbrev pub Settled : JobId → RunDraws → List VmCreationJob → List VmCreationJob → Type 0
Settled id draws [] [] = Unit
Settled id draws (j ∷ js) (j' ∷ js') = SettledRow id draws j j' × Settled id draws js js'
Settled id draws _ _ = ⊥

-- The three ways in which a run ends a job.
pub data Ends (now : ℕ) : (VmCreationJob → VmCreationJob) → Type 0 where
  by_complete : (r : VmCreated) → Ends now (complete now r)
  by_made : Ends now (complete_as_made now)
  by_fail : (x : Exc) → Ends now (fail now x)

module _ (draws : RunDraws) (id : JobId) where
  ran :
      (f : VmCreationJob → VmCreationJob) (j : VmCreationJob)
      → Ends draws.finished_at f
      → j.status ≡ queued
      → Ran draws j (f (claim draws.claimed_at j))
  ran f j (by_complete r) h = record {
    was = h;
    over = inl refl;
    id = refl;
    user_id = refl;
    payload = refl;
    attempts = refl;
    started_at = refl;
    finished_at = refl;
  }
  ran f j by_made h = record {
    was = h;
    over = inl refl;
    id = refl;
    user_id = refl;
    payload = refl;
    attempts = refl;
    started_at = refl;
    finished_at = refl;
  }
  ran f j (by_fail x) h = record {
    was = h;
    over = inr refl;
    id = refl;
    user_id = refl;
    payload = refl;
    attempts = refl;
    started_at = refl;
    finished_at = refl;
  }

  pub claimable_queued : (j : VmCreationJob) → is_claimable id j ≡ true → j.status ≡ queued
  claimable_queued j h = ground arith

  pub claimable_le :
      (js : List VmCreationJob) → count_where (is_claimable id) js ≤ count_where (has_job_id id) js
  claimable_le [] = omega arith
  claimable_le (j ∷ js) = ground (arith, claimable_le js)

  unclaimed :
      (js : List VmCreationJob) → count_where (is_claimable id) js ≡ 0 → Settled id draws js js
  unclaimed [] h = tt
  unclaimed (j ∷ js) h = elim (Bool-cases (is_claimable id j)) [
    | inl e ↦ absurd (omega (arith, rw e at h))
    | inr e ↦ (inl (e, refl), unclaimed js (omega (arith, rw e at h)))
  ]

  -- Where no row has the key, neither update does anything.
  pub untouched :
      (f : VmCreationJob → VmCreationJob) (js : List VmCreationJob)
      → count_where (has_job_id id) js ≡ 0
      → update_where (has_job_id id) f (update_where (is_claimable id) (claim draws.claimed_at) js)
        ≡ js
  untouched f [] h = refl
  untouched f (j ∷ js) h = ground (arith, untouched f js)

  updates-Settled :
      (f : VmCreationJob → VmCreationJob) (js : List VmCreationJob)
      → Ends draws.finished_at f
      → count_where (has_job_id id) js ≤ 1
      → 1 ≤ count_where (is_claimable id) js
      → Settled id draws js (
          update_where
            (has_job_id id)
            f
            (update_where (is_claimable id) (claim draws.claimed_at) js))
  updates-Settled f [] e le ge = absurd (omega arith)
  updates-Settled f (j ∷ js) e le ge = elim (Bool-cases (has_job_id id j)) [
    | inl t ↦ here t (Bool-cases (is_claimable id j))
    | inr t ↦
        let c : is_claimable id j ≡ false = rw t refl in
        rw (c, t)
          (
            inl (refl, refl),
            updates-Settled f js e (omega (arith, rw t at le)) (omega (arith, rw c at ge)),
          )
  ]
    where
      here :
          has_job_id id j ≡ true
          → (is_claimable id j ≡ true) ⊎ (is_claimable id j ≡ false)
          → Settled id draws (j ∷ js) (
              update_where
                (has_job_id id)
                f
                (update_where (is_claimable id) (claim draws.claimed_at) (j ∷ js)))
      here t (inl c) =
          rw (c, t)
            (
              inr (refl, ran f j e (claimable_queued j c)),
              rw (untouched f js (omega (arith, rw t at le)))
                  (unclaimed js (omega (arith, rw t at le, claimable_le js))),
            )
      here t (inr c) = absurd (omega (arith, rw t at le, rw c at ge, claimable_le js))

module _ {E : Type 0} (p : Platform E) (g : Gateway E) (cfg : Settings) where
  module _ (draws : RunDraws) (id : JobId) (w : World E) where
    abbrev Ended : World E → Type 0
    Ended w' = Settled id draws w.db.vm_creation_jobs w'.db.vm_creation_jobs × (w'.queue ≡ w.queue)

    abbrev SameJobs : Result VmCreated × World E → Type 0
    SameJobs (r, w') =
        (w'.db.vm_creation_jobs ≡ (claimed p g cfg draws id w).db.vm_creation_jobs)
        × (w'.queue ≡ w.queue)

    create_for-SameJobs :
        (j : VmCreationJob) (o : Option User)
        → SameJobs (create_for p g cfg draws.creation j o (claimed p g cfg draws id w))
    create_for-SameJobs j none = (refl, refl)
    create_for-SameJobs j (some u) =
        by_loads (create_vm p g cfg draws.creation u j.payload (claimed p g cfg draws id w))
          (create_vm-LoadsBy p g cfg draws.creation u j.payload 0 (claimed p g cfg draws id w))
      where
        by_loads :
            (t : Result VmCreated × World E)
            → LoadsBy p g cfg u 0 (claimed p g cfg draws id w) t
            → SameJobs t
        by_loads (ok r, w') l = (l.jobs, l.queue)
        by_loads (err x, w') l = (l.jobs, l.queue)

    module _ (unique : count_where (has_job_id id) w.db.vm_creation_jobs ≤ 1)
        (some_queued : 1 ≤ count_where (is_claimable id) w.db.vm_creation_jobs) where
      settle-Ended :
          (t : Result VmCreated × World E)
          → SameJobs t
          → Ended (settle p g cfg id draws.finished_at t)
      settle-Ended (ok r, w') (h, hq) = (
        rw h (
            updates-Settled draws id (complete draws.finished_at r) w.db.vm_creation_jobs
              (by_complete r) unique some_queued),
        hq,
      )
      settle-Ended (err x, w') (h, hq) = (
        rw h (
            updates-Settled draws id (fail draws.finished_at x) w.db.vm_creation_jobs (by_fail x)
              unique some_queued),
        hq,
      )

      run_claimed-Ended :
          (o : Option VmCreationJob)
          → find_first (has_job_id id) (claimed p g cfg draws id w).db.vm_creation_jobs ≡ o
          → Ended (run_claimed p g cfg draws id o (claimed p g cfg draws id w))
      unfolding run_claimed
      run_claimed-Ended none h = absurd (
          omega (
            arith,
            claimable_le draws id w.db.vm_creation_jobs,
            find_first-none (has_job_id id) (claimed p g cfg draws id w).db.vm_creation_jobs h,
            count_where-update_where (is_claimable id) (has_job_id id) (claim draws.claimed_at)
                (λ j. refl) w.db.vm_creation_jobs,
          ))
      run_claimed-Ended (some j) h = elim (Option-cases j.vmid) [
        | inl e ↦ rw e (
            settle-Ended
              (create_for p g cfg draws.creation j (find_user p g cfg j.user_id w.db)
                (claimed p g cfg draws id w))
              (create_for-SameJobs j (find_user p g cfg j.user_id w.db)))
        | inr (v, e) ↦ rw e (
          updates-Settled draws id (complete_as_made draws.finished_at) w.db.vm_creation_jobs
              by_made unique some_queued,
          refl,
        )
      ]

    -- `process_vm_creation_job` on a table whose ids are unique: if the job of this id is queued it
    -- is completed or failed afterwards, with its two times, one attempt more and the same request;
    -- every other job is as it was, and if no queued job has the id then all of them are. The
    -- in-process queue is not written.
    pub process-Settled :
        count_where (has_job_id id) w.db.vm_creation_jobs ≤ 1
        → Ended (process_vm_creation_job p g cfg draws id w)
    unfolding process_vm_creation_job
    process-Settled h =
        elim (Bool-cases (count_where (is_claimable id) w.db.vm_creation_jobs == 0)) [
          | inl z ↦ rw z (unclaimed draws id w.db.vm_creation_jobs (ground arith), refl)
          | inr z ↦ rw z (
              run_claimed-Ended h (ground arith)
                (find_first (has_job_id id) (claimed p g cfg draws id w).db.vm_creation_jobs) refl)
        ]
