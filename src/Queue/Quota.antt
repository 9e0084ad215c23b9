-- ===== src/Queue/Quota.antt =====
-- The number of VMs and unfinished jobs of a user, which `MAX_VMS_PER_USER` bounds.
use gsm_sv.Prelude.{
  ℕ, ◌+◌, ◌≤◌, ◌<◌, ◌==◌, Bool, true, false, Bool-cases, inl, inr, ◌⊎◌, ◌&&◌, Option, none, some,
  List, [], ◌∷◌, ◌++◌, ◌≡◌, refl, arith, subst, if◌then◌else◌, Option-cases,
}
use gsm_sv.Exec.{Result, ok, err}
use gsm_sv.Table.{find_first, count_where, update_where}
use gsm_sv.Table.Laws.{
  find_first-none, find_first_sound, count_where-append, count_where-update_where,
}
use gsm_sv.Models.{
  user, eq_opt_text, eq_tier, project_custom, queued, User, Server, VmCreate, VmCreated,
  VmCreationJob, JobId, Db, Settings,
}
use gsm_sv.Network.{Gateway}
use gsm_sv.Platform.{Platform}
use gsm_sv.Platform.World.{World, job}
use gsm_sv.Vm.Create.{create_vm}
use gsm_sv.Vm.Create.Load.{own, LoadsBy, create_vm-LoadsBy}
use gsm_sv.Vm.Request.{vm_count}
use gsm_sv.Queue.{
  queue_position, has_job_id, is_pending, active_jobs, new_job, validate_vm_creation_request,
  enqueue_vm_creation,
}
use gsm_sv.Queue.Worker.{
  RunDraws, is_claimable, claim, complete, complete_as_made, fail, claimed, set_job, settle,
  find_user, create_for, run_claimed, process_vm_creation_job,
}
use gsm_sv.Queue.Settle.{
  Ends, by_complete, by_made, by_fail, claimable_le, untouched, claimable_queued,
}

-- The VMs that a user has and those that its unfinished jobs may create.
abbrev pub pending_load : Db → ℕ → ℕ
pending_load db uid = vm_count db uid + active_jobs db.vm_creation_jobs uid

abbrev of_user : ℕ → VmCreationJob → ℕ
of_user uid j = if j.user_id == uid then 1 else 0

abbrev is_active : ℕ → VmCreationJob → Bool
is_active uid j = (j.user_id == uid) && is_pending j

ended_not_active :
    (now uid : ℕ) (f : VmCreationJob → VmCreationJob) (j : VmCreationJob)
    → Ends now f
    → is_active uid (f j) ≡ false
ended_not_active now uid f j (by_complete r) = ground arith
ended_not_active now uid f j by_made = ground arith
ended_not_active now uid f j (by_fail x) = ground arith

queued_active :
    (uid : ℕ) (j : VmCreationJob) → j.status ≡ queued → is_active uid j ≡ (j.user_id == uid)
queued_active uid j h = rw h (ground arith)

of_first :
    (uid now : ℕ) (x j : VmCreationJob)
    → some (claim now x) ≡ some j
    → of_user uid j ≡ of_user uid x
of_first uid now x j h = subst (λ y. of_user uid y ≡ of_user uid x) claimed_is refl
  where
    claimed_is : claim now x ≡ j
    claimed_is = cc

module _ (draws : RunDraws) (id : JobId) (uid : ℕ) where
  -- The end of a queued job takes one from the active jobs of its user.
  updates-active :
      (f : VmCreationJob → VmCreationJob) (js : List VmCreationJob) (j : VmCreationJob)
      → Ends draws.finished_at f
      → count_where (has_job_id id) js ≤ 1
      → 1 ≤ count_where (is_claimable id) js
      → find_first (has_job_id id) (update_where (is_claimable id) (claim draws.claimed_at) js)
        ≡ some j
      → active_jobs
            (update_where
              (has_job_id id)
              f
              (update_where (is_claimable id) (claim draws.claimed_at) js))
            uid
          + of_user uid j
        ≡ active_jobs js uid
  updates-active f [] j e le ge h = absurd (omega arith)
  updates-active f (x ∷ js) j e le ge h = elim (Bool-cases (has_job_id id x)) [
    | inl t ↦ here t (Bool-cases (is_claimable id x))
    | inr t ↦
        let c : is_claimable id x ≡ false = rw t refl in
        let rest =
          updates-active f js j e (omega (arith, rw t at le)) (omega (arith, rw c at ge))
            (rw (c, t) at h) in
        rw (c, t) (omega (arith, rest))
  ]
    where
      here :
          has_job_id id x ≡ true
          → (is_claimable id x ≡ true) ⊎ (is_claimable id x ≡ false)
          → active_jobs
                (update_where
                  (has_job_id id)
                  f
                  (update_where (is_claimable id) (claim draws.claimed_at) (x ∷ js)))
                uid
              + of_user uid j
            ≡ active_jobs (x ∷ js) uid
      here t (inl c) =
          rw
            (
              c,
              t,
              ended_not_active draws.finished_at uid f (claim draws.claimed_at x) e,
              queued_active uid x (claimable_queued draws id x c),
              untouched draws id f js (omega (arith, rw t at le)),
              of_first uid draws.claimed_at x j (rw (c, t) at h),
            )
            (omega arith)
      here t (inr c) = absurd (omega (arith, rw t at le, rw c at ge, claimable_le draws id js))

module _ {E : Type 0} (p : Platform E) (g : Gateway E) (cfg : Settings) where
  module _ (draws : RunDraws) (id : JobId) (w : World E) (uid : ℕ) where
    abbrev Spent : VmCreationJob → Result VmCreated × World E → Type 0
    Spent j (ok r, w') =
        (w'.db.vm_creation_jobs ≡ (claimed p g cfg draws id w).db.vm_creation_jobs)
        × (vm_count w'.db uid ≤ vm_count w.db uid + of_user uid j)
    Spent j (err x, w') =
        (w'.db.vm_creation_jobs ≡ (claimed p g cfg draws id w).db.vm_creation_jobs)
        × (vm_count w'.db uid ≤ vm_count w.db uid)

    create_for-Spent :
        (j : VmCreationJob) (o : Option User)
        → find_user p g cfg j.user_id w.db ≡ o
        → Spent j (create_for p g cfg draws.creation j o (claimed p g cfg draws id w))
    create_for-Spent j none h = (refl, omega arith)
    create_for-Spent j (some u) h =
        by_loads (create_vm p g cfg draws.creation u j.payload (claimed p g cfg draws id w))
          (create_vm-LoadsBy p g cfg draws.creation u j.payload uid (claimed p g cfg draws id w))
      where
        same_user : own u uid ≡ of_user uid j
        same_user =
            ground (arith, find_first_sound (λ (u : User). u.id == j.user_id) w.db.users.rows h)

        by_loads :
            (t : Result VmCreated × World E)
            → LoadsBy p g cfg u uid (claimed p g cfg draws id w) t
            → Spent j t
        by_loads (ok r, w') l = (l.jobs, omega (arith, l.vms, same_user))
        by_loads (err x, w') l = (l.jobs, omega (arith, l.vms))

    module _ (unique : count_where (has_job_id id) w.db.vm_creation_jobs ≤ 1)
        (some_queued : 1 ≤ count_where (is_claimable id) w.db.vm_creation_jobs) (j : VmCreationJob)
        (found : find_first (has_job_id id) (claimed p g cfg draws id w).db.vm_creation_jobs
          ≡ some j) where
      spends :
          (f : VmCreationJob → VmCreationJob) (w' : World E)
          → Ends draws.finished_at f
          → w'.db.vm_creation_jobs ≡ (claimed p g cfg draws id w).db.vm_creation_jobs
          → vm_count w'.db uid ≤ vm_count w.db uid + of_user uid j
          → pending_load (set_job p g cfg id f w').db uid ≤ pending_load w.db uid
      spends f w' e h le = rw h (
          omega (
            arith,
            updates-active draws id uid f w.db.vm_creation_jobs j e unique some_queued found,
          ))

      settle-spends :
          (t : Result VmCreated × World E)
          → Spent j t
          → pending_load (settle p g cfg id draws.finished_at t).db uid ≤ pending_load w.db uid
      settle-spends (ok r, w') (h, le) =
          spends (complete draws.finished_at r) w' (by_complete r) h le
      settle-spends (err x, w') (h, le) =
          spends (fail draws.finished_at x) w' (by_fail x) h (omega (arith, le))

      run-spends :
          pending_load (run_claimed p g cfg draws id (some j) (claimed p g cfg draws id w)).db uid
          ≤ pending_load w.db uid
      unfolding run_claimed
      run-spends = elim (Option-cases j.vmid) [
        | inl e ↦ rw e (
            settle-spends
              (create_for p g cfg draws.creation j (find_user p g cfg j.user_id w.db)
                (claimed p g cfg draws id w))
              (create_for-Spent j (find_user p g cfg j.user_id w.db) refl))
        | inr (v, e) ↦ rw e (
            spends (complete_as_made draws.finished_at) (claimed p g cfg draws id w) by_made refl
              (omega arith))
      ]

    -- `process_vm_creation_job`, on a table whose ids are unique, does not raise the number of VMs and
    -- unfinished jobs of any user, whatever job it takes and whether the creation returns or raises.
    pub process-load :
        count_where (has_job_id id) w.db.vm_creation_jobs ≤ 1
        → pending_load (process_vm_creation_job p g cfg draws id w).db uid ≤ pending_load w.db uid
    unfolding process_vm_creation_job
    process-load unique =
        elim (Bool-cases (count_where (is_claimable id) w.db.vm_creation_jobs == 0)) [
          | inl z ↦ rw z (omega arith)
          | inr z ↦ rw z (
              claimed_case z
                (find_first (has_job_id id) (claimed p g cfg draws id w).db.vm_creation_jobs) refl)
        ]
      where
        claimed_case :
            (count_where (is_claimable id) w.db.vm_creation_jobs == 0) ≡ false
            → (o : Option VmCreationJob)
            → find_first (has_job_id id) (claimed p g cfg draws id w).db.vm_creation_jobs ≡ o
            → pending_load (run_claimed p g cfg draws id o (claimed p g cfg draws id w)).db uid
              ≤ pending_load w.db uid
        claimed_case z (some j) h = run-spends unique (ground arith) j h
        claimed_case z none h =
            let nonzero : 1 ≤ count_where (is_claimable id) w.db.vm_creation_jobs = ground arith in
            absurd (
              omega (
                arith,
                nonzero,
                claimable_le draws id w.db.vm_creation_jobs,
                find_first-none (has_job_id id) (claimed p g cfg draws id w).db.vm_creation_jobs h,
                count_where-update_where (is_claimable id) (has_job_id id) (claim draws.claimed_at)
                    (λ j. refl) w.db.vm_creation_jobs,
              ))

  module _ (u : User) (req : VmCreate) (id : JobId) (now : ℕ) where
    -- What an accepted request leaves: one queued job more, at the end of the queue.
    pub record Enqueued (w w' : World E) (j : VmCreationJob) (place : Option ℕ) : Type 0 where
      pub new : j ≡ new_job u req id now
      pub jobs : w'.db.vm_creation_jobs ≡ w.db.vm_creation_jobs ++ j ∷ []
      pub queue : w'.queue ≡ w.queue ++ job id ∷ []
      pub position : place ≡ queue_position w'.db.vm_creation_jobs j
      pub quota : u.role ≡ user → pending_load w'.db u.id ≤ cfg.max_vms_per_user
      pub node : u.role ≡ user → eq_opt_text req.node_name cfg.project_node_name ≡ false
      pub tier : u.role ≡ user → eq_tier req.tier project_custom ≡ false

    abbrev pub EnqueuedBy : World E → Result (VmCreationJob × Option ℕ) × World E → Type 0
    EnqueuedBy w (ok (j, position), w') = Enqueued w w' j position
    EnqueuedBy w (err x, w') = w' ≡ w

    active_jobs-new :
        (jobs : List VmCreationJob) (uid : ℕ)
        → active_jobs (jobs ++ new_job u req id now ∷ []) uid ≤ active_jobs jobs uid + 1
    active_jobs-new jobs uid =
        ground (arith, count_where-append (is_active uid) jobs (new_job u req id now ∷ []))

    abbrev ValidatedBy : Db → Result Server × Db → Type 0
    ValidatedBy db (ok server, db') =
        (db' ≡ db)
        × (u.role ≡ user → pending_load db u.id < cfg.max_vms_per_user)
        × (u.role ≡ user → eq_opt_text req.node_name cfg.project_node_name ≡ false)
        × (u.role ≡ user → eq_tier req.tier project_custom ≡ false)
    ValidatedBy db (err x, db') = db' ≡ db

    validate-ValidatedBy : (db : Db) → ValidatedBy db (validate_vm_creation_request cfg u req db)
    unfolding validate_vm_creation_request
    validate-ValidatedBy db = ground arith

    -- `enqueue_vm_creation`: an accepted request appends one queued job to the table and its id to the
    -- queue, and answers with the job and its position; a plain user then has no more VMs and
    -- unfinished jobs than the limit, and asks neither for the project node nor for the project tier.
    -- A refused request changes nothing.
    pub enqueue-EnqueuedBy : (w : World E) → EnqueuedBy w (enqueue_vm_creation cfg u req id now w)
    unfolding enqueue_vm_creation
    enqueue-EnqueuedBy w =
        go (validate_vm_creation_request cfg u req w.db) refl (validate-ValidatedBy w.db)
      where
        go :
            (t : Result Server × Db)
            → validate_vm_creation_request cfg u req w.db ≡ t
            → ValidatedBy w.db t
            → EnqueuedBy w (enqueue_vm_creation cfg u req id now w)
        go (err x, db') h v = rw (h, v) refl
        go (ok server, db') h (same, quota, node, tier) =
            rw (h, same)
              (record {
                new = refl;
                jobs = refl;
                queue = refl;
                position = refl;
                node = node;
                tier = tier;
                quota = λ r. omega (arith, quota r, active_jobs-new w.db.vm_creation_jobs u.id);
              })
