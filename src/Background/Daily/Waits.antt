-- ===== src/Background/Daily/Waits.antt =====
-- The waits for the deletions of snapshots (`_wait_snap_delete`).
use gsm_sv.Prelude.{
  ℕ, zero, suc, ◌+◌, ◌-◌, ◌≤◌, ◌<◌, Bool-cases, inl, inr, String, List, [], ◌∷◌, ◌≡◌, refl, arith,
  ltb, ltb→lt, ltb_false→le,
}
use gsm_sv.Platform.{Platform}
use gsm_sv.Control.{Guest}
use gsm_sv.Background.Daily.{Deletion, Remover, poll_all, pause, wait_all, wait_limit}

module _ {E : Type 0} (p : Platform E) (k : Guest E) (r : Remover E) where
  -- Sleeping takes its time, and the clock does not run backwards while a task is asked for.
  pub record ClockLaws : Type 0 where
    pub sleep_takes : (d : ℕ) (e : E) → p.time e + d ≤ p.time (p.sleep d e)
    pub status_forward :
        (node : String) (upid : ℕ) (e : E) → p.time e ≤ p.time (p.task_status node upid e).1

  module _ (laws : ClockLaws) (deadline : ℕ) where
    poll_forward : (ds : List Deletion) (e : E) → p.time e ≤ p.time (poll_all p k r deadline ds e).1
    unfolding poll_all
    poll_forward [] e = omega arith
    poll_forward ((node, upid) ∷ ds) e = elim (Bool-cases (ltb (p.time e) deadline)) [
      | inl b ↦ rw b (
          let asked = laws.status_forward node upid e in
          let rest = poll_forward ds (p.task_status node upid e).1 in omega (arith, asked, rest))
      | inr b ↦ rw b (poll_forward ds e)
    ]

    poll_late :
        (ds : List Deletion) (e : E) → deadline ≤ p.time e → poll_all p k r deadline ds e ≡ ([], e)
    unfolding poll_all
    poll_late [] e h = refl
    poll_late ((node, upid) ∷ ds) e h = elim (Bool-cases (ltb (p.time e) deadline)) [
      | inl b ↦ absurd (omega (arith, h, ltb→lt (p.time e) deadline b))
      | inr b ↦ rw b (rw (poll_late ds e h) refl)
    ]

    wait_none : (fuel : ℕ) (e : E) → (wait_all p k r fuel deadline [] e).0 ≡ []
    unfolding wait_all
    wait_none zero e = refl
    wait_none (suc fuel) e = refl

    wait_ends :
        (fuel : ℕ) (ds : List Deletion) (e : E)
        → deadline - p.time e < fuel
        → (wait_all p k r fuel deadline ds e).0 ≡ []
    unfolding wait_all
    wait_ends zero ds e lt = absurd (omega (arith, lt))
    wait_ends (suc fuel) [] e lt = refl
    wait_ends (suc fuel) (d ∷ ds) e lt = elim (Bool-cases (ltb (p.time e) deadline)) [
      | inl b ↦
          next (wait_ends fuel) (poll_all p k r deadline (d ∷ ds) e).0
            (poll_all p k r deadline (d ∷ ds) e).1 (ltb→lt (p.time e) deadline b)
            (poll_forward (d ∷ ds) e)
      | inr b ↦
          late (poll_all p k r deadline (d ∷ ds) e).0 (poll_all p k r deadline (d ∷ ds) e).1
            (rw (poll_late (d ∷ ds) e (ltb_false→le (p.time e) deadline b)) refl)
    ]
      where
        late :
            (rest : List Deletion) (e' : E)
            → rest ≡ []
            → (wait_all p k r fuel deadline rest (pause p k r rest e')).0 ≡ []
        late [] e' h = wait_none fuel e'
        late (x ∷ xs) e' h = absurd cc

        next :
            ((ds : List Deletion) (e : E)
              → deadline - p.time e < fuel
              → (wait_all p k r fuel deadline ds e).0 ≡ [])
            → (rest : List Deletion) (e' : E) → p.time e < deadline
            → p.time e ≤ p.time e'
            → (wait_all p k r fuel deadline rest (pause p k r rest e')).0 ≡ []
        next again [] e' b f = wait_none fuel e'
        next again (x ∷ xs) e' b f =
            again (x ∷ xs) (p.sleep 4 e') (omega (arith, lt, b, f, laws.sleep_takes 4 e'))

  -- However many deletions of snapshots are waited for and whatever the node answers, within 241 turns
  -- none is waited for any more, if sleeping takes its time and the clock does not run backwards.
  pub wait_all-ends :
      (laws : ClockLaws) (ds : List Deletion) (e : E)
      → (wait_all p k r (suc (wait_limit p k r)) (p.time e + (wait_limit p k r)) ds e).0 ≡ []
  wait_all-ends laws ds e =
      wait_ends laws (p.time e + (wait_limit p k r)) (suc (wait_limit p k r)) ds e (omega arith)
