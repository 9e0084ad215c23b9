-- ===== src/Vm/Provision/Wait.antt =====
-- The polling loops of `_wait_for_clone`.
use gsm_sv.Prelude.{
  ℕ, zero, suc, ◌+◌, ◌-◌, ◌*◌, ◌≤◌, ◌<◌, Bool-cases, inl, inr, some, ◌≡◌, refl, arith, ltb, ltb→lt,
}
use Prim.Native.Nat.{min}
use gsm_sv.Exec.{Exc, Result, ok, err}
use gsm_sv.Platform.{Platform}
use gsm_sv.Vm.Provision.{Verdict, finished, aborted, again, poll}

module _ {E : Type 0} (p : Platform E) where
  module _ (ask : E → Verdict × E) (deadline longest : ℕ) (late : Exc) where
    -- With more fuel than there are half seconds to the deadline, the loop of `_wait_for_clone` ends,
    -- if sleeping takes its time, the clock does not run backwards in a call, and delays are not 0.
    pub poll-ends :
        (fuel delay : ℕ) (e : E)
        → ((d : ℕ) (e : E) → p.time e + d ≤ p.time (p.sleep d e))
        → ((e : E) → p.time e ≤ p.time (ask e).1)
        → 1 ≤ longest
        → 1 ≤ delay
        → deadline - p.time e < fuel
        → (t : Result (Unit {0}) × E) × (poll p ask deadline longest late fuel delay e ≡ some t)
    unfolding poll
    poll-ends zero delay e sl fw lo de lt = absurd (omega (arith, lt))
    poll-ends (suc fuel) delay e sl fw lo de lt = elim (Bool-cases (ltb (p.time e) deadline)) [
      | inl b ↦ rw b (
          by_verdict (ask e).0 (ltb→lt (p.time e) deadline b)
            (poll-ends fuel (min (delay * 2) longest) next sl fw lo (omega arith)))
      | inr b ↦ rw b ((err late, e), refl)
    ]
      where
        next : E
        next = p.sleep (min delay (deadline - p.time (ask e).1)) (ask e).1

        by_verdict :
            (v : Verdict)
            → p.time e < deadline
            → (deadline - p.time next < fuel
                → (t : Result (Unit {0}) × E) × (poll p ask deadline longest late fuel
                      (min (delay * 2) longest)
                      next
                    ≡ some t))
            → (t : Result (Unit {0}) × E) × ((elim v [
              | finished ↦ some (ok tt, (ask e).1)
              | aborted x ↦ some (err x, (ask e).1)
              | again ↦ poll p ask deadline longest late fuel (min (delay * 2) longest) next
            ])
                ≡ some t)
        by_verdict finished b rest = ((ok tt, (ask e).1), refl)
        by_verdict (aborted x) b rest = ((err x, (ask e).1), refl)
        by_verdict again b rest =
            rest (omega (arith, fw e, sl (min delay (deadline - p.time (ask e).1)) (ask e).1))
