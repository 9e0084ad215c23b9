-- ===== src/Network/Transaction/Append.antt =====
-- The appending of the pending rules.
use gsm_sv.Prelude.{
  ℕ, ◌+◌, ◌≤◌, ◌<◌, true, List, [], ◌∷◌, ◌≡◌, arith, if◌then◌else◌, Bool-cases, inl, inr,
}
use gsm_sv.Exec.{Result, ok, err}
use gsm_sv.Network.Rules.{Rule, eq_rule, eq_rule_iff, append}
use gsm_sv.Network.Link.{Gateway, IptablesLaws}
use gsm_sv.Network.Transaction.{succeeded, append_all}
use gsm_sv.Network.Transaction.Inspect.{occurrences}

succeeded-eq-ok : (reply : Result ℕ) → succeeded reply ≡ true → reply ≡ ok 0
succeeded-eq-ok (ok status) h = ground arith
succeeded-eq-ok (err e) h = cc

module _ {E : Type 0} (g : Gateway E) (count : E → Rule → ℕ) (laws : IptablesLaws g count)
    (q : Rule) where
  append_bounds :
      (r : Rule) (e : E)
      → let after = count (g.exec (append r) e).1 q in
        (count e q ≤ after) × (after ≤ count e q + (if eq_rule q r then 1 else 0))
  append_bounds r e = elim (Bool-cases (eq_rule q r)) [
    | inl same ↦ rw (same, (eq_rule_iff q r).0 same) (ground (arith, laws.append_grows r e))
    | inr other ↦ rw (other, laws.append_others r q e other) (omega arith)
  ]

  append_succeeds :
      (r : Rule) (e : E)
      → succeeded (g.exec (append r) e).0 ≡ true
      → count (g.exec (append r) e).1 q ≡ count e q + (if eq_rule q r then 1 else 0)
  append_succeeds r e h = elim (Bool-cases (eq_rule q r)) [
    | inl same ↦
        rw (same, (eq_rule_iff q r).0 same)
          (omega (arith, laws.append_zero r e (succeeded-eq-ok _ h)))
    | inr other ↦ rw (other, laws.append_others r q e other) (omega arith)
  ]

  -- From a state with `base + earlier attempts` at most to one with `base + all attempts` at most.
  pub append_all-bounds :
      (base : ℕ) (rs attempted : List Rule) (e : E)
      → base ≤ count e q
      → count e q ≤ base + occurrences q attempted
      → let (done, tried, e') = append_all g rs attempted e in
        (base ≤ count e' q) × (count e' q ≤ base + occurrences q tried)
  unfolding append_all
  append_all-bounds base [] attempted e low high = (low, high)
  append_all-bounds base (r ∷ rs) attempted e low high =
      elim (Bool-cases (succeeded (g.exec (append r) e).0)) [
        | inl good ↦ rw good (
            append_all-bounds base rs (r ∷ attempted) (g.exec (append r) e).1
              (omega (arith, append_bounds r e)) (omega (arith, append_bounds r e)))
        | inr bad ↦ rw bad (omega (arith, append_bounds r e))
      ]

  -- What was tried is what was pending, or was tried before.
  pub append_all-tried :
      (rs attempted : List Rule) (e : E)
      → let (done, tried, e') = append_all g rs attempted e in
        0 < occurrences q tried → 0 < occurrences q attempted + occurrences q rs
  unfolding append_all
  append_all-tried [] attempted e = λ h. omega arith
  append_all-tried (r ∷ rs) attempted e = elim (Bool-cases (succeeded (g.exec (append r) e).0)) [
    | inl good ↦
        rw good (λ h. omega (arith, append_all-tried rs (r ∷ attempted) (g.exec (append r) e).1 h))
    | inr bad ↦ rw bad (λ h. omega arith)
  ]

  -- When every append succeeds, each pending rule is there as often again.
  pub append_all_complete :
      (rs attempted : List Rule) (e : E)
      → let (done, tried, e') = append_all g rs attempted e in
        done ≡ true → count e' q ≡ count e q + occurrences q rs
  unfolding append_all
  append_all_complete [] attempted e = λ h. omega arith
  append_all_complete (r ∷ rs) attempted e = elim (Bool-cases (succeeded (g.exec (append r) e).0)) [
    | inl good ↦ rw good (λ h. omega (
      arith,
      append_succeeds r e good,
      append_all_complete rs (r ∷ attempted) (g.exec (append r) e).1 h,
    ))
    | inr bad ↦ rw bad (λ h. cc)
  ]
