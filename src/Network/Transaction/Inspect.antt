-- ===== src/Network/Transaction/Inspect.antt =====
-- The inspection of `_run_iptables_commands` with ADD.
use gsm_sv.Prelude.{
  ℕ, ◌<◌, true, Option, none, some, List, [], ◌∷◌, ◌≡◌, ◌+◌, arith, refl, ◌∙◌, subst, if◌then◌else◌,
}
use gsm_sv.Network.Rules.{Rule, eq_rule, eq_rule_iff, check}
use gsm_sv.Exec.{Result, ok, err}
use gsm_sv.Network.Link.{Gateway, IptablesLaws}
use gsm_sv.Network.Transaction.{inspect, inspect_step}

-- How often a rule stands in a list.
abbrev pub occurrences : Rule → List Rule → ℕ
occurrences q [] = 0
occurrences q (r ∷ rs) = (if eq_rule q r then 1 else 0) + occurrences q rs

abbrev pub IsAbsent : ℕ → Rule → Option (List Rule) → Type 0
IsAbsent n q none = Unit
IsAbsent n q (some pending) = 0 < occurrences q pending → n ≡ 0

abbrev pub Covers : ℕ → Rule → ℕ → Option (List Rule) → Type 0
Covers n q wanted none = Unit
Covers n q wanted (some pending) = 0 < wanted → 0 < n + occurrences q pending

module _ {E : Type 0} (n : ℕ) (q r : Rule) where
  step-IsAbsent :
      (reply : Result ℕ) (e : E) (rest : Option (List Rule) × E)
      → (eq_rule q r ≡ true → reply ≡ ok 1 → n ≡ 0)
      → IsAbsent n q rest.0
      → IsAbsent n q (inspect_step r reply e rest).0
  unfolding inspect_step
  step-IsAbsent (err x) e rest h ih = tt
  step-IsAbsent (ok status) e (none, e') h ih = ground arith
  step-IsAbsent (ok status) e (some p, e') h ih = ground (arith, h)

  step-Covers :
      (wanted : ℕ) (reply : Result ℕ) (e : E) (rest : Option (List Rule) × E)
      → (eq_rule q r ≡ true → reply ≡ ok 0 → 0 < n)
      → Covers n q wanted rest.0
      → Covers n q ((if eq_rule q r then 1 else 0) + wanted) (inspect_step r reply e rest).0
  unfolding inspect_step
  step-Covers wanted (err x) e rest h ih = tt
  step-Covers wanted (ok status) e (none, e') h ih = ground arith
  step-Covers wanted (ok status) e (some p, e') h ih = ground (arith, h)

module _ {E : Type 0} (g : Gateway E) (count : E → Rule → ℕ) (laws : IptablesLaws g count) where
  pub inspect-keeps : (rs : List Rule) (e : E) (q : Rule) → count (inspect g rs e).1 q ≡ count e q
  unfolding inspect
  inspect-keeps [] e q = refl
  inspect-keeps (r ∷ rs) e q =
      ground (arith, laws.check_keeps r q e, inspect-keeps rs (g.exec (check r) e).1 q)

  pub inspect-IsAbsent :
      (n : ℕ) (q : Rule) (rs : List Rule) (e : E) → count e q ≡ n → IsAbsent n q (inspect g rs e).0
  unfolding inspect
  inspect-IsAbsent n q [] e h = λ p. omega arith
  inspect-IsAbsent n q (r ∷ rs) e h =
      let (reply, e') = g.exec (check r) e in
      step-IsAbsent n q r reply e' (inspect g rs e')
        (λ same one. cc ((eq_rule_iff q r).0 same, laws.check_one r e one))
        (inspect-IsAbsent n q rs e' (laws.check_keeps r q e ∙ h))

  pub inspect-Covers :
      (n : ℕ) (q : Rule) (rs : List Rule) (e : E)
      → count e q ≡ n
      → Covers n q (occurrences q rs) (inspect g rs e).0
  unfolding inspect
  inspect-Covers n q [] e h = λ p. omega arith
  inspect-Covers n q (r ∷ rs) e h =
      let (reply, e') = g.exec (check r) e in
      step-Covers n q r (occurrences q rs) reply e' (inspect g rs e')
        (λ same here.
          subst (λ t. 0 < t) h (rw ((eq_rule_iff q r).0 same) (laws.check_zero r e here)))
        (inspect-Covers n q rs e' (laws.check_keeps r q e ∙ h))
