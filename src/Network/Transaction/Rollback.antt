-- ===== src/Network/Transaction/Rollback.antt =====
-- The rollback of `_run_iptables_commands`.
use gsm_sv.Exec.{ok}
use gsm_sv.Prelude.{
  ℕ, ◌⊎◌, ◌-◌, List, [], ◌∷◌, ◌≡◌, arith, if◌then◌else◌, Bool-cases, inl, inr, refl,
}
use gsm_sv.Network.Rules.{Rule, eq_rule, eq_rule_iff, check_and_remove}
use gsm_sv.Network.Link.{Gateway, IptablesLaws, RollbackReplies}
use gsm_sv.Network.Transaction.{roll_back}
use gsm_sv.Network.Transaction.Inspect.{occurrences}

module _ {E : Type 0} (g : Gateway E) (count : E → Rule → ℕ) (laws : IptablesLaws g count)
    (q : Rule) where
  pub roll_back-untried :
      (rs : List Rule) (e : E) → occurrences q rs ≡ 0 → count (roll_back g rs e) q ≡ count e q
  unfolding roll_back
  roll_back-untried [] e h = refl
  roll_back-untried (r ∷ rs) e h = elim (Bool-cases (eq_rule q r)) [
    | inl same ↦ absurd (omega (arith, rw same at h))
    | inr other ↦ omega (
      arith,
      laws.remove_others r q e other,
      roll_back-untried rs (g.exec (check_and_remove r) e).1 (omega (arith, rw other at h)),
    )
  ]

  remove_once :
      RollbackReplies g
      → (r : Rule) (e : E)
      → count (g.exec (check_and_remove r) e).1 q ≡ count e q - (if eq_rule q r then 1 else 0)
  remove_once replies r e = elim (Bool-cases (eq_rule q r)) [
    | inl same ↦ rw (same, (eq_rule_iff q r).0 same) (removed (replies r e))
    | inr other ↦ rw (other, laws.remove_others r q e other) (omega arith)
  ]
    where
      removed :
          ((g.exec (check_and_remove r) e).0 ≡ ok 0) ⊎ ((g.exec (check_and_remove r) e).0 ≡ ok 1)
          → count (g.exec (check_and_remove r) e).1 r ≡ count e r - 1
      removed (inl zero_exit) = omega (arith, laws.remove_zero r e zero_exit)
      removed (inr one_exit) =
          let gone = laws.remove_one r e one_exit in
          elim (laws.remove_shrinks r e) [ inl same ↦ omega (arith, gone, same) | inr less ↦ less ]

  pub roll_back-exact :
      RollbackReplies g
      → (rs : List Rule) (e : E) → count (roll_back g rs e) q ≡ count e q - occurrences q rs
  unfolding roll_back
  roll_back-exact replies [] e = omega arith
  roll_back-exact replies (r ∷ rs) e =
      omega (
        arith,
        remove_once replies r e,
        roll_back-exact replies rs (g.exec (check_and_remove r) e).1,
      )
