-- ===== src/Table/Keys.antt =====
-- Rows that a unique key tells apart.
use gsm_sv.Prelude.{
  ℕ, ◌≤◌, ◌==◌, ==_refl, Bool, true, false, Bool-cases, inl, inr, some, List, [], ◌∷◌, ◌≡◌, refl,
  ap, arith, All, if◌then◌else◌,
}
use gsm_sv.Table.{find_first, select, count_where, drop_where, update_where}

module _ {A : Type 0} (key : A → ℕ) where
  abbrev pub keyed : ℕ → A → Bool
  keyed id x = key x == id

  found_counted :
      (p : A → Bool) (a : A) (rows : List A)
      → find_first p rows ≡ some a
      → 1 ≤ count_where (keyed (key a)) rows
  found_counted p a [] h = absurd cc
  found_counted p a (x ∷ rows) h = elim (Bool-cases (p x)) [
    | inl e ↦
        let same : some x ≡ some a = rw e at h in
        let passes : keyed (key a) x ≡ true = cc (==_refl (key a)) in rw passes (omega arith)
    | inr e ↦ let rest = found_counted p a rows (rw e at h) in omega (arith, rest)
  ]

  none_keyed :
      (a : A) (rows : List A)
      → count_where (keyed (key a)) rows ≡ 0
      → All (λ x. keyed (key a) x ≡ true → x ≡ a) rows
  none_keyed a [] h = tt
  none_keyed a (x ∷ rows) h = elim (Bool-cases (key x == key a)) [
    | inl e ↦ absurd (omega (arith, rw e at h))
    | inr e ↦ (λ t. absurd cc, none_keyed a rows (omega (arith, rw e at h)))
  ]

  -- Where keys are unique, a row that a query finds is the only one of its key.
  pub only_found :
      (p : A → Bool) (a : A) (rows : List A)
      → find_first p rows ≡ some a
      → count_where (keyed (key a)) rows ≤ 1
      → All (λ x. keyed (key a) x ≡ true → x ≡ a) rows
  only_found p a [] h one = tt
  only_found p a (x ∷ rows) h one = elim (Bool-cases (p x)) [
    | inl e ↦
        let same : some x ≡ some a = rw e at h in
        let is : x ≡ a = cc in
        let passes : keyed (key a) x ≡ true = cc (is, ==_refl (key a)) in
        (λ t. is, none_keyed a rows (omega (arith, rw passes at one)))
    | inr e ↦
        let found : find_first p rows ≡ some a = rw e at h in
        let counted = found_counted p a rows found in
        elim (Bool-cases (key x == key a)) [
          | inl t ↦ absurd (omega (arith, rw t at one, counted))
          | inr t ↦ (λ u. absurd cc, only_found p a rows found (omega (arith, one)))
        ]
  ]

  module _ (q : A → Bool) (id : ℕ) where
    -- Deleting or changing rows that a query does not see leaves its answer.
    pub select-drop_where :
        (rows : List A)
        → All (λ x. keyed id x ≡ true → q x ≡ false) rows
        → select q (drop_where (keyed id) rows) ≡ select q rows
    select-drop_where [] h = refl
    select-drop_where (x ∷ rows) h = elim (Bool-cases (key x == id)) [
      | inl e ↦ rw (e, h.0 e) (select-drop_where rows h.1)
      | inr e ↦ rw e (ap (λ rest. if q x then x ∷ rest else rest) (select-drop_where rows h.1))
    ]

    pub select-update_where :
        (f : A → A)
        → ((x : A) → q (f x) ≡ q x)
        → (rows : List A) → All (λ x. keyed id x ≡ true → q x ≡ false) rows
        → select q (update_where (keyed id) f rows) ≡ select q rows
    select-update_where f same [] h = refl
    select-update_where f same (x ∷ rows) h = elim (Bool-cases (key x == id)) [
      | inl e ↦ rw (e, same x, h.0 e) (select-update_where f same rows h.1)
      | inr e ↦
          rw e (ap (λ rest. if q x then x ∷ rest else rest) (select-update_where f same rows h.1))
    ]
