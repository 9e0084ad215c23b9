-- ===== src/Table/Laws.antt =====
-- What the queries and updates do to counts, searches and predicates on the rows.
use gsm_sv.Prelude.{
  ℕ, ◌+◌, ◌≤◌, ◌≡◌, refl, Bool, true, false, none, some, List, [], ◌∷◌, ◌++◌, arith, All, any,
  if◌then◌else◌, Bool-cases, inl, inr, subst, append-nil, Memᴰ,
}
use gsm_sv.Table.{Table, insert, find_first, select, select, count_where, drop_where, update_where}

module _ {A : Type 0} (p : A → Bool) where
  pub count_where-append :
      (xs ys : List A) → count_where p (xs ++ ys) ≡ count_where p xs + count_where p ys
  count_where-append [] ys = omega arith
  count_where-append (x ∷ xs) ys = omega (arith, count_where-append xs ys)

  -- A row that a query returns passes the query's test.
  pub find_first_sound : (xs : List A) {a : A} → find_first p xs ≡ some a → p a ≡ true
  find_first_sound [] h = cc
  find_first_sound (x ∷ xs) h = elim (Bool-cases (p x)) [
    | inl e ↦ ground (arith)
    | inr e ↦ find_first_sound xs (rw e at h)
  ]

  -- It is a row of the table.
  pub find_first_member : (xs : List A) {a : A} → find_first p xs ≡ some a → Memᴰ a xs
  find_first_member [] h = absurd cc
  find_first_member (x ∷ xs) h = elim (Bool-cases (p x)) [
    | inl e ↦ let same : some x ≡ some _ = rw e at h in Memᴰ.head cc
    | inr e ↦ Memᴰ.tail (find_first_member xs (rw e at h))
  ]

  pub find_first-none : (xs : List A) → find_first p xs ≡ none → count_where p xs ≡ 0
  find_first-none [] h = refl
  find_first-none (x ∷ xs) h = ground (arith, find_first-none xs)

  pub find_first_of_count : (xs : List A) → count_where p xs ≡ 0 → find_first p xs ≡ none
  find_first_of_count [] h = refl
  find_first_of_count (x ∷ xs) h = ground (arith, find_first_of_count xs)

  pub drop_where_all : (xs : List A) → count_where p (drop_where p xs) ≡ 0
  drop_where_all [] = refl
  drop_where_all (x ∷ xs) = ground (arith, drop_where_all xs)

  pub All-select : (xs : List A) → All (λ x. p x ≡ true) (select p xs)
  All-select [] = tt
  All-select (x ∷ xs) = elim (Bool-cases (p x)) [
    | inl e ↦ rw e (e, All-select xs)
    | inr e ↦ rw e (All-select xs)
  ]

  -- Deleting what no row passes changes nothing.
  pub drop_where_none : (xs : List A) → count_where p xs ≡ 0 → drop_where p xs ≡ xs
  drop_where_none [] h = refl
  drop_where_none (x ∷ xs) h = ground (arith, drop_where_none xs)

  pub drop_where-append :
      (xs ys : List A) → drop_where p (xs ++ ys) ≡ drop_where p xs ++ drop_where p ys
  drop_where-append [] ys = refl
  drop_where-append (x ∷ xs) ys = ground (arith, drop_where-append xs ys)

  -- An update that no test looks at leaves the counts.
  pub count_where-update_where :
      (q : A → Bool) (f : A → A)
      → ((x : A) → q (f x) ≡ q x)
      → (xs : List A) → count_where q (update_where p f xs) ≡ count_where q xs
  count_where-update_where q f h [] = refl
  count_where-update_where q f h (x ∷ xs) = ground (arith, count_where-update_where q f h xs, h x)

  -- A new row that the test picks out is all that the deletion takes.
  pub drop_where-insert :
      (row : ℕ → A) (t : Table A)
      → p (row t.next_id) ≡ true
      → drop_where p (insert row t).rows ≡ drop_where p t.rows
  drop_where-insert row t h = rw (drop_where-append t.rows (row t.next_id ∷ []), h) (append-nil _)

  pub count_where-drop_where-le :
      (q : A → Bool) (xs : List A) → count_where q (drop_where p xs) ≤ count_where q xs
  count_where-drop_where-le q [] = omega arith
  count_where-drop_where-le q (x ∷ xs) = ground (arith, count_where-drop_where-le q xs)

module _ {A : Type 0} (P : A → Type 0) (p : A → Bool) where
  pub All-drop_where : (xs : List A) → All P xs → All P (drop_where p xs)
  All-drop_where [] h = tt
  All-drop_where (x ∷ xs) h = elim (Bool-cases (p x)) [
    | inl e ↦ rw e (All-drop_where xs h.1)
    | inr e ↦ rw e (h.0, All-drop_where xs h.1)
  ]

  pub All-find_first : (xs : List A) {a : A} → All P xs → find_first p xs ≡ some a → P a
  All-find_first [] h e = absurd (cc)
  All-find_first (x ∷ xs) h e = elim (Bool-cases (p x)) [
    | inl t ↦ subst P (cc (rw t at e)) h.0
    | inr t ↦ All-find_first xs h.1 (rw t at e)
  ]

  pub All-update_where :
      (f : A → A)
      → ((x : A) → P x → P (f x))
      → (xs : List A) → All P xs
      → All P (update_where p f xs)
  All-update_where f keep [] h = tt
  All-update_where f keep (x ∷ xs) h = elim (Bool-cases (p x)) [
    | inl e ↦ rw e (keep x h.0, All-update_where f keep xs h.1)
    | inr e ↦ rw e (h.0, All-update_where f keep xs h.1)
  ]

module _ {A : Type 0} (p : A → Bool) where
  pub count_where_of_none : (xs : List A) → any p xs ≡ false → count_where p xs ≡ 0
  count_where_of_none [] h = refl
  count_where_of_none (x ∷ xs) h = ground (arith, count_where_of_none xs)

  -- A row that the test does not pick, or of which there was none, leaves at most one.
  pub count_where-new :
      (row : ℕ → A) (t : Table A)
      → count_where p t.rows ≤ 1
      → (p (row t.next_id) ≡ true → any p t.rows ≡ false)
      → count_where p (insert row t).rows ≤ 1
  count_where-new row t h new = elim (Bool-cases (p (row t.next_id))) [
    | inl e ↦ omega (arith, rw e at appended, count_where_of_none t.rows (new e))
    | inr e ↦ omega (arith, rw e at appended)
  ]
    where
      appended :
          count_where p (t.rows ++ row t.next_id ∷ [])
          ≡ count_where p t.rows + ((if p (row t.next_id) then 1 else 0) + 0)
      appended = count_where-append p t.rows (row t.next_id ∷ [])
