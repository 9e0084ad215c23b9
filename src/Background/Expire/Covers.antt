-- ===== src/Background/Expire/Covers.antt =====
-- Rows that a test and a key pick out together: deleting one by its key takes none that fails the test.
use gsm_sv.Prelude.{
  ℕ, ◌≤◌, ◌==◌, ==_refl, Bool, true, Bool-cases, inl, inr, List, [], ◌∷◌, ◌≡◌, refl, ap, arith, All,
  All-map, All-zip, if◌then◌else◌,
}
use gsm_sv.Table.{select, count_where, drop_where}
use gsm_sv.Models.{Vm}
use gsm_sv.Vm.Create.{has_id}

module _ (q : Vm → Bool) where
  -- Every row of the key passes the test.
  abbrev pub Covers : List Vm → Vm → Type 0
  Covers rows vm = All (λ v. has_id vm.id v ≡ true → q v ≡ true) rows

  none_have : (vm : Vm) (rows : List Vm) → count_where (has_id vm.id) rows ≡ 0 → Covers rows vm
  none_have vm [] h = tt
  none_have vm (v ∷ rows) h = elim (Bool-cases (v.id == vm.id)) [
    | inl e ↦ absurd (omega (arith, rw e at h))
    | inr e ↦ (λ t. absurd (cc), none_have vm rows (omega (arith, rw e at h)))
  ]

  present : (rows : List Vm) → All (λ vm. 1 ≤ count_where (has_id vm.id) rows) (select q rows)
  present [] = tt
  present (v ∷ rows) =
      let more : All (λ vm. 1 ≤ count_where (has_id vm.id) (v ∷ rows)) (select q rows) =
        All-map (λ vm h. omega (arith, h)) (select q rows) (present rows) in
      elim (Bool-cases (q v)) [
        | inl e ↦ rw e (rw (==_refl v.id) (omega arith), more)
        | inr e ↦ rw e more
      ]

  alone :
      (v : Vm) (rows : List Vm)
      → count_where (has_id v.id) (v ∷ rows) ≤ 1
      → count_where (has_id v.id) rows ≡ 0
  alone v rows counted = omega (arith, rw (==_refl v.id) at counted)

  twice :
      (v vm : Vm) (rows : List Vm)
      → count_where (has_id vm.id) (v ∷ rows) ≤ 1
      → 1 ≤ count_where (has_id vm.id) rows
      → (v.id == vm.id) ≡ true
      → ⊥
  twice v vm rows counted here t = omega (arith, rw t at counted, here)

  -- Where keys are unique, a row that passes the test is the only one of its key.
  pub unique-Covers :
      (rows : List Vm)
      → ((id : ℕ) → count_where (has_id id) rows ≤ 1)
      → All (Covers rows) (select q rows)
  unique-Covers [] one = tt
  unique-Covers (v ∷ rows) one =
      let rest = unique-Covers rows (λ id. omega (arith, one id)) in
      elim (Bool-cases (q v)) [
        | inl e ↦ rw e (
          (λ t. e, none_have v rows (alone v rows (one v.id))),
          All-map (λ vm h. (λ t. e, h)) (select q rows) rest,
        )
        | inr e ↦ rw e (
            All-zip (λ vm here h. (λ t. absurd (twice v vm rows (one vm.id) here t), h))
              (select q rows) (present rows) rest)
      ]

  pub drop_covered :
      (vm : Vm) (rows : List Vm)
      → Covers rows vm
      → drop_where q (drop_where (has_id vm.id) rows) ≡ drop_where q rows
  drop_covered vm [] h = refl
  drop_covered vm (v ∷ rows) h = elim (Bool-cases (v.id == vm.id)) [
    | inl e ↦ rw (e, h.0 e) (drop_covered vm rows h.1)
    | inr e ↦ rw e (ap (λ rest. if q v then rest else v ∷ rest) (drop_covered vm rows h.1))
  ]
