-- ===== src/Background/Schedule/Sorting.antt =====
-- The sorting of the hours in `_next_notify_sleep_seconds`.
use gsm_sv.Prelude.{
  ℕ, ◌≤◌, ◌==◌, ==_iff, Bool, true, false, ◌||◌, Bool-cases, inl, inr, List, [], ◌∷◌, ◌≡◌, refl, ap,
  subst, ◌∙◌, arith, any, leb, leb→le, leb_false→lt, All, All-map,
}
use gsm_sv.Background.Schedule.{put_in, sort_hours}

abbrev pub Sorted : List ℕ → Type 0
Sorted [] = Unit
Sorted (h ∷ hs) = All (λ k. h ≤ k) hs × Sorted hs

module _ (P : ℕ → Type 0) where
  All-put_in : (h : ℕ) (ks : List ℕ) → P h → All P ks → All P (put_in h ks)
  All-put_in h [] ph pk = (ph, tt)
  All-put_in h (k ∷ ks) ph pk = elim (Bool-cases (leb h k)) [
    | inl e ↦ rw e (ph, pk)
    | inr e ↦ rw e (pk.0, All-put_in h ks ph pk.1)
  ]

  pub All-sort : (hs : List ℕ) → All P hs → All P (sort_hours hs)
  All-sort [] h = tt
  All-sort (h ∷ hs) p = All-put_in h (sort_hours hs) p.0 (All-sort hs p.1)

  put_in-All : (h : ℕ) (ks : List ℕ) → All P (put_in h ks) → P h × All P ks
  put_in-All h [] p = p
  put_in-All h (k ∷ ks) p = elim (Bool-cases (leb h k)) [
    | inl e ↦ let q : P h × (P k × All P ks) = rw e at p in (q.0, q.1)
    | inr e ↦
        let q : P k × All P (put_in h ks) = rw e at p in
        let rest = put_in-All h ks q.1 in (rest.0, (q.0, rest.1))
  ]

  pub sort-All : (hs : List ℕ) → All P (sort_hours hs) → All P hs
  sort-All [] p = tt
  sort-All (h ∷ hs) p = let q = put_in-All h (sort_hours hs) p in (q.0, sort-All hs q.1)

pub All-any : (P : ℕ → Type 0) (h : ℕ) (ks : List ℕ) → any (λ k. k == h) ks ≡ true → All P ks → P h
All-any P h [] here p = absurd cc
All-any P h (k ∷ ks) here p = elim (Bool-cases (k == h)) [
  | inl e ↦ subst P ((==_iff k h).0 e) p.0
  | inr e ↦ All-any P h ks (rw e at here) p.1
]

put_in-Sorted : (h : ℕ) (ks : List ℕ) → Sorted ks → Sorted (put_in h ks)
put_in-Sorted h [] s = (tt, tt)
put_in-Sorted h (k ∷ ks) s = elim (Bool-cases (leb h k)) [
  | inl e ↦ let le = leb→le h k e in rw e ((le, All-map (λ j kj. omega (arith, le, kj)) ks s.0), s)
  | inr e ↦
      let lt = leb_false→lt h k e in
      rw e (All-put_in (λ j. k ≤ j) h ks (omega (arith, lt)) s.0, put_in-Sorted h ks s.1)
]

pub sort-Sorted : (hs : List ℕ) → Sorted (sort_hours hs)
sort-Sorted [] = tt
sort-Sorted (h ∷ hs) = put_in-Sorted h (sort_hours hs) (sort-Sorted hs)

module _ (p : ℕ → Bool) where
  any-put_in : (h : ℕ) (ks : List ℕ) → any p (put_in h ks) ≡ p h || any p ks
  any-put_in h [] = refl
  any-put_in h (k ∷ ks) = elim (Bool-cases (leb h k)) [
    | inl e ↦ rw e refl
    | inr e ↦ rw (e, any-put_in h ks) (swap (p k) (p h) (any p ks))
  ]
    where
      swap : (a b c : Bool) → (a || (b || c)) ≡ (b || (a || c))
      swap true true c = refl
      swap true false c = refl
      swap false b c = refl

  pub any-sort : (hs : List ℕ) → any p (sort_hours hs) ≡ any p hs
  any-sort [] = refl
  any-sort (h ∷ hs) = any-put_in h (sort_hours hs) ∙ ap (λ b. p h || b) (any-sort hs)
