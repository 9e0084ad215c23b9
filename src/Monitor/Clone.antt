-- ===== src/Monitor/Clone.antt =====
-- Which candidate the loop of `select_clone_storage` chooses.
use gsm_sv.Prelude.{
  ℕ, ◌≤◌, ◌<◌, Option, none, some, String, List, [], ◌∷◌, ◌≡◌, ◌⊎◌, inl, inr, arith, refl, All,
  Bool-cases, ltb, ltb→lt, ltb_false→le, subst,
}
use gsm_sv.Monitor.{better, pick_storage}

-- Less room than `avail`, or none.
abbrev pub Below : ℕ → Option ℕ → Type 0
Below avail none = Unit
Below avail (some a) = a < avail

-- The name is in the list, has that room, and every name before it has less.
abbrev pub Leads : (String → Option ℕ) → String × ℕ → List String → Type 0
Leads size (name, avail) [] = ⊥
Leads size (name, avail) (c ∷ cs) =
    ((c ≡ name) × (size c ≡ some avail)) ⊎ (Below avail (size c) × Leads size (name, avail) cs)

-- The state of the loop is worse than `avail`.
abbrev Under : Option (String × ℕ) → ℕ → Type 0
Under none avail = Unit
Under (some (n, b)) avail = b < avail

-- No more room than the pick has.
abbrev pub Within : Option (String × ℕ) → Option ℕ → Type 0
Within best none = Unit
Within none (some a) = ⊥
Within (some (name, b)) (some a) = a ≤ b

module _ (size : String → Option ℕ) where
  better-Within :
      (name : String) (best : Option (String × ℕ))
      → Within (better name (size name) best) (size name)
  better-Within name best = go (size name) best
    where
      go : (o : Option ℕ) (best : Option (String × ℕ)) → Within (better name o best) o
      go none best = tt
      go (some a) none = omega arith
      go (some a) (some (n, b)) = ground arith

  better_mono :
      (name : String) (o : Option ℕ) (best : Option (String × ℕ)) (a : Option ℕ)
      → Within best a
      → Within (better name o best) a
  better_mono name none best a h = h
  better_mono name (some x) none none h = tt
  better_mono name (some x) none (some y) h = absurd h
  better_mono name (some x) (some (n, b)) none h = ground arith
  better_mono name (some x) (some (n, b)) (some y) h = ground arith

  pick_mono :
      (names : List String) (best : Option (String × ℕ)) (a : Option ℕ)
      → Within best a
      → Within (pick_storage size best names) a
  unfolding pick_storage
  pick_mono [] best a h = h
  pick_mono (n ∷ ns) best a h = pick_mono ns _ a (better_mono n (size n) best a h)

  pick_storage_max :
      (names : List String) (best : Option (String × ℕ))
      → All (λ n. Within (pick_storage size best names) (size n)) names
  unfolding pick_storage
  pick_storage_max [] best = tt
  pick_storage_max (n ∷ ns) best =
      (pick_mono ns _ (size n) (better-Within n best), pick_storage_max ns (better n (size n) best))

  -- The loop ends with what it began with, or with a new leader of the list.
  abbrev Moves : Option (String × ℕ) → List String → Option (String × ℕ) → Type 0
  Moves best names r =
      (r ≡ best) ⊎ ((x : String × ℕ) × (r ≡ some x) × Leads size x names × Under best x.1)

  Moves-cons :
      (name : String) (names : List String) (o : Option ℕ) (best r : Option (String × ℕ))
      → size name ≡ o
      → Moves (better name o best) names r
      → Moves best (name ∷ names) r
  Moves-cons name names none best r e (inl same) = inl same
  Moves-cons name names none best r e (inr (x, is, leads, under)) =
      inr (x, is, inr (rw e tt, leads), under)
  Moves-cons name names (some a) none r e (inl same) = inr ((name, a), same, inl (refl, e), tt)
  Moves-cons name names (some a) none r e (inr (x, is, leads, under)) =
      inr (x, is, inr (rw e under, leads), tt)
  Moves-cons name names (some a) (some (n, b)) r e m = elim (Bool-cases (ltb b a)) [
    | inl more ↦ newer (ltb→lt b a more) (rw more at m)
    | inr less ↦ older (ltb_false→le b a less) (rw less at m)
  ]
    where
      newer : b < a → Moves (some (name, a)) names r → Moves (some (n, b)) (name ∷ names) r
      newer lt (inl same) = inr ((name, a), same, inl (refl, e), lt)
      newer lt (inr (x, is, leads, under)) = inr (x, is, inr (rw e under, leads), omega arith)

      older : a ≤ b → Moves (some (n, b)) names r → Moves (some (n, b)) (name ∷ names) r
      older le (inl same) = inl same
      older le (inr (x, is, leads, under)) = inr (x, is, inr (rw e (omega arith), leads), under)

  pick_storage-Moves :
      (names : List String) (best : Option (String × ℕ))
      → Moves best names (pick_storage size best names)
  unfolding pick_storage
  pick_storage-Moves [] best = inl refl
  pick_storage-Moves (n ∷ ns) best =
      Moves-cons n ns (size n) best _ refl (pick_storage-Moves ns (better n (size n) best))

  -- What the choice promises: with no storage chosen no candidate has room; a chosen one is a
  -- candidate at its own room, no candidate has more, and those listed before it have less.
  abbrev pub IsBest : List String → Option (String × ℕ) → Type 0
  IsBest names none = All (λ n. Within none (size n)) names
  IsBest names (some (name, avail)) =
      Leads size (name, avail) names × All (λ n. Within (some (name, avail)) (size n)) names

  IsBest-intro :
      (names : List String) (r : Option (String × ℕ))
      → Moves none names r
      → All (λ n. Within r (size n)) names
      → IsBest names r
  IsBest-intro names none m h = h
  IsBest-intro names (some (n, a)) (inl e) h = cc
  IsBest-intro names (some (n, a)) (inr (x, is, leads, under)) h =
      (subst (λ y. Leads size y names) (cc) leads, h)

  -- Whatever room the storages have, the loop of `select_clone_storage` over the candidates ends
  -- with no storage only if none is eligible, and otherwise with the first of those eligible
  -- candidates that have the most room.
  pub pick_storage-IsBest : (names : List String) → IsBest names (pick_storage size none names)
  pick_storage-IsBest names =
      IsBest-intro names (pick_storage size none names) (pick_storage-Moves names none)
        (pick_storage_max names none)
