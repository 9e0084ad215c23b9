-- ===== src/Prelude/Lists.antt =====
-- Lists measured by native numbers, Boolean membership and the predicates by recursion.
use Prim.Native.Nat.{ℕ, suc, ◌+◌}
use mathlib.Core.Path.{◌≡◌, refl}
use mathlib.Core.Bool.{Bool, true, false, ◌||◌}
use mathlib.Core.List.{List, [], ◌∷◌, ◌++◌}
use native.Mathlib.Omega.{arith}

module _ {ℓ} {A : Type ℓ} where
  abbrev pub length : List A → ℕ
  length [] = 0
  length (x ∷ xs) = suc (length xs)

  -- Some entry passes the test.
  abbrev pub any : (A → Bool) → List A → Bool
  any p [] = false
  any p (x ∷ xs) = p x || any p xs

  pub length-append : (xs ys : List A) → length (xs ++ ys) ≡ length xs + length ys
  length-append [] ys = omega arith
  length-append (x ∷ xs) ys = omega (arith, length-append xs ys)

-- Every entry satisfies the predicate.
abbrev pub All {ℓ κ} : {A : Type ℓ} → (A → Type κ) → List A → Type κ
All P [] = Unit
All P (x ∷ xs) = P x × All P xs

module _ {ℓ κ} {A : Type ℓ} (P : A → Type κ) where
  pub All-append : (xs ys : List A) → All P xs → All P ys → All P (xs ++ ys)
  All-append [] ys hx hy = hy
  All-append (x ∷ xs) ys hx hy = (hx.0, All-append xs ys hx.1 hy)

module _ {ℓ} {A : Type ℓ} {P Q R : A → Type ℓ} where
  pub All-zip : ((a : A) → P a → Q a → R a) → (xs : List A) → All P xs → All Q xs → All R xs
  All-zip f [] hp hq = tt
  All-zip f (x ∷ xs) hp hq = (f x hp.0 hq.0, All-zip f xs hp.1 hq.1)

module _ {ℓ} {A : Type ℓ} {P Q : A → Type ℓ} where
  pub All-map : ((a : A) → P a → Q a) → (xs : List A) → All P xs → All Q xs
  All-map f [] h = tt
  All-map f (x ∷ xs) h = (f x h.0, All-map f xs h.1)

module _ {ℓ} {A : Type ℓ} (p : A → Bool) where
  pub any-append : (xs ys : List A) → any p xs ≡ true → any p (xs ++ ys) ≡ true
  any-append [] ys h = absurd cc
  any-append (x ∷ xs) ys h = ground (arith, any-append xs ys)

  pub any_last : (xs : List A) (y : A) → p y ≡ true → any p (xs ++ y ∷ []) ≡ true
  any_last [] y h = rw h refl
  any_last (x ∷ xs) y h = ground (arith, any_last xs y h)
