-- ===== src/Exec/Steps.antt =====
-- Walking through an action from one state: what holds of its outcome follows from what holds of
-- the rest after each step, and of each exception.
use gsm_sv.Prelude.{ℕ, Bool, true, false, Option, none, some, ◌≡◌, refl, if◌then◌else◌}
use gsm_sv.Exec.{
  Exc, http_exception, Exec, Result, ok, err, Detail, or_raise, reject_if, ◌>>=◌, ◌>>◌, catch,
  recover, continue,
}

module _ {S A : Type 0} (Q : Result A × S → Type 0) where
  pub reject_step :
      (b : Bool) (code : ℕ) (d : Detail) (k : Exec S A) (s : S)
      → (b ≡ false → Q (k s))
      → (b ≡ true → Q (err (http_exception code d), s))
      → Q ((reject_if b code d >> k) s)
  reject_step true code d k s rest raised = raised refl
  reject_step false code d k s rest raised = rest refl

  pub or_raise_step :
      {B : Type 0} (o : Option B) (e : Exc) (k : B → Exec S A) (s : S)
      → ((b : B) → o ≡ some b → Q (k b s))
      → (o ≡ none → Q (err e, s))
      → Q ((or_raise o e >>= k) s)
  or_raise_step none e k s rest raised = raised refl
  or_raise_step (some b) e k s rest raised = rest b refl

  pub if_step :
      (b : Bool) (m n : Exec S A) (s : S)
      → (b ≡ true → Q (m s))
      → (b ≡ false → Q (n s))
      → Q ((if b then m else n) s)
  if_step true m n s first second = first refl
  if_step false m n s first second = second refl

  -- Any action: split on its outcome.
  pub bind_step :
      {B : Type 0} (m : Exec S B) (k : B → Exec S A) (s : S)
      → ((b : B) (s' : S) → m s ≡ (ok b, s') → Q (k b s'))
      → ((e : Exc) (s' : S) → m s ≡ (err e, s') → Q (err e, s'))
      → Q ((m >>= k) s)
  bind_step {B} m k s rest raised = go (m s).0 (m s).1 refl
    where
      go : (r : Result B) (s' : S) → m s ≡ (r, s') → Q (continue k r s')
      go (ok b) s' h = rest b s' h
      go (err e) s' h = raised e s' h

  pub catch_step :
      (m : Exec S A) (f : Exc → Exec S A) (s : S)
      → ((a : A) (s' : S) → m s ≡ (ok a, s') → Q (ok a, s'))
      → ((e : Exc) (s' : S) → m s ≡ (err e, s') → Q (f e s'))
      → Q (catch m f s)
  catch_step m f s done raised = go (m s).0 (m s).1 refl
    where
      go : (r : Result A) (s' : S) → m s ≡ (r, s') → Q (recover f r s')
      go (ok a) s' h = done a s' h
      go (err e) s' h = raised e s' h
