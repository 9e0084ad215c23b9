-- ===== src/Exec.antt =====
-- A handler or service function as an action: it reads and writes a state, and returns or raises.
-- What was written before a raise stays written, so the state comes back beside the exception too;
-- a handler that has not committed leaves the tables as they were (main.py, core/database.py).
mod Messages
pub mod Keeps
pub mod Steps
pub use Messages.*
use gsm_sv.Prelude.{ℕ, Bool, true, false, Option, none, some, ◌≡◌}

-- The exceptions of the program. `http_exception` is FastAPI's HTTPException with its status code
-- and message; every other exception is told apart only as far as an `except` clause does.
pub data Exc : Type 0 where
  http_exception : ℕ → Detail → Exc
  value_error runtime_error integrity_error resource_exception other_error : Exc

pub data Result (A : Type 0) : Type 0 where
  ok : A → Result A
  err : Exc → Result A

abbrev pub Exec : Type 0 → Type 0 → Type 0
Exec S A = S → Result A × S

module _ {S A : Type 0} where
  abbrev pub pure : A → Exec S A
  pure a s = (ok a, s)

  abbrev pub raise : Exc → Exec S A
  raise e s = (err e, s)

  abbrev pub http : ℕ → Detail → Exec S A
  http code detail = raise (http_exception code detail)

  abbrev pub gets : (S → A) → Exec S A
  gets f s = (ok (f s), s)

  abbrev pub or_raise : Option A → Exc → Exec S A
  or_raise none e = raise e
  or_raise (some a) e = pure a

module _ {S : Type 0} where
  abbrev pub modify : (S → S) → Exec S (Unit {0})
  modify f s = (ok tt, f s)

  -- `if test: raise HTTPException(code, detail)`
  abbrev pub reject_if : Bool → ℕ → Detail → Exec S (Unit {0})
  reject_if true code detail = http code detail
  reject_if false code detail = pure tt

module _ {S A B : Type 0} where
  abbrev pub continue : (A → Exec S B) → Result A → S → Result B × S
  continue f (ok a) s = f a s
  continue f (err e) s = (err e, s)

  infixl 5 ◌>>=◌ ◌>>◌
  abbrev pub ◌>>=◌ : Exec S A → (A → Exec S B) → Exec S B
  ◌>>=◌ m f s = let (r, s') = m s in continue f r s'

  abbrev pub ◌>>◌ : Exec S A → Exec S B → Exec S B
  m >> k = m >>= λ _. k

module _ {S A : Type 0} where
  abbrev pub recover : (Exc → Exec S A) → Result A → S → Result A × S
  recover handler (ok a) s = (ok a, s)
  recover handler (err e) s = handler e s

  -- `try: m` with `except Exception as e: handler e`
  abbrev pub catch : Exec S A → (Exc → Exec S A) → Exec S A
  catch m handler s = let (r, s') = m s in recover handler r s'

abbrev pub IsOk : {A : Type 0} → Result A → Type 0
IsOk (ok a) = Unit
IsOk (err e) = ⊥
