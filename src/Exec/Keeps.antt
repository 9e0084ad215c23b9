-- ===== src/Exec/Keeps.antt =====
-- Invariants of handlers: `Keeps` holds of a whole do block when it holds of its steps.
use gsm_sv.Prelude.{◌≡◌, refl, Bool, true, false, Option, none, some, ℕ, if◌then◌else◌}
use gsm_sv.Exec.{
  Exc, Exec, Result, ok, err, Detail, pure, raise, gets, or_raise, reject_if, continue, ◌>>=◌,
  recover, catch,
}

-- The state after the action satisfies `Inv` when the state before does, also after an exception.
pub record Keeps {Db T : Type 0} (Inv : Db → Type 0) (action : Exec Db T) : Type 0 where
  pub at : (db : Db) → Inv db → Inv (action db).1

module _ {Db : Type 0} {Inv : Db → Type 0} where
  pub Keeps-reject_if : (test : Bool) (code : ℕ) (d : Detail) → Keeps Inv (reject_if test code d)
  Keeps-reject_if false code d = record { at = λ _ before. before }
  Keeps-reject_if true code d = record { at = λ _ before. before }

module _ {Db T U : Type 0} {Inv : Db → Type 0} where
  continue-Keeps :
      (rest : T → Exec Db U) (each : (t : T) → Keeps Inv (rest t))
      → (r : Result T) (db : Db) → Inv db
      → Inv (continue rest r db).1
  continue-Keeps rest each (err e) db holds = holds
  continue-Keeps rest each (ok t) db holds = (each t).at db holds

  pub Keeps-bind :
      (first : Exec Db T) (rest : T → Exec Db U)
      → Keeps Inv first
      → ((t : T) → Keeps Inv (rest t))
      → Keeps Inv (first >>= rest)
  Keeps-bind first rest kept each = record {
    at = λ db holds. continue-Keeps rest each (first db).0 (first db).1 (kept.at db holds);
  }

module _ {Db T : Type 0} {Inv : Db → Type 0} where
  recover-Keeps :
      (handler : Exc → Exec Db T) (each : (e : Exc) → Keeps Inv (handler e))
      → (r : Result T) (db : Db) → Inv db
      → Inv (recover handler r db).1
  recover-Keeps handler each (err e) db holds = (each e).at db holds
  recover-Keeps handler each (ok t) db holds = holds

  pub Keeps-catch :
      (tried : Exec Db T) (handler : Exc → Exec Db T)
      → Keeps Inv tried
      → ((e : Exc) → Keeps Inv (handler e))
      → Keeps Inv (catch tried handler)
  Keeps-catch tried handler kept each = record {
    at = λ db holds. recover-Keeps handler each (tried db).0 (tried db).1 (kept.at db holds);
  }

  pub Keeps-if :
      (test : Bool) (first other : Exec Db T)
      → (test ≡ true → Keeps Inv first)
      → (test ≡ false → Keeps Inv other)
      → Keeps Inv (if test then first else other)
  Keeps-if false first other on_yes on_other = on_other refl
  Keeps-if true first other on_yes on_other = on_yes refl

  pub Keeps-or_raise : (found : Option T) (e : Exc) → Keeps Inv (or_raise found e)
  Keeps-or_raise (some t) e = record { at = λ _ before. before }
  Keeps-or_raise none e = record { at = λ _ before. before }

  pub Keeps-gets : (view : Db → T) → Keeps Inv (gets view)
  Keeps-gets view = record { at = λ _ before. before }

  pub Keeps-raise : (e : Exc) → Keeps Inv (raise {A = T} e)
  Keeps-raise e = record { at = λ _ before. before }

  pub Keeps-pure : (value : T) → Keeps Inv (pure value)
  Keeps-pure value = record { at = λ _ before. before }

pub ruleset keeps_rules = (
  Keeps-bind, Keeps-catch, Keeps-if, Keeps-reject_if, Keeps-or_raise, Keeps-gets, Keeps-raise,
  Keeps-pure,
)
