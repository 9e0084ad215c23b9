-- ===== src/Requests/Dport.antt =====
-- `_validate_dport` (schemas/fw_schema.py): one port or a range of ports.
pub mod Printed
use gsm_sv.Prelude.{
  ℕ, zero, suc, ◌+◌, ◌*◌, ◌/◌, ◌%◌, ◌≤◌, ◌<◌, ◌==◌, Bool, true, false, not, ◌&&◌, ◌||◌, Bool-cases,
  inl, inr, ◌⊎◌, Option, none, some, List, [], ◌∷◌, ◌++◌, ◌≡◌, ◌≢◌, refl, sym, subst, ◌∙◌, arith,
  All, leb, leb→le, le→leb, ltb, length, and_true, if◌then◌else◌,
}
use gsm_sv.Exec.{Result, ok, err, value_error}
use gsm_sv.Models.{Text}
use gsm_sv.Background.Messages.{digits}

-- `v.split(":")`
abbrev pub cons_head : ℕ → List Text → List Text
cons_head c [] = (c ∷ []) ∷ []
cons_head c (part ∷ parts) = (c ∷ part) ∷ parts

pub split : Text → List Text
split [] = [] ∷ []
split (c ∷ cs) = let rest = split cs in if c == 58 then [] ∷ rest else cons_head c rest

-- `int(part)` of a text for which `isdigit` holds, or none for a ValueError; `value` gives the value of
-- a decimal digit of Unicode.
module _ (value : ℕ → Option ℕ) where
  pub int_from : ℕ → Text → Option ℕ
  int_from n [] = some n
  int_from n (c ∷ cs) = elim (value c) [ none ↦ none | some d ↦ int_from (n * 10 + d) cs ]

  abbrev pub int : Text → Option ℕ
  int [] = none
  int (c ∷ cs) = int_from 0 (c ∷ cs)

  abbrev pub is_port : Option ℕ → Bool
  is_port none = false
  is_port (some n) = leb 1 n && leb n 65535

  abbrev pub all_ports : List Text → Bool
  all_ports [] = true
  all_ports (part ∷ parts) = is_port (int part) && all_ports parts

  unfoldable pub validate_dport : Text → Result Text
  unfolding split int_from
  validate_dport [] = ok []
  validate_dport (c ∷ cs) =
      let parts = split (c ∷ cs) in
      if ltb 2 (length parts)
      then err value_error
      else if all_ports parts
      then ok (c ∷ cs)
      else err value_error
