-- ===== src/Requests.antt =====
-- `_validate_pw` (schemas/user_schema.py), on code points.
pub mod Password
pub mod Dport
use gsm_sv.Prelude.{
  ℕ, ◌+◌, ◌==◌, Bool, true, false, not, ◌&&◌, ◌||◌, List, [], ◌∷◌, any, length, leb, ltb,
  if◌then◌else◌,
}
use gsm_sv.Exec.{Result, ok, err, value_error}
use gsm_sv.Models.{Text}
use gsm_sv.Vm.Names.{codes}
use gsm_sv.Caddy.Subdomain.{chomp}

-- [a-zA-Z]
abbrev pub is_letter : ℕ → Bool
is_letter c = (leb 97 c && leb c 122) || (leb 65 c && leb c 90)

-- The symbols of `_PW_PATTERN`.
abbrev pub specials : Text
specials = codes "!@#$%^&*()_+-=[]{}|;:'\",.<>?/~`"

abbrev pub is_special : ℕ → Bool
is_special c = any (λ d. d == c) specials

abbrev pub is_newline : ℕ → Bool
is_newline c = c == 10

-- `(?=.*[...])`: a dot matches no newline.
unfoldable pub looks_ahead : (ℕ → Bool) → Text → Bool
looks_ahead q [] = false
looks_ahead q (c ∷ cs) = q c || (not (is_newline c) && looks_ahead q cs)

-- `.{8,}$`
abbrev pub fills_line : Text → Bool
fills_line t = not (any is_newline (chomp t)) && leb 8 (length (chomp t))

-- `len(v.encode("utf-8"))`
abbrev pub utf8_size : ℕ → ℕ
utf8_size c = if ltb c 128 then 1 else if ltb c 2048 then 2 else if ltb c 65536 then 3 else 4

abbrev pub utf8_bytes : Text → ℕ
utf8_bytes [] = 0
utf8_bytes (c ∷ cs) = utf8_size c + utf8_bytes cs

abbrev pub max_password_bytes : ℕ
max_password_bytes = 72

-- `\d` are the decimal digits of Unicode.
module _ (is_decimal : ℕ → Bool) where
  -- `_PW_PATTERN.match`
  abbrev pub pw_matches : Text → Bool
  pw_matches t =
      looks_ahead is_letter t
      && (looks_ahead is_decimal t && (looks_ahead is_special t && fills_line t))

  -- `_validate_pw`
  unfoldable pub validate_pw : Text → Result Text
  validate_pw t =
      if not (pw_matches t)
      then err value_error
      else if ltb max_password_bytes (utf8_bytes t)
      then err value_error
      else ok t
