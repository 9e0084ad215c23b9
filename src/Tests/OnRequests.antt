-- ===== src/Tests/OnRequests.antt =====
-- Passwords.
use gsm_sv.Prelude.{ℕ, Bool, ◌&&◌, leb, ◌≡◌, ◌↔◌, refl}
use gsm_sv.Exec.{ok}
use gsm_sv.Vm.Names.{codes}
use gsm_sv.Requests.{looks_ahead, validate_pw}
use gsm_sv.Requests.Password.{IsStrong, validate_pw-exact}

abbrev is_digit : ℕ → Bool
is_digit c = leb 48 c && leb c 57

validate_pw-exact_example :
    (validate_pw is_digit (codes "letters-and-1") ≡ ok (codes "letters-and-1"))
    ↔ IsStrong is_digit (codes "letters-and-1")
validate_pw-exact_example = validate_pw-exact is_digit refl (codes "letters-and-1")

-- Python's `$` stands before a newline at the end: such a password is accepted.
with_newline : validate_pw is_digit (codes "letters-and-1\n") ≡ ok (codes "letters-and-1\n")
unfolding validate_pw looks_ahead
with_newline = refl
