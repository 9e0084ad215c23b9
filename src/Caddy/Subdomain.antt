-- ===== src/Caddy/Subdomain.antt =====
-- `validate_subdomain` (services/caddy_service.py), on the code points of the subdomain.
use gsm_sv.Prelude.{
  ℕ, zero, suc, ◌≤◌, ◌==◌, Bool, true, false, not, ◌&&◌, ◌||◌, Bool-cases, inl, inr, List, [], ◌∷◌,
  ◌≡◌, ◌≢◌, ◌↔◌, refl, arith, leb, length, any, All, if◌then◌else◌, and_true,
}
use gsm_sv.Exec.{Result, ok, err, value_error}
use gsm_sv.Models.{Text}
use gsm_sv.Vm.Names.{codes, is_dns_code}
use gsm_sv.Vm.Names.Label.{HeadFree, LastFree}

abbrev pub eq_text : Text → Text → Bool
eq_text [] [] = true
eq_text [] (d ∷ ds) = false
eq_text (c ∷ cs) [] = false
eq_text (c ∷ cs) (d ∷ ds) = c == d && eq_text cs ds

-- RESERVED_SUBDOMAINS
abbrev pub reserved_subdomains : List Text
reserved_subdomains =
    codes "admin"
    ∷ codes "api"
    ∷ codes "www"
    ∷ codes "status"
    ∷ codes "app"
    ∷ codes "mail"
    ∷ codes "ftp"
    ∷ codes "gsmsv"
    ∷ []

-- [a-z0-9]
abbrev pub is_alnum : ℕ → Bool
is_alnum c = (leb 97 c && leb c 122) || (leb 48 c && leb c 57)

-- `[a-z0-9-]{0,n}[a-z0-9]` up to the end of the text.
abbrev pub tail_matches : ℕ → Text → Bool
tail_matches n [] = false
tail_matches n (c ∷ []) = is_alnum c
tail_matches zero (c ∷ d ∷ ds) = false
tail_matches (suc n) (c ∷ d ∷ ds) = is_dns_code c && tail_matches n (d ∷ ds)

-- `[a-z0-9]([a-z0-9-]{0,61}[a-z0-9])?` up to the end of the text.
abbrev pub label_matches : Text → Bool
label_matches [] = false
label_matches (c ∷ []) = is_alnum c
label_matches (c ∷ d ∷ ds) = is_alnum c && tail_matches 61 (d ∷ ds)

-- Python's `$` also matches in front of a newline at the end of the text.
abbrev pub chomp : Text → Text
chomp [] = []
chomp (c ∷ []) = if c == 10 then [] else c ∷ []
chomp (c ∷ d ∷ ds) = c ∷ chomp (d ∷ ds)

-- `_SUBDOMAIN_PATTERN.match`
abbrev pub pattern_matches : Text → Bool
pattern_matches t = label_matches (chomp t)

unfoldable pub is_reserved : Text → Bool
is_reserved t = any (eq_text t) reserved_subdomains

unfoldable pub validate_subdomain : Text → Result Text
validate_subdomain t =
    if not (pattern_matches t)
    then err value_error
    else if is_reserved t
    then err value_error
    else ok t

-- An RFC 1123 label: 1 to 63 lower-case letters, digits and hyphens, no hyphen at either end.
pub record IsHost (s : Text) : Type 0 where
  pub nonempty : s ≢ []
  pub short : length s ≤ 63
  pub codes : All (λ c. is_dns_code c ≡ true) s
  pub head : HeadFree s
  pub last : LastFree s

alnum_iff : (c : ℕ) → (is_alnum c ≡ true) ↔ ((is_dns_code c ≡ true) × (c ≢ 45))
alnum_iff c = ground arith

tail_sound :
    (n : ℕ) (s : Text)
    → tail_matches n s ≡ true
    → (length s ≤ suc n) × (All (λ c. is_dns_code c ≡ true) s × LastFree s)
tail_sound n [] h = absurd cc
tail_sound n (c ∷ []) h = let both = (alnum_iff c).0 h in (omega arith, ((both.0, tt), both.1))
tail_sound zero (c ∷ d ∷ ds) h = absurd cc
tail_sound (suc n) (c ∷ d ∷ ds) h =
    let both = and_true (is_dns_code c) (tail_matches n (d ∷ ds)) h in
    let (short, (codes, last)) = tail_sound n (d ∷ ds) both.1 in
    (omega (arith, short), ((both.0, codes), last))

tail_complete :
    (n : ℕ) (c : ℕ) (s : Text)
    → length (c ∷ s) ≤ suc n
    → All (λ c. is_dns_code c ≡ true) (c ∷ s)
    → LastFree (c ∷ s)
    → tail_matches n (c ∷ s) ≡ true
tail_complete n c [] short codes last = (alnum_iff c).1 (codes.0, last)
tail_complete zero c (d ∷ ds) short codes last = absurd (omega (arith, short))
tail_complete (suc n) c (d ∷ ds) short codes last =
    rw codes.0 (tail_complete n d ds (omega (arith, short)) codes.1 last)

label_sound : (s : Text) → label_matches s ≡ true → IsHost s
label_sound [] h = absurd cc
label_sound (c ∷ []) h =
    let both = (alnum_iff c).0 h in
    record {
      nonempty = λ e. absurd cc;
      short = omega arith;
      codes = (both.0, tt);
      head = both.1;
      last = both.1;
    }
label_sound (c ∷ d ∷ ds) h =
    let both = and_true (is_alnum c) (tail_matches 61 (d ∷ ds)) h in
    let head = (alnum_iff c).0 both.0 in
    let (short, (codes, last)) = tail_sound 61 (d ∷ ds) both.1 in
    record {
      nonempty = λ e. absurd cc;
      short = omega (arith, short);
      codes = (head.0, codes);
      head = head.1;
      last = last;
    }

label_complete : (s : Text) → IsHost s → label_matches s ≡ true
label_complete [] h = absurd (h.nonempty refl)
label_complete (c ∷ []) h = (alnum_iff c).1 (h.codes.0, h.head)
label_complete (c ∷ d ∷ ds) h =
    rw ((alnum_iff c).1 (h.codes.0, h.head))
      (tail_complete 61 d ds (omega (arith, h.short)) h.codes.1 h.last)

-- `validate_subdomain` gives back what it accepts, and accepts exactly a text that is no reserved name
-- and that is, but for one newline at its end, a DNS label of 1 to 63 codes.
pub validate_subdomain-exact :
    (t : Text) → (validate_subdomain t ≡ ok t) ↔ (IsHost (chomp t) × (is_reserved t ≡ false))
unfolding validate_subdomain
validate_subdomain-exact t = elim (Bool-cases (label_matches (chomp t))) [
  | inr e ↦ rw e (λ h. absurd cc, λ h. absurd (cc (label_complete (chomp t) h.0)))
  | inl e ↦ elim (Bool-cases (is_reserved t)) [
    | inl r ↦ rw (e, r) (λ h. absurd cc, λ h. absurd cc)
    | inr r ↦ rw (e, r) (λ h. (label_sound (chomp t) e, refl), λ h. refl)
  ]
]
