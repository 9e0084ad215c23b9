-- ===== src/Requests/Password.antt =====
-- What passwords are accepted.
use gsm_sv.Prelude.{
  ℕ, ◌≤◌, ◌==◌, ==_iff, Bool, true, false, not, Bool-cases, inl, inr, [], ◌∷◌, ◌≡◌, ◌↔◌, refl, sym,
  subst, ◌∙◌, any, length, leb, leb→le, le→leb, ltb, ltb_false→le, le→ltb_false, and_true,
}
use gsm_sv.Exec.{ok}
use gsm_sv.Models.{Text}
use gsm_sv.Caddy.Subdomain.{chomp}
use gsm_sv.Requests.{
  is_letter, is_special, is_newline, looks_ahead, fills_line, utf8_bytes, max_password_bytes,
  pw_matches, validate_pw,
}

not→false : (b : Bool) → not b ≡ true → b ≡ false
not→false false h = refl
not→false true h = absurd cc

module _ (q : ℕ → Bool) (newline : q 10 ≡ false) where
  -- On one line, but for a newline at its end, the look-ahead is a search.
  looks_ahead-any :
      (t : Text) → any is_newline (chomp t) ≡ false → looks_ahead q t ≡ any q (chomp t)
  unfolding looks_ahead
  looks_ahead-any [] h = refl
  looks_ahead-any (c ∷ []) h = elim (Bool-cases (c == 10)) [
    | inl e ↦
        let other = subst (λ n. q n ≡ false) (sym ((==_iff c 10).0 e)) newline in rw (e, other) refl
    | inr e ↦ rw e refl
  ]
  looks_ahead-any (c ∷ d ∷ ds) h = elim (Bool-cases (c == 10)) [
    | inl e ↦ absurd (cc (rw e at h))
    | inr e ↦ rw (e, looks_ahead-any (d ∷ ds) (rw e at h)) refl
  ]

module _ (is_decimal : ℕ → Bool) where
  -- A password of one line, but for a newline at its end: at least eight characters on the line, a
  -- letter, a digit and a symbol among them, and at most 72 bytes.
  pub record IsStrong (t : Text) : Type 0 where
    pub one_line : any is_newline (chomp t) ≡ false
    pub long : 8 ≤ length (chomp t)
    pub letter : any is_letter (chomp t) ≡ true
    pub decimal : any is_decimal (chomp t) ≡ true
    pub special : any is_special (chomp t) ≡ true
    pub fits : utf8_bytes t ≤ max_password_bytes

  module _ (newline : is_decimal 10 ≡ false) where
    pw_matches-IsStrong :
        (t : Text) → pw_matches is_decimal t ≡ true → utf8_bytes t ≤ max_password_bytes → IsStrong t
    pw_matches-IsStrong t h fits =
        let a = and_true (looks_ahead is_letter t) _ h in
        let b = and_true (looks_ahead is_decimal t) _ a.1 in
        let c = and_true (looks_ahead is_special t) (fills_line t) b.1 in
        let d = and_true (not (any is_newline (chomp t))) (leb 8 (length (chomp t))) c.1 in
        let line : any is_newline (chomp t) ≡ false = not→false (any is_newline (chomp t)) d.0 in
        record {
          one_line = line;
          long = leb→le 8 (length (chomp t)) d.1;
          letter = sym (looks_ahead-any is_letter refl t line) ∙ a.0;
          decimal = sym (looks_ahead-any is_decimal newline t line) ∙ b.0;
          special = sym (looks_ahead-any is_special refl t line) ∙ c.0;
          fits = fits;
        }

    IsStrong-pw_matches : (t : Text) → IsStrong t → pw_matches is_decimal t ≡ true
    IsStrong-pw_matches t s =
        rw
          (
            looks_ahead-any is_letter refl t s.one_line,
            looks_ahead-any is_decimal newline t s.one_line,
            looks_ahead-any is_special refl t s.one_line,
            s.letter,
            s.decimal,
            s.special,
            s.one_line,
            le→leb 8 (length (chomp t)) s.long,
          )
          refl

    -- `_validate_pw` accepts exactly the strong passwords, as they are, if a newline is no decimal digit
    -- (is_decimal is what `\d` matches): one line, but for a newline at the end, of at least eight
    -- characters with a letter, a digit and a symbol among them, and at most 72 bytes in UTF-8.
    pub validate_pw-exact : (t : Text) → (validate_pw is_decimal t ≡ ok t) ↔ IsStrong t
    unfolding validate_pw
    validate_pw-exact t = (
      accepted,
      λ s. rw (IsStrong-pw_matches t s, le→ltb_false max_password_bytes (utf8_bytes t) s.fits) refl,
    )
      where
        accepted : validate_pw is_decimal t ≡ ok t → IsStrong t
        accepted h = elim (Bool-cases (pw_matches is_decimal t)) [
          | inr e ↦ absurd (cc (rw e at h))
          | inl e ↦ elim (Bool-cases (ltb max_password_bytes (utf8_bytes t))) [
            | inl f ↦ absurd (cc (rw (e, f) at h))
            | inr f ↦ pw_matches-IsStrong t e (ltb_false→le max_password_bytes (utf8_bytes t) f)
          ]
        ]
