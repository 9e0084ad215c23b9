-- ===== src/Requests/Dport/Printed.antt =====
-- Which printed numbers and ranges are accepted as ports.
use gsm_sv.Prelude.{
  ℕ, zero, suc, ◌+◌, ◌*◌, ◌/◌, ◌%◌, ◌≤◌, ◌<◌, ◌==◌, Bool, true, false, ◌&&◌, Bool-cases, inl, inr,
  Option, none, some, List, [], ◌∷◌, ◌++◌, ◌≡◌, refl, ap, ◌∙◌, arith, All, All-append, leb, ltb,
  ltb_false→le, ltb→lt, length, if◌then◌else◌,
}
use gsm_sv.Exec.{ok, err, value_error}
use gsm_sv.Models.{Text}
use gsm_sv.Background.Messages.{digits, digits_from}
use gsm_sv.Requests.Dport.{split, int_from, int, is_port, all_ports, validate_dport}

abbrev NoColon : Text → Type 0
NoColon t = All (λ c. (c == 58) ≡ false) t

digits_from-NoColon : (fuel n : ℕ) → n ≤ fuel → NoColon (digits_from fuel n)
digits_from-NoColon zero n h = (ground (arith, h), tt)
digits_from-NoColon (suc fuel) n h = elim (Bool-cases (ltb n 10)) [
  | inl e ↦ rw e (ground (arith, ltb→lt n 10 e), tt)
  | inr e ↦ rw e (
      All-append (λ c. (c == 58) ≡ false) (digits_from fuel (n / 10)) ((48 + n % 10) ∷ [])
        (digits_from-NoColon fuel (n / 10) (omega (arith, h, ltb_false→le n 10 e)))
        (ground arith, tt))
]

split_one : (t : Text) → NoColon t → split t ≡ t ∷ []
unfolding split
split_one [] h = refl
split_one (c ∷ cs) h = rw (h.0, split_one cs h.1) refl

split_two : (t u : Text) → NoColon t → split (t ++ 58 ∷ u) ≡ t ∷ split u
unfolding split
split_two [] u h = refl
split_two (c ∷ cs) u h = rw (h.0, split_two cs u h.1) refl

and_end : (b : Bool) → (b && true) ≡ b
and_end true = refl
and_end false = refl

module _ (value : ℕ → Option ℕ) (decimal : (d : ℕ) → d < 10 → value (48 + d) ≡ some d) where
  int_last :
      (k : ℕ) (t : Text) (n d : ℕ)
      → int_from value k t ≡ some n
      → d < 10
      → int_from value k (t ++ (48 + d) ∷ []) ≡ some (n * 10 + d)
  unfolding int_from
  int_last k [] n d h lt = rw (decimal d lt) (
      ap (λ (o : Option ℕ). elim o as (λ o. Option ℕ) [ none ↦ none | some m ↦ some (m * 10 + d) ])
        h)
  int_last k (c ∷ cs) n d h lt = go (λ k' h'. int_last k' cs n d h' lt) (value c) refl
    where
      go :
          ((k' : ℕ)
            → int_from value k' cs ≡ some n
            → int_from value k' (cs ++ (48 + d) ∷ []) ≡ some (n * 10 + d))
          → (o : Option ℕ) → value c ≡ o
          → int_from value k (c ∷ cs ++ (48 + d) ∷ []) ≡ some (n * 10 + d)
      go later none e = absurd (cc (rw (e, int_from) at h))
      go later (some x) e = rw e (later (k * 10 + x) (rw (e, int_from) at h))

  int_digits : (fuel n : ℕ) → n ≤ fuel → int_from value 0 (digits_from fuel n) ≡ some n
  unfolding int_from
  int_digits zero n h = rw (decimal n (omega (arith, h))) (ap some (omega arith))
  int_digits (suc fuel) n h = elim (Bool-cases (ltb n 10)) [
    | inl e ↦ rw e (rw (decimal n (ltb→lt n 10 e)) (ap some (omega arith)))
    | inr e ↦ rw e (
        int_last 0 (digits_from fuel (n / 10)) (n / 10) (n % 10)
          (int_digits fuel (n / 10) (omega (arith, h, ltb_false→le n 10 e))) (omega arith)
        ∙ ap some (omega arith))
  ]

  -- An empty text is no port, and would be none as the number 0.
  int-is_port : (t : Text) → is_port value (int value t) ≡ is_port value (int_from value 0 t)
  unfolding int_from
  int-is_port [] = refl
  int-is_port (c ∷ cs) = refl

  digits-is_port : (n : ℕ) → is_port value (int value (digits n)) ≡ (leb 1 n && leb n 65535)
  digits-is_port n = int-is_port (digits n) ∙ ap (is_port value) (int_digits n n (omega arith))

  digits_cons : (fuel n : ℕ) → (c : ℕ) × (cs : Text) × (digits_from fuel n ≡ c ∷ cs)
  digits_cons zero n = (48 + n, [], refl)
  digits_cons (suc fuel) n = elim (Bool-cases (ltb n 10)) [
    | inl e ↦ (48 + n, [], rw e refl)
    | inr e ↦
        let (c, cs, same) = digits_cons fuel (n / 10) in
        (c, cs ++ (48 + n % 10) ∷ [], rw e (rw same refl))
  ]

  -- A text of at most two parts is judged by its parts.
  by_parts :
      (c : ℕ) (cs t : Text)
      → t ≡ c ∷ cs
      → ltb 2 (length (split t)) ≡ false
      → validate_dport value t ≡ (if all_ports value (split t) then ok t else err value_error)
  unfolding validate_dport
  by_parts c cs [] e few = absurd cc
  by_parts c cs (x ∷ xs) e few = rw few refl

  -- `_validate_dport` on the decimal numeral of a number, and on two of them with a colon between:
  -- accepted as it is if every number is from 1 to 65535, in whatever order, and refused otherwise; if
  -- `value` gives the value of the ten ASCII digits.
  pub validate_dport-digits :
      (a b : ℕ)
      → (validate_dport value (digits a)
          ≡ (if leb 1 a && leb a 65535 then ok (digits a) else err value_error))
        × (validate_dport value (digits a ++ 58 ∷ digits b) ≡ (
            if (leb 1 a && leb a 65535) && (leb 1 b && leb b 65535)
            then ok (digits a ++ 58 ∷ digits b)
            else err value_error))
  validate_dport-digits a b = (one, two)
    where
      plain : (n : ℕ) → NoColon (digits n)
      plain n = digits_from-NoColon n n (omega arith)

      one :
          validate_dport value (digits a)
          ≡ (if leb 1 a && leb a 65535 then ok (digits a) else err value_error)
      one =
          let (c, cs, same) = digits_cons a a in
          let parts = split_one (digits a) (plain a) in
          by_parts c cs (digits a) same (rw parts refl)
          ∙ rw (parts, digits-is_port a)
              (ap (λ x. if x then ok (digits a) else err value_error)
                (and_end (leb 1 a && leb a 65535)))

      two : validate_dport value (digits a ++ 58 ∷ digits b) ≡ (
          if (leb 1 a && leb a 65535) && (leb 1 b && leb b 65535)
          then ok (digits a ++ 58 ∷ digits b)
          else err value_error)
      two =
          let (c, cs, same) = digits_cons a a in
          let t = digits a ++ 58 ∷ digits b in
          let parts : split t ≡ digits a ∷ digits b ∷ [] =
            split_two (digits a) (digits b) (plain a)
            ∙ ap (λ (l : List Text). digits a ∷ l) (split_one (digits b) (plain b)) in
          by_parts c (cs ++ 58 ∷ digits b) t (ap (λ (x : Text). x ++ 58 ∷ digits b) same)
            (rw parts refl)
          ∙ rw (parts, digits-is_port a, digits-is_port b)
              (ap (λ x. if (leb 1 a && leb a 65535) && x then ok t else err value_error)
                (and_end (leb 1 b && leb b 65535)))
