-- ===== src/Vm/Names/Label.antt =====
-- What `_sanitize_dns_name` makes of a name.
use gsm_sv.Prelude.{
  ℕ, Bool, true, false, ◌&&◌, [], ◌∷◌, ◌≡◌, ◌≢◌, ◌==◌, arith, refl, All, Bool-cases, inl, inr,
  ==_iff,
}
use gsm_sv.Models.{Text}
use gsm_sv.Vm.Names.{
  lower, lower_code, is_dns_code, mask, squeeze, lstrip, rcons, rstrip, or_vm, sanitize_dns_name,
}

abbrev DnsCode : ℕ → Type 0
DnsCode c = is_dns_code c ≡ true

-- The first code, if there is one, is no hyphen.
abbrev pub HeadFree : Text → Type 0
HeadFree [] = Unit
HeadFree (c ∷ cs) = c ≢ 45

-- Nor is the last.
abbrev pub LastFree : Text → Type 0
LastFree [] = Unit
LastFree (c ∷ []) = c ≢ 45
LastFree (c ∷ d ∷ ds) = LastFree (d ∷ ds)

-- No two hyphens stand side by side.
abbrev pub NoDouble : Text → Type 0
NoDouble [] = Unit
NoDouble (c ∷ cs) = (c ≡ 45 → HeadFree cs) × NoDouble cs

-- A DNS label of lower-case letters, digits and single inner hyphens.
pub record IsLabel (s : Text) : Type 0 where
  pub nonempty : s ≢ []
  pub codes : All (λ c. is_dns_code c ≡ true) s
  pub head : HeadFree s
  pub last : LastFree s
  pub single : NoDouble s

mask-DnsCode : (s : Text) → All DnsCode (mask s)
unfolding mask
mask-DnsCode [] = tt
mask-DnsCode (c ∷ cs) = elim (Bool-cases (is_dns_code c)) [
  | inl e ↦ (rw e e, mask-DnsCode cs)
  | inr e ↦ (rw e refl, mask-DnsCode cs)
]

module _ (P : ℕ → Type 0) where
  All-squeeze : (after : Bool) (s : Text) → All P s → All P (squeeze after s)
  unfolding squeeze
  All-squeeze after [] h = tt
  All-squeeze after (c ∷ cs) h = elim (Bool-cases (after && c == 45)) [
    | inl e ↦ rw e (All-squeeze (c == 45) cs h.1)
    | inr e ↦ rw e (h.0, All-squeeze (c == 45) cs h.1)
  ]

  All-lstrip : (s : Text) → All P s → All P (lstrip s)
  unfolding lstrip
  All-lstrip [] h = tt
  All-lstrip (c ∷ cs) h = elim (Bool-cases (c == 45)) [
    | inl e ↦ rw e (All-lstrip cs h.1)
    | inr e ↦ rw e h
  ]

  All-rcons : (c : ℕ) (s : Text) → P c → All P s → All P (rcons c s)
  All-rcons c [] h hs = elim (Bool-cases (c == 45)) [ inl e ↦ rw e tt | inr e ↦ rw e (h, tt) ]
  All-rcons c (d ∷ ds) h hs = (h, hs)

  All-rstrip : (s : Text) → All P s → All P (rstrip s)
  unfolding rstrip
  All-rstrip [] h = tt
  All-rstrip (c ∷ cs) h = All-rcons c (rstrip cs) h.0 (All-rstrip cs h.1)

-- After a hyphen no hyphen follows.
squeeze-HeadFree : (s : Text) → HeadFree (squeeze true s)
unfolding squeeze
squeeze-HeadFree [] = tt
squeeze-HeadFree (c ∷ cs) = elim (Bool-cases (c == 45)) [
  | inl e ↦ rw e (squeeze-HeadFree cs)
  | inr e ↦ rw e (λ h. ground arith)
]

squeeze-NoDouble : (after : Bool) (s : Text) → NoDouble (squeeze after s)
unfolding squeeze
squeeze-NoDouble after [] = tt
squeeze-NoDouble after (c ∷ cs) = elim (Bool-cases (after && c == 45)) [
  | inl e ↦ rw e (squeeze-NoDouble (c == 45) cs)
  | inr e ↦ rw e (λ h. rw ((==_iff c 45).1 h) (squeeze-HeadFree cs), squeeze-NoDouble (c == 45) cs)
]

lstrip-NoDouble : (s : Text) → NoDouble s → NoDouble (lstrip s)
unfolding lstrip
lstrip-NoDouble [] h = tt
lstrip-NoDouble (c ∷ cs) h = elim (Bool-cases (c == 45)) [
  | inl e ↦ rw e (lstrip-NoDouble cs h.1)
  | inr e ↦ rw e h
]

lstrip-HeadFree : (s : Text) → HeadFree (lstrip s)
unfolding lstrip
lstrip-HeadFree [] = tt
lstrip-HeadFree (c ∷ cs) = elim (Bool-cases (c == 45)) [
  | inl e ↦ rw e (lstrip-HeadFree cs)
  | inr e ↦ rw e (λ h. ground arith)
]

rcons-HeadFree : (c : ℕ) (s : Text) → c ≢ 45 → HeadFree (rcons c s)
rcons-HeadFree c [] h = ground arith
rcons-HeadFree c (d ∷ ds) h = h

rstrip-HeadFree : (s : Text) → HeadFree s → HeadFree (rstrip s)
unfolding rstrip
rstrip-HeadFree [] h = tt
rstrip-HeadFree (c ∷ cs) h = rcons-HeadFree c (rstrip cs) h

rcons-LastFree : (c : ℕ) (s : Text) → LastFree s → LastFree (rcons c s)
rcons-LastFree c [] h = elim (Bool-cases (c == 45)) [
  | inl e ↦ rw e tt
  | inr e ↦ rw e (λ h. ground arith)
]
rcons-LastFree c (d ∷ ds) h = h

rstrip-LastFree : (s : Text) → LastFree (rstrip s)
unfolding rstrip
rstrip-LastFree [] = tt
rstrip-LastFree (c ∷ cs) = rcons-LastFree c (rstrip cs) (rstrip-LastFree cs)

rcons-NoDouble : (c : ℕ) (s : Text) → (c ≡ 45 → HeadFree s) → NoDouble s → NoDouble (rcons c s)
rcons-NoDouble c [] h hs = elim (Bool-cases (c == 45)) [
  | inl e ↦ rw e tt
  | inr e ↦ rw e (λ x. tt, tt)
]
rcons-NoDouble c (d ∷ ds) h hs = (h, hs)

rstrip-NoDouble : (s : Text) → NoDouble s → NoDouble (rstrip s)
unfolding rstrip
rstrip-NoDouble [] h = tt
rstrip-NoDouble (c ∷ cs) h =
    rcons-NoDouble c (rstrip cs) (λ e. rstrip-HeadFree cs (h.0 e)) (rstrip-NoDouble cs h.1)

or_vm-IsLabel :
    (s : Text) → All DnsCode s → HeadFree s → LastFree s → NoDouble s → IsLabel (or_vm s)
or_vm-IsLabel [] a h l n = record {
  nonempty = λ e. cc;
  codes = (refl, (refl, tt));
  head = λ e. omega (arith, e);
  last = λ e. omega (arith, e);
  single = (λ e. λ f. omega (arith, f), (λ e. tt, tt));
}
or_vm-IsLabel (c ∷ cs) a h l n = record {
  nonempty = λ e. cc;
  codes = a;
  head = h;
  last = l;
  single = n;
}

-- Whatever the text, the sanitised name is a non-empty DNS label: only a-z, 0-9 and hyphens, none
-- at either end and no two in a row.
pub sanitize_dns_name-IsLabel : (name : Text) → IsLabel (sanitize_dns_name name)
unfolding sanitize_dns_name
sanitize_dns_name-IsLabel name =
    let masked = mask (lower name) in
    let single = lstrip (squeeze false masked) in
    or_vm-IsLabel (rstrip single)
      (All-rstrip DnsCode single (
        All-lstrip DnsCode (squeeze false masked)
          (All-squeeze DnsCode false masked (mask-DnsCode (lower name)))))
      (rstrip-HeadFree single (lstrip-HeadFree (squeeze false masked))) (rstrip-LastFree single)
      (rstrip-NoDouble single
        (lstrip-NoDouble (squeeze false masked) (squeeze-NoDouble false masked)))

lower_code_dns : (c : ℕ) → DnsCode c → lower_code c ≡ c ∷ []
lower_code_dns c h = ground arith

lower-fixed : (s : Text) → All DnsCode s → lower s ≡ s
unfolding lower
lower-fixed [] h = refl
lower-fixed (c ∷ cs) h = rw (lower_code_dns c h.0, lower-fixed cs h.1)

mask-fixed : (s : Text) → All DnsCode s → mask s ≡ s
unfolding mask
mask-fixed [] h = refl
mask-fixed (c ∷ cs) h = rw (h.0, mask-fixed cs h.1)

squeeze-fixed :
    (after : Bool) (s : Text) → (after ≡ true → HeadFree s) → NoDouble s → squeeze after s ≡ s
unfolding squeeze
squeeze-fixed after [] hd h = refl
squeeze-fixed after (c ∷ cs) hd h =
    let ih : squeeze (c == 45) cs ≡ cs =
      squeeze-fixed (c == 45) cs (λ e. h.0 ((==_iff c 45).0 e)) h.1 in
    ground (arith, ih, hd)

lstrip-fixed : (s : Text) → HeadFree s → lstrip s ≡ s
unfolding lstrip
lstrip-fixed [] h = refl
lstrip-fixed (c ∷ cs) h = ground arith

rstrip-fixed : (s : Text) → LastFree s → rstrip s ≡ s
unfolding rstrip
rstrip-fixed [] h = refl
rstrip-fixed (c ∷ []) h = ground arith
rstrip-fixed (c ∷ d ∷ ds) h = rw (rstrip-fixed (d ∷ ds) h)

or_vm-fixed : (s : Text) → s ≢ [] → or_vm s ≡ s
or_vm-fixed [] h = absurd (h refl)
or_vm-fixed (c ∷ cs) h = refl

-- A name that is a DNS label already is left as it is; so sanitising twice is sanitising once.
pub sanitize_dns_name-fixed : (s : Text) → IsLabel s → sanitize_dns_name s ≡ s
unfolding sanitize_dns_name
sanitize_dns_name-fixed s h = simp (
  lower-fixed s h.codes,
  mask-fixed s h.codes,
  squeeze-fixed false s (λ e. cc) h.single,
  lstrip-fixed s h.head,
  rstrip-fixed s h.last,
  or_vm-fixed s h.nonempty,
)
