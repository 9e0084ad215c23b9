-- ===== src/Background/Schedule/Next.antt =====
-- Where the sleep of `_next_notify_sleep_seconds` ends.
use gsm_sv.Prelude.{
  ℕ, suc, ◌+◌, ◌-◌, ◌*◌, ◌/◌, ◌≤◌, ◌<◌, ◌==◌, ==_refl, true, Bool-cases, inl, inr, Option, none,
  some, List, [], ◌∷◌, ◌≡◌, ◌≢◌, refl, sym, ◌∙◌, arith, any, ltb, leb, ltb→lt, ltb_false→le, All,
  All-map, All-zip,
}
use gsm_sv.Models.{seconds_per_day}
use gsm_sv.Background.Expire.{midnight}
use gsm_sv.Background.Schedule.Sorting.{Sorted, All-sort, sort-All, sort-Sorted, any-sort, All-any}
use gsm_sv.Background.Schedule.{
  put_in, sort_hours, next_today, first_tomorrow, or_else, next_notify_sleep_seconds,
}

-- `n` seconds from now it is one of the hours, and no hour comes before it.
pub record IsNext (now : ℕ) (hours : List ℕ) (n : ℕ) : Type 0 where
  pub hour : ℕ
  pub listed : any (λ k. k == hour) hours ≡ true
  pub day : ℕ
  pub at : now + n ≡ day * 86400 + hour * 3600
  pub later : 0 < n
  pub within : n ≤ 86400
  pub first : All (λ k. (j : ℕ) → now < j * 86400 + k * 3600 → now + n ≤ j * 86400 + k * 3600) hours

-- What the search through the sorted hours of today finds.
abbrev Found : (today now : ℕ) → List ℕ → Option ℕ → Type 0
Found today now ks none = All (λ k. today + k * 3600 ≤ now) ks
Found today now ks (some n) =
    (h : ℕ) × ((any (λ k. k == h) ks ≡ true)
      × ((now < today + h * 3600)
          × ((n ≡ today + h * 3600 - now) × All (λ k. now < today + k * 3600 → h ≤ k) ks)))

Found-later :
    (today now h : ℕ) (hs : List ℕ) (o : Option ℕ)
    → today + h * 3600 ≤ now
    → Found today now hs o
    → Found today now (h ∷ hs) o
Found-later today now h hs none past f = (past, f)
Found-later today now h hs (some n) past (k, (here, (future, (is, least)))) =
    (k, (ground arith, (future, (is, (λ t. absurd (omega (arith, past, t)), least)))))

next_today-Found :
    (today now : ℕ) (ks : List ℕ) → Sorted ks → Found today now ks (next_today today now ks)
next_today-Found today now [] s = tt
next_today-Found today now (h ∷ hs) s = elim (Bool-cases (ltb now (today + h * 3600))) [
  | inl e ↦ rw e (
    h,
    (
      rw (==_refl h) refl,
      (ltb→lt now _ e, (refl, (λ t. omega arith, All-map (λ k le t. le) hs s.0))),
    ),
  )
  | inr e ↦ rw e (
      Found-later today now h hs (next_today today now hs) (ltb_false→le now _ e)
        (next_today-Found today now hs s.1))
]

-- An hour of the day `j` that is after now is not before the one found.
least_time :
    (d now h k j n : ℕ)
    → now + n ≡ d * 86400 + h * 3600
    → d * 86400 ≤ now
    → h < 24
    → (now < d * 86400 + k * 3600 → h ≤ k)
    → now < j * 86400 + k * 3600
    → k < 24
    → now + n ≤ j * 86400 + k * 3600
least_time d now h k j n at before small least t k_small =
    elim (Bool-cases (ltb now (d * 86400 + k * 3600))) [
      | inl e ↦ let le = least (ltb→lt now _ e) in omega (arith, at, before, le, t, small, k_small)
      | inr e ↦
          let past = ltb_false→le now _ e in omega (arith, at, before, past, t, small, k_small)
    ]

least_tomorrow :
    (d now h k j : ℕ)
    → d * 86400 + k * 3600 ≤ now
    → now < d * 86400 + 86400
    → h ≤ k
    → now < j * 86400 + k * 3600
    → suc d * 86400 + h * 3600 ≤ j * 86400 + k * 3600
least_tomorrow d now h k j gone after least t = omega (arith, gone, after, least, t)

put_in-nonempty : (h : ℕ) (ks : List ℕ) → put_in h ks ≢ []
put_in-nonempty h [] e = absurd cc
put_in-nonempty h (k ∷ ks) e = elim (Bool-cases (leb h k)) [
  | inl t ↦ absurd (cc (rw t at e))
  | inr t ↦ absurd (cc (rw t at e))
]

none_sorted : (hours : List ℕ) → sort_hours hours ≡ [] → hours ≡ []
none_sorted [] e = refl
none_sorted (h ∷ hs) e = absurd (put_in-nonempty h (sort_hours hs) e)

module _ (now : ℕ) where
  abbrev today : ℕ
  today = midnight now

  whole : (d : ℕ) × ((today ≡ d * 86400) × ((today ≤ now) × (now < today + 86400)))
  whole = (now / 86400, (omega arith, (omega arith, omega arith)))

  coming :
      (hours : List ℕ) (n : ℕ)
      → All (λ h. h < 24) hours
      → Found today now (sort_hours hours) (some n)
      → IsNext now hours n
  coming hours n small (h, (here, (future, (is, least)))) =
      let (d, (day, (before, after))) = whole in
      let bound : h < 24 =
        All-any (λ h. h < 24) h (sort_hours hours) here (All-sort (λ h. h < 24) hours small) in
      record {
        hour = h;
        listed = sym (any-sort (λ k. k == h) hours) ∙ here;
        day = d;
        at = omega (arith, day, future, is);
        later = omega (arith, future, is);
        within = omega (arith, future, is, before, bound);
        first = sort-All _ hours (
            All-zip
              (λ k least small j t.
                least_time d now h k j n (omega (arith, day, future, is))
                  (omega (arith, day, before)) bound (λ u. least (omega (arith, day, u))) t small)
              (sort_hours hours) least (All-sort (λ h. h < 24) hours small));
      }

  tomorrow :
      (hours : List ℕ) (h : ℕ) (hs : List ℕ)
      → sort_hours hours ≡ h ∷ hs
      → Sorted (h ∷ hs)
      → All (λ k. today + k * 3600 ≤ now) (h ∷ hs)
      → IsNext now hours (today + seconds_per_day + h * 3600 - now)
  tomorrow hours h hs e sorted past =
      let (d, (day, (before, after))) = whole in
      let arrives : now + (today + seconds_per_day + h * 3600 - now) ≡ suc d * 86400 + h * 3600 =
        omega (arith, day, before, after) in
      record {
        hour = h;
        listed = sym (any-sort (λ k. k == h) hours) ∙ rw (e, ==_refl h) refl;
        day = suc d;
        at = arrives;
        later = omega (arith, day, before, after);
        within = omega (arith, past.0, before, after);
        first = sort-All _ hours (
            rw e (
              All-zip
                (λ k gone least j t.
                  let le =
                    least_tomorrow d now h k j (omega (arith, day, gone))
                      (omega (arith, day, after)) least t in
                  omega (arith, arrives, le))
                (h ∷ hs) past (omega arith, sorted.0)));
      }

  abbrev pub NextBy : List ℕ → Option ℕ → Type 0
  NextBy hours none = hours ≡ []
  NextBy hours (some n) = IsNext now hours n

  slept :
      (hours : List ℕ) (ks : List ℕ) (o : Option ℕ)
      → sort_hours hours ≡ ks
      → All (λ h. h < 24) hours
      → Sorted ks
      → Found today now ks o
      → NextBy hours (or_else o (first_tomorrow today now ks))
  slept hours ks (some n) e small sorted f = coming hours n small (rw e f)
  slept hours [] none e small sorted f = none_sorted hours e
  slept hours (h ∷ hs) none e small sorted f = tomorrow hours h hs e sorted f

  -- `_next_notify_sleep_seconds`, for hours from 0 to 23: if there is an hour, the answer is positive,
  -- at most a day, and that much later it is one of the hours, on the hour; none of them comes before
  -- it on any day.
  pub next_notify_sleep_seconds-NextBy :
      (hours : List ℕ)
      → All (λ h. h < 24) hours
      → NextBy hours (next_notify_sleep_seconds now hours)
  unfolding next_notify_sleep_seconds
  next_notify_sleep_seconds-NextBy hours small =
      slept hours (sort_hours hours) (next_today today now (sort_hours hours)) refl small
        (sort-Sorted hours) (next_today-Found today now (sort_hours hours) (sort-Sorted hours))
