-- ===== src/Background/Schedule.antt =====
-- `_next_notify_sleep_seconds` (main.py): the time to the next of the hours of a day.
pub mod Sorting
pub mod Next
use gsm_sv.Prelude.{
  ℕ, zero, suc, ◌+◌, ◌-◌, ◌*◌, ◌/◌, ◌%◌, ◌≤◌, ◌<◌, ◌==◌, Bool, true, false, Bool-cases, inl, inr,
  ◌⊎◌, Option, none, some, List, [], ◌∷◌, ◌≡◌, refl, arith, ltb, leb, ltb→lt, ltb_false→le, leb→le,
  leb_false→lt, All, if◌then◌else◌,
}
use gsm_sv.Models.{seconds_per_day}
use gsm_sv.Background.Expire.{midnight}

abbrev pub put_in : ℕ → List ℕ → List ℕ
put_in h [] = h ∷ []
put_in h (k ∷ ks) = let rest = put_in h ks in if leb h k then h ∷ k ∷ ks else k ∷ rest

-- `sorted(hours)`
abbrev pub sort_hours : List ℕ → List ℕ
sort_hours [] = []
sort_hours (h ∷ hs) = put_in h (sort_hours hs)

-- The first of the sorted hours that is still to come today.
abbrev pub next_today : (today now : ℕ) → List ℕ → Option ℕ
next_today today now [] = none
next_today today now (h ∷ hs) =
    let rest = next_today today now hs in
    if ltb now (today + h * 3600) then some (today + h * 3600 - now) else rest

-- Else the first of them tomorrow; no hours at all raise an IndexError.
abbrev pub first_tomorrow : (today now : ℕ) → List ℕ → Option ℕ
first_tomorrow today now [] = none
first_tomorrow today now (h ∷ hs) = some (today + seconds_per_day + h * 3600 - now)

abbrev pub or_else : Option ℕ → Option ℕ → Option ℕ
or_else none o = o
or_else (some n) o = some n

unfoldable pub next_notify_sleep_seconds : (now : ℕ) → List ℕ → Option ℕ
next_notify_sleep_seconds now hours =
    or_else (next_today (midnight now) now (sort_hours hours))
      (first_tomorrow (midnight now) now (sort_hours hours))
