-- ===== src/Background/Messages.antt =====
-- The texts of notifications, and the tests of `Notification.message.contains` and `like` on them.
use gsm_sv.Prelude.{
  ℕ, zero, suc, ◌+◌, ◌/◌, ◌%◌, ◌≤◌, ◌==◌, ==_refl, Bool, true, false, ◌&&◌, ◌||◌, List, [], ◌∷◌,
  ◌++◌, ◌≡◌, refl, ap, ltb, lt→ltb, ltb_false→le, length, if◌then◌else◌, Bool-cases, inl, inr,
  arith,
}
use gsm_sv.Models.{
  Text, NotificationText, vm_created, vm_deleted, vm_expired_deleted, vm_grace, vm_expiring,
  admin_expiry, task_failing,
}
use gsm_sv.Vm.Names.{codes}

-- `str` of a number; the number itself is fuel enough, since it has fewer digits.
abbrev pub digits_from : ℕ → ℕ → Text
digits_from zero n = (48 + n) ∷ []
digits_from (suc fuel) n =
    let front = digits_from fuel (n / 10) in
    if ltb n 10 then (48 + n) ∷ [] else front ++ (48 + n % 10) ∷ []

abbrev pub digits : ℕ → Text
digits n = digits_from n n

-- `', '.join(parts)` of `_send_admin_expiry_notifications`.
abbrev pub expiry_part : Text × ℕ × ℕ → Text
expiry_part (name, days, hours) =
    name ++ codes "(" ++ digits days ++ codes "일 " ++ digits hours ++ codes "시간)"

abbrev pub join_parts : List (Text × ℕ × ℕ) → Text
join_parts [] = []
join_parts (part ∷ []) = expiry_part part
join_parts (part ∷ next ∷ parts) = expiry_part part ++ codes ", " ++ join_parts (next ∷ parts)

-- The f-strings.
abbrev pub text_of_notice : NotificationText → Text
text_of_notice (vm_created name server) =
    codes "VM '" ++ name ++ codes "'이(가) 노드 '" ++ codes server ++ codes "'에 생성되었습니다."
text_of_notice (vm_deleted name) = codes "VM '" ++ name ++ codes "'이(가) 삭제되었습니다."
text_of_notice (vm_expired_deleted name) = codes "VM '" ++ name ++ codes "'이(가) 만료되어 자동 삭제되었습니다."
text_of_notice (vm_grace name) = codes "VM '" ++ name ++ codes "'이(가) 만료되어 정지되었습니다. 3일 후 완전 삭제됩니다."
text_of_notice (vm_expiring name days) =
    codes "VM '" ++ name ++ codes "': 만료까지 " ++ digits days ++ codes "일 남았습니다. 연장해주세요."
text_of_notice (admin_expiry parts) =
    codes "만료 임박 VM " ++ digits (length parts) ++ codes "개: " ++ join_parts parts
text_of_notice (task_failing task failures) =
    codes "["
    ++ codes task
    ++ codes "] 백그라운드 태스크 연속 "
    ++ digits failures
    ++ codes "회 실패 — 점검이 필요합니다."

abbrev pub starts_with : Text → Text → Bool
starts_with [] t = true
starts_with (c ∷ cs) [] = false
starts_with (c ∷ cs) (d ∷ ds) = c == d && starts_with cs ds

-- `contains`. The names that it is called with are DNS labels, without the wildcards of LIKE.
abbrev pub contains : Text → Text → Bool
contains s [] = starts_with s []
contains s (c ∷ cs) = starts_with s (c ∷ cs) || contains s cs

pub starts_with-append : (s t : Text) → starts_with s (s ++ t) ≡ true
starts_with-append [] t = refl
starts_with-append (c ∷ cs) t = rw (==_refl c) (starts_with-append cs t)

-- A part that starts the text is in it, and one that is in the end is in the whole.
pub contains_start : (s t : Text) → contains s (s ++ t) ≡ true
contains_start [] [] = refl
contains_start [] (d ∷ ds) = refl
contains_start (c ∷ cs) t = rw (starts_with-append (c ∷ cs) t) refl

pub contains_later : (s u t : Text) → contains s t ≡ true → contains s (u ++ t) ≡ true
contains_later s [] t h = h
contains_later s (c ∷ cs) t h = ground (arith, contains_later s cs t h)

-- More fuel gives the same digits.
digits_more : (fuel n : ℕ) → n ≤ fuel → digits_from (suc fuel) n ≡ digits_from fuel n
digits_more zero n h = rw (lt→ltb n 10 (omega (arith, h))) refl
digits_more (suc fuel) n h = elim (Bool-cases (ltb n 10)) [
  | inl e ↦ rw e refl
  | inr e ↦ rw e (
      ap (λ front. front ++ (48 + n % 10) ∷ [])
        (digits_more fuel (n / 10) (omega (arith, h, ltb_false→le n 10 e))))
]
