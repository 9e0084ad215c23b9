-- ===== src/Background/Admins/Once.antt =====
-- `_send_admin_expiry_notifications` run twice on a day, and the counting of failed rounds.
use gsm_sv.Prelude.{
  any-append, any_last, ℕ, zero, suc, ◌+◌, ◌≤◌, ◌==◌, ==_refl, Bool, true, false, not, ◌&&◌,
  Bool-cases, inl, inr, List, [], ◌∷◌, ◌≡◌, refl, sym, ap, ◌∙◌, arith, any, map, leb, ltb, le→leb,
  All, if◌then◌else◌,
}
use gsm_sv.Table.{select, count_where}
use gsm_sv.Models.{Text, User, Vm, Notification, info, admin_expiry, Db}
use gsm_sv.Vm.Names.{codes}
use gsm_sv.Background.Messages.{text_of_notice, starts_with}
use gsm_sv.Background.Expire.{is_soon, midnight}
use gsm_sv.Background.Admins.{
  is_active_admin, admin_row, tell_admins, run_rounds, expiry_of, is_info, todays_notice_of,
  has_notice, untold, send_for, send_admin_expiry_notifications,
}

module _ (now later : ℕ) (same_day : midnight later ≡ midnight now) where
  abbrev Has : Db → User → Type 0
  Has db u = has_notice later db.notifications.rows u ≡ true

  new_notice :
      (parts : List (Text × ℕ × ℕ)) (u : User) (id : ℕ)
      → todays_notice_of later u.id (admin_row info (admin_expiry parts) now u id) ≡ true
  new_notice parts u id = rw (==_refl u.id) (le→leb (midnight later) now (omega (arith, same_day)))

  tell_keeps :
      (parts : List (Text × ℕ × ℕ)) (us : List User) (other : User) (db : Db)
      → Has db other
      → Has (tell_admins info (admin_expiry parts) now us db) other
  tell_keeps parts [] other db h = h
  tell_keeps parts (u ∷ us) other db h =
      tell_keeps parts us other _
        (any-append (todays_notice_of later other.id) db.notifications.rows _ h)

  tell-Has :
      (parts : List (Text × ℕ × ℕ)) (us : List User) (db : Db)
      → All (Has (tell_admins info (admin_expiry parts) now us db)) us
  tell-Has parts [] db = tt
  tell-Has parts (u ∷ us) db = (
    tell_keeps parts us u _ (
        any_last (todays_notice_of later u.id) db.notifications.rows _
          (new_notice parts u db.notifications.next_id)),
    tell-Has parts us _,
  )

  same_notice :
      (rows : List Notification) (u : User) → has_notice now rows u ≡ has_notice later rows u
  same_notice rows u =
      ap
        (λ m.
          any
            (λ (n : Notification).
              n.user_id == u.id
              && (is_info n.kind
                  && (starts_with (codes "만료 임박 VM") (text_of_notice n.message)
                      && leb m n.created_at)))
            rows)
        (sym same_day)

  -- Who is not told had a notice.
  all-Has :
      (db : Db) (rows : List Notification) (us : List User)
      → ((u : User) → has_notice now rows u ≡ true → Has db u)
      → All (Has db) (untold now rows us)
      → All (Has db) us
  all-Has db rows [] old new = tt
  all-Has db rows (u ∷ us) old new = elim (Bool-cases (has_notice now rows u)) [
    | inl e ↦ (old u e, all-Has db rows us old (rw e at new))
    | inr e ↦
        let both : Has db u × All (Has db) (untold now rows us) = rw e at new in
        (both.0, all-Has db rows us old both.1)
  ]

  none_untold :
      (db : Db) (us : List User) → All (Has db) us → untold later db.notifications.rows us ≡ []
  none_untold db [] h = refl
  none_untold db (u ∷ us) h = rw h.0 (none_untold db us h.1)

same_users :
    (parts : List (Text × ℕ × ℕ)) (now : ℕ) (us : List User) (db : Db)
    → (tell_admins info (admin_expiry parts) now us db).users ≡ db.users
same_users parts now [] db = refl
same_users parts now (u ∷ us) db = same_users parts now us _

module _ (now later : ℕ) (same_day : midnight later ≡ midnight now) where
  send-Has :
      (vms : List Vm) (vm : Vm) (db : Db)
      → All
          (Has now later same_day (send_for now (vm ∷ vms) db))
          (select is_active_admin db.users.rows)
  send-Has vms vm db =
      let parts = map (expiry_of now) (vm ∷ vms) in
      let admins = select is_active_admin db.users.rows in
      let told = untold now db.notifications.rows admins in
      all-Has now later same_day (tell_admins info (admin_expiry parts) now told db)
        db.notifications.rows admins
        (λ u has.
          tell_keeps now later same_day parts told u db
            (sym (same_notice now later same_day db.notifications.rows u) ∙ has))
        (tell-Has now later same_day parts told db)

  again :
      (vms : List Vm) (db : Db)
      → All (Has now later same_day db) (select is_active_admin db.users.rows)
      → send_for later vms db ≡ db
  again [] db h = refl
  again (vm ∷ vms) db h =
      rw (none_untold now later same_day db (select is_active_admin db.users.rows) h) refl

  -- Nothing ends soon and nothing is written, or every administrator has a notice and later on the day
  -- no one gets another.
  abbrev pub OnceBy : Db → List Vm → Db → Type 0
  OnceBy db [] db' = db' ≡ db
  OnceBy db (vm ∷ vms) db' =
      All (λ u. has_notice later db'.notifications.rows u ≡ true)
        (select is_active_admin db.users.rows)
      × (send_admin_expiry_notifications later db' ≡ db')

  -- `_send_admin_expiry_notifications`, and a second run of it later on the same day: if a VM ends
  -- within three days, the first run leaves every active administrator with a notice of the day, and
  -- the second run writes nothing. Otherwise the first run writes nothing.
  pub send_admin_expiry-OnceBy :
      (db : Db)
      → OnceBy db (select (is_soon now) db.vms.rows) (send_admin_expiry_notifications now db)
  unfolding send_admin_expiry_notifications
  send_admin_expiry-OnceBy db = go (select (is_soon now) db.vms.rows)
    where
      go : (vms : List Vm) → OnceBy db vms (send_for now vms db)
      go [] = refl
      go (vm ∷ vms) =
          let has = send-Has vms vm db in
          let db' = send_for now (vm ∷ vms) db in
          let same =
            same_users (map (expiry_of now) (vm ∷ vms)) now
              (untold now db.notifications.rows (select is_active_admin db.users.rows)) db in
          (has, again (select (is_soon later) db'.vms.rows) db' (rw same has))

-- A row of failed rounds.
abbrev pub failing : ℕ → List Bool
failing zero = []
failing (suc n) = true ∷ failing n

run_rounds-failing :
    (n failures : ℕ)
    → (run_rounds (failing n) failures).1
      ≡ (if ltb failures 5 && leb 5 (failures + n) then 1 else 0)
unfolding run_rounds
run_rounds-failing zero failures = ground arith
run_rounds-failing (suc n) failures = ground (arith, run_rounds-failing n (suc failures))

told_bound :
    (rounds : List Bool) (failures : ℕ)
    → (run_rounds rounds failures).1 ≤ (if ltb failures 5 then 1 else 0) + count_where not rounds
unfolding run_rounds
told_bound [] failures = ground arith
told_bound (true ∷ rounds) failures = ground (arith, told_bound rounds (suc failures))
told_bound (false ∷ rounds) failures = ground (arith, told_bound rounds 0)

-- However the rounds of a background loop end, administrators are told of failures at most once more
-- often than there are rounds that succeed; and a row of failures from the start tells them once if it
-- is five long or longer, and not at all if it is shorter.
pub run_rounds-once :
    (rounds : List Bool) (n : ℕ)
    → ((run_rounds rounds 0).1 ≤ suc (count_where not rounds))
      × ((run_rounds (failing n) 0).1 ≡ (if leb 5 n then 1 else 0))
run_rounds-once rounds n = (
  let bound = told_bound rounds 0 in omega (arith, bound),
  let streak = run_rounds-failing n 0 in ground (arith, streak),
)
