-- ===== src/Background/Admins.antt =====
-- What administrators hear (main.py): `_notify_admins_background_failure`,
-- `_send_admin_expiry_notifications` and the counting of failed rounds that every loop does.
pub mod Once
use gsm_sv.Prelude.{
  ℕ, zero, suc, ◌+◌, ◌-◌, ◌/◌, ◌%◌, ◌==◌, Bool, true, false, ◌&&◌, Option, none, some, String, List,
  [], ◌∷◌, map, any, leb, if◌then◌else◌,
}
use gsm_sv.Table.{select, insert}
use gsm_sv.Models.{
  Text, admin, eq_role, User, Vm, Notification, NotificationKind, success, info, error,
  NotificationText, admin_expiry, task_failing, Db, seconds_per_day,
}
use gsm_sv.Vm.Names.{codes}
use gsm_sv.Background.Messages.{text_of_notice, starts_with}
use gsm_sv.Background.Expire.{is_soon, end_of, midnight}

abbrev pub is_active_admin : User → Bool
is_active_admin u = eq_role u.role admin && u.is_active

abbrev pub admin_row : NotificationKind → NotificationText → ℕ → User → ℕ → Notification
admin_row kind text now u id = record {
  id = id;
  user_id = u.id;
  kind = kind;
  message = text;
  is_read = false;
  created_at = now;
}

abbrev pub tell_admins : NotificationKind → NotificationText → ℕ → List User → Db → Db
tell_admins kind text now [] db = db
tell_admins kind text now (u ∷ us) db =
    tell_admins kind text now us
      (record db { notifications = insert (admin_row kind text now u) db.notifications })

-- `_notify_admins_background_failure`
unfoldable pub notify_admins_background_failure : String → ℕ → ℕ → Db → Db
notify_admins_background_failure task failures now db =
    tell_admins error (task_failing task failures) now (select is_active_admin db.users.rows) db

-- BACKGROUND_FAILURE_NOTIFY_THRESHOLD
abbrev pub notify_threshold : ℕ
notify_threshold = 5

-- The end of a round: whether it failed, and the failures in a row before it. The second answer says
-- whether the administrators are told now.
abbrev pub count_round : Bool → ℕ → ℕ × Bool
count_round true failures = (suc failures, suc failures == notify_threshold)
count_round false failures = (0, false)

-- How long `_expire_vms_loop` waits for its next round.
abbrev pub expire_pause : ℕ → ℕ
expire_pause zero = 3600
expire_pause (suc failures) = 300

-- The rounds of a loop: the failures in a row after them, and how often the administrators were told.
abbrev pub told_once : Bool → ℕ
told_once true = 1
told_once false = 0

unfoldable pub run_rounds : List Bool → ℕ → ℕ × ℕ
run_rounds [] failures = (failures, 0)
run_rounds (failed ∷ rounds) failures =
    let (after, tells) = count_round failed failures in
    let (last, told) = run_rounds rounds after in (last, told_once tells + told)

-- The rest of the time of a VM: whole days, and the hours beyond them.
abbrev pub expiry_of : ℕ → Vm → Text × ℕ × ℕ
expiry_of now vm =
    let rest = end_of vm.expires_at - now in
    (vm.name, rest / seconds_per_day, rest % seconds_per_day / 3600)

abbrev pub is_info : NotificationKind → Bool
is_info info = true
is_info success = false
is_info error = false

-- A notice of this kind of today, to one of the administrators.
abbrev pub todays_notice_of : ℕ → ℕ → Notification → Bool
todays_notice_of now user_id n =
    n.user_id == user_id
    && (is_info n.kind
        && (starts_with (codes "만료 임박 VM") (text_of_notice n.message)
            && leb (midnight now) n.created_at))

abbrev pub has_notice : ℕ → List Notification → User → Bool
has_notice now rows u = any (todays_notice_of now u.id) rows

abbrev pub untold : ℕ → List Notification → List User → List User
untold now rows [] = []
untold now rows (u ∷ us) =
    if has_notice now rows u then untold now rows us else u ∷ untold now rows us

-- `_send_admin_expiry_notifications`
abbrev pub send_for : ℕ → List Vm → Db → Db
send_for now [] db = db
send_for now (vm ∷ vms) db =
    tell_admins info (admin_expiry (map (expiry_of now) (vm ∷ vms))) now
      (untold now db.notifications.rows (select is_active_admin db.users.rows)) db

unfoldable pub send_admin_expiry_notifications : ℕ → Db → Db
send_admin_expiry_notifications now db = send_for now (select (is_soon now) db.vms.rows) db
