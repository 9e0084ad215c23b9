-- ===== src/Notices.antt =====
-- A user's notifications (api/routes/notifications.py).
pub mod Mine
use gsm_sv.Prelude.{
  ℕ, zero, suc, ◌==◌, Bool, true, false, not, ◌&&◌, List, [], ◌∷◌, leb, if◌then◌else◌,
}
use gsm_sv.Exec.{
  Exec, Result, ok, err, http_exception, pure, gets, modify, or_raise, ◌>>=◌, ◌>>◌,
  notification_not_found,
}
use gsm_sv.Table.{find_first, select, delete_where, set_where}
use gsm_sv.Table.Keys.{keyed}
use gsm_sv.Models.{User, Notification, Db}

abbrev pub is_for : ℕ → Notification → Bool
is_for user_id n = n.user_id == user_id

abbrev pub with_key_for : ℕ → ℕ → Notification → Bool
with_key_for id user_id n = n.id == id && n.user_id == user_id

abbrev pub key_of : Notification → ℕ
key_of n = n.id

abbrev pub as_read : Notification → Notification
as_read n = record n { is_read = true }

-- `.order_by(Notification.created_at.desc())`, rows of one time in the table's order.
abbrev pub put_newest : Notification → List Notification → List Notification
put_newest n [] = n ∷ []
put_newest n (m ∷ ms) =
    let rest = put_newest n ms in if leb m.created_at n.created_at then n ∷ m ∷ ms else m ∷ rest

abbrev pub newest_first : List Notification → List Notification
newest_first [] = []
newest_first (n ∷ ns) = put_newest n (newest_first ns)

-- `.limit(n)`
abbrev pub take {ℓ} : {A : Type ℓ} → ℕ → List A → List A
take zero xs = []
take (suc n) [] = []
take (suc n) (x ∷ xs) = x ∷ take n xs

unfoldable pub get_notifications : User → Exec Db (List Notification)
get_notifications u = do
  rows ← gets (λ (db : Db). db.notifications.rows)
  pure (take 50 (newest_first (select (is_for u.id) rows)))

abbrev pub read_one : ℕ → Db → Db
read_one id db = record db { notifications = set_where (keyed key_of id) as_read db.notifications }

unfoldable pub mark_as_read : ℕ → User → Exec Db (Unit {0})
mark_as_read id u = do
  rows ← gets (λ (db : Db). db.notifications.rows)
  n ← or_raise (find_first (with_key_for id u.id) rows) (http_exception 404 notification_not_found)
  modify (read_one n.id)

abbrev pub read_all : ℕ → Db → Db
read_all user_id db = record db {
  notifications =
      set_where (λ (n : Notification). n.user_id == user_id && not n.is_read) as_read
        db.notifications;
}

unfoldable pub mark_all_as_read : User → Exec Db (Unit {0})
mark_all_as_read u = modify (read_all u.id)

abbrev pub drop_one : ℕ → Db → Db
drop_one id db = record db { notifications = delete_where (keyed key_of id) db.notifications }

unfoldable pub delete_notification : ℕ → User → Exec Db (Unit {0})
delete_notification id u = do
  rows ← gets (λ (db : Db). db.notifications.rows)
  n ← or_raise (find_first (with_key_for id u.id) rows) (http_exception 404 notification_not_found)
  modify (drop_one n.id)

-- The requests of one user that write.
pub data NoticeRequest : Type 0 where
  to_read to_delete : ℕ → NoticeRequest
  to_read_all : NoticeRequest

abbrev pub serve_notice : NoticeRequest → User → Exec Db (Unit {0})
unfolding mark_as_read delete_notification mark_all_as_read
serve_notice (to_read id) u = mark_as_read id u
serve_notice (to_delete id) u = delete_notification id u
serve_notice to_read_all u = mark_all_as_read u
