-- ===== src/Notices/Mine.antt =====
-- The requests of a user and the notifications of others.
use gsm_sv.Prelude.{
  ℕ, ◌≤◌, ◌==◌, true, false, not, ◌&&◌, Option, none, some, List, [], ◌∷◌, ◌≡◌, ◌≢◌, refl, sym,
  subst, arith, All, All-map, and_true,
}
use gsm_sv.Table.{find_first, select, count_where, update_where}
use gsm_sv.Table.Keys.{keyed, only_found, select-drop_where, select-update_where}
use gsm_sv.Table.Laws.{find_first_sound}
use gsm_sv.Models.{User, Notification, Db}
use gsm_sv.Notices.{
  is_for, with_key_for, key_of, as_read, mark_as_read, delete_notification, mark_all_as_read,
  NoticeRequest, to_read, to_delete, to_read_all, serve_notice,
}

module _ (u : User) (other : ℕ) (someone_else : other ≢ u.id) where
  not_theirs : (n : Notification) → is_for u.id n ≡ true → is_for other n ≡ false
  not_theirs n mine = ground (arith, mine, someone_else)

  -- The row found is the user's own, so no row of its key is another's.
  own_key :
      (id : ℕ) (n : Notification) (rows : List Notification)
      → find_first (with_key_for id u.id) rows ≡ some n
      → ((k : ℕ) → count_where (keyed key_of k) rows ≤ 1)
      → All (λ x. keyed key_of n.id x ≡ true → is_for other x ≡ false) rows
  own_key id n rows found one =
      let mine =
        and_true (n.id == id) (n.user_id == u.id)
          (find_first_sound (with_key_for id u.id) rows found) in
      All-map (λ x is t. subst (λ y. is_for other y ≡ false) (sym (is t)) (not_theirs n mine.1))
        rows (only_found key_of (with_key_for id u.id) n rows found (one n.id))

  read_all_spares :
      (rows : List Notification)
      → select
          (is_for other)
          (update_where (λ (n : Notification). n.user_id == u.id && not n.is_read) as_read rows)
        ≡ select (is_for other) rows
  read_all_spares [] = refl
  read_all_spares (n ∷ rows) = ground (arith, read_all_spares rows)

  -- Where keys of notifications are unique, no request of a user to mark one as read, to delete one or
  -- to mark all as read changes what another user has: the rows for each other user are the same
  -- after it, in their order.
  pub serve_notice_spares :
      (r : NoticeRequest) (db : Db)
      → ((k : ℕ) → count_where (keyed key_of k) db.notifications.rows ≤ 1)
      → select (is_for other) (serve_notice r u db).1.notifications.rows
        ≡ select (is_for other) db.notifications.rows
  unfolding serve_notice mark_as_read delete_notification mark_all_as_read
  serve_notice_spares to_read_all db one = read_all_spares db.notifications.rows
  serve_notice_spares (to_read id) db one =
      go (find_first (with_key_for id u.id) db.notifications.rows) refl
    where
      go :
          (o : Option Notification)
          → find_first (with_key_for id u.id) db.notifications.rows ≡ o
          → select (is_for other) (mark_as_read id u db).1.notifications.rows
            ≡ select (is_for other) db.notifications.rows
      go none e = rw e refl
      go (some n) e = rw e (
          select-update_where key_of (is_for other) n.id as_read (λ x. refl) db.notifications.rows
            (own_key id n db.notifications.rows e one))
  serve_notice_spares (to_delete id) db one =
      go (find_first (with_key_for id u.id) db.notifications.rows) refl
    where
      go :
          (o : Option Notification)
          → find_first (with_key_for id u.id) db.notifications.rows ≡ o
          → select (is_for other) (delete_notification id u db).1.notifications.rows
            ≡ select (is_for other) db.notifications.rows
      go none e = rw e refl
      go (some n) e = rw e (
          select-drop_where key_of (is_for other) n.id db.notifications.rows
            (own_key id n db.notifications.rows e one))
