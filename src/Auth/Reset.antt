-- ===== src/Auth/Reset.antt =====
-- The two steps of a password reset (api/routes/auth.py). The padding of the response time is left
-- out, and so are the SQLAlchemyErrors of the commits.
use gsm_sv.Prelude.{ℕ, not, ◌&&◌, Option, none, some, String, if◌then◌else◌}
use gsm_sv.Exec.{
  Exec, http_exception, pure, http, gets, modify, or_raise, reject_if, ◌>>=◌, ◌>>◌, oauth_account,
  reset_unavailable, no_reset_request, account_not_found,
}
use gsm_sv.Table.{find_first, select, delete_where, set_where}
use gsm_sv.Models.{
  UserRole, admin, user, project_owner, User, SignupRole, reset_user, reset_project_owner,
  EmailVerification, Db, Settings,
}
use gsm_sv.Network.Manage.{has_text}
use gsm_sv.Auth.{Services, get_password_hash, lift, is_account, latest, with_record_id}
use gsm_sv.Auth.Signup.{CodeDraws, NewCode, is_open_for, drop_open, add_code}
use gsm_sv.Auth.Verify.{check_code}
use gsm_sv.Auth.Accounts.{with_user_id, or_else}

-- `login_role` of the two requests.
pub data ResetRole : Type 0 where
  as_user as_project_owner : ResetRole

-- `_reset_signup_role`
abbrev pub reset_signup_role : ResetRole → SignupRole
reset_signup_role as_user = reset_user
reset_signup_role as_project_owner = reset_project_owner

abbrev pub active_account : Db → String → UserRole → Option User
active_account db email role =
    find_first (λ u. is_account email role u && u.is_active) db.users.rows

-- The active account; an administrator may come in through "user".
abbrev pub reset_target : Db → String → ResetRole → Option User
reset_target db email as_user =
    or_else (active_account db email user) (active_account db email admin)
reset_target db email as_project_owner = active_account db email project_owner

abbrev pub reset_code : String → ResetRole → NewCode
reset_code email role = record {
  email = email;
  hashed_password = "";
  student_info = none;
  signup_role = reset_signup_role role;
  project_name = none;
  project_reason = none;
}

module _ (sv : Services) where
  abbrev pub send_code :
      Settings → CodeDraws → String → ResetRole → Option User → Exec Db (Unit {0})
  send_code cfg draws email role none = pure tt
  send_code cfg draws email role (some u) = do
    reject_if (not (has_text u.hashed_password)) 400 oauth_account
    modify (drop_open email (reset_signup_role role))
    id ← gets (λ (db : Db). db.email_verifications.next_id)
    modify (add_code cfg draws (reset_code email role))
    if sv.send_mail email draws.code then pure tt else do
      modify (λ db. record db {
        email_verifications = delete_where (with_record_id id) db.email_verifications;
      })
      http 503 reset_unavailable

  -- `request_password_reset`
  unfoldable pub request_password_reset :
      Settings → CodeDraws → String → ResetRole → Exec Db (Unit {0})
  request_password_reset cfg draws email role = do
    db ← gets (λ (db : Db). db)
    send_code cfg draws email role (reset_target db email role)

  abbrev pub set_password : User → String → EmailVerification → Db → Db
  set_password u hashed r db = record db {
    users =
        set_where (with_user_id u.id) (λ x. record x { hashed_password = some hashed }) db.users;
    email_verifications = delete_where (with_record_id r.id) db.email_verifications;
  }

  -- `confirm_password_reset`
  unfoldable pub confirm_password_reset :
      ℕ → (email : String) → ResetRole → (code new_password : String) → Exec Db (Unit {0})
  confirm_password_reset now email role code new_password = do
    db ← gets (λ (db : Db). db)
    r ←
        or_raise
          (latest (select (is_open_for email (reset_signup_role role)) db.email_verifications.rows))
          (http_exception 400 no_reset_request)
    check_code sv r now code
    u ← or_raise (reset_target db email role) (http_exception 404 account_not_found)
    hashed ← lift (get_password_hash sv new_password)
    modify (set_password u hashed r)
