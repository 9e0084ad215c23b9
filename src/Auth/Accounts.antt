-- ===== src/Auth/Accounts.antt =====
-- Approval, login, refresh and change of password (api/routes/auth.py).
use gsm_sv.Prelude.{ℕ, ◌==◌, Bool, true, not, ◌&&◌, Option, none, some, String, List}
use gsm_sv.Exec.{
  Exec, http_exception, pure, gets, modify, or_raise, reject_if, ◌>>=◌, ◌>>◌, admin_only,
  user_not_found, already_approved, cannot_reject_approved, wrong_login, use_oauth,
  pending_approval, invalid_refresh, oauth_no_password, wrong_current_password,
}
use gsm_sv.Table.{find_first, select, delete_where, set_where}
use gsm_sv.Models.{admin, user, project_owner, eq_role, User, Db}
use gsm_sv.Network.Manage.{has_text}
use gsm_sv.Auth.{
  Services, verify_password, get_password_hash, lift, find_user_by_email_role, token_of, subject_of,
  refresh,
}

abbrev pub with_user_id : ℕ → User → Bool
with_user_id id u = u.id == id

-- `get_pending_approvals`
unfoldable pub get_pending_approvals : User → Exec Db (List User)
get_pending_approvals me = do
  reject_if (not (eq_role me.role admin)) 403 admin_only
  gets (λ (db : Db). select (λ u. eq_role u.role project_owner && not u.is_active) db.users.rows)

-- `approve_project_owner`
unfoldable pub approve_project_owner : ℕ → User → Exec Db ℕ
approve_project_owner id me = do
  reject_if (not (eq_role me.role admin)) 403 admin_only
  users ← gets (λ (db : Db). db.users.rows)
  u ← or_raise (find_first (with_user_id id) users) (http_exception 404 user_not_found)
  reject_if u.is_active 400 already_approved
  modify (λ db. record db {
    users = set_where (with_user_id u.id) (λ x. record x { is_active = true }) db.users;
  })
  pure u.id

-- `reject_project_owner`
unfoldable pub reject_project_owner : ℕ → User → Exec Db (Unit {0})
reject_project_owner id me = do
  reject_if (not (eq_role me.role admin)) 403 admin_only
  users ← gets (λ (db : Db). db.users.rows)
  u ← or_raise (find_first (with_user_id id) users) (http_exception 404 user_not_found)
  reject_if u.is_active 400 cannot_reject_approved
  modify (λ db. record db { users = delete_where (with_user_id u.id) db.users })

-- `login_role`: a key of `role_map`, or any other text.
pub data LoginRole : Type 0 where
  as_user as_project_owner as_admin unknown_role : LoginRole

abbrev pub or_else : Option User → Option User → Option User
or_else none other = other
or_else (some u) other = some u

-- The account of a role; an administrator may come in through "user".
abbrev pub login_user : Db → String → LoginRole → Option User
login_user db email as_user =
    or_else (find_user_by_email_role db email user) (find_user_by_email_role db email admin)
login_user db email as_project_owner = find_user_by_email_role db email project_owner
login_user db email as_admin = find_user_by_email_role db email admin
login_user db email unknown_role = none

abbrev pub text_of : Option String → String
text_of none = ""
text_of (some t) = t

-- `login`: the id for which tokens are issued.
unfoldable pub login : Services → (email password : String) → LoginRole → Exec Db ℕ
login sv email password role = do
  db ← gets (λ (db : Db). db)
  u ← or_raise (login_user db email role) (http_exception 401 wrong_login)
  reject_if (not (has_text u.hashed_password)) 401 use_oauth
  same ← lift (verify_password sv password (text_of u.hashed_password))
  reject_if (not same) 401 wrong_login
  reject_if (not u.is_active) 403 pending_approval
  pure u.id

-- `refresh_token`
unfoldable pub refresh_token : Services → (cookie body : Option String) → Exec Db ℕ
refresh_token sv cookie body = do
  id ← or_raise (subject_of sv refresh (token_of cookie body)) (http_exception 401 invalid_refresh)
  users ← gets (λ (db : Db). db.users.rows)
  u ← or_raise (find_first (with_user_id id) users) (http_exception 401 invalid_refresh)
  reject_if (not u.is_active) 401 invalid_refresh
  pure u.id

-- `change_password`
unfoldable pub change_password :
    Services → User → (current_password new_password : String) → Exec Db (Unit {0})
change_password sv me current_password new_password = do
  reject_if (not (has_text me.hashed_password)) 400 oauth_no_password
  same ← lift (verify_password sv current_password (text_of me.hashed_password))
  reject_if (not same) 400 wrong_current_password
  hashed ← lift (get_password_hash sv new_password)
  modify (λ db. record db {
    users =
        set_where (with_user_id me.id) (λ u. record u { hashed_password = some hashed }) db.users;
  })
