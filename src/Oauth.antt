-- ===== src/Oauth.antt =====
-- Signing in through DataGSM (api/routes/oauth.py). The random texts are drawn, the requests to DataGSM
-- are parameters, and the cookies of the answer are left out: tokens are the account that they are for.
mod Stores
pub mod Account
pub mod Granted
unfoldable pub use Stores.*
pub mod Once
pub mod Unique
use gsm_sv.Prelude.{
  ℕ, suc, ◌+◌, ◌<◌, Bool, true, false, not, ◌&&◌, Option, none, some, String, str_eq, List, [], ◌∷◌,
  ◌++◌, length, ltb, is_some, if◌then◌else◌,
}
use gsm_sv.Exec.{
  Exec, Result, ok, err, http_exception, pure, raise, http, gets, modify, or_raise, reject_if,
  ◌>>=◌, ◌>>◌, bad_login_role, server_busy, invalid_state, token_failed, userinfo_failed, no_email,
  other_account_exists, no_such_account, inactive_account, invalid_code,
}
use gsm_sv.Table.{find_first, drop_where, insert, set_where}
use gsm_sv.Models.{UserRole, admin, project_owner, user, eq_role, User, Student, Db}
use gsm_sv.Network.Manage.{has_text}
use gsm_sv.Auth.{find_user_by_email_role, lift}
use gsm_sv.Auth.Accounts.{with_user_id}

-- `userinfo.get(...)` of the fields.
pub record Userinfo : Type 0 where
  pub email : Option String
  pub sub : String
  pub student : Student

-- The two requests: none for an answer that is not 200, an exception where httpx raises.
pub record DataGsm : Type 0 where
  pub token : (code verifier : String) → Result (Option String)
  pub userinfo : (access_token : String) → Result (Option Userinfo)

-- An administrator may come in as a user, unless the e-mail has a project owner too.
abbrev pub admin_fallback : Db → String → Option User → Exec OauthState (Option User)
admin_fallback db email none = pure none
admin_fallback db email (some u) = do
  reject_if (is_some (find_user_by_email_role db email project_owner)) 409 other_account_exists
  pure (some u)

abbrev pub match_user : Db → String → UserRole → Option User → Exec OauthState (Option User)
match_user db email role (some u) = pure (some u)
match_user db email role none =
    if eq_role role user
    then admin_fallback db email (find_user_by_email_role db email admin)
    else pure none

abbrev pub or_if : {A : Type 0} → Bool → Option A → Option A → Option A
or_if true new old = new
or_if false new old = old

abbrev pub given : {A : Type 0} → Option A → Option A → Option A
given none old = old
given (some new) old = some new

-- The fields that DataGSM has are taken over.
abbrev pub updated : Student → Student → Student
updated new old = record {
  name = or_if (has_text new.name) new.name old.name;
  grade = given new.grade old.grade;
  class_num = given new.class_num old.class_num;
  number = given new.number old.number;
  major = or_if (has_text new.major) new.major old.major;
}

abbrev pub linked : Userinfo → User → User
linked info u = record u {
  oauth_provider = or_if (has_text u.oauth_provider) u.oauth_provider (some "datagsm");
  oauth_sub = or_if (has_text u.oauth_provider) u.oauth_sub (some info.sub);
  student = updated info.student u.student;
}

abbrev pub new_user : Userinfo → String → ℕ → User
new_user info email id = record {
  id = id;
  email = email;
  hashed_password = none;
  role = user;
  is_active = true;
  oauth_provider = some "datagsm";
  oauth_sub = some info.sub;
  student = info.student;
  avatar_url = none;
  project_name = none;
  project_reason = none;
}

abbrev pub link_user : Userinfo → User → OauthState → OauthState
link_user info u s = record s {
  db = record s.db { users = set_where (with_user_id u.id) (linked info) s.db.users };
}

abbrev pub add_user : Userinfo → String → OauthState → OauthState
add_user info email s = record s {
  db = record s.db { users = insert (new_user info email) s.db.users };
}

-- The account is linked, or a new one of a user is made.
abbrev pub settle_user : Userinfo → String → UserRole → Option User → Exec OauthState User
settle_user info email role (some u) = do modify (link_user info u); pure (linked info u)
settle_user info email role none =
    if eq_role role user
    then (do
      id ← gets (λ (s : OauthState). s.db.users.next_id)
      modify (add_user info email)
      pure (new_user info email id))
    else http 404 no_such_account

abbrev pub token_entry : ℕ → String → User → TokenEntry
token_entry now temp_code u = record { code = temp_code; account = u.id; expires = now + 60 }

-- A code for the tokens of an active account, good for a minute.
abbrev pub grant : (now : ℕ) → (temp_code : String) → User → Exec OauthState (Unit {0})
grant now temp_code u = do
  reject_if (not u.is_active) 403 inactive_account
  modify (put_tokens (token_entry now temp_code u))

-- The account that the profile of DataGSM selects, and the code for it.
abbrev pub sign_in :
    (now : ℕ) → (temp_code : String) → Userinfo → UserRole → Exec OauthState (Unit {0})
sign_in now temp_code info role = do
  reject_if (not (has_text info.email)) 400 no_email
  email ← or_raise info.email (http_exception 400 no_email)
  db ← gets (λ (s : OauthState). s.db)
  found ← match_user db email role (find_user_by_email_role db email role)
  u ← settle_user info email role found
  grant now temp_code u

module _ (gsm : DataGsm) where
  -- The two requests to DataGSM, then the account.
  abbrev pub with_profile :
      (now : ℕ) → (temp_code code : String) → PkceEntry → Exec OauthState (Unit {0})
  with_profile now temp_code code e = do
    answer ← lift (gsm.token code e.verifier)
    access_token ← or_raise answer (http_exception 400 token_failed)
    profile ← lift (gsm.userinfo access_token)
    info ← or_raise profile (http_exception 400 userinfo_failed)
    sign_in now temp_code info e.login_role

  -- `oauth_callback`: the state is used up whatever follows.
  unfoldable pub oauth_callback :
      (now : ℕ) → (temp_code code state : String) → Exec OauthState (Unit {0})
  oauth_callback now temp_code code state = do
    entry ← pop_state state
    e ← or_raise (unexpired now entry) (http_exception 400 invalid_state)
    reject_if (not (has_text (some e.verifier))) 400 invalid_state
    with_profile now temp_code code e
