-- ===== src/Auth.antt =====
-- Accounts: core/security.py, api/dependencies.py and api/routes/auth.py.
pub mod Signup
pub mod Verify
pub mod Accounts
pub mod Reset
pub mod Unique
pub mod Attempts
pub mod Access
use gsm_sv.Prelude.{
  ℕ, suc, ◌+◌, ◌==◌, Bool, true, false, not, ◌&&◌, Option, none, some, String, str_eq, List, [],
  ◌∷◌, ltb, leb, if◌then◌else◌,
}
use gsm_sv.Exec.{
  Exec, Result, ok, err, http_exception, value_error, pure, raise, http, gets, or_raise, reject_if,
  ◌>>=◌, ◌>>◌, invalid_credentials, inactive_user, not_admin, vm_not_found,
}
use gsm_sv.Table.{find_first, select}
use gsm_sv.Models.{
  UserRole, admin, eq_role, User, Server, Vm, Student, EmailVerification, Db, eq_opt_text,
}
use gsm_sv.Vm.Request.{owns}
use gsm_sv.Network.Manage.{has_text}

pub data TokenKind : Type 0 where
  access refresh other_kind : TokenKind

-- The claims of a token that decodes.
pub record Claims : Type 0 where
  pub kind : TokenKind
  pub sub : Option ℕ

-- What the accounts need from outside: bcrypt, jose, DataGSM (services/datagsm_service.py calls its
-- API) and the mail server.
pub record Services : Type 0 where
  pub utf8_length : String → ℕ
  pub bcrypt_hash : String → String
  pub bcrypt_check : String → String → Result Bool
  pub decode : String → Option Claims
  pub strip : String → String
  pub lookup_student : String → Result (Option Student)
  pub lookup_projects : String → List String
  pub send_mail : String → String → Bool

-- `verify_password`: only ValueError is caught.
abbrev pub verify_password : Services → String → String → Result Bool
verify_password sv plain hashed = elim (sv.bcrypt_check plain hashed) [
  | ok same ↦ ok same
  | err x ↦ elim x [ value_error ↦ ok false | other ↦ err other ]
]

-- `get_password_hash`; MAX_PASSWORD_BYTES is 72.
abbrev pub get_password_hash : Services → String → Result String
get_password_hash sv password =
    if ltb 72 (sv.utf8_length password) then err value_error else ok (sv.bcrypt_hash password)

-- A result as an action.
abbrev pub lift : {S A : Type 0} → Result A → Exec S A
lift r s = (r, s)

abbrev pub is_account : String → UserRole → User → Bool
is_account email role u = str_eq u.email email && eq_role u.role role

-- `_find_user_by_email_role`
abbrev pub find_user_by_email_role : Db → String → UserRole → Option User
find_user_by_email_role db email role = find_first (is_account email role) db.users.rows

-- `.order_by(created_at.desc()).first()`
abbrev pub later_of : EmailVerification → EmailVerification → EmailVerification
later_of r best = if ltb best.created_at r.created_at then r else best

abbrev pub latest_from : EmailVerification → List EmailVerification → EmailVerification
latest_from best [] = best
latest_from best (r ∷ rs) = latest_from (later_of r best) rs

abbrev pub latest : List EmailVerification → Option EmailVerification
latest [] = none
latest (r ∷ rs) = some (latest_from r rs)

abbrev pub with_record_id : ℕ → EmailVerification → Bool
with_record_id id r = r.id == id

-- The token of the cookie, or the bearer token where the cookie is absent or empty.
abbrev pub token_of : Option String → Option String → Option String
token_of cookie bearer = if has_text cookie then cookie else bearer

abbrev pub subject_of : Services → TokenKind → Option String → Option ℕ
subject_of sv access none = none
subject_of sv refresh none = none
subject_of sv other_kind none = none
subject_of sv kind (some token) = if str_eq token "" then none else elim (sv.decode token) [
  | none ↦ none
  | some claims ↦ if eq_kind claims.kind kind then claims.sub else none
]
  where
    eq_kind : TokenKind → TokenKind → Bool
    eq_kind access access = true
    eq_kind refresh refresh = true
    eq_kind other_kind other_kind = true
    eq_kind _ _ = false

-- `get_current_user`
unfoldable pub get_current_user : Services → Option String → Option String → Exec Db User
get_current_user sv cookie bearer = do
  id ←
      or_raise (subject_of sv access (token_of cookie bearer))
        (http_exception 401 invalid_credentials)
  users ← gets (λ (db : Db). db.users.rows)
  u ←
      or_raise (find_first (λ (u : User). u.id == id) users)
        (http_exception 401 invalid_credentials)
  reject_if (not u.is_active) 400 inactive_user
  pure u

-- `get_current_active_admin`
unfoldable pub get_current_active_admin : User → Exec Db User
get_current_active_admin u = do reject_if (not (eq_role u.role admin)) 403 not_admin; pure u

-- `join(Server).filter(Server.name == node)`
abbrev pub on_node : List Server → Option String → Vm → Bool
on_node servers node vm =
    if has_text node
    then is_some_server
        (find_first (λ (s : Server). s.id == vm.server_id && eq_opt_text node s.name) servers)
    else true
  where
    is_some_server : Option Server → Bool
    is_some_server none = false
    is_some_server (some s) = true

abbrev pub may_use : User → Vm → Bool
may_use u vm = if eq_role u.role admin then true else owns u.id vm

-- `get_vm_with_owner_check`
unfoldable pub get_vm_with_owner_check : ℕ → User → Option String → Exec Db Vm
get_vm_with_owner_check vmid u node = do
  db ← gets (λ (db : Db). db)
  or_raise
      (find_first
        (λ (vm : Vm).
          vm.hypervisor_vmid == vmid && (on_node db.servers.rows node vm && may_use u vm))
        db.vms.rows)
      (http_exception 404 vm_not_found)
