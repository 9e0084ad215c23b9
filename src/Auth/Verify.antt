-- ===== src/Auth/Verify.antt =====
-- `verify_email` (api/routes/auth.py). The IntegrityError of a second request that commits first is
-- left out.
pub mod Outcome
use gsm_sv.Prelude.{
  ℕ, suc, ◌+◌, ◌≤◌, ◌<◌, ◌==◌, Bool, true, false, not, ◌&&◌, Option, none, some, String, str_eq,
  List, [], ◌∷◌, ◌++◌, ltb, leb, is_some, if◌then◌else◌,
}
use gsm_sv.Exec.{
  Exec, Result, ok, err, http_exception, pure, raise, http, gets, modify, or_raise, reject_if,
  ◌>>=◌, ◌>>◌, no_verification, code_expired, too_many_attempts, wrong_code, already_registered,
}
use gsm_sv.Table.{find_first, select, insert, delete_where, set_where}
use gsm_sv.Models.{
  UserRole, user, project_owner, User, Student, SignupRole, signup_project_owner, EmailVerification,
  Db,
}
use gsm_sv.Auth.{Services, find_user_by_email_role, latest, with_record_id}
use gsm_sv.Auth.Signup.{eq_signup_role, is_open}

-- What the verification answers: the account waits for approval, or tokens for it.
pub data Verified : Type 0 where
  pending_approval_status : Verified
  active : ℕ → Verified

abbrev pub for_project : EmailVerification → Bool
for_project r = eq_signup_role r.signup_role signup_project_owner

abbrev pub role_of : EmailVerification → UserRole
role_of r = if for_project r then project_owner else user

abbrev pub no_student : Student
no_student = record { name = none; grade = none; class_num = none; number = none; major = none }

abbrev pub student_or_empty : Option Student → Student
student_or_empty none = no_student
student_or_empty (some s) = s

abbrev pub account_row : EmailVerification → ℕ → User
account_row r id = record {
  id = id;
  email = r.email;
  hashed_password = some r.hashed_password;
  role = role_of r;
  is_active = not (for_project r);
  oauth_provider = none;
  oauth_sub = none;
  student = student_or_empty r.student_info;
  avatar_url = none;
  project_name = if for_project r then r.project_name else none;
  project_reason = if for_project r then r.project_reason else none;
}

abbrev pub with_attempts : ℕ → EmailVerification → EmailVerification
with_attempts n r = record r { attempts = n }

abbrev pub count_attempt : EmailVerification → Db → Db
count_attempt r db = record db {
  email_verifications =
      set_where (with_record_id r.id) (with_attempts (suc r.attempts)) db.email_verifications;
}

abbrev pub open_account : EmailVerification → Db → Db
open_account r db = record db {
  email_verifications = delete_where (with_record_id r.id) db.email_verifications;
  users = insert (account_row r) db.users;
}

-- The code is compared; a wrong one is counted, and that is committed.
abbrev pub check_code : Services → EmailVerification → ℕ → String → Exec Db (Unit {0})
check_code sv r now code = do
  reject_if (ltb r.expires_at now) 400 code_expired
  reject_if (leb 5 r.attempts) 429 too_many_attempts
  if str_eq r.code (sv.strip code)
      then pure tt
      else do modify (count_attempt r); http 400 wrong_code

unfoldable pub verify_email : Services → ℕ → (email code : String) → Exec Db Verified
verify_email sv now email code = do
  db ← gets (λ (db : Db). db)
  r ←
      or_raise (latest (select (is_open email) db.email_verifications.rows))
        (http_exception 400 no_verification)
  check_code sv r now code
  reject_if (is_some (find_user_by_email_role db email (role_of r))) 400 already_registered
  modify (open_account r)
  pure (if for_project r then pending_approval_status else active db.users.next_id)
