-- ===== src/Auth/Signup.antt =====
-- The two sign-ups and the resending of a code (api/routes/auth.py). The rate limits are slowapi's.
use gsm_sv.Prelude.{
  ℕ, ◌+◌, ◌*◌, Bool, true, false, not, ◌&&◌, Option, none, some, String, str_eq, any, is_some,
  if◌then◌else◌,
}
use gsm_sv.Exec.{
  Exec, Result, ok, err, http_exception, runtime_error, pure, raise, http, gets, modify, or_raise,
  reject_if, ◌>>=◌, ◌>>◌, already_registered, server_error, not_enrolled, mail_failed,
  already_project_owner, owner_exists, owner_pending, not_in_project, no_pending_code,
}
use gsm_sv.Table.{find_first, select, insert, delete_where}
use gsm_sv.Models.{
  user, project_owner, eq_role, User, Student, SignupRole, signup_user, signup_project_owner,
  reset_user, reset_project_owner, EmailVerification, Db, Settings, eq_opt_text,
}
use gsm_sv.Auth.{Services, get_password_hash, lift, find_user_by_email_role, latest}

abbrev pub eq_signup_role : SignupRole → SignupRole → Bool
eq_signup_role signup_user signup_user = true
eq_signup_role signup_project_owner signup_project_owner = true
eq_signup_role reset_user reset_user = true
eq_signup_role reset_project_owner reset_project_owner = true
eq_signup_role _ _ = false

-- A record of the e-mail that is not used yet.
abbrev pub is_open : String → EmailVerification → Bool
is_open email r = str_eq r.email email && not r.verified

abbrev pub is_open_for : String → SignupRole → EmailVerification → Bool
is_open_for email role r = is_open email r && eq_signup_role r.signup_role role

-- What a request draws: the six digits and the clock, in seconds.
pub record CodeDraws : Type 0 where
  pub code : String
  pub now : ℕ

abbrev pub expires : Settings → ℕ → ℕ
expires cfg now = now + cfg.verification_code_expire_minutes * 60

-- The contents of a new record.
pub record NewCode : Type 0 where
  pub email : String
  pub hashed_password : String
  pub student_info : Option Student
  pub signup_role : SignupRole
  pub project_name : Option String
  pub project_reason : Option String

abbrev pub code_row : Settings → CodeDraws → NewCode → ℕ → EmailVerification
code_row cfg draws new id = record {
  id = id;
  email = new.email;
  hashed_password = new.hashed_password;
  code = draws.code;
  student_info = new.student_info;
  signup_role = new.signup_role;
  project_name = new.project_name;
  project_reason = new.project_reason;
  created_at = draws.now;
  expires_at = expires cfg draws.now;
  verified = false;
  attempts = 0;
}

abbrev pub drop_open : String → SignupRole → Db → Db
drop_open email role db = record db {
  email_verifications = delete_where (is_open_for email role) db.email_verifications;
}

abbrev pub add_code : Settings → CodeDraws → NewCode → Db → Db
add_code cfg draws new db = record db {
  email_verifications = insert (code_row cfg draws new) db.email_verifications;
}

-- The student of the e-mail; RuntimeError is answered with 503.
abbrev pub student_reply : Result (Option Student) → Exec Db (Option Student)
student_reply (ok s) = pure s
student_reply (err runtime_error) = http 503 server_error
student_reply (err other) = raise other

abbrev pub student_of : Services → String → Exec Db (Option Student)
student_of sv email = student_reply (sv.lookup_student email)

abbrev pub is_owner_of : String → Bool → User → Bool
is_owner_of project active u =
    eq_role u.role project_owner
    && (eq_opt_text u.project_name project && (if active then u.is_active else not u.is_active))

module _ (sv : Services) (cfg : Settings) where
  -- `signup`
  unfoldable pub signup : CodeDraws → (email password : String) → Exec Db (Unit {0})
  signup draws email password = do
    db ← gets (λ (db : Db). db)
    reject_if (is_some (find_user_by_email_role db email user)) 400 already_registered
    found ← student_of sv email
    student ← or_raise found (http_exception 403 not_enrolled)
    modify (drop_open email signup_user)
    hashed ← lift (get_password_hash sv password)
    modify (
        add_code cfg draws (record {
          email = email;
          hashed_password = hashed;
          student_info = some student;
          signup_role = signup_user;
          project_name = none;
          project_reason = none;
        }))
    reject_if (not (sv.send_mail email draws.code)) 500 mail_failed

  -- `signup_project`
  unfoldable pub signup_project :
      CodeDraws → (email password project reason : String) → Exec Db (Unit {0})
  signup_project draws email password project reason = do
    db ← gets (λ (db : Db). db)
    reject_if (is_some (find_user_by_email_role db email project_owner)) 400 already_project_owner
    reject_if (is_some (find_first (is_owner_of project true) db.users.rows)) 409 owner_exists
    reject_if (is_some (find_first (is_owner_of project false) db.users.rows)) 409 owner_pending
    found ← student_of sv email
    student ← or_raise found (http_exception 403 not_enrolled)
    reject_if (not (any (str_eq project) (sv.lookup_projects email))) 403 not_in_project
    modify (drop_open email signup_project_owner)
    hashed ← lift (get_password_hash sv password)
    modify (
        add_code cfg draws (record {
          email = email;
          hashed_password = hashed;
          student_info = some student;
          signup_role = signup_project_owner;
          project_name = some project;
          project_reason = some reason;
        }))
    reject_if (not (sv.send_mail email draws.code)) 500 mail_failed

  abbrev same_request : EmailVerification → NewCode
  same_request r = record {
    email = r.email;
    hashed_password = r.hashed_password;
    student_info = r.student_info;
    signup_role = r.signup_role;
    project_name = r.project_name;
    project_reason = r.project_reason;
  }

  -- `resend_code`
  unfoldable pub resend_code : CodeDraws → String → Exec Db (Unit {0})
  resend_code draws email = do
    db ← gets (λ (db : Db). db)
    r ←
        or_raise (latest (select (is_open email) db.email_verifications.rows))
          (http_exception 400 no_pending_code)
    modify (drop_open email r.signup_role)
    modify (add_code cfg draws (record (same_request r) { email = email }))
    reject_if (not (sv.send_mail email draws.code)) 500 mail_failed
