-- ===== src/Auth/Attempts.antt =====
-- The attempts of verification records under sequences of requests to the account handlers.
use gsm_sv.Prelude.{
  ℕ, suc, ◌≤◌, ◌<◌, Option, none, some, String, str_eq, [], ◌∷◌, arith, All, All-append, leb,
  leb_false→lt, ltb,
}
use gsm_sv.Exec.{Result, modify, http, code_expired, too_many_attempts, wrong_code, ◌>>◌, pure}
use gsm_sv.Exec.Keeps.{Keeps, keeps_rules}
use gsm_sv.Exec.Steps.{reject_step, if_step}
use gsm_sv.Table.{delete_where}
use gsm_sv.Table.Laws.{All-drop_where, All-update_where}
use gsm_sv.Models.{User, Student, SignupRole, EmailVerification, Db, Settings}
use gsm_sv.Auth.{Services, lift, with_record_id}
use gsm_sv.Auth.Signup.{
  CodeDraws, NewCode, code_row, is_open_for, drop_open, add_code, student_reply, signup,
  signup_project, resend_code,
}
use gsm_sv.Auth.Verify.{count_attempt, with_attempts, open_account, check_code, verify_email}
use gsm_sv.Auth.Accounts.{approve_project_owner, reject_project_owner, change_password}
use gsm_sv.Auth.Reset.{
  ResetRole, send_code, request_password_reset, set_password, confirm_password_reset,
}
use gsm_sv.Auth.Unique.{
  Request, to_signup, to_signup_project, to_resend, to_verify, to_approve, to_reject,
  to_request_reset, to_confirm_reset, to_change_password, serve, Reachable, here, after,
}

abbrev pub AtMostFive : EmailVerification → Type 0
AtMostFive r = r.attempts ≤ 5

abbrev Closes : Db → Type 0
Closes db = All AtMostFive db.email_verifications.rows

module _ (sv : Services) (cfg : Settings) where
  Keeps-drop_open : (e : String) (r : SignupRole) → Keeps Closes (modify (drop_open e r))
  Keeps-drop_open e r = record {
    at = λ db h. All-drop_where AtMostFive (is_open_for e r) db.email_verifications.rows h;
  }

  Keeps-add_code :
      (draws : CodeDraws) (new : NewCode) → Keeps Closes (modify (add_code cfg draws new))
  Keeps-add_code draws new = record {
    at = λ db h.
        All-append AtMostFive db.email_verifications.rows
          (code_row cfg draws new db.email_verifications.next_id ∷ []) h (omega arith, tt);
  }

  Keeps-lift : {A : Type 0} (r : Result A) → Keeps Closes (lift r)
  Keeps-lift r = record { at = λ db h. h }

  Keeps-student_reply : (r : Result (Option Student)) → Keeps Closes (student_reply r)
  Keeps-student_reply r = record { at = λ db h. ground arith }

  signup-Keeps :
      (draws : CodeDraws) (e password : String) → Keeps Closes (signup sv cfg draws e password)
  unfolding signup
  signup-Keeps draws e password =
      search (keeps_rules, Keeps-drop_open, Keeps-add_code, Keeps-lift, Keeps-student_reply) depth
        20

  signup_project-Keeps :
      (draws : CodeDraws) (e password project reason : String)
      → Keeps Closes (signup_project sv cfg draws e password project reason)
  unfolding signup_project
  signup_project-Keeps draws e password project reason =
      search (keeps_rules, Keeps-drop_open, Keeps-add_code, Keeps-lift, Keeps-student_reply) depth
        30

  resend-Keeps : (draws : CodeDraws) (e : String) → Keeps Closes (resend_code sv cfg draws e)
  unfolding resend_code
  resend-Keeps draws e = search (keeps_rules, Keeps-drop_open, Keeps-add_code) depth 20

  -- Only a record with fewer than five attempts is counted up.
  check_code-Keeps :
      (r : EmailVerification) (now : ℕ) (code : String) → Keeps Closes (check_code sv r now code)
  check_code-Keeps r now code = record {
    at = λ db h.
        reject_step Q (ltb r.expires_at now) 400 code_expired _ db
          (λ in_time.
            reject_step Q (leb 5 r.attempts) 429 too_many_attempts _ db
              (λ few.
                if_step Q (str_eq r.code (sv.strip code)) (pure tt)
                  (modify (count_attempt r) >> http 400 wrong_code) db (λ right. h)
                  (λ wrong. counted db h (leb_false→lt 5 r.attempts few)))
              (λ many. h))
          (λ late. h);
  }
    where
      Q : Result (Unit {0}) × Db → Type 0
      Q t = Closes t.1

      counted : (db : Db) → Closes db → r.attempts < 5 → Closes (count_attempt r db)
      counted db h few =
          All-update_where AtMostFive (with_record_id r.id) (with_attempts (suc r.attempts))
            (λ x hx. omega (arith, few)) db.email_verifications.rows h

  Keeps-open_account : (r : EmailVerification) → Keeps Closes (modify (open_account r))
  Keeps-open_account r = record {
    at = λ db h. All-drop_where AtMostFive (with_record_id r.id) db.email_verifications.rows h;
  }

  verify-Keeps : (now : ℕ) (e code : String) → Keeps Closes (verify_email sv now e code)
  unfolding verify_email
  verify-Keeps now e code = search (keeps_rules, check_code-Keeps, Keeps-open_account) depth 20

  send_code-Keeps :
      (draws : CodeDraws) (e : String) (r : ResetRole) (o : Option User)
      → Keeps Closes (send_code sv cfg draws e r o)
  send_code-Keeps draws e r none = record { at = λ db h. h }
  send_code-Keeps draws e r (some u) =
      search (keeps_rules, Keeps-drop_open, Keeps-add_code, Keeps-delete) depth 20
    where
      Keeps-delete :
          (id : ℕ)
          → Keeps Closes (
              modify (λ db. record db {
                email_verifications = delete_where (with_record_id id) db.email_verifications;
              }))
      Keeps-delete id = record {
        at = λ db h. All-drop_where AtMostFive (with_record_id id) db.email_verifications.rows h;
      }

  request_reset-Keeps :
      (draws : CodeDraws) (e : String) (r : ResetRole)
      → Keeps Closes (request_password_reset sv cfg draws e r)
  unfolding request_password_reset
  request_reset-Keeps draws e r = search (keeps_rules, send_code-Keeps) depth 12

  Keeps-set_password :
      (u : User) (hashed : String) (r : EmailVerification)
      → Keeps Closes (modify (set_password sv u hashed r))
  Keeps-set_password u hashed r = record {
    at = λ db h. All-drop_where AtMostFive (with_record_id r.id) db.email_verifications.rows h;
  }

  confirm_reset-Keeps :
      (now : ℕ) (e : String) (r : ResetRole) (code password : String)
      → Keeps Closes (confirm_password_reset sv now e r code password)
  unfolding confirm_password_reset
  confirm_reset-Keeps now e r code password =
      search (keeps_rules, check_code-Keeps, Keeps-set_password, Keeps-lift) depth 20

  account-Keeps :
      (id : ℕ) (me : User) (db : Db)
      → Closes db
      → Closes (approve_project_owner id me db).1 × Closes (reject_project_owner id me db).1
  unfolding approve_project_owner reject_project_owner
  account-Keeps id me db h = ground arith

  change-Keeps :
      (me : User) (current password : String) (db : Db)
      → Closes db
      → Closes (change_password sv me current password db).1
  unfolding change_password
  change-Keeps me current password db h = ground arith

  serve-Closes : (r : Request) (db : Db) → Closes db → Closes (serve sv cfg r db)
  serve-Closes (to_signup draws e password) db h = (signup-Keeps draws e password).at db h
  serve-Closes (to_signup_project draws e password project reason) db h =
      (signup_project-Keeps draws e password project reason).at db h
  serve-Closes (to_resend draws e) db h = (resend-Keeps draws e).at db h
  serve-Closes (to_verify now e code) db h = (verify-Keeps now e code).at db h
  serve-Closes (to_approve id me) db h = (account-Keeps id me db h).0
  serve-Closes (to_reject id me) db h = (account-Keeps id me db h).1
  serve-Closes (to_request_reset draws e r) db h = (request_reset-Keeps draws e r).at db h
  serve-Closes (to_confirm_reset now e r code password) db h =
      (confirm_reset-Keeps now e r code password).at db h
  serve-Closes (to_change_password me current password) db h = change-Keeps me current password db h

  -- No sequence of requests to the account handlers lets a verification record, of a sign-up or of a
  -- password reset, count more than five wrong codes.
  pub reachable-AtMostFive :
      (db₀ db : Db)
      → All AtMostFive db₀.email_verifications.rows
      → Reachable sv cfg db₀ db
      → All AtMostFive db.email_verifications.rows
  reachable-AtMostFive db₀ db h here = h
  reachable-AtMostFive db₀ db h (after {db = db₁} reached r) =
      serve-Closes r db₁ (reachable-AtMostFive db₀ db₁ h reached)
