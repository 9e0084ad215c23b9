-- ===== src/Auth/Unique.antt =====
-- The requests that change accounts, as steps of the database, and what no sequence of them breaks.
use gsm_sv.Prelude.{
  ℕ, ◌+◌, ◌≤◌, true, Bool-cases, inl, inr, Option, none, some, String, str_eq, eq_iff, [], ◌∷◌, ◌≡◌,
  refl, arith, subst, sym, if◌then◌else◌,
}
use gsm_sv.Exec.{Result, ok, err, modify}
use gsm_sv.Exec.Keeps.{Keeps, keeps_rules}
use gsm_sv.Table.{find_first, count_where, set_where}
use gsm_sv.Table.Laws.{
  count_where-append, count_where-drop_where-le, count_where-update_where, find_first-none,
}
use gsm_sv.Models.{UserRole, eq_role, eq_role_iff, User, EmailVerification, Db, Settings}
use gsm_sv.Auth.{Services, lift, is_account, find_user_by_email_role}
use gsm_sv.Auth.Signup.{CodeDraws, signup, signup_project, resend_code, is_open}
use gsm_sv.Auth.Verify.{
  Verified, role_of, check_code, count_attempt, open_account, account_row, verify_email,
}
use gsm_sv.Auth.Verify.Outcome.{latest_sound, Opened, VerifiedBy, verify_email-VerifiedBy}
use gsm_sv.Auth.Accounts.{
  with_user_id, approve_project_owner, reject_project_owner, change_password,
}
use gsm_sv.Auth.Reset.{
  ResetRole, reset_target, send_code, request_password_reset, set_password, confirm_password_reset,
}

-- The requests to the handlers of api/routes/auth.py that write.
pub data Request : Type 0 where
  to_signup : CodeDraws → (email password : String) → Request
  to_signup_project : CodeDraws → (email password project reason : String) → Request
  to_resend : CodeDraws → (email : String) → Request
  to_verify : (now : ℕ) (email code : String) → Request
  to_approve to_reject : ℕ → User → Request
  to_request_reset : CodeDraws → (email : String) → ResetRole → Request
  to_confirm_reset : (now : ℕ) (email : String) → ResetRole → (code password : String) → Request
  to_change_password : User → (current password : String) → Request

module _ (sv : Services) (cfg : Settings) where
  -- The database after a request, whatever it answers.
  abbrev pub serve : Request → Db → Db
  serve (to_signup draws email password) db = (signup sv cfg draws email password db).1
  serve (to_signup_project draws email password project reason) db =
      (signup_project sv cfg draws email password project reason db).1
  serve (to_resend draws email) db = (resend_code sv cfg draws email db).1
  serve (to_verify now email code) db = (verify_email sv now email code db).1
  serve (to_approve id me) db = (approve_project_owner id me db).1
  serve (to_reject id me) db = (reject_project_owner id me db).1
  serve (to_request_reset draws email role) db =
      (request_password_reset sv cfg draws email role db).1
  serve (to_confirm_reset now email role code password) db =
      (confirm_password_reset sv now email role code password db).1
  serve (to_change_password me current password) db = (change_password sv me current password db).1

  -- The databases that a sequence of requests leads to.
  pub data Reachable (db₀ : Db) : Db → Type 0 where
    here : Reachable db₀ db₀
    after : {db : Db} → Reachable db₀ db → (r : Request) → Reachable db₀ (serve r db)

module _ (sv : Services) (cfg : Settings) (email : String) (role : UserRole) where
  abbrev HasOne : Db → Type 0
  HasOne db = count_where (is_account email role) db.users.rows ≤ 1

  signup-HasOne :
      (draws : CodeDraws) (e password : String) (db : Db)
      → HasOne db
      → HasOne (signup sv cfg draws e password db).1
  unfolding signup
  signup-HasOne draws e password db h = ground arith

  signup_project-HasOne :
      (draws : CodeDraws) (e password project reason : String) (db : Db)
      → HasOne db
      → HasOne (signup_project sv cfg draws e password project reason db).1
  unfolding signup_project
  signup_project-HasOne draws e password project reason db h = ground arith

  resend-HasOne :
      (draws : CodeDraws) (e : String) (db : Db)
      → HasOne db
      → HasOne (resend_code sv cfg draws e db).1
  unfolding resend_code
  resend-HasOne draws e db h = ground arith

  -- An update that leaves e-mail and role leaves the count.
  update-HasOne :
      (i : ℕ) (f : User → User) (db : Db)
      → ((u : User) → is_account email role (f u) ≡ is_account email role u)
      → HasOne db
      → count_where (is_account email role) (set_where (with_user_id i) f db.users).rows ≤ 1
  update-HasOne i f db same h =
      rw (count_where-update_where (with_user_id i) (is_account email role) f same db.users.rows) h

  approve-HasOne :
      (id : ℕ) (me : User) (db : Db) → HasOne db → HasOne (approve_project_owner id me db).1
  unfolding approve_project_owner
  approve-HasOne id me db h = go (find_first (with_user_id id) db.users.rows) refl
    where
      go :
          (o : Option User)
          → find_first (with_user_id id) db.users.rows ≡ o
          → HasOne (approve_project_owner id me db).1
      go none e = ground arith
      go (some u) e =
          ground (arith, update-HasOne u.id (λ x. record x { is_active = true }) db (λ u. refl) h)

  reject-HasOne :
      (id : ℕ) (me : User) (db : Db) → HasOne db → HasOne (reject_project_owner id me db).1
  unfolding reject_project_owner
  reject-HasOne id me db h = go (find_first (with_user_id id) db.users.rows) refl
    where
      go :
          (o : Option User)
          → find_first (with_user_id id) db.users.rows ≡ o
          → HasOne (reject_project_owner id me db).1
      go none e = ground arith
      go (some u) e = ground (
        arith,
        count_where-drop_where-le (with_user_id u.id) (is_account email role) db.users.rows,
      )

  request_reset-HasOne :
      (draws : CodeDraws) (e : String) (r : ResetRole) (db : Db)
      → HasOne db
      → HasOne (request_password_reset sv cfg draws e r db).1
  unfolding request_password_reset
  request_reset-HasOne draws e r db h = go (reset_target db e r)
    where
      go : (o : Option User) → HasOne (send_code sv cfg draws e r o db).1
      go none = h
      go (some u) = ground arith

  change_password-HasOne :
      (me : User) (current password : String) (db : Db)
      → HasOne db
      → HasOne (change_password sv me current password db).1
  unfolding change_password
  change_password-HasOne me current password db h = ground (
    arith,
    update-HasOne me.id (λ u. record u { hashed_password = some (sv.bcrypt_hash password) }) db
        (λ u. refl) h,
  )

  Keeps-count_attempt : (v : EmailVerification) → Keeps HasOne (modify (count_attempt v))
  Keeps-count_attempt v = record { at = λ db h. h }

  Keeps-set_password :
      (u : User) (hashed : String) (v : EmailVerification)
      → Keeps HasOne (modify (set_password sv u hashed v))
  Keeps-set_password u hashed v = record {
    at = λ db h.
        update-HasOne u.id (λ x. record x { hashed_password = some hashed }) db (λ u. refl) h;
  }

  Keeps-lift : {A : Type 0} (r : Result A) → Keeps HasOne (lift r)
  Keeps-lift r = record { at = λ db h. h }

  Keeps-check_code :
      (v : EmailVerification) (now : ℕ) (code : String) → Keeps HasOne (check_code sv v now code)
  Keeps-check_code v now code = search (keeps_rules, Keeps-count_attempt) depth 12

  confirm_reset-HasOne :
      (now : ℕ) (e : String) (r : ResetRole) (code password : String)
      → Keeps HasOne (confirm_password_reset sv now e r code password)
  unfolding confirm_password_reset
  confirm_reset-HasOne now e r code password =
      search (keeps_rules, Keeps-check_code, Keeps-set_password, Keeps-lift) depth 12

  insert-HasOne :
      (v : EmailVerification) (db : Db)
      → HasOne db
      → find_user_by_email_role db v.email (role_of v) ≡ none
      → HasOne (open_account v db)
  insert-HasOne v db h free = elim (Bool-cases (is_account email role new)) [
    | inl same ↦ omega (arith, appended, rw same at appended, none_yet same)
    | inr other ↦ omega (arith, rw other at appended)
  ]
    where
      new : User
      new = account_row v db.users.next_id

      appended :
          count_where (is_account email role) (open_account v db).users.rows
          ≡ count_where (is_account email role) db.users.rows
            + ((if is_account email role new then 1 else 0) + 0)
      appended = count_where-append (is_account email role) db.users.rows (new ∷ [])

      none_yet :
          is_account email role new ≡ true → count_where (is_account email role) db.users.rows ≡ 0
      none_yet same =
          let same_email : str_eq v.email email ≡ true = ground arith in
          let same_role : eq_role (role_of v) role ≡ true = ground arith in
          subst (λ e. count_where (is_account e role) db.users.rows ≡ 0)
            ((eq_iff v.email email).0 same_email)
            (subst (λ r. count_where (is_account v.email r) db.users.rows ≡ 0)
              ((eq_role_iff (role_of v) role).0 same_role)
              (find_first-none (is_account v.email (role_of v)) db.users.rows free))

  verify-HasOne :
      (now : ℕ) (e code : String) (db : Db) → HasOne db → HasOne (verify_email sv now e code db).1
  verify-HasOne now e code db h =
      go (verify_email sv now e code db) (verify_email-VerifiedBy sv now e code db)
    where
      request_email :
          {v : Verified} {db' : Db} (o : Opened sv now e code db v db') → o.request.email ≡ e
      request_email o =
          let open_for : is_open e o.request ≡ true =
            latest_sound (is_open e) db.email_verifications.rows o.request o.asked.latest_open in
          (eq_iff o.request.email e).0 (ground arith)

      go : (t : Result Verified × Db) → VerifiedBy sv now e code db t → HasOne t.1
      go (ok v, db') o = rw o.stored (
          insert-HasOne o.request db h (
            subst (λ x. find_user_by_email_role db x (role_of o.request) ≡ none)
              (sym (request_email o)) o.no_account))
      go (err x, db') (inl refused) = rw refused.unwritten h
      go (err x, db') (inr c) = rw c.stored h

  serve-HasOne : (r : Request) (db : Db) → HasOne db → HasOne (serve sv cfg r db)
  serve-HasOne (to_signup draws e password) db h = signup-HasOne draws e password db h
  serve-HasOne (to_signup_project draws e password project reason) db h =
      signup_project-HasOne draws e password project reason db h
  serve-HasOne (to_resend draws e) db h = resend-HasOne draws e db h
  serve-HasOne (to_verify now e code) db h = verify-HasOne now e code db h
  serve-HasOne (to_approve id me) db h = approve-HasOne id me db h
  serve-HasOne (to_reject id me) db h = reject-HasOne id me db h
  serve-HasOne (to_request_reset draws e r) db h = request_reset-HasOne draws e r db h
  serve-HasOne (to_confirm_reset now e r code password) db h =
      (confirm_reset-HasOne now e r code password).at db h
  serve-HasOne (to_change_password me current password) db h =
      change_password-HasOne me current password db h

  -- No sequence of requests to the account handlers gives an e-mail and role a second account.
  pub reachable-HasOne :
      (db₀ db : Db)
      → count_where (is_account email role) db₀.users.rows ≤ 1
      → Reachable sv cfg db₀ db
      → count_where (is_account email role) db.users.rows ≤ 1
  reachable-HasOne db₀ db h here = h
  reachable-HasOne db₀ db h (after {db = db₁} reached r) =
      serve-HasOne r db₁ (reachable-HasOne db₀ db₁ h reached)
