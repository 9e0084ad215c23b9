-- ===== src/Auth/Verify/Outcome.antt =====
-- What `verify_email` answers and writes.
use gsm_sv.Prelude.{
  ℕ, ◌≤◌, ◌<◌, Bool, true, false, Bool-cases, inl, inr, ◌⊎◌, Option, none, some, String, str_eq,
  eq_iff, List, [], ◌∷◌, ◌≡◌, refl, if◌then◌else◌, All, subst, Option-cases, sym, ◌∙◌, arith, ltb,
  leb, ltb_false→le, leb_false→lt,
}
use gsm_sv.Exec.{Exc, Result, ok, err, http_exception, wrong_code}
use gsm_sv.Table.{select}
use gsm_sv.Table.Laws.{All-select}
use gsm_sv.Models.{EmailVerification, Db}
use gsm_sv.Auth.{Services, find_user_by_email_role, latest_from, latest}
use gsm_sv.Auth.Signup.{is_open}
use gsm_sv.Auth.Verify.{
  Verified, pending_approval_status, active, for_project, role_of, count_attempt, open_account,
  verify_email,
}

latest_from-All :
    (P : EmailVerification → Type 0) (best : EmailVerification) (rs : List EmailVerification)
    → P best
    → All P rs
    → P (latest_from best rs)
latest_from-All P best [] h hs = h
latest_from-All P best (r ∷ rs) h hs = elim (Bool-cases (ltb best.created_at r.created_at)) [
  | inl e ↦ rw e (latest_from-All P r rs hs.0 hs.1)
  | inr e ↦ rw e (latest_from-All P best rs h hs.1)
]

latest-All :
    (P : EmailVerification → Type 0) (rs : List EmailVerification) (r : EmailVerification)
    → All P rs
    → latest rs ≡ some r
    → P r
latest-All P [] r hs e = absurd cc
latest-All P (x ∷ xs) r hs e = subst P picked (latest_from-All P x xs hs.0 hs.1)
  where
    picked : latest_from x xs ≡ r
    picked = cc

-- The latest record of a query passes the query's test.
pub latest_sound :
    (p : EmailVerification → Bool) (rs : List EmailVerification) (r : EmailVerification)
    → latest (select p rs) ≡ some r
    → p r ≡ true
latest_sound p rs r e = latest-All (λ x. p x ≡ true) (select p rs) r (All-select p rs) e

module _ (sv : Services) (now : ℕ) (email code : String) (db : Db) where
  -- The record that the code is compared with.
  pub record IsAsked (r : EmailVerification) : Type 0 where
    pub latest_open : latest (select (is_open email) db.email_verifications.rows) ≡ some r
    pub in_time : now ≤ r.expires_at
    pub attempts : r.attempts < 5

  -- The account that a right code opens.
  pub record Opened (v : Verified) (db' : Db) : Type 0 where
    pub request : EmailVerification
    pub asked : IsAsked request
    pub code_matches : request.code ≡ sv.strip code
    pub no_account : find_user_by_email_role db email (role_of request) ≡ none
    pub stored : db' ≡ open_account request db
    pub answer :
        v ≡ (if for_project request then pending_approval_status else active db.users.next_id)

  pub record Counted (x : Exc) (db' : Db) : Type 0 where
    pub request : EmailVerification
    pub asked : IsAsked request
    pub code_differs : str_eq request.code (sv.strip code) ≡ false
    pub raised : x ≡ http_exception 400 wrong_code
    pub stored : db' ≡ count_attempt request db

  -- A refusal that writes nothing is none of a wrong code.
  pub record Refused (db' : Db) : Type 0 where
    pub unwritten : db' ≡ db
    pub no_wrong_code : (r : EmailVerification) → IsAsked r → str_eq r.code (sv.strip code) ≡ true

  abbrev pub VerifiedBy : Result Verified × Db → Type 0
  VerifiedBy (ok v, db') = Opened v db'
  VerifiedBy (err x, db') = Refused db' ⊎ Counted x db'

  -- `verify_email` opens an account exactly as the latest unused record of the e-mail says, and only
  -- if the code is the one sent, in time, after fewer than five wrong ones, and no account of this
  -- e-mail and role exists; the record is used up. A wrong code for such a record adds one to the
  -- record's attempts. Every other refusal writes nothing.
  pub verify_email-VerifiedBy : VerifiedBy (verify_email sv now email code db)
  unfolding verify_email
  verify_email-VerifiedBy = go (latest (select (is_open email) db.email_verifications.rows)) refl
    where
      -- There is one latest record.
      one :
          {r r' : EmailVerification}
          → latest (select (is_open email) db.email_verifications.rows) ≡ some r
          → IsAsked r'
          → r' ≡ r
      one h a = let same = sym a.latest_open ∙ h in cc

      go :
          (o : Option EmailVerification)
          → latest (select (is_open email) db.email_verifications.rows) ≡ o
          → VerifiedBy (verify_email sv now email code db)
      go none h = rw h (
          inl (record { unwritten = refl; no_wrong_code = λ r' a. absurd (cc (a.latest_open, h)) }))
      go (some r) h = elim (Bool-cases (ltb r.expires_at now)) [
        | inl late ↦
            rw (h, late)
              (inl (record {
                unwritten = refl;
                no_wrong_code = λ r' a.
                    let fresh =
                      subst (λ (r : EmailVerification). now ≤ r.expires_at) (one h a) a.in_time in
                    absurd (ground (arith, late, fresh));
              }))
        | inr in_time ↦ elim (Bool-cases (leb 5 r.attempts)) [
          | inl many ↦
              rw (h, in_time, many)
                (inl (record {
                  unwritten = refl;
                  no_wrong_code = λ r' a.
                      let few =
                        subst (λ (r : EmailVerification). r.attempts < 5) (one h a) a.attempts in
                      absurd (ground (arith, many, few));
                }))
          | inr few ↦
              let asked : IsAsked r = record {
                latest_open = h;
                in_time = ltb_false→le r.expires_at now in_time;
                attempts = leb_false→lt 5 r.attempts few;
              } in
              elim (Bool-cases (str_eq r.code (sv.strip code))) [
                | inr wrong ↦
                    rw (h, in_time, few, wrong)
                      (inr (record {
                        request = r;
                        asked = asked;
                        code_differs = wrong;
                        raised = refl;
                        stored = refl;
                      }))
                | inl right ↦ elim (Option-cases (find_user_by_email_role db email (role_of r))) [
                  | inr (u, there) ↦
                      rw (h, in_time, few, right, there)
                        (inl (record {
                          unwritten = refl;
                          no_wrong_code = λ r' a.
                              subst
                                (λ (r : EmailVerification). str_eq r.code (sv.strip code) ≡ true)
                                (sym (one h a)) right;
                        }))
                  | inl free ↦
                      rw (h, in_time, few, right, free)
                        (record {
                          request = r;
                          asked = asked;
                          code_matches = (eq_iff r.code (sv.strip code)).0 right;
                          no_account = free;
                          stored = refl;
                          answer = refl;
                        })
                ]
              ]
        ]
      ]
