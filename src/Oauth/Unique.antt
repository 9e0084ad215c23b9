-- ===== src/Oauth/Unique.antt =====
-- `oauth_callback` and the number of accounts of an e-mail and role.
use gsm_sv.Prelude.{
  ℕ, ◌≤◌, Bool, false, not, Bool-cases, inl, inr, Option, none, some, String, str_eq, eq_iff, List,
  [], ◌∷◌, ◌≡◌, refl, subst, arith, any, is_some, and_true,
}
use gsm_sv.Exec.{◌>>=◌, Result, ok, err, no_email, invalid_state}
use gsm_sv.Exec.Steps.{reject_step, or_raise_step, bind_step}
use gsm_sv.Table.{find_first, count_where}
use gsm_sv.Table.Laws.{count_where-update_where, count_where-new}
use gsm_sv.Models.{UserRole, admin, project_owner, user, eq_role, eq_role_iff, User, Db}
use gsm_sv.Network.Manage.{has_text}
use gsm_sv.Auth.{find_user_by_email_role, is_account}
use gsm_sv.Auth.Accounts.{with_user_id}
use gsm_sv.Oauth.{
  PkceEntry, OauthState, Userinfo, DataGsm, for_state, unexpired, admin_fallback, match_user,
  linked, new_user, link_user, add_user, settle_user, grant, pop_state, sign_in, with_profile,
  oauth_callback,
}

any-find_first :
    {A : Type 0} (p : A → Bool) (rows : List A) → find_first p rows ≡ none → any p rows ≡ false
any-find_first p [] h = refl
any-find_first p (x ∷ rows) h = elim (Bool-cases (p x)) [
  | inl e ↦ absurd (cc (rw e at h))
  | inr e ↦ rw e (any-find_first p rows (rw e at h))
]

-- Nothing is written, and where no account is found there is none of the e-mail and role.
abbrev MatchOf : String → UserRole → OauthState → Result (Option User) × OauthState → Type 0
MatchOf email role s (ok none, s') = (find_user_by_email_role s.db email role ≡ none) × (s' ≡ s)
MatchOf email role s (ok (some u), s') = s' ≡ s
MatchOf email role s (err x, s') = s' ≡ s

match_user-MatchOf :
    (email : String) (role : UserRole) (s : OauthState) (o : Option User)
    → find_user_by_email_role s.db email role ≡ o
    → MatchOf email role s (match_user s.db email role o s)
match_user-MatchOf email role s (some u) h = refl
match_user-MatchOf email role s none h = elim (Bool-cases (eq_role role user)) [
  | inr e ↦ rw e (h, refl)
  | inl e ↦ rw e (go (find_user_by_email_role s.db email admin))
]
  where
    go : (o : Option User) → MatchOf email role s (admin_fallback s.db email o s)
    go none = (h, refl)
    go (some u) = elim (Bool-cases (is_some (find_user_by_email_role s.db email project_owner))) [
      | inl t ↦ rw t refl
      | inr t ↦ rw t refl
    ]

module _ (email : String) (role : UserRole) where
  abbrev pub HasOne : Db → Type 0
  HasOne db = count_where (is_account email role) db.users.rows ≤ 1

  abbrev Kept : {A : Type 0} → Result A × OauthState → Type 0
  Kept (r, s) = HasOne s.db

  link_user-HasOne :
      (info : Userinfo) (u : User) (s : OauthState) → HasOne s.db → HasOne (link_user info u s).db
  link_user-HasOne info u s h =
      let same =
        count_where-update_where (with_user_id u.id) (is_account email role) (linked info)
          (λ x. refl) s.db.users.rows in
      omega (arith, same, h)

  add_user-HasOne :
      (info : Userinfo) (e : String) (s : OauthState)
      → HasOne s.db
      → find_user_by_email_role s.db e user ≡ none
      → HasOne (add_user info e s).db
  add_user-HasOne info e s h free =
      count_where-new (is_account email role) (new_user info e) s.db.users h (λ t.
        let both = and_true (str_eq e email) (eq_role user role) t in
        subst (λ (n : String). any (is_account n role) s.db.users.rows ≡ false)
          ((eq_iff e email).0 both.0)
          (subst (λ (r : UserRole). any (is_account e r) s.db.users.rows ≡ false)
            ((eq_role_iff user role).0 both.1)
            (any-find_first (is_account e user) s.db.users.rows free)))

  settle-Kept :
      (info : Userinfo) (e : String) (asked : UserRole) (o : Option User) (s : OauthState)
      → HasOne s.db
      → (o ≡ none → find_user_by_email_role s.db e asked ≡ none)
      → Kept (settle_user info e asked o s)
  settle-Kept info e asked (some u) s h free = link_user-HasOne info u s h
  settle-Kept info e asked none s h free = elim (Bool-cases (eq_role asked user)) [
    | inr t ↦ rw t h
    | inl t ↦ rw t (
        add_user-HasOne info e s h (
          subst (λ (r : UserRole). find_user_by_email_role s.db e r ≡ none)
            ((eq_role_iff asked user).0 t) (free refl)))
  ]

  grant-Kept :
      (now : ℕ) (temp_code : String) (u : User) (s : OauthState)
      → HasOne s.db
      → Kept (grant now temp_code u s)
  grant-Kept now temp_code u s h = elim (Bool-cases (not u.is_active)) [
    | inl t ↦ rw t h
    | inr t ↦ rw t h
  ]

  module _ (now : ℕ) (temp_code : String) (info : Userinfo) (asked : UserRole) where
    tail-Kept :
        (e : String) (o : Option User) (s s₁ : OauthState)
        → HasOne s.db
        → MatchOf e asked s (ok o, s₁)
        → Kept ((do u ← settle_user info e asked o; grant now temp_code u) s₁)
    tail-Kept e o s s₁ h m =
        let kept = settle-Kept info e asked o s₁ (one o m) (free o m) in
        bind_step Kept (settle_user info e asked o) (grant now temp_code) s₁
          (λ u s₂ t.
            grant-Kept now temp_code u s₂
              (subst (λ (r : Result User × OauthState). HasOne r.1.db) t kept))
          (λ x s₂ t. subst (λ (r : Result User × OauthState). HasOne r.1.db) t kept)
      where
        one : (o : Option User) → MatchOf e asked s (ok o, s₁) → HasOne s₁.db
        one none m = rw m.1 h
        one (some u) m = rw m h

        free :
            (o : Option User)
            → MatchOf e asked s (ok o, s₁)
            → o ≡ none
            → find_user_by_email_role s₁.db e asked ≡ none
        free none m t = rw m.1 m.0
        free (some u) m t = absurd cc

    sign_in-Kept : (s : OauthState) → HasOne s.db → Kept (sign_in now temp_code info asked s)
    sign_in-Kept s h =
        reject_step Kept (not (has_text info.email)) 400 no_email _ s
          (λ has.
            or_raise_step Kept info.email _ _ s
              (λ e t.
                bind_step Kept (match_user s.db e asked (find_user_by_email_role s.db e asked)) _ s
                  (λ found s₁ k. tail-Kept e found s s₁ h (
                    subst (MatchOf e asked s) k
                      (match_user-MatchOf e asked s (find_user_by_email_role s.db e asked) refl)))
                  (λ x s₁ k.
                    let same : s₁ ≡ s =
                      subst (MatchOf e asked s) k (
                        match_user-MatchOf e asked s (find_user_by_email_role s.db e asked) refl) in
                    rw same h))
              (λ none_given. h))
          (λ empty. h)

  module _ (gsm : DataGsm) (now : ℕ) (temp_code code state : String) where
    profile-Kept :
        (e : PkceEntry) (s : OauthState)
        → HasOne s.db
        → Kept (with_profile gsm now temp_code code e s)
    profile-Kept e s h = asked (gsm.token code e.verifier) refl
      where
        told :
            (access_token : String)
            → gsm.token code e.verifier ≡ ok (some access_token)
            → (r : Result (Option Userinfo)) → gsm.userinfo access_token ≡ r
            → Kept (with_profile gsm now temp_code code e s)
        told access_token t (err x) i = rw (t, i) h
        told access_token t (ok none) i = rw (t, i) h
        told access_token t (ok (some info)) i =
            rw (t, i) (sign_in-Kept now temp_code info e.login_role s h)

        asked :
            (r : Result (Option String))
            → gsm.token code e.verifier ≡ r
            → Kept (with_profile gsm now temp_code code e s)
        asked (err x) t = rw t h
        asked (ok none) t = rw t h
        asked (ok (some access_token)) t = told access_token t (gsm.userinfo access_token) refl

    -- `oauth_callback`, whatever DataGSM answers, gives no e-mail and role a second account: where each
    -- had at most one before, it has at most one after, on every branch.
    pub oauth_callback-HasOne :
        (s : OauthState) → HasOne s.db → HasOne (oauth_callback gsm now temp_code code state s).1.db
    unfolding oauth_callback
    oauth_callback-HasOne s h =
        or_raise_step Kept (unexpired now (find_first (for_state state) s.pkce)) _ _
          (pop_state state s).1
          (λ e t.
            reject_step Kept (not (has_text (some e.verifier))) 400 invalid_state _
              (pop_state state s).1 (λ has. profile-Kept e (pop_state state s).1 h) (λ empty. h))
          (λ none_there. h)
