-- ===== src/Oauth/Account.antt =====
-- The account that a profile of DataGSM signs in.
use gsm_sv.Prelude.{
  ℕ, true, not, Bool-cases, ◌⊎◌, inl, inr, Option, none, some, String, str_eq, eq_iff, [], ◌∷◌,
  ◌++◌, ◌≡◌, refl, sym, ap, ◌∙◌, subst, is_some, and_true, not-false, Memᴰ, List, ==_refl,
  if◌then◌else◌,
}
use gsm_sv.Prelude.Memᴰ
use gsm_sv.Exec.{Result, ok, err, ◌>>=◌, no_email}
use gsm_sv.Exec.Steps.{reject_step, or_raise_step, bind_step}
use gsm_sv.Table.{drop_where, update_where}
use gsm_sv.Auth.Accounts.{with_user_id}
use gsm_sv.Table.Laws.{find_first_sound, find_first_member}
use gsm_sv.Models.{UserRole, admin, project_owner, user, eq_role, eq_role_iff, User, Db}
use gsm_sv.Network.Manage.{has_text}
use gsm_sv.Auth.{find_user_by_email_role, is_account}
use gsm_sv.Oauth.{
  OauthState, Userinfo, for_code, linked, admin_fallback, match_user, settle_user, token_entry,
  grant, sign_in,
}

-- An account that the e-mail and the role of the sign-in select.
abbrev pub IsRight : String → UserRole → User → Type 0
IsRight email role u = (u.email ≡ email) × ((u.role ≡ role) ⊎ ((role ≡ user) × (u.role ≡ admin)))

found_account :
    (db : Db) (email : String) (role : UserRole) (u : User)
    → find_user_by_email_role db email role ≡ some u
    → (u.email ≡ email) × (u.role ≡ role)
found_account db email role u h =
    let both =
      and_true (str_eq u.email email) (eq_role u.role role)
        (find_first_sound (is_account email role) db.users.rows h) in
    ((eq_iff u.email email).0 both.0, (eq_role_iff u.role role).0 both.1)

found_row :
    (db : Db) (email : String) (role : UserRole) (u : User)
    → find_user_by_email_role db email role ≡ some u
    → Memᴰ u db.users.rows
found_row db email role u h = find_first_member (is_account email role) db.users.rows h

-- Linking puts the linked account in the place of the account.
linked_row :
    (info : Userinfo) (u : User) (rows : List User)
    → Memᴰ u rows
    → Memᴰ (linked info u) (update_where (with_user_id u.id) (linked info) rows)
linked_row info u [] m = absurd (Memᴰ.not-nil m)
linked_row info u (x ∷ xs) m = elim (Memᴰ.cases_cons m) [
  | inl same ↦ Memᴰ.head (
      subst (λ (y : User). linked info u ≡ (if with_user_id u.id y then linked info y else y)) same
        (rw (==_refl u.id) refl))
  | inr later ↦ Memᴰ.tail (linked_row info u xs later)
]

-- The two stores are as they were.
abbrev pub SameStores : OauthState → OauthState → Type 0
SameStores s s' = (s'.tokens ≡ s.tokens) × (s'.pkce ≡ s.pkce)

module _ (email : String) (role : UserRole) (s : OauthState) where
  abbrev RightIf : Option User → Type 0
  RightIf none = Unit
  RightIf (some u) = IsRight email role u × Memᴰ u s.db.users.rows

  abbrev MatchedBy : Result (Option User) × OauthState → Type 0
  MatchedBy (ok o, s') = RightIf o × (s' ≡ s)
  MatchedBy (err x, s') = s' ≡ s

  fallback-MatchedBy :
      (o : Option User)
      → role ≡ user
      → find_user_by_email_role s.db email admin ≡ o
      → MatchedBy (admin_fallback s.db email o s)
  fallback-MatchedBy none plain h = (tt, refl)
  fallback-MatchedBy (some u) plain h =
      elim (Bool-cases (is_some (find_user_by_email_role s.db email project_owner))) [
        | inl e ↦ rw e refl
        | inr e ↦
            let both = found_account s.db email admin u h in
            rw e (((both.0, inr (plain, both.1)), found_row s.db email admin u h), refl)
      ]

  match_user-MatchedBy :
      (o : Option User)
      → find_user_by_email_role s.db email role ≡ o
      → MatchedBy (match_user s.db email role o s)
  match_user-MatchedBy (some u) h =
      let both = found_account s.db email role u h in
      (((both.0, inl both.1), found_row s.db email role u h), refl)
  match_user-MatchedBy none h = elim (Bool-cases (eq_role role user)) [
    | inr e ↦ rw e (tt, refl)
    | inl e ↦ rw e (
        fallback-MatchedBy (find_user_by_email_role s.db email admin) ((eq_role_iff role user).0 e)
          refl)
  ]

  abbrev SettledBy : Result User × OauthState → Type 0
  SettledBy (ok u, s') = (IsRight email role u × Memᴰ u s'.db.users.rows) × SameStores s s'
  SettledBy (err x, s') = SameStores s s'

  settle_user-SettledBy :
      (info : Userinfo) (o : Option User) → RightIf o → SettledBy (settle_user info email role o s)
  settle_user-SettledBy info (some u) right =
      ((right.0, linked_row info u s.db.users.rows right.1), (refl, refl))
  settle_user-SettledBy info none right = elim (Bool-cases (eq_role role user)) [
    | inl e ↦ rw e (
      (
        (refl, inl (sym ((eq_role_iff role user).0 e))),
        Memᴰ.append_right s.db.users.rows (Memᴰ.head refl),
      ),
      (refl, refl),
    )
    | inr e ↦ rw e (refl, refl)
  ]

module _ (now : ℕ) (temp_code : String) (info : Userinfo) (role : UserRole) (s : OauthState) where
  -- Tokens for an approved account of the table that the profile's e-mail selects.
  pub record Signed (s' : OauthState) : Type 0 where
    pub email : String
    pub of_profile : info.email ≡ some email
    pub account : User
    pub right : IsRight email role account
    pub row : Memᴰ account s'.db.users.rows
    pub active : account.is_active ≡ true
    pub tokens :
        s'.tokens
        ≡ drop_where (for_code temp_code) s.tokens ++ token_entry now temp_code account ∷ []
    pub pkce : s'.pkce ≡ s.pkce

  abbrev pub SignedBy : Result (Unit {0}) × OauthState → Type 0
  SignedBy (ok x, s') = Signed s'
  SignedBy (err x, s') = SameStores s s'

  settled :
      (email : String) (u : User) (s₁ : OauthState)
      → info.email ≡ some email
      → IsRight email role u × Memᴰ u s₁.db.users.rows
      → SameStores s s₁
      → SignedBy (grant now temp_code u s₁)
  settled email u s₁ h right same = elim (Bool-cases (not u.is_active)) [
    | inl e ↦ rw e same
    | inr e ↦ rw e (record {
      email = email;
      of_profile = h;
      account = u;
      right = right.0;
      row = right.1;
      active = not-false e;
      tokens =
          ap (λ ts. drop_where (for_code temp_code) ts ++ token_entry now temp_code u ∷ []) same.0;
      pkce = same.1;
    })
  ]

  since : (s₁ s₂ : OauthState) → s₁ ≡ s → SameStores s₁ s₂ → SameStores s s₂
  since s₁ s₂ e same =
      (same.0 ∙ ap (λ (s : OauthState). s.tokens) e, same.1 ∙ ap (λ (s : OauthState). s.pkce) e)

  pub sign_in-SignedBy : SignedBy (sign_in now temp_code info role s)
  sign_in-SignedBy =
      reject_step SignedBy (not (has_text info.email)) 400 no_email _ s
        (λ has.
          or_raise_step SignedBy info.email _ _ s
            (λ email h.
              bind_step SignedBy
                (match_user s.db email role (find_user_by_email_role s.db email role)) _ s
                (λ found s₁ e. matched email h found s₁ (
                  subst (MatchedBy email role s) e (
                    match_user-MatchedBy email role s (find_user_by_email_role s.db email role)
                      refl)))
                (λ x s₁ e.
                  let same : s₁ ≡ s = subst (MatchedBy email role s) e (
                    match_user-MatchedBy email role s (find_user_by_email_role s.db email role)
                      refl) in
                  rw same (refl, refl)))
            (λ none_given. (refl, refl)))
        (λ empty. (refl, refl))
    where
      matched :
          (email : String)
          → info.email ≡ some email
          → (found : Option User) (s₁ : OauthState) → MatchedBy email role s (ok found, s₁)
          → SignedBy ((do u ← settle_user info email role found; grant now temp_code u) s₁)
      matched email h found s₁ (right, same) =
          let there : RightIf email role s₁ found =
            subst (λ s. RightIf email role s found) (sym same) right in
          bind_step SignedBy (settle_user info email role found) (grant now temp_code) s₁
            (λ u s₂ e.
              let both =
                subst (SettledBy email role s₁) e
                  (settle_user-SettledBy email role s₁ info found there) in
              settled email u s₂ h both.0 (since s₁ s₂ same both.1))
            (λ x s₂ e. since s₁ s₂ same (
              subst (SettledBy email role s₁) e
                (settle_user-SettledBy email role s₁ info found there)))
