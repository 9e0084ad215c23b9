-- ===== src/Oauth/Granted.antt =====
-- Whose tokens the callback hands out.
use gsm_sv.Prelude.{
  ℕ, ◌≤◌, not, Bool-cases, inl, inr, Option, none, some, String, ◌≡◌, refl, subst, ltb,
  ltb_false→le,
}
use gsm_sv.Exec.{Result, ok, err, invalid_state}
use gsm_sv.Exec.Steps.{reject_step, or_raise_step}
use gsm_sv.Table.{find_first, drop_where}
use gsm_sv.Network.Manage.{has_text}
use gsm_sv.Oauth.{
  PkceEntry, OauthState, Userinfo, DataGsm, for_state, unexpired, pop_state, sign_in, with_profile,
  oauth_callback,
}
use gsm_sv.Oauth.Account.{Signed, SignedBy, sign_in-SignedBy}

module _ (gsm : DataGsm) (now : ℕ) (temp_code code state : String) (s : OauthState) where
  -- A sign-in that ends with a code.
  pub record Granted (s' : OauthState) : Type 0 where
    pub entry : PkceEntry
    pub started : find_first (for_state state) s.pkce ≡ some entry
    pub in_time : now ≤ entry.expires
    pub access_token : String
    pub exchanged : gsm.token code entry.verifier ≡ ok (some access_token)
    pub info : Userinfo
    pub profile : gsm.userinfo access_token ≡ ok (some info)
    pub signed : Signed now temp_code info entry.login_role (pop_state state s).1 s'

  abbrev pub GrantedBy : Result (Unit {0}) × OauthState → Type 0
  GrantedBy (ok x, s') = Granted s'
  GrantedBy (err x, s') = (s'.tokens ≡ s.tokens) × (s'.pkce ≡ drop_where (for_state state) s.pkce)

  unexpired-found :
      (o : Option PkceEntry) (e : PkceEntry)
      → unexpired now o ≡ some e
      → (o ≡ some e) × (now ≤ e.expires)
  unexpired-found none e h = absurd cc
  unexpired-found (some d) e h = elim (Bool-cases (ltb d.expires now)) [
    | inl t ↦ absurd (cc (rw t at h))
    | inr t ↦
        let same : some d ≡ some e = rw t at h in
        let is : d ≡ e = cc in
        (same, subst (λ (d : PkceEntry). now ≤ d.expires) is (ltb_false→le d.expires now t))
  ]

  profiled :
      (e : PkceEntry)
      → find_first (for_state state) s.pkce ≡ some e
      → now ≤ e.expires
      → GrantedBy (with_profile gsm now temp_code code e (pop_state state s).1)
  profiled e started in_time = asked (gsm.token code e.verifier) refl
    where
      signed :
          (access_token : String)
          → gsm.token code e.verifier ≡ ok (some access_token)
          → (info : Userinfo) → gsm.userinfo access_token ≡ ok (some info)
          → (t : Result (Unit {0}) × OauthState)
          → SignedBy now temp_code info e.login_role (pop_state state s).1 t
          → GrantedBy t
      signed access_token h info i (ok x, s') done = record {
        entry = e;
        started = started;
        in_time = in_time;
        access_token = access_token;
        exchanged = h;
        info = info;
        profile = i;
        signed = done;
      }
      signed access_token h info i (err x, s') same = same

      told :
          (access_token : String)
          → gsm.token code e.verifier ≡ ok (some access_token)
          → (r : Result (Option Userinfo)) → gsm.userinfo access_token ≡ r
          → GrantedBy (with_profile gsm now temp_code code e (pop_state state s).1)
      told access_token h (err x) i = rw (h, i) (refl, refl)
      told access_token h (ok none) i = rw (h, i) (refl, refl)
      told access_token h (ok (some info)) i =
          rw (h, i)
            (signed access_token h info i
              (sign_in now temp_code info e.login_role (pop_state state s).1)
              (sign_in-SignedBy now temp_code info e.login_role (pop_state state s).1))

      asked :
          (r : Result (Option String))
          → gsm.token code e.verifier ≡ r
          → GrantedBy (with_profile gsm now temp_code code e (pop_state state s).1)
      asked (err x) h = rw h (refl, refl)
      asked (ok none) h = rw h (refl, refl)
      asked (ok (some access_token)) h = told access_token h (gsm.userinfo access_token) refl

  -- `oauth_callback` puts a code for tokens into the store only where the state was started and is not
  -- older than its time, DataGSM exchanges the code under the state's verifier and gives a profile, and
  -- the account is a row of the table as the sign-in left it, is active, has the e-mail of the profile and the role that the sign-in asked for (an
  -- administrator may come in as a user). Otherwise no code is put. The state is used up in every case.
  pub oauth_callback-GrantedBy : GrantedBy (oauth_callback gsm now temp_code code state s)
  unfolding oauth_callback
  oauth_callback-GrantedBy =
      or_raise_step GrantedBy (unexpired now (find_first (for_state state) s.pkce)) _ _
        (pop_state state s).1
        (λ e h.
          reject_step GrantedBy (not (has_text (some e.verifier))) 400 invalid_state _
            (pop_state state s).1
            (λ has.
              let both = unexpired-found (find_first (for_state state) s.pkce) e h in
              profiled e both.0 both.1)
            (λ empty. (refl, refl)))
        (λ none_there. (refl, refl))
