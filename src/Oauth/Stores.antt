-- ===== src/Oauth/Stores.antt =====
-- The two in-memory stores of api/routes/oauth.py, `oauth_authorize` and `exchange_temp_code`.
use gsm_sv.Prelude.{
  ℕ, ◌+◌, Bool, Option, none, some, String, str_eq, List, [], ◌∷◌, ◌++◌, length, ltb, if◌then◌else◌,
}
use gsm_sv.Exec.{
  Exec, ok, http_exception, pure, gets, modify, or_raise, reject_if, ◌>>=◌, ◌>>◌, bad_login_role,
  server_busy, invalid_code,
}
use gsm_sv.Table.{find_first, drop_where}
use gsm_sv.Models.{UserRole, admin, project_owner, user, Db}

-- An entry of `_pkce_store`.
pub record PkceEntry : Type 0 where
  pub state : String
  pub verifier : String
  pub expires : ℕ
  pub login_role : UserRole

-- An entry of `_token_store`; both tokens are for the account.
pub record TokenEntry : Type 0 where
  pub code : String
  pub account : ℕ
  pub expires : ℕ

-- The database and the two stores.
pub record OauthState : Type 0 where
  pub db : Db
  pub pkce : List PkceEntry
  pub tokens : List TokenEntry

abbrev pub for_state : String → PkceEntry → Bool
for_state state e = str_eq e.state state

abbrev pub for_code : String → TokenEntry → Bool
for_code code e = str_eq e.code code

-- `_cleanup_stores`
unfoldable pub cleanup_stores : ℕ → OauthState → OauthState
cleanup_stores now s = record s {
  pkce = drop_where (λ (e : PkceEntry). ltb e.expires now) s.pkce;
  tokens = drop_where (λ (e : TokenEntry). ltb e.expires now) s.tokens;
}

-- `role_map`
abbrev pub role_of_login : String → Option UserRole
role_of_login name =
    if str_eq name "user"
    then some user
    else if str_eq name "project_owner"
    then some project_owner
    else if str_eq name "admin"
    then some admin
    else none

-- _STORE_TTL
abbrev pub store_ttl : ℕ
store_ttl = 300

abbrev pub pkce_entry : (state verifier : String) → ℕ → UserRole → PkceEntry
pkce_entry state verifier now role = record {
  state = state;
  verifier = verifier;
  expires = now + store_ttl;
  login_role = role;
}

abbrev pub put_state : PkceEntry → OauthState → OauthState
put_state e s = record s { pkce = drop_where (for_state e.state) s.pkce ++ e ∷ [] }

-- `oauth_authorize`, up to the redirection.
unfoldable pub oauth_authorize :
    (now : ℕ) → (state verifier login_role : String) → Exec OauthState (Unit {0})
unfolding cleanup_stores
oauth_authorize now state verifier login_role = do
  role ← or_raise (role_of_login login_role) (http_exception 400 bad_login_role)
  modify (cleanup_stores now)
  entries ← gets (λ (s : OauthState). s.pkce)
  reject_if (ltb 1000 (length entries)) 503 server_busy
  modify (put_state (pkce_entry state verifier now role))

-- `_pkce_store.pop(state, None)`
abbrev pub pop_state : String → Exec OauthState (Option PkceEntry)
pop_state state s = (
  ok (find_first (for_state state) s.pkce),
  record s { pkce = drop_where (for_state state) s.pkce },
)

abbrev pub unexpired : ℕ → Option PkceEntry → Option PkceEntry
unexpired now none = none
unexpired now (some e) = if ltb e.expires now then none else some e

abbrev pub put_tokens : TokenEntry → OauthState → OauthState
put_tokens e s = record s { tokens = drop_where (for_code e.code) s.tokens ++ e ∷ [] }

abbrev pub pop_code : String → Exec OauthState (Option TokenEntry)
pop_code code s = (
  ok (find_first (for_code code) s.tokens),
  record s { tokens = drop_where (for_code code) s.tokens },
)

abbrev pub fresh_entry : ℕ → Option TokenEntry → Option TokenEntry
fresh_entry now none = none
fresh_entry now (some e) = if ltb e.expires now then none else some e

-- `exchange_temp_code`: the account of the tokens.
unfoldable pub exchange_temp_code : (now : ℕ) → String → Exec OauthState ℕ
exchange_temp_code now code = do
  entry ← pop_code code
  e ← or_raise (fresh_entry now entry) (http_exception 400 invalid_code)
  pure e.account
