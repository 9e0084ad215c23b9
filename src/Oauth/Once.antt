-- ===== src/Oauth/Once.antt =====
-- `exchange_temp_code` after `oauth_callback`, and after itself.
use gsm_sv.Prelude.{
  ℕ, ◌+◌, ◌≤◌, Bool, true, false, Bool-cases, inl, inr, Option, none, some, String, eq_refl, List,
  [], ◌∷◌, ◌++◌, ◌≡◌, refl, arith, ltb,
}
use gsm_sv.Exec.{Result, ok, err, http_exception, invalid_code}
use gsm_sv.Table.{find_first, drop_where}
use gsm_sv.Table.Laws.{drop_where_all, find_first_of_count}
use gsm_sv.Models.{User}
use gsm_sv.Oauth.{
  TokenEntry, OauthState, DataGsm, for_code, token_entry, fresh_entry, oauth_callback,
  exchange_temp_code,
}
use gsm_sv.Oauth.Granted.{Granted, GrantedBy, oauth_callback-GrantedBy}

find_first-drop_where :
    {A : Type 0} (p : A → Bool) (xs : List A) → find_first p (drop_where p xs) ≡ none
find_first-drop_where p xs = find_first_of_count p (drop_where p xs) (drop_where_all p xs)

find_appended :
    {A : Type 0} (p : A → Bool) (xs : List A) (y : A)
    → find_first p xs ≡ none
    → p y ≡ true
    → find_first p (xs ++ y ∷ []) ≡ some y
find_appended p [] y h t = rw t refl
find_appended p (x ∷ xs) y h t = elim (Bool-cases (p x)) [
  | inl e ↦ absurd (cc (rw e at h))
  | inr e ↦ rw e (find_appended p xs y (rw e at h) t)
]

abbrev spent : String → OauthState → OauthState
spent code s = record s { tokens = drop_where (for_code code) s.tokens }

exchange-spent :
    (now : ℕ) (code : String) (s : OauthState) → (exchange_temp_code now code s).1 ≡ spent code s
unfolding exchange_temp_code
exchange-spent now code s = go (fresh_entry now (find_first (for_code code) s.tokens)) refl
  where
    go :
        (o : Option TokenEntry)
        → fresh_entry now (find_first (for_code code) s.tokens) ≡ o
        → (exchange_temp_code now code s).1 ≡ spent code s
    go none e = rw e refl
    go (some t) e = rw e refl

exchange-none :
    (later : ℕ) (code : String) (s : OauthState)
    → find_first (for_code code) s.tokens ≡ none
    → (exchange_temp_code later code s).0 ≡ err (http_exception 400 invalid_code)
unfolding exchange_temp_code
exchange-none later code s h = rw h refl

exchange-last :
    (now later : ℕ) (code : String) (u : User) (rows : List TokenEntry) (s : OauthState)
    → s.tokens ≡ drop_where (for_code code) rows ++ token_entry now code u ∷ []
    → later ≤ now + 60
    → (exchange_temp_code later code s).0 ≡ ok u.id
unfolding exchange_temp_code
exchange-last now later code u rows s h in_time =
    let found =
      find_appended (for_code code) (drop_where (for_code code) rows) (token_entry now code u)
        (find_first-drop_where (for_code code) rows) (eq_refl code) in
    let fresh : ltb (now + 60) later ≡ false = ground (arith, in_time) in rw (h, found, fresh) refl

module _ (gsm : DataGsm) (now : ℕ) (temp_code code state : String) (s : OauthState) where
  -- The callback has signed an account in (Granted), and the exchange of its code within the minute
  -- gives the tokens of that account.
  abbrev pub ExchangedBy : ℕ → Result (Unit {0}) × OauthState → Type 0
  ExchangedBy later (ok x, s') =
      (g : Granted gsm now temp_code code state s s') × ((exchange_temp_code later temp_code s').0
        ≡ ok g.signed.account.id)
  ExchangedBy later (err x, s') = s'.tokens ≡ s.tokens

  exchanged :
      (later : ℕ)
      → later ≤ now + 60
      → (t : Result (Unit {0}) × OauthState) → GrantedBy gsm now temp_code code state s t
      → ExchangedBy later t
  exchanged later in_time (ok x, s') g =
      let signed = g.signed in
      (g, exchange-last now later temp_code signed.account s.tokens s' signed.tokens in_time)
  exchanged later in_time (err x, s') (tokens, pkce) = tokens

  -- Within a minute of `oauth_callback`, `exchange_temp_code` of the code it put gives back the account
  -- that was signed in: the active row of the table that the state, the profile's e-mail and the asked
  -- role select; and whatever the times, a second exchange of any code is
  -- refused. A callback that raises has put no code.
  pub exchange-oauth_callback :
      (later last : ℕ) (any_code : String)
      → later ≤ now + 60
      → ExchangedBy later (oauth_callback gsm now temp_code code state s)
        × ((exchange_temp_code last any_code (exchange_temp_code later any_code s).1).0
            ≡ err (http_exception 400 invalid_code))
  exchange-oauth_callback later last any_code in_time = (
    exchanged later in_time (oauth_callback gsm now temp_code code state s)
        (oauth_callback-GrantedBy gsm now temp_code code state s),
    exchange-none last any_code (exchange_temp_code later any_code s).1
        (rw (exchange-spent later any_code s) (find_first-drop_where (for_code any_code) s.tokens)),
  )
