-- ===== src/Tests/OnSignIn.antt =====
-- A student signs in through DataGSM.
use gsm_sv.Prelude.{some, [], ◌∷◌, ◌≡◌, arith}
use gsm_sv.Exec.{ok, err, http_exception, invalid_code}
use gsm_sv.Models.{user}
use gsm_sv.Oauth.{Userinfo, DataGsm, OauthState, oauth_callback, exchange_temp_code}
use gsm_sv.Oauth.Granted.{GrantedBy, oauth_callback-GrantedBy}
use gsm_sv.Oauth.Once.{ExchangedBy, exchange-oauth_callback}
use gsm_sv.Oauth.Unique.{HasOne, oauth_callback-HasOne}
use gsm_sv.Tests.{nobody, tables}

abbrev profile : Userinfo
profile = record { email = some "s24001@gsm.hs.kr"; sub = "17"; student = nobody }

abbrev gsm : DataGsm
gsm = record {
  token = λ code verifier. ok (some "token");
  userinfo = λ access_token. ok (some profile);
}

abbrev started : OauthState
started = record {
  db = tables;
  pkce = record { state = "state"; verifier = "verifier"; expires = 1300; login_role = user } ∷ [];
  tokens = [];
}

oauth_callback-GrantedBy_example :
    GrantedBy gsm 1000 "temp" "code" "state" started
      (oauth_callback gsm 1000 "temp" "code" "state" started)
oauth_callback-GrantedBy_example = oauth_callback-GrantedBy gsm 1000 "temp" "code" "state" started

exchange-oauth_callback_example :
    ExchangedBy gsm 1000 "temp" "code" "state" started 1030
      (oauth_callback gsm 1000 "temp" "code" "state" started)
    × ((exchange_temp_code 1050 "temp" (exchange_temp_code 1030 "temp" started).1).0
        ≡ err (http_exception 400 invalid_code))
exchange-oauth_callback_example =
    exchange-oauth_callback gsm 1000 "temp" "code" "state" started 1030 1050 "temp" (omega arith)

oauth_callback-HasOne_example :
    HasOne "s24001@gsm.hs.kr" user (oauth_callback gsm 1000 "temp" "code" "state" started).1.db
oauth_callback-HasOne_example =
    oauth_callback-HasOne "s24001@gsm.hs.kr" user gsm 1000 "temp" "code" "state" started
      (omega arith)
