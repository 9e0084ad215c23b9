-- ===== src/Tests/OnAccounts.antt =====
-- Accounts on the small installation.
use gsm_sv.Prelude.{◌≤◌, arith, All}
use gsm_sv.Table.{count_where}
use gsm_sv.Models.{user, Db}
use gsm_sv.Auth.{is_account}
use gsm_sv.Auth.Verify.{verify_email}
use gsm_sv.Auth.Verify.Outcome.{VerifiedBy, verify_email-VerifiedBy}
use gsm_sv.Auth.Accounts.{as_user, login}
use gsm_sv.Auth.Access.{LoggedInBy, login-LoggedInBy}
use gsm_sv.Auth.Unique.{to_verify, serve, Reachable, here, after, reachable-HasOne}
use gsm_sv.Auth.Attempts.{AtMostFive, reachable-AtMostFive}
use gsm_sv.Tests.{services, settings, tables}

verify_email-VerifiedBy_example :
    VerifiedBy services 1200 "s24003@gsm.hs.kr" "123456" tables
      (verify_email services 1200 "s24003@gsm.hs.kr" "123456" tables)
verify_email-VerifiedBy_example =
    verify_email-VerifiedBy services 1200 "s24003@gsm.hs.kr" "123456" tables

login-LoggedInBy_example :
    LoggedInBy services "s24001@gsm.hs.kr" "right horse" as_user tables
      (login services "s24001@gsm.hs.kr" "right horse" as_user tables)
login-LoggedInBy_example = login-LoggedInBy services "s24001@gsm.hs.kr" "right horse" as_user tables

-- A wrong code, then the right one.
abbrev verified_tables : Db
verified_tables =
    serve services settings (to_verify 1200 "s24003@gsm.hs.kr" "123456")
      (serve services settings (to_verify 1100 "s24003@gsm.hs.kr" "111111") tables)

abbrev two_requests : Reachable services settings tables verified_tables
two_requests =
    after (after here (to_verify 1100 "s24003@gsm.hs.kr" "111111"))
      (to_verify 1200 "s24003@gsm.hs.kr" "123456")

reachable-HasOne_example :
    count_where (is_account "s24003@gsm.hs.kr" user) verified_tables.users.rows ≤ 1
reachable-HasOne_example =
    reachable-HasOne services settings "s24003@gsm.hs.kr" user tables verified_tables (omega arith)
      two_requests

reachable-AtMostFive_example : All AtMostFive verified_tables.email_verifications.rows
reachable-AtMostFive_example =
    reachable-AtMostFive services settings tables verified_tables (omega arith, tt) two_requests
