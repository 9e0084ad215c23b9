-- ===== src/Network/Link.antt =====
-- The gateway: an SSH connection that runs commands and replies with an exit status, or raises.
use gsm_sv.Prelude.{ℕ, suc, ◌-◌, ◌<◌, ◌≡◌, ◌⊎◌, false}
use gsm_sv.Exec.{Result, ok}
use gsm_sv.Models.{Server}
use gsm_sv.Network.Rules.{Rule, eq_rule, Command, check, append, check_and_remove}

pub record Gateway (E : Type 0) : Type 0 where
  pub connect : Server → E → Result (Unit {0}) × E
  pub exec : Command → E → Result ℕ × E

-- How often each rule stands in the gateway's chains around a command, as iptables(8) documents
-- it: `-C` changes nothing and exits with 0 or 1, `-A` adds its rule once, `-C && -D` removes its
-- rule once where it exits with 0, and exits with 1 where the rule is not there; a login changes nothing. A call that raises may or may not have had its effect.
pub record IptablesLaws {E : Type 0} (g : Gateway E) (count : E → Rule → ℕ) : Type 0 where
  pub connect_keeps : (s : Server) (q : Rule) (e : E) → count (g.connect s e).1 q ≡ count e q
  pub check_keeps : (r q : Rule) (e : E) → count (g.exec (check r) e).1 q ≡ count e q
  pub check_zero : (r : Rule) (e : E) → (g.exec (check r) e).0 ≡ ok 0 → 0 < count e r
  pub check_one : (r : Rule) (e : E) → (g.exec (check r) e).0 ≡ ok 1 → count e r ≡ 0
  pub append_others :
      (r q : Rule) (e : E) → eq_rule q r ≡ false → count (g.exec (append r) e).1 q ≡ count e q
  pub append_grows :
      (r : Rule) (e : E)
      → (count (g.exec (append r) e).1 r ≡ count e r)
        ⊎ (count (g.exec (append r) e).1 r ≡ suc (count e r))
  pub append_zero :
      (r : Rule) (e : E)
      → (g.exec (append r) e).0 ≡ ok 0
      → count (g.exec (append r) e).1 r ≡ suc (count e r)
  pub remove_others :
      (r q : Rule) (e : E)
      → eq_rule q r ≡ false
      → count (g.exec (check_and_remove r) e).1 q ≡ count e q
  pub remove_shrinks :
      (r : Rule) (e : E)
      → (count (g.exec (check_and_remove r) e).1 r ≡ count e r)
        ⊎ (count (g.exec (check_and_remove r) e).1 r ≡ count e r - 1)
  pub remove_zero :
      (r : Rule) (e : E)
      → (g.exec (check_and_remove r) e).0 ≡ ok 0
      → suc (count (g.exec (check_and_remove r) e).1 r) ≡ count e r
  pub remove_one : (r : Rule) (e : E) → (g.exec (check_and_remove r) e).0 ≡ ok 1 → count e r ≡ 0

-- No rollback command fails: it exits with 0, or with 1 because the rule is not there. Any other
-- exit status is the failure that `_run_iptables_commands` only logs.
abbrev pub RollbackReplies : {E : Type 0} → Gateway E → Type 0
RollbackReplies {E} g =
    (r : Rule) (e : E)
    → ((g.exec (check_and_remove r) e).0 ≡ ok 0) ⊎ ((g.exec (check_and_remove r) e).0 ≡ ok 1)
