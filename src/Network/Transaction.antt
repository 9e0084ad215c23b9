-- ===== src/Network/Transaction.antt =====
-- `_run_iptables_commands`: an ADD inspects every rule, appends those that are absent, and on a
-- failure takes back what it tried to append; a DELETE runs every command. The source passes the
-- commands as text and splits "check || add" again; here a command is read off its rule.
pub mod Inspect
pub mod Append
pub mod Rollback
pub mod Atomic
use gsm_sv.Prelude.{
  ℕ, Bool, true, false, Option, none, some, List, [], ◌∷◌, ◌==◌, ◌&&◌, if◌then◌else◌,
}
use gsm_sv.Exec.{Result, ok, err}
use gsm_sv.Models.{IptablesAction, add, delete}
use gsm_sv.Network.Rules.{Rule, Command, check, append, check_and_remove, iptables_command}
use gsm_sv.Network.Link.{Gateway}

-- `recv_exit_status() == 0`; an exception is no success.
abbrev pub succeeded : Result ℕ → Bool
succeeded (ok status) = status == 0
succeeded (err e) = false

module _ {E : Type 0} where
  abbrev enlist : Rule → Option (List Rule) × E → Option (List Rule) × E
  enlist r (none, e) = (none, e)
  enlist r (some pending, e) = (some (r ∷ pending), e)

  -- What the first loop makes of the reply to `-C` and of its later rounds.
  pub inspect_step : Rule → Result ℕ → E → Option (List Rule) × E → Option (List Rule) × E
  inspect_step r (err x) e rest = (none, e)
  inspect_step r (ok status) e rest =
      if status == 0 then rest else if status == 1 then enlist r rest else (none, e)

module _ {E : Type 0} (g : Gateway E) where
  -- The first loop: the rules that are absent. `none` is its early `return False`.
  pub inspect : List Rule → E → Option (List Rule) × E
  unfolding inspect_step
  inspect [] e = (some [], e)
  inspect (r ∷ rs) e =
      let (reply, e') = g.exec (check r) e in inspect_step r reply e' (inspect rs e')

  -- The second loop: append the pending rules, the last one tried in front of `attempted`.
  pub append_all : List Rule → List Rule → E → Bool × List Rule × E
  append_all [] attempted e = (true, attempted, e)
  append_all (r ∷ rs) attempted e =
      let (reply, e') = g.exec (append r) e in
      let rest = append_all rs (r ∷ attempted) e' in
      if succeeded reply then rest else (false, r ∷ attempted, e')

  -- `for check, delete in reversed(attempted)`: whatever a command replies, the next one is run.
  pub roll_back : List Rule → E → E
  roll_back [] e = e
  roll_back (r ∷ rs) e = roll_back rs (g.exec (check_and_remove r) e).1

  -- A failed command is noted and the next one run; an exception ends the loop.
  pub run_each : List Command → Bool → E → Bool × E
  run_each [] success e = (success, e)
  run_each (c ∷ cs) success e =
      let (reply, e') = g.exec c e in
      elim reply [ ok status ↦ run_each cs (success && status == 0) e' | err x ↦ (false, e') ]

  abbrev finish_add : Bool × List Rule × E → Bool × E
  finish_add (true, attempted, e) = (true, e)
  finish_add (false, attempted, e) = (false, roll_back attempted e)

  abbrev add_pending : Option (List Rule) × E → Bool × E
  add_pending (none, e) = (false, e)
  add_pending (some pending, e) = finish_add (append_all pending [] e)

  abbrev delete_commands : List Rule → List Command
  delete_commands [] = []
  delete_commands (r ∷ rs) = iptables_command r delete ∷ delete_commands rs

  -- With `rollback_commands` for an ADD, without for a DELETE.
  pub run_iptables_commands : List Rule → IptablesAction → E → Bool × E
  run_iptables_commands rules add e = add_pending (inspect rules e)
  run_iptables_commands rules delete e = run_each (delete_commands rules) true e
