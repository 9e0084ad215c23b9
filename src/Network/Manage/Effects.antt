-- ===== src/Network/Manage/Effects.antt =====
-- What a call of the two iptables functions with ADD leaves on the gateway.
use gsm_sv.Prelude.{ℕ, ◌<◌, Bool, true, false, List, ◌≡◌, refl, ◌∙◌, Bool-cases, inl, inr}
use gsm_sv.Exec.{Result, ok, err, Exec, value_error, ◌>>◌}
use gsm_sv.Models.{Server, Settings, Ip, add}
use gsm_sv.Network.Rules.{Rule, valid_ip}
use gsm_sv.Network.Link.{Gateway, IptablesLaws, RollbackReplies}
use gsm_sv.Network.Transaction.{run_iptables_commands}
use gsm_sv.Network.Transaction.Inspect.{occurrences}
use gsm_sv.Network.Transaction.Atomic.{run_add_restores, run_add_complete}
use gsm_sv.Network.Manage.{
  require, with_gateway, manage_iptables, has_gateway, vm_rules, apply_rules, if_gateway,
}

module _ {E : Type 0} (count : E → Rule → ℕ) where
  -- True: every rule stands. False or an exception: every rule stands as often as before.
  abbrev pub Installs : List Rule → E → Result Bool × E → Type 0
  Installs rules e (ok true, e') = (q : Rule) → 0 < occurrences q rules → 0 < count e' q
  Installs rules e (ok false, e') = (q : Rule) → count e' q ≡ count e q
  Installs rules e (err x, e') = (q : Rule) → count e' q ≡ count e q

  installs :
      (rules : List Rule) (e e' : E) (run : Bool × E)
      → ((q : Rule) → count e' q ≡ count e q)
      → ((q : Rule) → run.0 ≡ false → count run.1 q ≡ count e' q)
      → ((q : Rule) → run.0 ≡ true → 0 < occurrences q rules → 0 < count run.1 q)
      → Installs rules e (ok run.0, run.1)
  installs rules e e' (true, e'') same back all = λ q. all q refl
  installs rules e e' (false, e'') same back all = λ q. back q refl ∙ same q

-- A check before the rest: the rest runs in the same state, or the check raises there.
require_step :
    {E A : Type 0} (P : Result A × E → Type 0) (b : Bool) (m : Exec E A) (e : E)
    → P (m e)
    → P (err value_error, e)
    → P ((require b >> m) e)
require_step P true m e done raised = done
require_step P false m e done raised = raised

module _ {E : Type 0} (g : Gateway E) (count : E → Rule → ℕ) (laws : IptablesLaws g count)
    (replies : RollbackReplies g) where
  with_gateway-Installs :
      (server : Server) (rules : List Rule) (e : E)
      → Installs count rules e (with_gateway g server rules add e)
  unfolding with_gateway
  with_gateway-Installs server rules e =
      connected (g.connect server e) (λ q. laws.connect_keeps server q e)
    where
      connected :
          (c : Result (Unit {0}) × E)
          → ((q : Rule) → count c.1 q ≡ count e q)
          → Installs count rules e (elim c.0 [
            | ok _ ↦ let (success, e'') = run_iptables_commands g rules add c.1 in (ok success, e'')
            | err x ↦ (ok false, c.1)
          ])
      connected (ok _, e') same =
          installs count rules e e' (run_iptables_commands g rules add e') same
            (λ q. run_add_restores g count laws replies rules e' q)
            (λ q. run_add_complete g count laws rules e' q)
      connected (err x, e') same = same

  -- `manage_iptables` and `manage_custom_iptables` come down to this, for the rules that they build.
  abbrev pub InstallsAll : Result (List Rule) → E → Result Bool × E → Type 0
  InstallsAll (ok rules) e = Installs count rules e
  InstallsAll (err x) e = λ t. (q : Rule) → count t.1 q ≡ count e q

  InstallsAll-unchanged :
      (rules : Result (List Rule)) (e : E) (r : Result Bool)
      → (r ≡ ok true → ⊥)
      → InstallsAll rules e (r, e)
  InstallsAll-unchanged (ok rules) e (ok true) h = absurd (h refl)
  InstallsAll-unchanged (ok rules) e (ok false) h = λ q. refl
  InstallsAll-unchanged (ok rules) e (err x) h = λ q. refl
  InstallsAll-unchanged (err x) e r h = λ q. refl

  apply_rules-InstallsAll :
      (server : Server) (rules : Result (List Rule)) (e : E)
      → InstallsAll rules e (apply_rules g server rules add e)
  apply_rules-InstallsAll server (ok rules) e = with_gateway-Installs server rules e
  apply_rules-InstallsAll server (err x) e = λ q. refl

  if_gateway-InstallsAll :
      (server : Server) (rules : Result (List Rule)) (e : E)
      → InstallsAll rules e (if_gateway g server (apply_rules g server rules add) e)
  if_gateway-InstallsAll server rules e = elim (Bool-cases (has_gateway server)) [
    | inl here ↦ rw here (apply_rules-InstallsAll server rules e)
    | inr gone ↦ rw gone (InstallsAll-unchanged rules e (ok false) (λ h. cc))
  ]

  -- Where no rollback command fails (each exits with 0, or with 1 because the rule is not there), `manage_iptables` with ADD is all or nothing: after `True` all
  -- eight rules of the VM's ports stand; after `False` or an exception each rule stands as often as
  -- before.
  pub manage_iptables_add_atomic :
      (cfg : Settings) (server : Server) (vmid : ℕ) (vm_ip : Ip) (e : E)
      → InstallsAll
          (vm_rules cfg server vmid vm_ip)
          e
          (manage_iptables g cfg server vmid vm_ip add e)
  unfolding manage_iptables
  manage_iptables_add_atomic cfg server vmid vm_ip e =
      let rules = vm_rules cfg server vmid vm_ip in
      let P : Result Bool × E → Type 0 = InstallsAll rules e in
      let raised : P (err value_error, e) =
        InstallsAll-unchanged rules e (err value_error) (λ h. cc) in
      require_step P (valid_ip vm_ip)
        (require (valid_ip cfg.gateway_public_ip)
          >> if_gateway g server (apply_rules g server rules add))
        e
        (require_step P (valid_ip cfg.gateway_public_ip)
          (if_gateway g server (apply_rules g server rules add)) e
          (if_gateway-InstallsAll server rules e) raised)
        raised
