-- ===== src/Vm/Provision.antt =====
-- The calls of `create_vm` between the reservation and the final commit, the wait for the clone, and
-- the clean-up after a failure.
pub mod Wait
use gsm_sv.Prelude.{
  ℕ, zero, suc, ◌+◌, ◌-◌, ◌*◌, ◌/◌, Bool, true, false, not, ◌&&◌, Option, none, some, String, List,
  [], ◌∷◌, leb, ltb, if◌then◌else◌,
}
use Prim.Native.Nat.{min}
use gsm_sv.Exec.{
  Exec, Exc, Result, ok, err, http_exception, runtime_error, other_error, pure, raise, http, ◌>>=◌,
  ◌>>◌, catch, clone_failed, clone_timeout, lock_timeout,
}
use gsm_sv.Models.{
  Server, Ip, Text, Settings, Specs, VmTier, project_custom, eq_tier, VmOs, ubuntu2204,
  windows_server, add, delete,
}
use gsm_sv.Network.{Gateway}
use gsm_sv.Network.Manage.{has_text, manage_iptables}
use gsm_sv.Platform.{
  Platform, CloneParams, TaskStatus, VmConfig, cloud_init, resources, VmAction, start, StatusReply,
  status_is, missing, failing,
}

-- What one round of a polling loop says: stop, stop with an exception, or go on.
pub data Verdict : Type 0 where
  finished : Verdict
  aborted : Exc → Verdict
  again : Verdict

abbrev pub task_verdict : Result TaskStatus → Verdict
task_verdict (ok task) =
    if task.stopped
    then if task.exit_ok then finished else aborted (http_exception 500 clone_failed)
    else again
task_verdict (err (http_exception code d)) = aborted (http_exception code d)
task_verdict (err other) = again

abbrev pub lock_verdict : Result Bool → Verdict
lock_verdict (ok locked) = if locked then again else finished
lock_verdict (err e) = again

module _ {E : Type 0} (p : Platform E) where
  -- `while time.time() < deadline: … time.sleep(min(delay, max(0, deadline - time.time())))`, on
  -- fuel; `none` is out of fuel. Times and delays count half seconds.
  unfoldable pub poll :
      (E → Verdict × E)
      → (deadline longest : ℕ) (late : Exc) → ℕ
      → ℕ
      → E
      → Option (Result (Unit {0}) × E)
  poll ask deadline longest late zero delay e = none
  poll ask deadline longest late (suc fuel) delay e =
      let (verdict, e') = ask e in
      let rest =
        poll ask deadline longest late fuel (min (delay * 2) longest)
          (p.sleep (min delay (deadline - p.time e')) e') in
      let turn : Option (Result (Unit {0}) × E) = elim verdict [
        | finished ↦ some (ok tt, e')
        | aborted x ↦ some (err x, e')
        | again ↦ rest
      ] in
      if ltb (p.time e) deadline then turn else some (err late, e)

  abbrev pub or_stuck : E → Option (Result (Unit {0}) × E) → Result (Unit {0}) × E
  or_stuck e none = (err other_error, e)
  or_stuck e (some t) = t

  -- Both loops of `_wait_for_clone`: the task, then the lock. The timeout is 120 seconds.
  unfoldable pub wait_for_clone : String → ℕ → ℕ → Exec E (Unit {0})
  wait_for_clone node vmid upid e =
      let deadline = p.time e + 240 in
      let task : Exec E (Unit {0}) = λ e. or_stuck e (
        poll (λ e. let (r, e') = p.task_status node upid e in (task_verdict r, e')) deadline 10
          (http_exception 500 clone_timeout) (suc (deadline - p.time e)) 2 e) in
      let lock : Exec E (Unit {0}) = λ e. or_stuck e (
        poll (λ e. let (r, e') = p.config_lock node vmid e in (lock_verdict r, e')) deadline 6
          (http_exception 500 lock_timeout) (suc (deadline - p.time e)) 1 e) in
      (task >> lock) e

  -- `_upload_snippet` and `_delete_snippet`
  unfoldable pub upload_snippet : Server → ℕ → String → Exec E (Unit {0})
  upload_snippet server vmid password =
      if has_text server.ssh_user
      then p.upload_snippet server vmid password
      else raise runtime_error

  unfoldable pub delete_snippet : Server → ℕ → Exec E (Unit {0})
  delete_snippet server vmid =
      if has_text server.ssh_user
      then catch (p.delete_snippet server vmid) (λ e. pure tt)
      else pure tt

  -- The ten rounds that wait, before the clean-up's deletion, for the lock to go.
  unfoldable pub wait_unlocked : ℕ → String → ℕ → E → E
  wait_unlocked zero node vmid e = e
  wait_unlocked (suc rounds) node vmid e =
      let (r, e') = p.config_lock node vmid e in
      let rest = wait_unlocked rounds node vmid (p.sleep 6 e') in
      elim r [ ok locked ↦ if locked then rest else e' | err x ↦ rest ]

  abbrev pub template_vmid : Settings → VmOs → ℕ
  template_vmid cfg windows_server = cfg.template_vmid_windows
  template_vmid cfg ubuntu2204 = cfg.template_vmid

  abbrev pub vm_exists : StatusReply → Bool
  vm_exists missing = false
  vm_exists (status_is running) = true
  vm_exists failing = true

-- A VM that is being created.
pub record Job : Type 0 where
  pub server : Server
  pub vmid : ℕ
  pub name : Text
  pub ip : Ip
  pub os : VmOs
  pub tier : VmTier
  pub specs : Specs
  pub storage : Option String
  pub password : String

module _ {E : Type 0} (p : Platform E) (g : Gateway E) (cfg : Settings) where
  -- Step 5: the clone is started.
  unfoldable pub start_clone : Job → Exec E ℕ
  start_clone j =
      p.clone j.server.name (template_vmid p cfg j.os)
        (record { newid = j.vmid; name = j.name; target = j.server.name; storage = j.storage })

  abbrev pub balloon : Job → Option ℕ
  balloon j = if eq_tier j.tier project_custom then some (j.specs.memory / 2) else none

  abbrev pub require_true : Bool → Exec E (Unit {0})
  require_true true = pure tt
  require_true false = raise runtime_error

  -- The rest of step 5 up to step 8.
  unfoldable pub configure : Job → ℕ → Exec E (Unit {0})
  configure j upid = do
    wait_for_clone p j.server.name j.vmid upid
    upload_snippet p j.server j.vmid j.password
    p.config_put j.server.name j.vmid (cloud_init j.ip)
    p.config_put j.server.name j.vmid (resources j.specs.memory j.specs.cores (balloon j))
    p.resize_put j.server.name j.vmid j.specs.disk
    added ← manage_iptables g cfg j.server j.vmid j.ip add
    require_true added

  -- Step 9.
  unfoldable pub boot : Job → Exec E (Unit {0})
  boot j = p.power start j.server.name j.vmid

  abbrev pub delete_if : Bool → Job → E → E
  delete_if false j e = e
  delete_if true j e =
      (p.delete_vm j.server.name j.vmid true (wait_unlocked p 10 j.server.name j.vmid e)).1

  abbrev pub delete_clone : Bool → Job → E → E
  delete_clone false j e = e
  delete_clone true j e =
      let (reply, e') = p.status_current j.server.name j.vmid e in
      delete_if (vm_exists p reply) j e'

  abbrev pub delete_rules : Bool → Job → E → E
  delete_rules false j e = e
  delete_rules true j e = (manage_iptables g cfg j.server j.vmid j.ip delete e).1

  -- `_cleanup_failed_vm_resources`: no step's failure stops the next.
  unfoldable pub cleanup_failed_vm_resources : (clone_started iptables_added : Bool) → Job → E → E
  cleanup_failed_vm_resources clone_started iptables_added j e =
      (delete_snippet p j.server j.vmid
        (delete_rules iptables_added j (delete_clone clone_started j e))).1
