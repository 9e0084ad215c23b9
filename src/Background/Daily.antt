-- ===== src/Background/Daily.antt =====
-- The snapshots of every day (main.py): `_wait_snap_delete` and a round of `_daily_snapshot_loop`.
pub mod Spared
pub mod Made
pub mod Waits
use gsm_sv.Prelude.{
  ℕ, zero, suc, ◌+◌, ◌==◌, Bool, true, false, Option, none, some, String, List, [], ◌∷◌, ◌++◌, map,
  ltb, if◌then◌else◌,
}
use gsm_sv.Exec.{
  Exec, Exc, Result, ok, err, other_error, pure, or_raise, modify, ◌>>=◌, ◌>>◌, catch,
}
use gsm_sv.Table.{select, find_first}
use gsm_sv.Models.{Server, Vm, Db}
use gsm_sv.Platform.{Platform, TaskStatus}
use gsm_sv.Control.{Guest, Snapshot, auto_snap_prefix, is_auto}

-- f"{AUTO_SNAP_PREFIX}-{today_str}"
abbrev pub joined : String → String → String
joined String.[] t = t
joined (String.◌∷◌ c s) t = String.◌∷◌ c (joined s t)

abbrev pub snap_name : (today : String) → String
snap_name today = joined auto_snap_prefix (joined "-" today)

-- The VMs with daily snapshots: the VMID, and the server that the relation finds.
abbrev pub target_of : Db → Vm → ℕ × Option Server
target_of db vm =
    (vm.hypervisor_vmid, find_first (λ (s : Server). s.id == vm.server_id) db.servers.rows)

abbrev pub targets : Db → List (ℕ × Option Server)
targets db = map (target_of db) (select (λ (vm : Vm). vm.auto_snapshot) db.vms.rows)

-- A deletion that the node works on: its node and its task, if the answer was a text.
abbrev pub Deletion : Type 0
Deletion = String × ℕ

-- `snapshot(name).delete()` with its answer.
pub record Remover (E : Type 0) : Type 0 where
  pub remove : (node : String) (vmid : ℕ) (name : String) → E → Result (Option ℕ) × E

-- The outside world and `wait_tasks`.
pub record Sweep (E : Type 0) : Type 0 where
  pub env : E
  pub waits : List Deletion

abbrev pub on_env : {E A : Type 0} → (E → Result A × E) → Exec (Sweep E) A
on_env f s = let (r, e) = f s.env in (r, record s { env = e })

abbrev pub add_wait : {E : Type 0} → String → Option ℕ → Sweep E → Sweep E
add_wait node none s = s
add_wait node (some upid) s = record s { waits = s.waits ++ (node, upid) ∷ [] }

-- What one turn of `_wait_snap_delete` says: the task has stopped, however it ended.
abbrev pub has_stopped : Result TaskStatus → Bool
has_stopped (ok task) = task.stopped
has_stopped (err x) = false

module _ {E : Type 0} (p : Platform E) (k : Guest E) (r : Remover E) where
  -- One turn of all the waits that `gather` runs side by side; those that go on come back. The time
  -- that is past the deadline ends a wait without a question.
  abbrev pub poll_one : (deadline : ℕ) → Deletion → E → Bool × E
  poll_one deadline (node, upid) e =
      let (reply, e') = p.task_status node upid e in
      if ltb (p.time e) deadline then (has_stopped reply, e') else (true, e)

  unfoldable pub poll_all : (deadline : ℕ) → List Deletion → E → List Deletion × E
  poll_all deadline [] e = ([], e)
  poll_all deadline (d ∷ ds) e =
      let (over, e₁) = poll_one deadline d e in
      let (rest, e₂) = poll_all deadline ds e₁ in (if over then rest else d ∷ rest, e₂)

  -- A wait that goes on sleeps for two seconds.
  abbrev pub pause : List Deletion → E → E
  pause [] e = e
  pause (d ∷ ds) e = p.sleep 4 e

  -- The first answer is what still waits when the fuel is used up.
  unfoldable pub wait_all : (fuel deadline : ℕ) → List Deletion → E → List Deletion × E
  wait_all zero deadline ds e = (ds, e)
  wait_all (suc fuel) deadline [] e = ([], e)
  wait_all (suc fuel) deadline (d ∷ ds) e =
      let (rest, e') = poll_all deadline (d ∷ ds) e in wait_all fuel deadline rest (pause rest e')

  abbrev pub remove_if : Bool → Server → ℕ → String → Exec (Sweep E) (Unit {0})
  remove_if false server vmid name = pure tt
  remove_if true server vmid name = do
    upid ← on_env (r.remove server.name vmid name)
    modify (add_wait server.name upid)

  unfoldable pub remove_each : Server → ℕ → List Snapshot → Exec (Sweep E) (Unit {0})
  remove_each server vmid [] = pure tt
  remove_each server vmid (snap ∷ snaps) = do
    remove_if (is_auto snap.name) server vmid snap.name
    remove_each server vmid snaps

  -- The deletions of one VM; without a server `get_proxmox_for_server` raises.
  abbrev pub remove_old : ℕ × Option Server → Exec (Sweep E) (Unit {0})
  remove_old (vmid, found) = do
    server ← or_raise found other_error
    on_env (p.connect server)
    snaps ← on_env (k.snapshots server.name vmid)
    remove_each server vmid snaps

  abbrev pub swallow : {S : Type 0} → Exec S (Unit {0}) → S → S
  swallow m s = (catch m (λ x. pure tt) s).1

  unfoldable pub remove_for : List (ℕ × Option Server) → Sweep E → Sweep E
  remove_for [] s = s
  remove_for (t ∷ ts) s = remove_for ts (swallow (remove_old t) s)

  -- The new snapshot of one VM.
  abbrev pub take_new : String → ℕ × Option Server → Exec E (Unit {0})
  take_new name (vmid, found) = do
    server ← or_raise found other_error
    p.connect server
    k.take_snapshot server.name vmid name

  unfoldable pub take_for : String → List (ℕ × Option Server) → E → E
  take_for name [] e = e
  take_for name (t ∷ ts) e = take_for name ts (swallow (take_new name t) e)

  -- 120 seconds in half seconds, and 60 seconds between the two phases.
  abbrev pub wait_limit : ℕ
  wait_limit = 240

  abbrev pub swept : Db → E → Sweep E
  swept db e = remove_for (targets db) (record { env = e; waits = [] })

  abbrev pub gathered : Sweep E → E
  gathered s = (wait_all (suc wait_limit) (p.time s.env + wait_limit) s.waits s.env).1

  -- A round from midnight on. `later` is the database that the second query sees.
  unfoldable pub daily_round : (today : String) → (db later : Db) → E → E
  daily_round today db later e =
      take_for (snap_name today) (targets later) (p.sleep 120 (gathered (swept db e)))
