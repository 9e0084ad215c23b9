-- ===== src/Background/Expire.antt =====
-- `_process_grace_vms` and the body of `_expire_vms_loop` (main.py). Times are seconds from a
-- midnight in Korea. Failures of the database itself are left out.
pub mod Covers
pub mod Spared
pub mod Grace
use gsm_sv.Prelude.{
  ℕ, zero, suc, ◌+◌, ◌-◌, ◌*◌, ◌/◌, ◌%◌, ◌==◌, Bool, true, false, not, ◌&&◌, Option, none, some,
  String, List, [], ◌∷◌, ◌++◌, any, ltb, leb, if◌then◌else◌,
}
use gsm_sv.Exec.{Exec, Result, ok, err}
use gsm_sv.Table.{Table, find_first, select, insert, delete_where}
use gsm_sv.Models.{
  Text, Server, Vm, Notification, NotificationText, error, vm_grace, vm_expired_deleted,
  vm_expiring, Db, Settings, seconds_per_day,
}
use gsm_sv.Network.{Gateway}
use gsm_sv.Platform.{Platform, stop, StatusReply, status_is, missing, failing}
use gsm_sv.Platform.World.{World}
use gsm_sv.Ports.{server_of}
use gsm_sv.Vm.Names.{codes}
use gsm_sv.Vm.Delete.{Caddy, delete_vm}
use gsm_sv.Background.Messages.{text_of_notice, contains}

-- EXPIRE_GRACE_DAYS, in seconds.
abbrev pub grace : ℕ
grace = 3 * seconds_per_day

-- `if vm.owner_id:`
abbrev pub truthy : Option ℕ → Option ℕ
truthy none = none
truthy (some zero) = none
truthy (some (suc n)) = some (suc n)

abbrev pub notice_row : ℕ → NotificationText → ℕ → ℕ → Notification
notice_row owner text now id = record {
  id = id;
  user_id = owner;
  kind = error;
  message = text;
  is_read = false;
  created_at = now;
}

abbrev pub add_notice : ℕ → NotificationText → ℕ → Db → Db
add_notice owner text now db = record db {
  notifications = insert (notice_row owner text now) db.notifications;
}

-- The end has passed, less than the grace period ago.
abbrev pub ends_in_grace : ℕ → Option ℕ → Bool
ends_in_grace now none = false
ends_in_grace now (some end) = leb end now && ltb now (end + grace)

abbrev pub ran_out : ℕ → Option ℕ → Bool
ran_out now none = false
ran_out now (some end) = leb (end + grace) now

abbrev pub ends_soon : ℕ → Option ℕ → Bool
ends_soon now none = false
ends_soon now (some end) = ltb now end && leb end (now + grace)

abbrev pub in_grace : ℕ → Vm → Bool
in_grace now vm = ends_in_grace now vm.expires_at

abbrev pub is_over : ℕ → Vm → Bool
is_over now vm = ran_out now vm.expires_at

abbrev pub is_soon : ℕ → Vm → Bool
is_soon now vm = ends_soon now vm.expires_at

abbrev pub end_of : Option ℕ → ℕ
end_of none = 0
end_of (some end) = end

-- The notice of the grace period that the owner has already.
abbrev pub grace_notice_of : ℕ → Vm → Notification → Bool
grace_notice_of owner vm n =
    n.user_id == owner
    && (contains (codes "'" ++ vm.name ++ codes "'") (text_of_notice n.message)
        && (contains (codes "3일 후 완전 삭제") (text_of_notice n.message)
            && leb (end_of vm.expires_at) n.created_at))

abbrev pub tell_owner : ℕ → Vm → ℕ → Db → Db
tell_owner now vm owner db =
    if any (grace_notice_of owner vm) db.notifications.rows
    then db
    else add_notice owner (vm_grace vm.name) now db

abbrev pub tell_if : ℕ → Vm → Option ℕ → Db → Db
tell_if now vm none db = db
tell_if now vm (some owner) db = tell_owner now vm owner db

abbrev pub tell_grace : ℕ → Vm → Db → Db
tell_grace now vm db = tell_if now vm (truthy vm.owner_id) db

abbrev pub midnight : ℕ → ℕ
midnight now = now - now % seconds_per_day

-- Today's notice of a coming end. The name is looked for without the quotes around it.
abbrev pub soon_notice_of : ℕ → ℕ → Vm → Notification → Bool
soon_notice_of now owner vm n =
    n.user_id == owner
    && (contains vm.name (text_of_notice n.message)
        && (contains (codes "만료까지") (text_of_notice n.message) && leb (midnight now) n.created_at))

abbrev pub days_left : ℕ → Vm → ℕ
days_left now vm = (end_of vm.expires_at - now) / seconds_per_day

-- The session does not flush by itself: `committed` are the rows before the loop.
abbrev pub warn_if : ℕ → List Notification → Vm → Option ℕ → Db → Db
warn_if now committed vm none db = db
warn_if now committed vm (some owner) db =
    if any (soon_notice_of now owner vm) committed
    then db
    else add_notice owner (vm_expiring vm.name (days_left now vm)) now db

abbrev pub warn_all : ℕ → List Notification → List Vm → Db → Db
warn_all now committed [] db = db
warn_all now committed (vm ∷ vms) db =
    warn_all now committed vms (warn_if now committed vm (truthy vm.owner_id) db)

abbrev pub is_stale : ℕ → Notification → Bool
is_stale now n = ltb (n.created_at + 15 * seconds_per_day) now

abbrev pub forget_stale : ℕ → Db → Db
forget_stale now db = record db { notifications = delete_where (is_stale now) db.notifications }

module _ {E : Type 0} (p : Platform E) (g : Gateway E) (c : Caddy E) (is_network : String → Bool)
    (cfg : Settings) where
  abbrev pub power_off : Server → Vm → StatusReply × E → E
  power_off server vm (status_is true, e) = (p.power stop server.name vm.hypervisor_vmid e).1
  power_off server vm (status_is false, e) = e
  power_off server vm (missing, e) = e
  power_off server vm (failing, e) = e

  abbrev pub connected_off : Server → Vm → Result (Unit {0}) × E → E
  connected_off server vm (ok x, e) =
      power_off server vm (p.status_current server.name vm.hypervisor_vmid e)
  connected_off server vm (err x, e) = e

  -- The VM is switched off if it runs; whatever goes wrong is logged.
  abbrev pub switch_off : Vm → Result Server → E → E
  switch_off vm (ok server) e = connected_off server vm (p.connect server e)
  switch_off vm (err x) e = e

  abbrev pub serve_grace : ℕ → Vm → World E → World E
  serve_grace now vm w = record w {
    db = tell_grace now vm w.db;
    env = switch_off vm (server_of vm w.db).0 w.env;
  }

  abbrev pub serve_each : ℕ → List Vm → World E → World E
  serve_each now [] w = w
  serve_each now (vm ∷ vms) w = serve_each now vms (serve_grace now vm w)

  -- `_process_grace_vms`
  unfoldable pub process_grace_vms : ℕ → World E → World E
  process_grace_vms now w = serve_each now (select (in_grace now) w.db.vms.rows) w

  -- The notice follows a deletion that succeeded.
  abbrev pub tell_deleted : ℕ → Vm → Option ℕ → Result (Unit {0}) × World E → World E
  tell_deleted now vm none (ok x, w) = w
  tell_deleted now vm (some owner) (ok x, w) = record w {
    db = add_notice owner (vm_expired_deleted vm.name) now w.db;
  }
  tell_deleted now vm owner (err x, w) = w

  abbrev pub delete_with : ℕ → Vm → Result Server → World E → World E
  delete_with now vm (ok server) w =
      tell_deleted now vm (truthy vm.owner_id) (delete_vm p g c is_network cfg server vm true now w)
  delete_with now vm (err x) w = w

  abbrev pub delete_each : ℕ → List Vm → World E → World E
  delete_each now [] w = w
  delete_each now (vm ∷ vms) w = delete_each now vms (delete_with now vm (server_of vm w.db).0 w)

  abbrev pub delete_over : ℕ → World E → World E
  delete_over now w = delete_each now (select (is_over now) w.db.vms.rows) w

  abbrev pub warn_soon : ℕ → World E → World E
  warn_soon now w = record w {
    db = warn_all now w.db.notifications.rows (select (is_soon now) w.db.vms.rows) w.db;
  }

  abbrev pub clean_up : ℕ → World E → World E
  clean_up now w = record w { db = forget_stale now w.db }

  -- One round of `_expire_vms_loop`.
  unfoldable pub expire_round : ℕ → World E → World E
  unfolding process_grace_vms
  expire_round now w = clean_up now (warn_soon now (delete_over now (process_grace_vms now w)))
