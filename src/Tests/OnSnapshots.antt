-- ===== src/Tests/OnSnapshots.antt =====
-- The daily snapshots of one VM that has a snapshot of yesterday and one of its user's own.
use gsm_sv.Prelude.{
  ℕ, ◌+◌, ◌==◌, ==_refl, ==_iff, Bool, true, false, not, ◌&&◌, ◌||◌, some, String, str_eq, List, [],
  ◌∷◌, ◌≡◌, refl, arith, and_true, eq_iff, Bool-cases, inl, inr,
}
use gsm_sv.Exec.{ok}
use gsm_sv.Table.{select}
use gsm_sv.Models.{Vm, Db}
use gsm_sv.Platform.{Platform, status_is}
use gsm_sv.Control.{Guest, Snapshot}
use gsm_sv.Background.Daily.{
  Remover, daily_round, take_for, wait_all, remove_for, remove_each, poll_all,
}
use gsm_sv.Background.Daily.Waits.{wait_all-ends}
use gsm_sv.Background.Daily.Spared.{SnapshotLaws, daily_round-Kept}
use gsm_sv.Tests.{tables, old_vm}

pub record Shelf : Type 0 where
  pub there : String → ℕ → String → Bool
  pub clock : ℕ

abbrev same : String → ℕ → String → String → ℕ → String → Bool
same node vmid name n v s = str_eq node n && (vmid == v && str_eq name s)

abbrev known : List Snapshot
known = record { name = "auto-daily-20240101" } ∷ record { name = "before" } ∷ []

abbrev shelf_platform : Platform Shelf
shelf_platform = record {
  connect = λ s e. (ok tt, e);
  nextid = λ asked e. (ok 101, e);
  qemu_ids = λ node e. (ok [], e);
  node_status = λ node e. (ok (record { memory_total = 1; memory_used = 0; cpu_tenths = 0 }), e);
  storages = λ node e. (ok [], e);
  clone = λ node template params e. (ok 7, e);
  task_status = λ node upid e. (ok (record { stopped = true; exit_ok = true }), e);
  config_lock = λ node vmid e. (ok false, e);
  config_put = λ node vmid config e. (ok tt, e);
  resize_put = λ node vmid disk e. (ok tt, e);
  status_current = λ node vmid e. (status_is false, e);
  power = λ action node vmid e. (ok tt, e);
  delete_vm = λ node vmid purge e. (ok tt, e);
  upload_snippet = λ server vmid password e. (ok tt, e);
  delete_snippet = λ server vmid e. (ok tt, e);
  time = λ e. e.clock;
  sleep = λ d e. record e { clock = e.clock + d };
}

abbrev shelf_guest : Guest Shelf
shelf_guest = record {
  hotplug = λ n v e. (ok true, e);
  resize = λ n v cores memory e. (ok tt, e);
  marker = λ n v e. (ok true, e);
  snapshots = λ n v e. (ok (select (λ (s : Snapshot). e.there n v s.name) known), e);
  take_snapshot = λ node vmid name e.
      (ok tt, record e { there = λ n v s. same node vmid name n v s || e.there n v s });
  rollback = λ n v name e. (ok tt, e);
  delete_snapshot = λ n v name e. (ok tt, e);
}

abbrev shelf_remover : Remover Shelf
shelf_remover = record {
  remove = λ node vmid name e.
      (ok (some 7), record e { there = λ n v s. not (same node vmid name n v s) && e.there n v s });
}

abbrev Present : String → ℕ → String → Shelf → Type 0
Present n v s e = e.there n v s ≡ true

same_self : (n : String) (v : ℕ) (s : String) → same n v s n v s ≡ true
same_self n v s = rw ((eq_iff n n).1 refl, ==_refl v, (eq_iff s s).1 refl) refl

apart_same :
    (node : String) (vmid : ℕ) (name n : String) (v : ℕ) (s : String)
    → (node ≡ n → vmid ≡ v → name ≡ s → ⊥)
    → same node vmid name n v s ≡ false
apart_same node vmid name n v s apart = elim (Bool-cases (same node vmid name n v s)) [
  | inr e ↦ e
  | inl e ↦
      let both = and_true (str_eq node n) (vmid == v && str_eq name s) e in
      let rest = and_true (vmid == v) (str_eq name s) both.1 in
      absurd
        (apart ((eq_iff node n).0 both.0) ((==_iff vmid v).0 rest.0) ((eq_iff name s).0 rest.1))
]

kept_or : (a b : Bool) → b ≡ true → (a || b) ≡ true
kept_or true b h = refl
kept_or false b h = h

shelf_laws : SnapshotLaws shelf_platform shelf_guest shelf_remover Present
shelf_laws = record {
  connect_keeps = λ server n v s e h. h;
  list_keeps = λ node vmid n v s e h. h;
  status_keeps = λ node upid n v s e h. h;
  sleep_keeps = λ d n v s e h. h;
  take_keeps = λ node vmid name n v s e h. kept_or (same node vmid name n v s) (e.there n v s) h;
  take_makes = λ n v s e done. rw (same_self n v s) refl;
  remove_others = λ node vmid name n v s e apart h. rw (apart_same node vmid name n v s apart) h;
}

abbrev first_shelf : Shelf
first_shelf = record { there = λ n v s. true; clock = 0 }

abbrev daily_vm : Vm
daily_vm = record old_vm { auto_snapshot = true }

abbrev daily_tables : Db
daily_tables = record tables { vms = record { rows = daily_vm ∷ []; next_id = 2 } }

wait_all-ends_example :
    (wait_all shelf_platform shelf_guest shelf_remover 241 240 (("node1", 7) ∷ []) first_shelf).0
    ≡ []
wait_all-ends_example =
    wait_all-ends shelf_platform shelf_guest shelf_remover
      (record { sleep_takes = λ d e. omega arith; status_forward = λ node upid e. omega arith })
      (("node1", 7) ∷ []) first_shelf

daily_round-Kept_example : Present "node1" 100 "before" (
    daily_round shelf_platform shelf_guest shelf_remover "20240102" daily_tables daily_tables
      first_shelf)
daily_round-Kept_example =
    daily_round-Kept shelf_platform shelf_guest shelf_remover Present shelf_laws "node1" 100
      "before" "20240102" daily_tables daily_tables first_shelf (inl refl, tt) refl

-- Yesterday's snapshot is gone, and today's is there.
renewed :
    (daily_round shelf_platform shelf_guest shelf_remover "20240102" daily_tables daily_tables
        first_shelf).there
      "node1" 100 "auto-daily-20240101"
    ≡ false
unfolding daily_round take_for wait_all remove_for remove_each poll_all
renewed = refl
