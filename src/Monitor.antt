-- ===== src/Monitor.antt =====
-- services/mon_service.py: how loaded a node is, and the choice of a clone storage and of a server.
pub mod Clone
pub mod Best
use gsm_sv.Prelude.{
  ℕ, ◌+◌, ◌-◌, ◌*◌, ◌/◌, Bool, true, false, not, ◌&&◌, Option, none, some, String, str_eq, List, [],
  ◌∷◌, leb, ltb, ◌==◌, if◌then◌else◌,
}
use gsm_sv.Exec.{
  Exec, Result, ok, err, raise, pure, http, ◌>>=◌, ◌>>◌, catch, storage_full, storage_unknown,
}
use gsm_sv.Models.{Server, usage_threshold_tenths}
use gsm_sv.Platform.{Platform, Storage, NodeStatus}

-- `round(part / total * 100, 1)` in tenths, rounded half up.
abbrev pub percent_tenths : ℕ → ℕ → ℕ
percent_tenths part total = (2000 * part + total) / (2 * total)

pub record Usage : Type 0 where
  pub ram_tenths : ℕ
  pub cpu_tenths : ℕ
  pub disk_tenths : Option ℕ
  pub free_ram_mb : ℕ

-- The sums over the thin pools.
abbrev pub thin_used : List Storage → ℕ
thin_used [] = 0
thin_used (st ∷ sts) = (if st.lvmthin then st.used else 0) + thin_used sts

abbrev pub thin_total : List Storage → ℕ
thin_total [] = 0
thin_total (st ∷ sts) = (if st.lvmthin then st.total else 0) + thin_total sts

abbrev pub usage_of : NodeStatus → List Storage → Usage
usage_of s sts = record {
  ram_tenths = if s.memory_total == 0 then 0 else percent_tenths s.memory_used s.memory_total;
  cpu_tenths = s.cpu_tenths;
  disk_tenths =
      if thin_total sts == 0 then none else some (percent_tenths (thin_used sts) (thin_total sts));
  free_ram_mb = (s.memory_total - s.memory_used) / (1024 * 1024);
}

module _ {E : Type 0} (p : Platform E) where
  -- A failure of the node query is raised, one of the storage query is swallowed.
  unfoldable pub get_server_resource_usage : Server → Exec E Usage
  get_server_resource_usage server = do
    p.connect server
    s ← p.node_status server.name
    sts ← catch (p.storages server.name) (λ e. pure [])
    pure (usage_of s sts)

-- `{st.get("storage"): st for st in storages}`: of two entries with one name the later counts.
pub by_name : String → List Storage → Option Storage
by_name name [] = none
by_name name (st ∷ sts) = elim (by_name name sts) [
  | some later ↦ some later
  | none ↦ if str_eq st.storage name then some st else none
]

abbrev pub available : Storage → ℕ
available st = elim st.avail [ some a ↦ a | none ↦ st.total - st.used ]

-- The `elif` ladder that gives no reason to leave the storage out.
abbrev pub is_eligible : ℕ → Storage → Bool
is_eligible required_bytes st =
    st.active
    && st.enabled
    && st.images
    && ltb 0 st.total
    && ltb (st.used * 1000) (usage_threshold_tenths * st.total)
    && leb required_bytes (available st)

-- The eligible storage of a name, with its room.
abbrev pub room : List Storage → ℕ → String → Option ℕ
room sts required_bytes name = elim (by_name name sts) [
  | none ↦ none
  | some st ↦ if is_eligible required_bytes st then some (available st) else none
]

-- `if avail > selected_avail`, from `selected = None` and `selected_avail = -1`
abbrev pub better : String → Option ℕ → Option (String × ℕ) → Option (String × ℕ)
better name none best = best
better name (some avail) none = some (name, avail)
better name (some avail) (some (old, old_avail)) =
    if ltb old_avail avail then some (name, avail) else some (old, old_avail)

pub pick_storage : (String → Option ℕ) → Option (String × ℕ) → List String → Option (String × ℕ)
pick_storage size best [] = best
pick_storage size best (name ∷ names) = pick_storage size (better name (size name) best) names

module _ {E : Type 0} (p : Platform E) where
  abbrev pub list_storages : Server → Exec E (List Storage)
  list_storages server = do p.connect server; p.storages server.name

  abbrev pub chosen : Option (String × ℕ) → Exec E String
  chosen none = http 507 storage_full
  chosen (some (name, avail)) = pure name

  unfoldable pub select_clone_storage : Server → List String → ℕ → Exec E String
  unfolding by_name pick_storage
  select_clone_storage server candidates required_disk_gb = do
    sts ← catch (list_storages server) (λ e. http 503 storage_unknown)
    chosen (pick_storage (room sts (required_disk_gb * (1024 * 1024 * 1024))) none candidates)
