-- ===== src/Platform.antt =====
-- What the backend calls and does not implement: the Proxmox API (proxmoxer), SSH (paramiko), the
-- Caddy admin API and the clock. `E` is the state of that outside world.
pub mod World
use gsm_sv.Prelude.{ℕ, Bool, Option, String, List}
use gsm_sv.Exec.{Result}
use gsm_sv.Models.{Server, Ip, Text}

-- The parameters of `clone.post`.
pub record CloneParams : Type 0 where
  pub newid : ℕ
  pub name : Text
  pub target : String
  pub storage : Option String

-- `tasks(upid).status.get()`: `status == "stopped"`, and `exitstatus == "OK"`.
pub record TaskStatus : Type 0 where
  pub stopped : Bool
  pub exit_ok : Bool

-- The calls of `config.put`: cloud-init, then the resources of the tier.
pub data VmConfig : Type 0 where
  cloud_init : Ip → VmConfig
  resources : (memory cores : ℕ) (balloon : Option ℕ) → VmConfig

-- One entry of `storage.get()`; `content` says whether "images" is among its contents.
pub record Storage : Type 0 where
  pub storage : String
  pub lvmthin : Bool
  pub total : ℕ
  pub used : ℕ
  pub avail : Option ℕ
  pub active : Bool
  pub enabled : Bool
  pub images : Bool

-- `nodes(name).status.get()`; `cpu_tenths` is the CPU load in tenths of a percent.
pub record NodeStatus : Type 0 where
  pub memory_total : ℕ
  pub memory_used : ℕ
  pub cpu_tenths : ℕ

-- `status.current.get()`: whether the VM runs; a ResourceException that says "does not exist"; or
-- any other exception.
pub data StatusReply : Type 0 where
  status_is : (running : Bool) → StatusReply
  missing failing : StatusReply

-- Power actions (schemas/vm_schema.py, VMActionType).
pub data VmAction : Type 0 where
  start stop shutdown reboot : VmAction

pub record Platform (E : Type 0) : Type 0 where
  pub connect : Server → E → Result (Unit {0}) × E
  pub nextid : Option ℕ → E → Result ℕ × E
  pub qemu_ids : String → E → Result (List ℕ) × E
  pub node_status : String → E → Result NodeStatus × E
  pub storages : String → E → Result (List Storage) × E
  pub clone : String → ℕ → CloneParams → E → Result ℕ × E
  pub task_status : String → ℕ → E → Result TaskStatus × E
  pub config_lock : String → ℕ → E → Result Bool × E
  pub config_put : String → ℕ → VmConfig → E → Result (Unit {0}) × E
  pub resize_put : String → ℕ → ℕ → E → Result (Unit {0}) × E
  pub status_current : String → ℕ → E → StatusReply × E
  pub power : VmAction → String → ℕ → E → Result (Unit {0}) × E
  pub delete_vm : String → ℕ → Bool → E → Result (Unit {0}) × E
  pub upload_snippet : Server → ℕ → String → E → Result (Unit {0}) × E
  pub delete_snippet : Server → ℕ → E → Result (Unit {0}) × E
  -- A clock in half seconds, and `time.sleep`.
  pub time : E → ℕ
  pub sleep : ℕ → E → E
