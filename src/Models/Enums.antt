-- ===== src/Models/Enums.antt =====
-- Enumerations (models/user.py, schemas/vm_schema.py, models/vm_port.py) and IPv4 addresses.
use gsm_sv.Prelude.{
  ℕ, Bool, true, false, ◌&&◌, ◌≡◌, ◌↔◌, arith, ◌==◌, Option, none, some, String, str_eq,
}

pub data UserRole : Type 0 where
  admin project_owner user : UserRole

abbrev pub eq_role : UserRole → UserRole → Bool
eq_role admin admin = true
eq_role project_owner project_owner = true
eq_role user user = true
eq_role _ _ = false

pub eq_role_iff : (a b : UserRole) → (eq_role a b ≡ true) ↔ (a ≡ b)
eq_role_iff a b = ground arith

pub data VmTier : Type 0 where
  basic standard project_custom : VmTier

abbrev pub eq_tier : VmTier → VmTier → Bool
eq_tier basic basic = true
eq_tier standard standard = true
eq_tier project_custom project_custom = true
eq_tier _ _ = false

pub data VmOs : Type 0 where
  ubuntu2204 windows_server : VmOs

pub data JobStatus : Type 0 where
  queued running completed failed : JobStatus

abbrev pub eq_status : JobStatus → JobStatus → Bool
eq_status queued queued = true
eq_status running running = true
eq_status completed completed = true
eq_status failed failed = true
eq_status _ _ = false

pub eq_status_iff : (a b : JobStatus) → (eq_status a b ≡ true) ↔ (a ≡ b)
eq_status_iff a b = ground arith

-- `protocol` of a stored port: "tcp", "udp" or "tcp/udp".
pub data Protocol : Type 0 where
  tcp udp tcp_udp : Protocol

-- The two actions of the iptables functions.
pub data IptablesAction : Type 0 where
  add delete : IptablesAction

pub record Ip : Type 0 where
  pub a : ℕ
  pub b : ℕ
  pub c : ℕ
  pub d : ℕ

abbrev pub eq_ip : Ip → Ip → Bool
eq_ip x y = x.a == y.a && x.b == y.b && x.c == y.c && x.d == y.d

pub eq_ip_iff : (x y : Ip) → (eq_ip x y ≡ true) ↔ (x ≡ y)
eq_ip_iff x y = ground arith

abbrev pub eq_opt_nat : Option ℕ → ℕ → Bool
eq_opt_nat none n = false
eq_opt_nat (some m) n = m == n

abbrev pub eq_opt_text : Option String → String → Bool
eq_opt_text none t = false
eq_opt_text (some s) t = str_eq s t

abbrev pub eq_opt_ip : Option Ip → Ip → Bool
eq_opt_ip none x = false
eq_opt_ip (some y) x = eq_ip y x
