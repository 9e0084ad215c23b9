-- ===== src/Network/Manage/Numbers.antt =====
-- Which ports `calculate_ports` gives.
use gsm_sv.Prelude.{ℕ, ◌+◌, ◌≤◌, ◌<◌, ◌≡◌, ◌≢◌, ◌↔◌, arith, ◌⊎◌}
use gsm_sv.Exec.{ok, IsOk}
use gsm_sv.Network.Rules.{Ports, calculate_ports}

-- The ports are those of the formula, in range and pairwise distinct, and the call raises exactly
-- when base_port + vmid is 0 or base_port + 2000 + vmid exceeds 65535.
pub calculate_ports-exact :
    (base vmid : ℕ)
    → (IsOk (calculate_ports base vmid) ↔ ((1 ≤ base + vmid) × (base + 2000 + vmid ≤ 65535)))
unfolding calculate_ports
calculate_ports-exact base vmid = ground arith

abbrev pub InPorts : ℕ → Ports → Type 0
InPorts p ports = (p ≡ ports.ssh) ⊎ (p ≡ ports.svc1) ⊎ (p ≡ ports.svc2)

-- Two VMs of one node share an external port of the formula only if their VMIDs are equal or differ
-- by 1000 or 2000.
pub calculate_ports_disjoint :
    (base v w : ℕ) {ps qs : Ports}
    → calculate_ports base v ≡ ok ps
    → calculate_ports base w ≡ ok qs
    → v < w
    → w ≢ v + 1000
    → w ≢ v + 2000
    → (p : ℕ) → InPorts p ps
    → InPorts p qs
    → ⊥
unfolding calculate_ports
calculate_ports_disjoint base v w hv hw lt n1 n2 p a = λ b. ground arith
