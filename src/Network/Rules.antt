-- ===== src/Network/Rules.antt =====
-- Port numbers, checked values, rules and commands.
use gsm_sv.Prelude.{
  ℕ, ◌+◌, Bool, true, false, ◌&&◌, ◌||◌, Option, none, some, String, str_eq, leb, ◌≡◌, arith,
  if◌then◌else◌, ◌↔◌, eq_iff, ◌==◌,
}
use gsm_sv.Exec.{Result, ok, err, value_error}
use gsm_sv.Models.{Ip, eq_ip, eq_ip_iff, Protocol, tcp, udp, tcp_udp, IptablesAction, add, delete}

pub record Ports : Type 0 where
  pub ssh : ℕ
  pub svc1 : ℕ
  pub svc2 : ℕ

-- `_validate_port`
abbrev pub valid_port : ℕ → Bool
valid_port port = leb 1 port && leb port 65535

-- `calculate_ports`, with PORT_OFFSETS 0, 1000 and 2000
unfoldable pub calculate_ports : ℕ → ℕ → Result Ports
calculate_ports base_port vmid =
    let ports : Ports = record {
      ssh = base_port + 0 + vmid;
      svc1 = base_port + 1000 + vmid;
      svc2 = base_port + 2000 + vmid;
    } in
    if valid_port ports.ssh && valid_port ports.svc1 && valid_port ports.svc2
    then ok ports
    else err value_error

-- `_validate_ip`: four numbers of at most three digits (the pattern), each at most 255.
abbrev pub valid_ip : Ip → Bool
valid_ip ip = leb ip.a 255 && leb ip.b 255 && leb ip.c 255 && leb ip.d 255

-- `_normalize_source_ip`; `is_network` is `ipaddress.ip_network(…, strict=False)`.
unfoldable pub normalize_source_ip : (String → Bool) → Option String → Result (Option String)
normalize_source_ip is_network none = ok none
normalize_source_ip is_network (some s) =
    if str_eq s "" || str_eq s "0.0.0.0/0" || str_eq s "0.0.0.0"
    then ok none
    else if is_network s
    then ok (some s)
    else err value_error

-- The arguments of a rule: DNAT in nat/PREROUTING, or ACCEPT in FORWARD.
pub data Rule : Type 0 where
  dnat :
      (source : Option String) (proto : Protocol) (public_ip : Ip) (dport : ℕ) (to : Ip)
      (to_port : ℕ)
      → Rule
  forward : (source : Option String) (proto : Protocol) (vm_ip : Ip) (dport : ℕ) → Rule

unfoldable pub eq_source : Option String → Option String → Bool
eq_source none none = true
eq_source none (some t) = false
eq_source (some s) none = false
eq_source (some s) (some t) = str_eq s t

unfoldable pub eq_protocol : Protocol → Protocol → Bool
eq_protocol tcp tcp = true
eq_protocol udp udp = true
eq_protocol tcp_udp tcp_udp = true
eq_protocol _ _ = false

eq_source_iff : (s t : Option String) → (eq_source s t ≡ true) ↔ (s ≡ t)
unfolding eq_source
eq_source_iff none none = ground arith
eq_source_iff none (some t) = ground arith
eq_source_iff (some s) none = ground arith
eq_source_iff (some s) (some t) = ground (arith, eq_iff s t)

eq_protocol_iff : (p q : Protocol) → (eq_protocol p q ≡ true) ↔ (p ≡ q)
unfolding eq_protocol
eq_protocol_iff p q = ground arith

unfoldable pub eq_rule : Rule → Rule → Bool
eq_rule (dnat s p i d t n) (dnat s' p' i' d' t' n') =
    eq_source s s' && eq_protocol p p' && eq_ip i i' && d == d' && eq_ip t t' && n == n'
eq_rule (forward s p i d) (forward s' p' i' d') =
    eq_source s s' && eq_protocol p p' && eq_ip i i' && d == d'
eq_rule (dnat s p i d t n) (forward s' p' i' d') = false
eq_rule (forward s p i d) (dnat s' p' i' d' t' n') = false

pub eq_rule_iff : (r q : Rule) → (eq_rule r q ≡ true) ↔ (r ≡ q)
unfolding eq_rule
eq_rule_iff (dnat s p i d t n) (dnat s' p' i' d' t' n') =
    ground (arith, eq_source_iff s s', eq_protocol_iff p p', eq_ip_iff i i', eq_ip_iff t t')
eq_rule_iff (forward s p i d) (forward s' p' i' d') =
    ground (arith, eq_source_iff s s', eq_protocol_iff p p', eq_ip_iff i i')
eq_rule_iff (dnat s p i d t n) (forward s' p' i' d') = ground arith
eq_rule_iff (forward s p i d) (dnat s' p' i' d' t' n') = ground arith

-- `-C rule`; `-A rule`; `-C rule || -A rule`; the loop of `-D rule`; `-C rule && -D rule`.
pub data Command : Type 0 where
  check append check_or_append remove_all check_and_remove : Rule → Command

-- `_iptables_command`
abbrev pub iptables_command : Rule → IptablesAction → Command
iptables_command rule add = check_or_append rule
iptables_command rule delete = remove_all rule
