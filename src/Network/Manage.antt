-- ===== src/Network/Manage.antt =====
-- `manage_iptables` and `manage_custom_iptables`. The backup of the rules after a change
-- (`_backup_iptables`) only reads the gateway, and swallows its own exceptions; it stands in Backup.
pub mod Numbers
pub mod Effects
use gsm_sv.Prelude.{
  ℕ, Bool, true, false, not, ◌&&◌, ◌||◌, Option, none, some, String, str_eq, List, [], ◌∷◌, is_some,
  if◌then◌else◌,
}
use gsm_sv.Exec.{Exec, Result, ok, err, value_error, pure, raise, ◌>>=◌, ◌>>◌}
use gsm_sv.Models.{Server, Settings, Ip, Protocol, tcp, udp, tcp_udp, IptablesAction, add, delete}
use gsm_sv.Network.Rules.{
  Ports, valid_port, calculate_ports, valid_ip, normalize_source_ip, Rule, dnat, forward,
}
use gsm_sv.Network.Link.{Gateway}
use gsm_sv.Network.Transaction.{run_iptables_commands}

-- A text as Python's `not s` reads it.
abbrev pub has_text : Option String → Bool
has_text none = false
has_text (some s) = not (str_eq s "")

-- The DNAT and the FORWARD rule of one mapping.
abbrev pub rule_pair : Option String → Ip → Ip → ℕ → ℕ → Protocol → List Rule → List Rule
rule_pair source public_ip vm_ip public_port internal_port proto rest =
    dnat source proto public_ip public_port vm_ip internal_port
    ∷ forward source proto vm_ip internal_port
    ∷ rest

-- `port_mapping`: SSH 22, HTTP 80, and 10000 over TCP and UDP.
abbrev pub default_rules : Ip → Ip → Ports → List Rule
default_rules public_ip vm_ip ports = rule_pair none public_ip vm_ip ports.ssh 22 tcp (
    rule_pair none public_ip vm_ip ports.svc1 80 tcp (
      rule_pair none public_ip vm_ip ports.svc2 10000 tcp
        (rule_pair none public_ip vm_ip ports.svc2 10000 udp [])))

abbrev pub valid_protocol : Protocol → Bool
valid_protocol tcp = true
valid_protocol udp = true
valid_protocol tcp_udp = false

abbrev pub require : {S : Type 0} → Bool → Exec S (Unit {0})
require true = pure tt
require false = raise value_error

-- `not server.gateway_ip or not server.gateway_user` is the test for its absence.
abbrev pub has_gateway : Server → Bool
has_gateway server = is_some server.gateway_ip && has_text server.gateway_user

-- The rules of a VM's default ports, or the exception of `calculate_ports`.
abbrev pub vm_rules : Settings → Server → ℕ → Ip → Result (List Rule)
vm_rules cfg server vmid vm_ip = elim (calculate_ports server.base_port vmid) [
  | ok ports ↦ ok (default_rules cfg.gateway_public_ip vm_ip ports)
  | err x ↦ err x
]

-- The rules of a custom port, or the exception of `_normalize_source_ip`.
abbrev pub custom_rules :
    (String → Bool) → Settings → Ip → ℕ → ℕ → Protocol → Option String → Result (List Rule)
custom_rules is_network cfg vm_ip internal_port external_port proto source =
    elim (normalize_source_ip is_network source) [
      | ok source_ip ↦
          ok (rule_pair source_ip cfg.gateway_public_ip vm_ip external_port internal_port proto [])
      | err x ↦ err x
    ]

module _ {E : Type 0} (g : Gateway E) where
  -- Inside the `try`: an exception of the connection is logged, and the call returns false.
  unfoldable pub with_gateway : Server → List Rule → IptablesAction → Exec E Bool
  with_gateway server rules action e =
      let (connected, e') = g.connect server e in
      elim connected [
        | ok _ ↦ let (success, e'') = run_iptables_commands g rules action e' in (ok success, e'')
        | err x ↦ (ok false, e')
      ]

  abbrev pub apply_rules : Server → Result (List Rule) → IptablesAction → Exec E Bool
  apply_rules server (ok rules) action = with_gateway server rules action
  apply_rules server (err x) action = raise x

  abbrev pub if_gateway : Server → Exec E Bool → Exec E Bool
  if_gateway server m = if has_gateway server then m else pure false

  unfoldable pub manage_iptables : Settings → Server → ℕ → Ip → IptablesAction → Exec E Bool
  manage_iptables cfg server vmid vm_ip action = do
    require (valid_ip vm_ip)
    require (valid_ip cfg.gateway_public_ip)
    if_gateway server (apply_rules server (vm_rules cfg server vmid vm_ip) action)

  unfoldable pub manage_custom_iptables :
      (String → Bool)
      → Settings
      → Server
      → Ip
      → ℕ
      → ℕ
      → Protocol
      → IptablesAction
      → Option String
      → Exec E Bool
  manage_custom_iptables is_network cfg server vm_ip internal_port external_port proto action
        source =
      do
        require (valid_protocol proto)
        require (valid_ip vm_ip)
        require (valid_ip cfg.gateway_public_ip)
        require (valid_port internal_port)
        require (valid_port external_port)
        if_gateway server (
            apply_rules server
              (custom_rules is_network cfg vm_ip internal_port external_port proto source) action)
