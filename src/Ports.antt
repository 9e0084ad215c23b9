-- ===== src/Ports.antt =====
-- Custom ports (api/routes/firewall.py, and `allocate_random_port` of services/network_service.py).
-- The IntegrityError of a concurrent request is left out.
pub mod Stored
pub mod Limit
pub mod Restore
use gsm_sv.Prelude.{
  ℕ, zero, suc, ◌+◌, ◌==◌, Bool, true, false, not, ◌&&◌, Option, none, some, String, List, [], ◌∷◌,
  any, leb, is_some, if◌then◌else◌,
}
use gsm_sv.Exec.{
  Exec, Exc, Result, ok, err, http_exception, value_error, runtime_error, other_error, pure, raise,
  http, gets, modify, or_raise, reject_if, catch, ◌>>=◌, ◌>>◌, too_many_ports, no_free_port,
  bad_port_request, gateway_failed, port_not_found,
}
use gsm_sv.Table.{find_first, count_where, insert, delete_where}
use gsm_sv.Models.{
  User, Server, Vm, VmPort, Db, Ip, Protocol, tcp, udp, tcp_udp, IptablesAction, add, delete,
  Settings,
}
use gsm_sv.Network.{Gateway}
use gsm_sv.Network.Manage.{manage_custom_iptables}
use gsm_sv.Platform.World.{World, call, on_db}
use gsm_sv.Auth.{get_vm_with_owner_check}

-- schemas/fw_schema.py, VmPortCreate
pub record VmPortCreate : Type 0 where
  pub internal_port : ℕ
  pub protocol : Protocol
  pub source : Option String
  pub description : Option String

abbrev pub has_external : ℕ → VmPort → Bool
has_external port p = p.external_port == port

abbrev pub has_port_id : ℕ → VmPort → Bool
has_port_id id p = p.id == id

abbrev pub is_custom_of : ℕ → VmPort → Bool
is_custom_of vm_id p = p.vm_id == vm_id && not p.is_default

-- `allocate_random_port`, on the numbers that `random.randint` gives.
unfoldable pub allocate_random_port : {S : Type 0} → List VmPort → List ℕ → Exec S ℕ
allocate_random_port rows [] = raise runtime_error
allocate_random_port rows (port ∷ ports) =
    let rest = allocate_random_port rows ports in
    if any (has_external port) rows then rest else pure port

abbrev pub port_row : Vm → VmPortCreate → ℕ → ℕ → VmPort
port_row vm body external_port id = record {
  id = id;
  vm_id = vm.id;
  internal_port = body.internal_port;
  external_port = external_port;
  protocol = body.protocol;
  source = body.source;
  description = body.description;
  is_default = false;
}

-- `vm.server`
abbrev pub server_of : Vm → Exec Db Server
server_of vm = do
  servers ← gets (λ (db : Db). db.servers.rows)
  or_raise (find_first (λ (s : Server). s.id == vm.server_id) servers) other_error

module _ {E : Type 0} (g : Gateway E) (is_network : String → Bool) (cfg : Settings) where
  abbrev pub delete_port : ℕ → World E → World E
  delete_port id w = record w {
    db = record w.db { vm_ports = delete_where (has_port_id id) w.db.vm_ports };
  }

  -- The answer of the gateway: the record goes again unless it is True.
  abbrev pub keep_port_if : ℕ → Result Bool → Exec (World E) (Unit {0})
  keep_port_if id (ok true) = pure tt
  keep_port_if id (ok false) = do modify (delete_port id); http 502 gateway_failed
  keep_port_if id (err value_error) = do modify (delete_port id); http 400 bad_port_request
  keep_port_if id (err other) = do modify (delete_port id); http 502 gateway_failed

  abbrev pub open_port : Server → Option Ip → VmPortCreate → ℕ → ℕ → Exec (World E) (Unit {0})
  open_port server none body external_port id = pure tt
  open_port server (some ip) body external_port id = do
    answer ← λ w.
        let (r, e) =
          manage_custom_iptables g is_network cfg server ip body.internal_port external_port
            body.protocol add body.source w.env in
        (ok r, record w { env = e })
    keep_port_if id answer

  abbrev pub add_port : Vm → VmPortCreate → ℕ → World E → World E
  add_port vm body external_port w = record w {
    db = record w.db { vm_ports = insert (port_row vm body external_port) w.db.vm_ports };
  }

  -- `add_custom_port`: the key and the external port of the new record.
  unfoldable pub add_custom_port :
      List ℕ → Option String → ℕ → VmPortCreate → User → Exec (World E) (ℕ × ℕ)
  add_custom_port draws node vmid body u = do
    vm ← on_db (get_vm_with_owner_check vmid u node)
    server ← on_db (server_of vm)
    ports ← gets (λ (w : World E). w.db.vm_ports)
    reject_if (leb 30 (count_where (is_custom_of vm.id) ports.rows)) 409 too_many_ports
    external_port ← catch (allocate_random_port ports.rows draws) (λ e. http 503 no_free_port)
    modify (add_port vm body external_port)
    open_port server vm.internal_ip body external_port ports.next_id
    pure (ports.next_id, external_port)

  abbrev pub protocols : Protocol → List Protocol
  protocols tcp = tcp ∷ []
  protocols udp = udp ∷ []
  protocols tcp_udp = tcp ∷ udp ∷ []

  -- One call for each protocol; what goes wrong is logged.
  abbrev pub close_each : Server → Ip → VmPort → List Protocol → E → E
  close_each server ip port [] e = e
  close_each server ip port (proto ∷ protos) e =
      close_each server ip port protos
        (manage_custom_iptables g is_network cfg server ip port.internal_port port.external_port
          proto delete port.source e).1

  abbrev pub close_port : Server → Option Ip → VmPort → E → E
  close_port server none port e = e
  close_port server (some ip) port e = close_each server ip port (protocols port.protocol) e

  -- `delete_custom_port`
  unfoldable pub delete_custom_port : Option String → ℕ → ℕ → User → Exec (World E) (Unit {0})
  delete_custom_port node vmid port_id u = do
    vm ← on_db (get_vm_with_owner_check vmid u node)
    server ← on_db (server_of vm)
    ports ← gets (λ (w : World E). w.db.vm_ports.rows)
    port ←
        or_raise (find_first (λ (p : VmPort). p.id == port_id && p.vm_id == vm.id) ports)
          (http_exception 404 port_not_found)
    modify (λ w. record w { env = close_port server vm.internal_ip port w.env })
    modify (delete_port port.id)
