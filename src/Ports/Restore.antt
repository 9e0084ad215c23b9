-- ===== src/Ports/Restore.antt =====
-- `restore_default_ports` (api/routes/firewall.py).
pub mod Complete
use gsm_sv.Prelude.{
  ℕ, zero, suc, ◌==◌, Bool, true, false, not, ◌&&◌, ◌||◌, Option, none, some, String, List, [], ◌∷◌,
  any, length, if◌then◌else◌,
}
use gsm_sv.Exec.{
  Exec, Exc, Result, ok, err, pure, raise, gets, modify, reject_if, ◌>>=◌, ◌>>◌, port_conflict,
}
use gsm_sv.Table.{Table, select, insert}
use gsm_sv.Models.{User, Server, Vm, VmPort, Db, Ip, Protocol, tcp, udp, tcp_udp, add, Settings}
use gsm_sv.Network.{Gateway, Ports, calculate_ports}
use gsm_sv.Network.Manage.{manage_custom_iptables}
use gsm_sv.Platform.World.{World, call, on_db}
use gsm_sv.Auth.{get_vm_with_owner_check, lift}
use gsm_sv.Ports.{server_of, has_external}

-- A row of `_DEFAULT_PORTS`.
pub record DefaultPort : Type 0 where
  pub internal_port : ℕ
  pub protocol : Protocol
  pub description : String
  pub external : Ports → ℕ

abbrev pub default_ports : List DefaultPort
default_ports =
    record { internal_port = 22; protocol = tcp; description = "SSH"; external = λ p. p.ssh }
    ∷ record { internal_port = 80; protocol = tcp; description = "HTTP"; external = λ p. p.svc1 }
    ∷ record {
      internal_port = 10000;
      protocol = tcp_udp;
      description = "SVC";
      external = λ p. p.svc2;
    }
    ∷ []

abbrev pub is_default_at : ℕ → ℕ → VmPort → Bool
is_default_at vm_id internal p = p.vm_id == vm_id && p.is_default && p.internal_port == internal

abbrev pub exists_in : ℕ → List VmPort → DefaultPort → Bool
exists_in vm_id rows d = any (is_default_at vm_id d.internal_port) rows

abbrev pub missing_ports : ℕ → List VmPort → List DefaultPort
missing_ports vm_id rows = select (λ d. not (exists_in vm_id rows d)) default_ports

abbrev pub is_taken : Ports → List VmPort → DefaultPort → Bool
is_taken numbers rows d = any (has_external (d.external numbers)) rows

abbrev pub default_row : Vm → Ports → DefaultPort → ℕ → VmPort
default_row vm numbers d id = record {
  id = id;
  vm_id = vm.id;
  internal_port = d.internal_port;
  external_port = d.external numbers;
  protocol = d.protocol;
  source = some "0.0.0.0/0";
  description = some d.description;
  is_default = true;
}

abbrev pub add_rows : Vm → Ports → List DefaultPort → Table VmPort → Table VmPort
add_rows vm numbers [] table = table
add_rows vm numbers (d ∷ ds) table =
    add_rows vm numbers ds (insert (default_row vm numbers d) table)

module _ {E : Type 0} (g : Gateway E) (is_network : String → Bool) (cfg : Settings) where
  abbrev pub both : Protocol → List Protocol
  both tcp = tcp ∷ []
  both udp = udp ∷ []
  both tcp_udp = tcp ∷ udp ∷ []

  -- A call that answers False is logged; an exception ends the request.
  abbrev pub open_each : Server → Ip → ℕ → ℕ → List Protocol → Exec E (Unit {0})
  open_each server ip internal external [] = pure tt
  open_each server ip internal external (proto ∷ protos) =
      manage_custom_iptables g is_network cfg server ip internal external proto add none
      >> open_each server ip internal external protos

  abbrev pub open_missing : Server → Ip → Ports → List DefaultPort → Exec E (Unit {0})
  open_missing server ip numbers [] = pure tt
  open_missing server ip numbers (d ∷ ds) =
      open_each server ip d.internal_port (d.external numbers) (both d.protocol)
      >> open_missing server ip numbers ds

  abbrev pub open_if : Server → Option Ip → Ports → List DefaultPort → Exec E (Unit {0})
  open_if server none numbers ds = pure tt
  open_if server (some ip) numbers ds = open_missing server ip numbers ds

  abbrev pub save_rows : Vm → Ports → List DefaultPort → World E → World E
  save_rows vm numbers ds w = record w {
    db = record w.db { vm_ports = add_rows vm numbers ds w.db.vm_ports };
  }

  -- The records are committed after the gateway was asked for all of them.
  abbrev pub restore_missing : Vm → Server → ℕ → List VmPort → List DefaultPort → Exec (World E) ℕ
  restore_missing vm server vmid rows [] = pure 0
  restore_missing vm server vmid rows (d ∷ ds) = do
    numbers ← lift (calculate_ports server.base_port vmid)
    reject_if (any (is_taken numbers rows) (d ∷ ds)) 409 port_conflict
    call (open_if server vm.internal_ip numbers (d ∷ ds))
    modify (save_rows vm numbers (d ∷ ds))
    pure (length (d ∷ ds))

  -- How many ports were restored.
  unfoldable pub restore_default_ports : String → ℕ → User → Exec (World E) ℕ
  restore_default_ports node vmid u = do
    vm ← on_db (get_vm_with_owner_check vmid u (some node))
    server ← on_db (server_of vm)
    rows ← gets (λ (w : World E). w.db.vm_ports.rows)
    restore_missing vm server vmid rows (missing_ports vm.id rows)
