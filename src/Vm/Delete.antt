-- ===== src/Vm/Delete.antt =====
-- `delete_vm` (services/vm_service.py).
pub mod Gone
use gsm_sv.Prelude.{
  ℕ, ◌==◌, Bool, true, false, not, Option, none, some, String, List, [], ◌∷◌, any, if◌then◌else◌,
}
use gsm_sv.Exec.{
  Exec, Exc, Result, ok, err, http_exception, other_error, pure, http, gets, modify, ◌>>=◌, ◌>>◌,
  catch, vm_delete_failed,
}
use gsm_sv.Table.{find_first, select, insert, delete_where}
use gsm_sv.Models.{
  Server, Vm, VmPort, HttpsRoute, Notification, success, vm_deleted, Db, Ip, Protocol, tcp, udp,
  tcp_udp, delete, Settings,
}
use gsm_sv.Network.{Gateway}
use gsm_sv.Network.Manage.{manage_iptables, manage_custom_iptables}
use gsm_sv.Platform.{Platform, stop, StatusReply, status_is, missing, failing}
use gsm_sv.Platform.World.{World, call}
use gsm_sv.Vm.Create.{has_id, of_vm}

-- services/caddy_service.py talks to Caddy's admin API; its `delete_route` answers and never raises.
pub record Caddy (E : Type 0) : Type 0 where
  pub delete_route : String → E → Bool × E

abbrev pub route_of : ℕ → HttpsRoute → Bool
route_of id route = route.vm_id == id

abbrev pub deletion_notice : ℕ → Vm → ℕ → ℕ → Notification
deletion_notice owner vm now id = record {
  id = id;
  user_id = owner;
  kind = success;
  message = vm_deleted vm.name;
  is_read = false;
  created_at = now;
}

abbrev pub notify_owner : Vm → ℕ → Db → Db
notify_owner vm now db = elim vm.owner_id [
  | none ↦ db
  | some owner ↦ record db {
    notifications = insert (deletion_notice owner vm now) db.notifications;
  }
]

-- The records that go, those of the routes by the cascade of the VM's.
abbrev pub remove_records : Vm → ℕ → Db → Db
remove_records vm now db = notify_owner vm now (record db {
  vm_ports = delete_where (of_vm vm.id) db.vm_ports;
  vms = delete_where (has_id vm.id) db.vms;
  https_routes = delete_where (route_of vm.id) db.https_routes;
})

module _ {E : Type 0} (p : Platform E) (g : Gateway E) (c : Caddy E) (is_network : String → Bool)
    (cfg : Settings) where
  -- A running VM is stopped first; whatever goes wrong is passed over.
  abbrev pub stop_if : Server → Vm → StatusReply → E → E
  stop_if server vm (status_is true) e =
      let (r, e') = p.power stop server.name vm.hypervisor_vmid e in
      elim r [ ok x ↦ p.sleep 6 e' | err x ↦ e' ]
  stop_if server vm (status_is false) e = e
  stop_if server vm missing e = e
  stop_if server vm failing e = e

  abbrev pub stop_first : Server → Vm → E → E
  stop_first server vm e =
      let (reply, e') = p.status_current server.name vm.hypervisor_vmid e in
      stop_if server vm reply e'

  abbrev pub protocols : Protocol → List Protocol
  protocols tcp = tcp ∷ []
  protocols udp = udp ∷ []
  protocols tcp_udp = tcp ∷ udp ∷ []

  -- The rules of one record, one call for each protocol; an exception ends the deletion.
  abbrev pub close_rules : Server → Ip → VmPort → List Protocol → Exec E (Unit {0})
  close_rules server ip port [] = pure tt
  close_rules server ip port (proto ∷ protos) =
      manage_custom_iptables g is_network cfg server ip port.internal_port port.external_port proto
        delete port.source
      >> close_rules server ip port protos

  abbrev pub close_all : Server → Ip → List VmPort → Exec E (Unit {0})
  close_all server ip [] = pure tt
  close_all server ip (port ∷ ports) =
      close_rules server ip port (protocols port.protocol) >> close_all server ip ports

  -- Records of old VMs may lack the default ports: their rules are computed.
  abbrev pub close_defaults : Server → Vm → Ip → List VmPort → Exec E (Unit {0})
  close_defaults server vm ip ports =
      if any (λ (port : VmPort). port.is_default) ports
      then pure tt
      else (manage_iptables g cfg server vm.hypervisor_vmid ip delete >> pure tt)

  abbrev pub close_ports : Server → Vm → Option Ip → List VmPort → Exec E (Unit {0})
  close_ports server vm none ports = pure tt
  close_ports server vm (some ip) ports =
      close_all server ip ports >> close_defaults server vm ip ports

  abbrev pub drop_routes : List HttpsRoute → E → E
  drop_routes [] e = e
  drop_routes (route ∷ routes) e = drop_routes routes (c.delete_route route.subdomain e).1

  -- The calls of the `try` block, before the records go.
  abbrev pub take_down : Server → Vm → Bool → List VmPort → List HttpsRoute → Exec E (Unit {0})
  take_down server vm purge ports routes = do
    modify (stop_first server vm)
    p.delete_vm server.name vm.hypervisor_vmid purge
    close_ports server vm vm.internal_ip ports
    modify (drop_routes routes)

  -- Any exception of the `try` block becomes this one; nothing was committed.
  abbrev pub finish_delete : Vm → ℕ → Result (Unit {0}) → Exec (World E) (Unit {0})
  finish_delete vm now (ok x) = modify (λ w. record w { db = remove_records vm now w.db })
  finish_delete vm now (err x) = http 500 vm_delete_failed

  abbrev pub delete_on : Server → Vm → Bool → ℕ → Exec (World E) (Unit {0})
  delete_on server vm purge now w =
      let ports = select (of_vm vm.id) w.db.vm_ports.rows in
      let routes = select (route_of vm.id) w.db.https_routes.rows in
      let (r, e) = take_down server vm purge ports routes w.env in
      finish_delete vm now r (record w { env = e })

  -- `delete_vm`, on the server of the record.
  unfoldable pub delete_vm : Server → Vm → Bool → ℕ → Exec (World E) (Unit {0})
  delete_vm server vm purge now = do call (p.connect server); delete_on server vm purge now
