-- ===== src/Vm/Reserve.antt =====
-- Step 4 of `create_vm`: an address, the VM record and the records of its three default ports, in one
-- transaction.
pub mod Stored
pub mod Unique
use gsm_sv.Prelude.{
  ℕ, suc, ◌+◌, ◌*◌, Bool, true, false, Option, none, some, String, List, [], ◌∷◌, if◌then◌else◌,
}
use gsm_sv.Exec.{Exec, Result, ok, err, pure, raise, gets, modify, ◌>>=◌, ◌>>◌}
use gsm_sv.Table.{Table, insert}
use gsm_sv.Models.{
  user, eq_role, User, Server, Vm, VmPort, Db, Ip, Text, Protocol, tcp, tcp_udp, Settings, Specs,
  seconds_per_day,
}
use gsm_sv.Network.{Ports, calculate_ports}
use gsm_sv.Vm.Address.{allocate_internal_ip}

-- What a new VM record is made of.
pub record NewVm : Type 0 where
  pub vmid : ℕ
  pub name : Text
  pub display_name : Text
  pub password : String
  pub purpose : String
  pub now : ℕ

-- A plain user's VM expires after seven days.
abbrev pub expiry : User → ℕ → Option ℕ
expiry u now = if eq_role u.role user then some (now + 7 * seconds_per_day) else none

abbrev pub vm_row : User → Server → Specs → NewVm → Ip → ℕ → Vm
vm_row u server specs new ip id = record {
  id = id;
  hypervisor_vmid = new.vmid;
  name = new.name;
  display_name = new.display_name;
  server_id = server.id;
  owner_id = some u.id;
  allocated_ram_mb = specs.memory;
  allocated_cores = specs.cores;
  internal_ip = some ip;
  vm_password = some new.password;
  created_at = new.now;
  expires_at = expiry u new.now;
  auto_snapshot = false;
  purpose = some new.purpose;
  ready = false;
}

abbrev pub default_port : ℕ → ℕ → ℕ → Protocol → String → ℕ → VmPort
default_port vm_id internal_port external_port proto description id = record {
  id = id;
  vm_id = vm_id;
  internal_port = internal_port;
  external_port = external_port;
  protocol = proto;
  source = some "0.0.0.0/0";
  description = some description;
  is_default = true;
}

abbrev pub insert_ports : ℕ → Ports → Table VmPort → Table VmPort
insert_ports vm_id ports t = insert (default_port vm_id 10000 ports.svc2 tcp_udp "SVC") (
    insert (default_port vm_id 80 ports.svc1 tcp "HTTP")
      (insert (default_port vm_id 22 ports.ssh tcp "SSH") t))

-- `db.add(new_vm)` … `db.commit()`
abbrev pub insert_vm : (ℕ → Vm) → Ports → Db → Db
insert_vm row ports db = record db {
  vms = insert row db.vms;
  vm_ports = insert_ports db.vms.next_id ports db.vm_ports;
}

-- The address, and the key of the new record. `calculate_ports` may raise after the flush; the
-- session is rolled back then.
unfoldable pub reserve : Settings → User → Server → Specs → NewVm → Exec Db (Ip × ℕ)
unfolding allocate_internal_ip
reserve cfg u server specs new = do
  vms ← gets (λ (db : Db). db.vms)
  ip ← allocate_internal_ip cfg vms.rows
  ports ← λ db. (calculate_ports server.base_port new.vmid, db)
  modify (insert_vm (vm_row u server specs new ip) ports)
  pure (ip, vms.next_id)
