-- ===== src/Tests/OnOwners.antt =====
-- What an owner does with a VM of the small installation.
use gsm_sv.Prelude.{ℕ, ◌≤◌, ◌≡◌, ◌≢◌, true, [], ◌∷◌, none, some, refl, arith}
use gsm_sv.Exec.{ok}
use gsm_sv.Models.{User, project_owner, tcp}
use gsm_sv.Platform.{stop}
use gsm_sv.Ports.{VmPortCreate, add_custom_port}
use gsm_sv.Ports.Stored.{AddedBy, add_custom_port-AddedBy}
use gsm_sv.Control.{Guest, extend_vm, control_vm, resize_vm, create_snapshot}
use gsm_sv.Control.Extend.{ExtendedBy, extend_vm-ExtendedBy}
use gsm_sv.Control.Power.{ControlledBy, control_vm-ControlledBy}
use gsm_sv.Control.Resize.{ResizedBy, resize_vm-ResizedBy}
use gsm_sv.Control.Snapshots.{TakenBy, create_snapshot-TakenBy}
use gsm_sv.Table.{select, count_where}
use gsm_sv.Table.Keys.{keyed}
use gsm_sv.Vm.Request.{owns}
use gsm_sv.Control.Fields.{to_toggle, serve_vm}
use gsm_sv.Control.Isolation.{vm_key, serve_vm_spares}
use gsm_sv.Ports.Restore.{restore_default_ports}
use gsm_sv.Ports.Restore.Complete.{RestoredBy, restore_default_ports-RestoredBy}
use gsm_sv.Auth.{get_vm_with_owner_check}
use gsm_sv.Network.{calculate_ports, normalize_source_ip}
use gsm_sv.Network.Manage.{manage_custom_iptables, with_gateway}
use gsm_sv.Tests.{Lab, counting_gateway, lab_platform, settings, student, tables, world, no_network}

abbrev body : VmPortCreate
body = record { internal_port = 8080; protocol = tcp; source = none; description = none }

-- The first number drawn is taken.
add_custom_port-AddedBy_example :
    AddedBy counting_gateway no_network settings
      (30001 ∷ 30002 ∷ [])
      (some "node1")
      100
      body
      student
      world
      refl
      (add_custom_port counting_gateway no_network settings
        (30001 ∷ 30002 ∷ [])
        (some "node1")
        100
        body
        student
        world)
add_custom_port-AddedBy_example =
    add_custom_port-AddedBy counting_gateway no_network settings (30001 ∷ 30002 ∷ []) (some "node1")
      100 body student world refl

extend_vm-ExtendedBy_example :
    ExtendedBy 100000
      (some "node1")
      100
      student
      tables
      (extend_vm 100000 (some "node1") 100 student tables)
extend_vm-ExtendedBy_example = extend_vm-ExtendedBy 100000 (some "node1") 100 student tables

abbrev lead : User
lead = record student { role = project_owner }

abbrev guest : Guest Lab
guest = record {
  hotplug = λ n v e. (ok true, e);
  resize = λ n v cores memory e. (ok tt, e);
  marker = λ n v e. (ok true, e);
  snapshots = λ n v e. (ok (record { name = "current" } ∷ []), e);
  take_snapshot = λ n v name e. (ok tt, e);
  rollback = λ n v name e. (ok tt, e);
  delete_snapshot = λ n v name e. (ok tt, e);
}

control_vm-ControlledBy_example :
    ControlledBy lab_platform guest 100000
      (some "node1")
      100
      stop
      student
      world
      (control_vm lab_platform guest 100000 (some "node1") 100 stop student world)
control_vm-ControlledBy_example =
    control_vm-ControlledBy lab_platform guest 100000 (some "node1") 100 stop student world

resize_vm-ResizedBy_example :
    ResizedBy lab_platform guest
      (some "node1")
      100
      (some 4)
      none
      lead
      world
      (resize_vm lab_platform guest (some "node1") 100 (some 4) none lead world)
resize_vm-ResizedBy_example =
    resize_vm-ResizedBy lab_platform guest (some "node1") 100 (some 4) none lead world

create_snapshot-TakenBy_example :
    TakenBy lab_platform guest
      (some "node1")
      100
      "before"
      student
      world
      (create_snapshot lab_platform guest (some "node1") 100 "before" student world)
create_snapshot-TakenBy_example =
    create_snapshot-TakenBy lab_platform guest (some "node1") 100 "before" student world

-- A VM whose default ports are all missing.
restore_default_ports-RestoredBy_example :
    RestoredBy counting_gateway no_network settings "node1" 100 student world
      (restore_default_ports counting_gateway no_network settings "node1" 100 student world)
restore_default_ports-RestoredBy_example =
    restore_default_ports-RestoredBy counting_gateway no_network settings "node1" 100 student world

three_ports :
    (restore_default_ports counting_gateway no_network settings "node1" 100 student world).0 ≡ ok 3
unfolding restore_default_ports get_vm_with_owner_check calculate_ports manage_custom_iptables
    with_gateway normalize_source_ip
three_ports = refl

two_is_not_one : 2 ≢ student.id
two_is_not_one h = absurd (omega (arith, h))

unique_vms : (id : ℕ) → count_where (keyed vm_key id) tables.vms.rows ≤ 1
unique_vms id = ground arith

serve_vm_spares_example :
    select (owns 2) (serve_vm to_toggle "node1" 100 student tables).1.vms.rows
    ≡ select (owns 2) tables.vms.rows
serve_vm_spares_example =
    serve_vm_spares student 2 two_is_not_one refl "node1" 100 tables unique_vms to_toggle
