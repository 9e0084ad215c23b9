-- ===== src/Tests/OnVms.antt =====
-- Creating and deleting VMs on the small installation.
use gsm_sv.Prelude.{◌≤◌, true, [], some, ◌≡◌, refl, arith}
use gsm_sv.Exec.{Result, clone_timeout, http_exception}
use gsm_sv.Table.{count_where}
use gsm_sv.Models.{Ip, Specs}
use gsm_sv.Vm.Request.{check_request}
use gsm_sv.Vm.Request.Bounds.{AcceptedBy, check_request-AcceptedBy}
use gsm_sv.Vm.Select.{select_vmid}
use gsm_sv.Vm.Select.Free.{Selected, select_vmid-Selected}
use gsm_sv.Vm.Address.{holds_ip}
use gsm_sv.Vm.Reserve.{NewVm, reserve}
use gsm_sv.Vm.Reserve.Unique.{reserve-unique_ip}
use gsm_sv.Vm.Provision.{finished, poll}
use gsm_sv.Vm.Provision.Wait.{poll-ends}
use gsm_sv.Vm.Create.{create_vm}
use gsm_sv.Vm.Create.Outcome.{IsFresh, CreateOutcome, create_vm-outcome}
use gsm_sv.Vm.Delete.{Caddy, delete_vm}
use gsm_sv.Vm.Delete.Gone.{GoneBy, delete_vm-GoneBy}
use gsm_sv.Tests.{
  Lab, empty_lab, counting_gateway, lab_platform, settings, node, student, old_vm, vm_request,
  tables, world, draws, no_network,
}

tables-IsFresh : IsFresh lab_platform counting_gateway settings tables
tables-IsFresh = record { no_vm = refl; no_port = refl }

create_vm-outcome_example :
    CreateOutcome lab_platform counting_gateway settings draws student vm_request world
      (create_vm lab_platform counting_gateway settings draws student vm_request world)
create_vm-outcome_example =
    create_vm-outcome lab_platform counting_gateway settings draws student vm_request world
      tables-IsFresh

check_request-AcceptedBy_example :
    AcceptedBy settings student vm_request tables (check_request settings student vm_request tables)
check_request-AcceptedBy_example = check_request-AcceptedBy settings student vm_request tables

select_vmid-Selected_example :
    Selected lab_platform tables node empty_lab (select_vmid lab_platform tables node empty_lab).0
select_vmid-Selected_example = select_vmid-Selected lab_platform tables node empty_lab

abbrev new : NewVm
new = record {
  vmid = 101;
  name = [];
  display_name = [];
  password = "secret";
  purpose = "a server";
  now = 1000;
}

abbrev specs : Specs
specs = record { memory = 4096; cores = 2; disk = 20 }

abbrev taken_ip : Ip
taken_ip = record { a = 10; b = 0; c = 0; d = 10 }

reserve-unique_ip_example :
    count_where (holds_ip taken_ip) (reserve settings student node specs new tables).1.vms.rows ≤ 1
reserve-unique_ip_example =
    reserve-unique_ip settings student node specs new tables taken_ip (omega arith)

poll-ends_example :
    (t : Result (Unit {0}) × Lab) × (poll lab_platform
        (λ e. (finished, e))
        240
        10
        (http_exception 500 clone_timeout)
        241
        2
        empty_lab
      ≡ some t)
poll-ends_example =
    poll-ends lab_platform (λ e. (finished, e)) 240 10 (http_exception 500 clone_timeout) 241 2
      empty_lab (λ d e. omega arith) (λ e. omega arith) (omega arith) (omega arith) (omega arith)

abbrev caddy : Caddy Lab
caddy = record { delete_route = λ name e. (true, e) }

delete_vm-GoneBy_example :
    GoneBy lab_platform counting_gateway caddy no_network settings node old_vm true 1000 world (
      delete_vm lab_platform counting_gateway caddy no_network settings node old_vm true 1000 world)
delete_vm-GoneBy_example =
    delete_vm-GoneBy lab_platform counting_gateway caddy no_network settings node old_vm true 1000
      world
