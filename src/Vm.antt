-- ===== src/Vm.antt =====
-- services/vm_service.py: creating and deleting VMs.
pub mod Names
pub mod Request
pub mod Select
pub mod Address
pub mod Reserve
pub mod Provision
pub mod Create
pub mod Delete
