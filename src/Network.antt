-- ===== src/Network.antt =====
-- services/network_service.py: ports, the checks on what goes into a shell command, and the
-- iptables rules of a VM on the gateway. A rule is its parsed arguments, a command is its meaning;
-- the gateway itself and its SSH connection are a parameter.
mod Rules
mod Link
pub mod Transaction
pub mod Manage
pub mod Backup
unfoldable pub use Rules.*
pub use Link.*
