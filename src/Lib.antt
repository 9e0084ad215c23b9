-- ===== src/Lib.antt =====
-- GSM-SV backend: a verification library for the server that rents VMs on Proxmox nodes to the
-- students of a school.
--
-- The program. `backend/` is a FastAPI server. `api/routes/auth.py` keeps accounts: a code sent by
-- e-mail opens one, an administrator approves project owners. A request for a VM
-- (`api/routes/vmcontrol.py`) becomes a job of `services/vm_creation_queue.py`; one worker takes jobs
-- from the queue and calls `create_vm` of `services/vm_service.py`, which reserves a VMID, an address
-- and ports in the database, clones a template, opens the ports on the gateway through
-- `services/network_service.py` and takes everything back when a step fails.
-- `services/mon_service.py` says how loaded a node is. Owners open more ports
-- (`api/routes/firewall.py`) and extend, start, stop, resize and snapshot their VMs.
--
-- How it is modelled. A handler is an action (Exec): a function from a state to a result or an
-- exception and the state it leaves. The state is the database (Table, Models), the in-process queue
-- and the outside world (Platform/World). Proxmox, SSH, the gateway, Caddy, bcrypt, tokens, DataGSM,
-- e-mail and the clock are parameters: records of functions on a type `E` of outside states. Python's
-- exceptions are the constructors of `Exc`, messages those of `Detail`.
--
-- The files.
--   Prelude, Exec, Table: shared names and lemmas; actions, their invariants (Keeps) and their steps
--     (Steps); SQLAlchemy's queries on a table and their laws.
--   Models, Platform: rows, settings and tiers (models, schemas/vm_schema.py, core); the calls of
--     Proxmox and the whole state.
--   Network: services/network_service.py. Rules has ports, checks and rules, Transaction the two loops
--     of `_run_iptables_commands` and its rollback, Manage the two management functions, Backup
--     `_backup_iptables` and the weekly round of main.py.
--   Monitor: `get_server_resource_usage` and `select_clone_storage`; Best: `update_server_stats` and
--     `get_best_server`.
--   Requests: `_validate_pw` (schemas/user_schema.py); Dport: `_validate_dport` (schemas/fw_schema.py).
--   Vm: services/vm_service.py. Names, Request (steps 0 to 1-1 of `create_vm`), Select
--     (`_select_vmid`), Address (`_allocate_internal_ip`), Reserve (step 4), Provision (steps 5 to 9,
--     `_wait_for_clone`, `_cleanup_failed_vm_resources`), Create (`create_vm`), Delete (`delete_vm`).
--   Queue: services/vm_creation_queue.py. Worker has `process_vm_creation_job` and `_worker_loop`.
--   Auth: core/security.py, api/dependencies.py and api/routes/auth.py, by the handlers' names.
--   Ports: the custom ports of api/routes/firewall.py, and in Restore `restore_default_ports`.
--   Caddy, Https: services/caddy_service.py (Admin says what the admin API is relied on for, Subdomain
--     has `validate_subdomain`) and api/routes/https_gateway.py.
--   Background: main.py. Messages has the texts of notices, Expire a round of `_expire_vms_loop`, Admins
--     the notices to administrators, Schedule `_next_notify_sleep_seconds`, Daily a round of
--     `_daily_snapshot_loop` (the waits that `gather` runs side by side take turns).
--   Oauth: api/routes/oauth.py (Stores has the two in-memory stores). Notices, Questions:
--     api/routes/notifications.py and api/routes/faq.py.
--   Control: `extend_vm`, `control_vm`, `resize_vm` and `create_snapshot` of api/routes/vmcontrol.py; Fields
--     has the other handlers of a VM's row and snapshots.
--   Tests: a small installation on which the theorems are applied.
--
-- Bounds and fuel. Times are seconds, in `_wait_for_clone` half seconds; percentages are tenths. The
-- polling loop and the wait for deleted snapshots run on fuel, one more than the half seconds to the
-- deadline. `_select_vmid` makes 50
-- probes and `_allocate_internal_ip` one for each address of its range, as in the source. The worker
-- loop makes one round for each element of a list of clock readings. Database keys come from a
-- sequence that `next_id` stands for; that it gives unused keys is a hypothesis where it matters.
--
-- What is left out. Concurrency of requests: a handler is one step, as its locks and transactions make
-- it; the IntegrityErrors of a race are not raised. The text of commands, YAML files and JSON, cookies,
-- redirections and rate limits. Of main.py the Discord report and the start-up. In the management functions of the
-- gateway the backup after a change. `serverless/` is another program.
pub mod Prelude
pub mod Exec
pub mod Table
pub mod Models
pub mod Platform
pub mod Network
pub mod Monitor
pub mod Vm
pub mod Caddy
pub mod Https
pub mod Queue
pub mod Auth
pub mod Ports
pub mod Control
pub mod Background
pub mod Requests
pub mod Notices
pub mod Questions
pub mod Oauth
pub mod Tests
