-- ===== src/Tests/OnTasks.antt =====
-- The background tasks on the small installation.
use gsm_sv.Prelude.{ℕ, ◌+◌, ◌≤◌, length, true, some, [], ◌∷◌, ◌≡◌, refl, arith, All}
use gsm_sv.Table.{select, count_where}
use gsm_sv.Models.{admin, User, Vm, Db}
use gsm_sv.Platform.World.{World}
use gsm_sv.Vm.Create.{has_id}
use gsm_sv.Vm.Names.{codes}
use gsm_sv.Vm.Delete.{Caddy}
use gsm_sv.Background.Expire.{is_soon, process_grace_vms, expire_round, warn_all}
use gsm_sv.Background.Expire.Spared.{Spares, expire_round-Spares}
use gsm_sv.Background.Expire.Grace.{Told, in_it, newly_in_it, process_grace_vms-once}
use gsm_sv.Background.Admins.{send_admin_expiry_notifications}
use gsm_sv.Background.Admins.Once.{OnceBy, send_admin_expiry-OnceBy}
use gsm_sv.Background.Schedule.{next_notify_sleep_seconds}
use gsm_sv.Background.Schedule.Next.{NextBy, next_notify_sleep_seconds-NextBy}
use gsm_sv.Tests.{
  Lab, counting_gateway, lab_platform, settings, student, old_vm, tables, world, no_network,
}

abbrev quiet_caddy : Caddy Lab
quiet_caddy = record { delete_route = λ name e. (true, e) }

-- One VM ran out more than three days ago, one is in its grace period.
abbrev late_vm : Vm
late_vm = record old_vm {
  id = 2;
  hypervisor_vmid = 101;
  expires_at = some 900000;
  name = codes "web";
}

abbrev late_tables : Db
late_tables = record tables { vms = record { rows = old_vm ∷ late_vm ∷ []; next_id = 3 } }

abbrev late_world : World Lab
late_world = record world { db = late_tables }

unique_keys : (id : ℕ) → count_where (has_id id) (old_vm ∷ late_vm ∷ []) ≤ 1
unique_keys id = ground arith

expire_round-Spares_example :
    Spares 1000000 late_tables
      (expire_round lab_platform counting_gateway quiet_caddy no_network settings 1000000
        late_world).db
expire_round-Spares_example =
    expire_round-Spares 1000000 lab_platform counting_gateway quiet_caddy no_network settings
      late_world unique_keys

abbrev grace_pass : ℕ → World Lab → World Lab
grace_pass = process_grace_vms lab_platform counting_gateway quiet_caddy no_network settings

process_grace_vms-once_example :
    All (Told (grace_pass 1000000 late_world).db) (
      in_it lab_platform counting_gateway quiet_caddy no_network settings 1000000 1003600
        late_world)
    × (length (grace_pass 1000000 late_world).db.notifications.rows
        ≤ length late_tables.notifications.rows
          + length (
              in_it lab_platform counting_gateway quiet_caddy no_network settings 1000000 1003600
                late_world))
    × (length (grace_pass 1003600 (grace_pass 1000000 late_world)).db.notifications.rows
        ≤ length (grace_pass 1000000 late_world).db.notifications.rows
          + length (
              newly_in_it lab_platform counting_gateway quiet_caddy no_network settings 1000000
                1003600 late_world))
process_grace_vms-once_example =
    process_grace_vms-once lab_platform counting_gateway quiet_caddy no_network settings 1000000
      1003600 late_world

abbrev teacher : User
teacher = record student { id = 3; role = admin }

abbrev with_teacher : Db
with_teacher = record late_tables { users = record { rows = teacher ∷ []; next_id = 4 } }

send_admin_expiry-OnceBy_example :
    OnceBy 800000 820000 refl with_teacher
      (select (is_soon 800000) (old_vm ∷ late_vm ∷ []))
      (send_admin_expiry_notifications 800000 with_teacher)
send_admin_expiry-OnceBy_example = send_admin_expiry-OnceBy 800000 820000 refl with_teacher

next_notify_sleep_seconds-NextBy_example :
    NextBy 100000 (18 ∷ 0 ∷ 6 ∷ 12 ∷ []) (next_notify_sleep_seconds 100000 (18 ∷ 0 ∷ 6 ∷ 12 ∷ []))
next_notify_sleep_seconds-NextBy_example =
    next_notify_sleep_seconds-NextBy 100000 (18 ∷ 0 ∷ 6 ∷ 12 ∷ [])
      (omega arith, (omega arith, (omega arith, (omega arith, tt))))

-- The notice for the VM "web2" hides that the VM "web" of the same owner ends soon too.
abbrev long_name : Vm
long_name = record late_vm { id = 3; hypervisor_vmid = 102; name = codes "web2" }

hidden :
    (warn_all 800000
      (warn_all 800000 [] (long_name ∷ []) late_tables).notifications.rows
      (late_vm ∷ [])
      late_tables).notifications.rows
    ≡ []
hidden = refl
