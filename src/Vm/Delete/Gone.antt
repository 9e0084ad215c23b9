-- ===== src/Vm/Delete/Gone.antt =====
-- What `delete_vm` leaves in the database.
use gsm_sv.Prelude.{ℕ, Bool, Option, none, some, String, ◌≡◌, refl, ◌≤◌}
use gsm_sv.Exec.{Result, ok, err}
use gsm_sv.Table.{count_where, select, delete_where}
use gsm_sv.Table.Laws.{drop_where_all, count_where-drop_where-le}
use gsm_sv.Models.{Server, Vm, Db, Settings}
use gsm_sv.Network.{Gateway}
use gsm_sv.Platform.{Platform}
use gsm_sv.Platform.World.{World}
use gsm_sv.Vm.Request.{vm_count, owns}
use gsm_sv.Vm.Create.{has_id, of_vm}
use gsm_sv.Vm.Delete.{Caddy, route_of, remove_records, take_down, finish_delete, delete_vm}

-- Nothing of the VM is left, no other VM goes, and nobody has more VMs than before.
pub record IsGone (vm : Vm) (d d' : Db) : Type 0 where
  pub no_vm : count_where (has_id vm.id) d'.vms.rows ≡ 0
  pub only : d'.vms ≡ delete_where (has_id vm.id) d.vms
  pub no_port : count_where (of_vm vm.id) d'.vm_ports.rows ≡ 0
  pub no_route : count_where (route_of vm.id) d'.https_routes.rows ≡ 0
  pub others : (uid : ℕ) → vm_count d' uid ≤ vm_count d uid
  pub accounts : d'.users ≡ d.users
  pub jobs : d'.vm_creation_jobs ≡ d.vm_creation_jobs

remove_records-IsGone : (vm : Vm) (now : ℕ) (d : Db) → IsGone vm d (remove_records vm now d)
remove_records-IsGone vm now d = go vm.owner_id refl
  where
    go : (o : Option ℕ) → vm.owner_id ≡ o → IsGone vm d (remove_records vm now d)
    go none e = rw e (record {
      no_vm = drop_where_all (has_id vm.id) d.vms.rows;
      only = refl;
      no_port = drop_where_all (of_vm vm.id) d.vm_ports.rows;
      no_route = drop_where_all (route_of vm.id) d.https_routes.rows;
      others = λ uid. count_where-drop_where-le (has_id vm.id) (owns uid) d.vms.rows;
      accounts = refl;
      jobs = refl;
    })
    go (some owner) e = rw e (record {
      no_vm = drop_where_all (has_id vm.id) d.vms.rows;
      only = refl;
      no_port = drop_where_all (of_vm vm.id) d.vm_ports.rows;
      no_route = drop_where_all (route_of vm.id) d.https_routes.rows;
      others = λ uid. count_where-drop_where-le (has_id vm.id) (owns uid) d.vms.rows;
      accounts = refl;
      jobs = refl;
    })

module _ {E : Type 0} (p : Platform E) (g : Gateway E) (c : Caddy E) (is_network : String → Bool)
    (cfg : Settings) (server : Server) (vm : Vm) (purge : Bool) (now : ℕ) (w : World E) where
  abbrev pub GoneBy : Result (Unit {0}) × World E → Type 0
  GoneBy (ok x, w') = IsGone vm w.db w'.db
  GoneBy (err x, w') = w'.db ≡ w.db

  -- `delete_vm`: on success no record of the VM, of its ports or of its HTTPS routes is left, no
  -- other VM is gone, no user has more VMs than before, and accounts and jobs are untouched; on any
  -- failure, of Proxmox, of the gateway's validation or of the connection, the database is as it was.
  pub delete_vm-GoneBy : GoneBy (delete_vm p g c is_network cfg server vm purge now w)
  unfolding delete_vm
  delete_vm-GoneBy = connected (p.connect server w.env) refl
    where
      finished :
          (r : Result (Unit {0})) (e : E)
          → GoneBy (finish_delete p g c is_network cfg vm now r (record w { env = e }))
      finished (ok x) e = remove_records-IsGone vm now w.db
      finished (err x) e = refl

      connected :
          (t : Result (Unit {0}) × E)
          → p.connect server w.env ≡ t
          → GoneBy (delete_vm p g c is_network cfg server vm purge now w)
      connected (err x, e) h = rw h refl
      connected (ok x, e) h = rw h (
          let t =
            take_down p g c is_network cfg server vm purge (select (of_vm vm.id) w.db.vm_ports.rows)
              (select (route_of vm.id) w.db.https_routes.rows) e in
          finished t.0 t.1)
