-- ===== src/Vm/Reserve/Unique.antt =====
-- The internal addresses of the VM table under a reservation.
use gsm_sv.Prelude.{ℕ, ◌≤◌, ◌≡◌, false, any, subst}
use gsm_sv.Exec.{Result, ok, err}
use gsm_sv.Table.{count_where}
use gsm_sv.Table.Laws.{count_where-new}
use gsm_sv.Models.{User, Server, Db, Ip, eq_ip_iff, Settings, Specs}
use gsm_sv.Vm.Address.{holds_ip}
use gsm_sv.Vm.Reserve.{NewVm, vm_row, reserve}
use gsm_sv.Vm.Reserve.Stored.{Reserved, reserve-Reserved}

module _ (cfg : Settings) (u : User) (server : Server) (specs : Specs) (new : NewVm) (d : Db) where
  -- The reservation of `create_vm` keeps every internal address with at most one VM, on all nodes.
  pub reserve-unique_ip :
      (ip : Ip)
      → count_where (holds_ip ip) d.vms.rows ≤ 1
      → count_where (holds_ip ip) (reserve cfg u server specs new d).1.vms.rows ≤ 1
  reserve-unique_ip ip h =
      go (reserve cfg u server specs new d) (reserve-Reserved cfg u server specs new d)
    where
      go :
          (t : Result (Ip × ℕ) × Db)
          → Reserved cfg u server specs new d t
          → count_where (holds_ip ip) t.1.vms.rows ≤ 1
      go (err x, d') same = rw same h
      go (ok (given, id), d') r = rw r.stored (
          count_where-new (holds_ip ip) (vm_row u server specs new given) d.vms h (λ e.
            subst (λ i. any (holds_ip i) d.vms.rows ≡ false) ((eq_ip_iff given ip).0 e)
              r.lowest.free))
