-- ===== src/Vm/Reserve/Stored.antt =====
-- What the reservation writes.
use gsm_sv.Prelude.{ℕ, ◌+◌, ◌-◌, Option, none, some, ◌≡◌, refl}
use gsm_sv.Exec.{Result, ok, err}
use gsm_sv.Models.{User, Server, Db, Ip, Settings, Specs}
use gsm_sv.Network.{Ports, calculate_ports}
use gsm_sv.Vm.Address.{IsLowest, LowestOrNone, first_free, first_free-LowestOrNone}
use gsm_sv.Vm.Reserve.{NewVm, vm_row, insert_vm, reserve}

module _ (cfg : Settings) (u : User) (server : Server) (specs : Specs) (new : NewVm) (d : Db) where
  -- The address is the lowest free one of the range; the record and the ports are added under it.
  pub record IsReserved (ip : Ip) (id : ℕ) (d' : Db) : Type 0 where
    pub ports : Ports
    pub numbered : calculate_ports server.base_port new.vmid ≡ ok ports
    pub key : id ≡ d.vms.next_id
    pub lowest :
        IsLowest cfg d.vms.rows cfg.internal_ip_start
          (cfg.internal_ip_start + (cfg.internal_ip_end + 1 - cfg.internal_ip_start))
          ip
    pub stored : d' ≡ insert_vm (vm_row u server specs new ip) ports d

  abbrev pub Reserved : Result (Ip × ℕ) × Db → Type 0
  Reserved (ok (ip, id), d') = IsReserved ip id d'
  Reserved (err e, d') = d' ≡ d

  rounds : ℕ
  rounds = cfg.internal_ip_end + 1 - cfg.internal_ip_start

  pub reserve-Reserved : Reserved (reserve cfg u server specs new d)
  unfolding reserve rounds
  reserve-Reserved =
      found (first_free cfg d.vms.rows rounds cfg.internal_ip_start) refl
        (first_free-LowestOrNone cfg d.vms.rows rounds cfg.internal_ip_start)
    where
      numbered :
          (ip : Ip)
          → first_free cfg d.vms.rows rounds cfg.internal_ip_start ≡ some ip
          → IsLowest cfg d.vms.rows cfg.internal_ip_start (cfg.internal_ip_start + rounds) ip
          → (r : Result Ports) → calculate_ports server.base_port new.vmid ≡ r
          → Reserved (reserve cfg u server specs new d)
      numbered ip h low (err e) c = rw (h, c) refl
      numbered ip h low (ok ports) c =
          rw (h, c)
            (record { ports = ports; numbered = c; key = refl; lowest = low; stored = refl })

      found :
          (o : Option Ip)
          → first_free cfg d.vms.rows rounds cfg.internal_ip_start ≡ o
          → LowestOrNone cfg d.vms.rows cfg.internal_ip_start (cfg.internal_ip_start + rounds) o
          → Reserved (reserve cfg u server specs new d)
      found none h low = rw h refl
      found (some ip) h low = numbered ip h low (calculate_ports server.base_port new.vmid) refl
