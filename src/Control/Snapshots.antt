-- ===== src/Control/Snapshots.antt =====
-- `create_snapshot`
use gsm_sv.Prelude.{
  ℕ, ◌<◌, false, Option, some, String, str_eq, List, ◌≡◌, refl, arith, ◌==◌, ap, any, length,
}
use gsm_sv.Exec.{continue, recover, Result, ok, err}
use gsm_sv.Platform.World.{World}
use gsm_sv.Platform.{Platform}
use gsm_sv.Control.{
  Snapshot, Guest, real_snapshots, manual_snapshots, may_take, as_proxmox, take_on, create_snapshot,
}
use gsm_sv.Control.Power.{owned_step, server_step, call_step}
use gsm_sv.Auth.Access.{Own}
use gsm_sv.Table.{find_first}
use gsm_sv.Models.{User, Server, Vm}
use gsm_sv.Platform.World.{call}

module _ {E : Type 0} (p : Platform E) (k : Guest E) where
  -- What a new snapshot finds.
  pub record MayTake (name : String) (all : List Snapshot) : Type 0 where
    pub new : any (λ (s : Snapshot). str_eq s.name name) (real_snapshots p k all) ≡ false
    pub manual : length (manual_snapshots p k all) < 2
    pub total : length (real_snapshots p k all) < 3

  abbrev pub MayTakeBy : String → List Snapshot → World E → Result (Unit {0}) × World E → Type 0
  MayTakeBy name all w (ok x, w') = MayTake name all × (w' ≡ w)
  MayTakeBy name all w (err x, w') = w' ≡ w

  may_take-MayTakeBy :
      (name : String) (all : List Snapshot) (w : World E)
      → MayTakeBy name all w (may_take p k name all w)
  may_take-MayTakeBy name all w = ground arith

  module _ (node : Option String) (vmid : ℕ) (name : String) (u : User) (w : World E) where
    abbrev pub connected : Server → E
    connected server = (p.connect server w.env).1

    -- The node's answer to the question for the snapshots, after the login.
    abbrev pub list : Vm → Server → Result (List Snapshot) × E
    list vm server = k.snapshots server.name vm.hypervisor_vmid (connected server)

    -- A snapshot that was taken: the VM and its server are those of the database, the list is that of
    -- this VM after the login, and what the node has done after the list is this one snapshot.
    pub record Taken (w' : World E) : Type 0 where
      pub vm : Vm
      pub own : Own vmid u node w.db vm
      pub server : Server
      pub of_vm : find_first (λ (s : Server). s.id == vm.server_id) w.db.servers.rows ≡ some server
      pub all : List Snapshot
      pub listed : (list vm server).0 ≡ ok all
      pub allowed : MayTake name all
      pub accepted :
          (k.take_snapshot server.name vm.hypervisor_vmid name (list vm server).1).0 ≡ ok tt
      pub sent : w'.env ≡ (k.take_snapshot server.name vm.hypervisor_vmid name (list vm server).1).1

    abbrev pub TakenBy : Result (Unit {0}) × World E → Type 0
    TakenBy (ok x, w') = Taken w' × (w'.db ≡ w.db)
    TakenBy (err x, w') = w'.db ≡ w.db

    module _ (vm : Vm) (server : Server) (own : Own vmid u node w.db vm)
        (of_vm : find_first (λ (s : Server). s.id == vm.server_id) w.db.servers.rows
          ≡ some server) where
      taken :
          (all : List Snapshot)
          → (list vm server).0 ≡ ok all
          → MayTake name all
          → (t : Result (Unit {0}) × E)
          → k.take_snapshot server.name vm.hypervisor_vmid name (list vm server).1 ≡ t
          → TakenBy (t.0, record w { env = t.1 })
      taken all listed allowed (err x, e) h = refl
      taken all listed allowed (ok x, e) h = (
        record {
          vm = vm;
          own = own;
          server = server;
          of_vm = of_vm;
          all = all;
          listed = listed;
          allowed = allowed;
          accepted = rw h refl;
          sent = rw h refl;
        },
        refl,
      )

      take_on-TakenBy : TakenBy (take_on p k vm server name (record w { env = connected server }))
      take_on-TakenBy =
          call_step TakenBy (record w { env = connected server })
            (k.snapshots server.name vm.hypervisor_vmid) _
            (λ all listed. allowed all listed _ (may_take-MayTakeBy name all read)) (λ x. refl)
        where
          read : World E
          read = record w { env = (list vm server).1 }

          allowed :
              (all : List Snapshot)
              → (list vm server).0 ≡ ok all
              → (t : Result (Unit {0}) × World E) → MayTakeBy name all read t
              → TakenBy (
                  continue
                    (λ x. call (k.take_snapshot server.name vm.hypervisor_vmid name))
                    t.0
                    t.1)
          allowed all listed (err x, w₂) same = ap (λ (w : World E). w.db) same
          allowed all listed (ok x, w₂) (may, same) = rw same (
              taken all listed may
                (k.take_snapshot server.name vm.hypervisor_vmid name (list vm server).1) refl)

    rescued :
        (t : Result (Unit {0}) × World E) → TakenBy t → TakenBy (recover (as_proxmox p k) t.0 t.1)
    rescued (ok x, w') h = h
    rescued (err x, w') h = ground arith

    -- `create_snapshot` answers with success only after the node took a snapshot of the name of a VM of
    -- the user's own (an administrator: any VM), where the list that the node gave just before had no
    -- snapshot of the name, fewer than two manual ones and fewer than three in all. It never writes to
    -- the database.
    pub create_snapshot-TakenBy : TakenBy (create_snapshot p k node vmid name u w)
    unfolding create_snapshot
    create_snapshot-TakenBy =
        owned_step TakenBy w vmid u node _
          (λ vm own.
            server_step TakenBy w vm _
              (λ server of_vm.
                call_step TakenBy w (p.connect server) _
                  (λ x h.
                    rescued (take_on p k vm server name (record w { env = connected server }))
                      (take_on-TakenBy vm server own of_vm))
                  (λ x. refl))
              (λ x. refl))
          (λ x. refl)
