-- ===== src/Vm/Create/Restore.antt =====
-- The parts of `create_vm` from the reservation on, and what they leave in the database.
use gsm_sv.Prelude.{ℕ, Option, String, List, ◌≡◌, arith, refl}
use gsm_sv.Exec.{Result, ok, err, continue, pure}
use gsm_sv.Models.{User, Server, Ip, Db, VmCreate, VmCreated, Settings, Specs}
use gsm_sv.Network.{Gateway, Ports}
use gsm_sv.Platform.{Platform}
use gsm_sv.Platform.World.{World, QueueItem}
use gsm_sv.Vm.Reserve.{reserve}
use gsm_sv.Vm.Reserve.Stored.{IsReserved, Reserved, reserve-Reserved}
use gsm_sv.Vm.Provision.{Job}
use gsm_sv.Vm.Select.{select_vmid}
use gsm_sv.Vm.Select.Free.{select_vmid-Selected, Selected, Selected-IsFree, IsFree}
use gsm_sv.Vm.Create.{
  Draws, cleanup_vm_db_record, provision, prepare, job_of, new_vm, created, finish_db,
}

module _ {E : Type 0} (p : Platform E) (g : Gateway E) (cfg : Settings) where
  -- The tables and the queue are these.
  abbrev pub Same : Db → List QueueItem → World E → Type 0
  Same d q w = (w.db ≡ d) × (w.queue ≡ q)

  -- What the `try` block and its handlers do to a database.
  abbrev pub Provisioned : User → ℕ → ℕ → Job → World E → Result VmCreated × World E → Type 0
  Provisioned u now id j w (ok r, w') =
      (r ≡ created cfg j) × (w'.db ≡ finish_db u j id now w.db) × (w'.queue ≡ w.queue)
  Provisioned u now id j w (err x, w') =
      (w'.db ≡ cleanup_vm_db_record id w.db) × (w'.queue ≡ w.queue)

  pub provision-Provisioned :
      (u : User) (now id : ℕ) (j : Job) (w : World E)
      → Provisioned u now id j w (provision p g cfg u now id j w)
  unfolding provision
  provision-Provisioned u now id j w = ground arith

  -- The reservation of `create_vm`: a free VMID, and what `reserve` stores under it.
  pub record IsPrepared (u : User) (draws : Draws) (req : VmCreate)
      (admitted : Specs × Server × Option String) (d : Db) (id : ℕ) (j : Job) (d' : Db)
      : Type 0 where
    pub described :
        j ≡ job_of p g cfg draws req admitted j.vmid (new_vm p g cfg draws u req j.vmid).name j.ip
    pub free : (ports : Ports) × IsFree d j.server j.vmid ports
    pub reserved :
        IsReserved cfg u j.server j.specs (new_vm p g cfg draws u req j.vmid) d j.ip id d'

  abbrev pub Prepared :
      User
      → Draws
      → VmCreate
      → Specs × Server × Option String
      → Db
      → List QueueItem
      → Result (ℕ × Job) × World E
      → Type 0
  Prepared u draws req a d q (ok (id, j), w') =
      IsPrepared u draws req a d id j w'.db × (w'.queue ≡ q)
  Prepared u draws req a d q (err x, w') = Same d q w'

  module _ (u : User) (draws : Draws) (req : VmCreate) (w : World E) where
    after_reserve :
        (specs : Specs) (server : Server) (storage : Option String) (vmid : ℕ) (e : E)
        (t : Result (Ip × ℕ) × Db)
        → (ports : Ports) × IsFree w.db server vmid ports
        → Reserved cfg u server specs (new_vm p g cfg draws u req vmid) w.db t
        → Prepared u draws req
            (specs, server, storage)
            w.db
            w.queue
            (continue
              (λ (x : Ip × ℕ). pure (
                x.1,
                job_of p g cfg draws req
                    (specs, server, storage)
                    vmid
                    (new_vm p g cfg draws u req vmid).name
                    x.0,
              ))
              t.0
              (record { db = t.1; queue = w.queue; env = e }))
    after_reserve specs server storage vmid e (ok (ip, id), d') sel r =
        (record { described = refl; free = sel; reserved = r }, refl)
    after_reserve specs server storage vmid e (err x, d') sel r = (r, refl)

    pub prepare-Prepared :
        (admitted : Specs × Server × Option String)
        → Prepared u draws req admitted w.db w.queue (prepare p g cfg draws u req admitted w)
    unfolding prepare
    prepare-Prepared (specs, server, storage) = connected (p.connect server w.env).0 refl
      where
        e' : E
        e' = (p.connect server w.env).1

        selected :
            (r : Result ℕ)
            → (select_vmid p w.db server e').0 ≡ r
            → Selected p w.db server e' r
            → (p.connect server w.env).0 ≡ ok tt
            → Prepared u draws req
                (specs, server, storage)
                w.db
                w.queue
                (prepare p g cfg draws u req (specs, server, storage) w)
        selected (err x) h sel c = rw (c, h) (refl, refl)
        selected (ok vmid) h sel c =
            rw (c, h)
              (after_reserve specs server storage vmid (select_vmid p w.db server e').1
                (reserve cfg u server specs (new_vm p g cfg draws u req vmid) w.db)
                (Selected-IsFree p w.db server e' vmid sel)
                (reserve-Reserved cfg u server specs (new_vm p g cfg draws u req vmid) w.db))

        connected :
            (r : Result (Unit {0}))
            → (p.connect server w.env).0 ≡ r
            → Prepared u draws req
                (specs, server, storage)
                w.db
                w.queue
                (prepare p g cfg draws u req (specs, server, storage) w)
        connected (err x) h = rw h (refl, refl)
        connected (ok _) h =
            selected (select_vmid p w.db server e').0 refl (select_vmid-Selected p w.db server e') h
