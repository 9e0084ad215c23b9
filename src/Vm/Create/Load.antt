-- ===== src/Vm/Create/Load.antt =====
-- What a creation does to the job table, the queue and the number of VMs of each user.
use gsm_sv.Prelude.{
  ℕ, ◌+◌, ◌≤◌, ◌==◌, ==_refl, true, Option, String, [], ◌∷◌, ◌≡◌, ◌∙◌, arith, refl, subst, ap,
  if◌then◌else◌,
}
use gsm_sv.Exec.{Exec, Exc, Result, ok, err, ◌>>=◌}
use gsm_sv.Exec.Steps.{bind_step}
use gsm_sv.Table.Laws.{
  count_where-append, count_where-drop_where-le, count_where-update_where, drop_where-insert,
}
use gsm_sv.Models.{User, Server, Ip, Vm, Db, VmCreate, VmCreated, Settings, Specs}
use gsm_sv.Network.{Gateway, Ports}
use gsm_sv.Platform.{Platform}
use gsm_sv.Platform.World.{World}
use gsm_sv.Vm.Request.{owns, vm_count}
use gsm_sv.Vm.Reserve.{NewVm, vm_row, insert_vm}
use gsm_sv.Vm.Provision.{Job}
use gsm_sv.Vm.Create.{
  Draws, new_vm, has_id, cleanup_vm_db_record, provision, admit, prepare, create_vm, finish_db,
}
use gsm_sv.Vm.Create.Restore.{Provisioned, provision-Provisioned, IsPrepared, Prepared}
use gsm_sv.Vm.Create.Outcome.{Admitted, admit-Admitted, Prepared-from}

-- One for the user who asks.
abbrev pub own : User → ℕ → ℕ
own u uid = if u.id == uid then 1 else 0

vm_count-insert :
    (u : User) (server : Server) (specs : Specs) (new : NewVm) (ip : Ip) (ports : Ports) (d : Db)
    (uid : ℕ)
    → vm_count (insert_vm (vm_row u server specs new ip) ports d) uid ≡ vm_count d uid + own u uid
vm_count-insert u server specs new ip ports d uid = omega (
  arith,
  count_where-append (owns uid) d.vms.rows (vm_row u server specs new ip d.vms.next_id ∷ []),
)

vm_count-finish :
    (u : User) (j : Job) (id now : ℕ) (d : Db) (uid : ℕ)
    → vm_count (finish_db u j id now d) uid ≡ vm_count d uid
vm_count-finish u j id now d uid =
    count_where-update_where (has_id id) (owns uid) (λ vm. record vm { ready = true }) (λ vm. refl)
      d.vms.rows

vm_count-cleanup :
    (u : User) (server : Server) (specs : Specs) (new : NewVm) (ip : Ip) (ports : Ports) (d : Db)
    (uid : ℕ)
    → vm_count
        (cleanup_vm_db_record d.vms.next_id (insert_vm (vm_row u server specs new ip) ports d))
        uid
      ≤ vm_count d uid
vm_count-cleanup u server specs new ip ports d uid =
    rw (drop_where-insert (has_id d.vms.next_id) (vm_row u server specs new ip) d.vms (==_refl _))
      (count_where-drop_where-le (has_id d.vms.next_id) (owns uid) d.vms.rows)

module _ {E : Type 0} (p : Platform E) (g : Gateway E) (cfg : Settings) where
  pub record Loads (w w' : World E) (uid more : ℕ) : Type 0 where
    pub jobs : w'.db.vm_creation_jobs ≡ w.db.vm_creation_jobs
    pub queue : w'.queue ≡ w.queue
    pub vms : vm_count w'.db uid ≤ vm_count w.db uid + more

  abbrev pub LoadsBy : User → ℕ → World E → Result VmCreated × World E → Type 0
  LoadsBy u uid w (ok r, w') = Loads w w' uid (own u uid)
  LoadsBy u uid w (err x, w') = Loads w w' uid 0

  module _ (draws : Draws) (u : User) (req : VmCreate) (uid : ℕ) (w : World E) where
    no_load : (w' : World E) → w'.db ≡ w.db → w'.queue ≡ w.queue → Loads w w' uid 0
    no_load w' hd hq = record {
      jobs = ap (λ (d : Db). d.vm_creation_jobs) hd;
      queue = hq;
      vms = rw hd (omega arith);
    }

    after_provision :
        (a : Specs × Server × Option String) (id : ℕ) (j : Job) (w₂ : World E)
        → IsPrepared p g cfg u draws req a w.db id j w₂.db
        → (w₂.queue ≡ w.queue)
        → (t : Result VmCreated × World E) → Provisioned p g cfg u draws.now id j w₂ t
        → LoadsBy u uid w t
    after_provision a id j w₂ hp hq (ok r, w') (hr, h, hq') = record {
      jobs = rw (h, s) refl;
      queue = hq' ∙ hq;
      vms =
          rw (h, s)
            (omega (
              arith,
              vm_count-finish u j id draws.now (insert_vm row hp.reserved.ports w.db) uid,
              vm_count-insert u j.server j.specs (new_vm p g cfg draws u req j.vmid) j.ip
                  hp.reserved.ports w.db uid,
            ));
    }
      where
        row : ℕ → Vm
        row = vm_row u j.server j.specs (new_vm p g cfg draws u req j.vmid) j.ip

        s : w₂.db ≡ insert_vm row hp.reserved.ports w.db
        s = hp.reserved.stored
    after_provision a id j w₂ hp hq (err x, w') (h, hq') = record {
      jobs = rw (h, hp.reserved.stored) refl;
      queue = hq' ∙ hq;
      vms =
          rw (h, hp.reserved.stored, hp.reserved.key)
            (omega (
              arith,
              vm_count-cleanup u j.server j.specs (new_vm p g cfg draws u req j.vmid) j.ip
                  hp.reserved.ports w.db uid,
            ));
    }

  -- A creation writes neither to the jobs nor to the queue. It gives the user who asks at most one
  -- VM more, every other user none, and nobody any if it raises.
  pub create_vm-LoadsBy :
      (draws : Draws) (u : User) (req : VmCreate) (uid : ℕ) (w : World E)
      → LoadsBy u uid w (create_vm p g cfg draws u req w)
  unfolding create_vm
  create_vm-LoadsBy draws u req uid w =
      bind_step Q (admit p g cfg u req) rest_of_creation w
        (λ a w₁ ha.
          admitted a w₁ (subst (Admitted p g cfg u req w) ha (admit-Admitted p g cfg u req w)))
        (λ x w₁ ha.
          failed x w₁ (subst (Admitted p g cfg u req w) ha (admit-Admitted p g cfg u req w)))
    where
      Q : Result VmCreated × World E → Type 0
      Q = LoadsBy u uid w

      rest_of_creation : Specs × Server × Option String → Exec (World E) VmCreated
      rest_of_creation a =
          prepare p g cfg draws u req a >>= λ x. provision p g cfg u draws.now x.0 x.1

      failed :
          (x : Exc) (w₁ : World E)
          → (w₁.db ≡ w.db) × (w₁.queue ≡ w.queue)
          → LoadsBy u uid w (err x, w₁)
      failed x w₁ (hd, hq) = no_load draws u req uid w w₁ hd hq

      admitted :
          (a : Specs × Server × Option String) (w₁ : World E)
          → Admitted p g cfg u req w (ok a, w₁)
          → LoadsBy u uid w (rest_of_creation a w₁)
      admitted a w₁ (acc, act, hd, hq) =
          bind_step Q (prepare p g cfg draws u req a) (λ x. provision p g cfg u draws.now x.0 x.1)
            w₁
            (λ x w₂ hp.
              let q : Prepared p g cfg u draws req a w.db w.queue (ok x, w₂) =
                Prepared-from p g cfg draws u req w a w₁ hd hq (ok x, w₂) hp in
              after_provision draws u req uid w a x.0 x.1 w₂ q.0 q.1
                (provision p g cfg u draws.now x.0 x.1 w₂)
                (provision-Provisioned p g cfg u draws.now x.0 x.1 w₂))
            (λ x w₂ hp. failed x w₂ (Prepared-from p g cfg draws u req w a w₁ hd hq (err x, w₂) hp))
