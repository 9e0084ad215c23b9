-- ===== src/Vm/Create/Outcome.antt =====
-- `create_vm` as a whole: what a run returns and what it leaves in the database.
use gsm_sv.Prelude.{ℕ, Bool, Option, String, subst, ◌≡◌, ◌∙◌, arith, refl, ==_refl}
use gsm_sv.Exec.Steps.{bind_step}
use gsm_sv.Exec.{Exec, Exc, Result, ok, err, ◌>>=◌}
use gsm_sv.Table.{Table, insert, delete_where, count_where}
use gsm_sv.Table.Laws.{drop_where-insert, drop_where_none}
use gsm_sv.Models.{User, Server, Ip, tcp, tcp_udp, VmPort, Db, VmCreate, VmCreated, Settings, Specs}
use gsm_sv.Network.{Gateway, Ports}
use gsm_sv.Platform.{Platform}
use gsm_sv.Platform.World.{World}
use gsm_sv.Vm.Request.{check_usage}
use gsm_sv.Vm.Request.Bounds.{Accepted, IsNamed, check_request-AcceptedBy}
use gsm_sv.Vm.Reserve.{NewVm, vm_row, default_port, insert_ports, insert_vm}
use gsm_sv.Vm.Reserve.Stored.{IsReserved}
use gsm_sv.Vm.Provision.{Job}
use gsm_sv.Vm.Create.{
  Draws, new_vm, has_id, of_vm, cleanup_vm_db_record, provision, admit, prepare, create_vm, created,
  finish_db,
}
use gsm_sv.Vm.Create.Restore.{
  Provisioned, provision-Provisioned, IsPrepared, Prepared, prepare-Prepared,
}

module _ {E : Type 0} (p : Platform E) (g : Gateway E) (cfg : Settings) where
  abbrev pub Admitted :
      User → VmCreate → World E → Result (Specs × Server × Option String) × World E → Type 0
  Admitted u req w (ok (specs, server, storage), w') =
      Accepted cfg u req w.db specs
      × IsNamed req.node_name w.db server
      × (w'.db ≡ w.db)
      × (w'.queue ≡ w.queue)
  Admitted u req w (err x, w') = (w'.db ≡ w.db) × (w'.queue ≡ w.queue)

  pub admit-Admitted :
      (u : User) (req : VmCreate) (w : World E) → Admitted u req w (admit p g cfg u req w)
  unfolding admit check_usage
  admit-Admitted u req w = ground (arith, check_request-AcceptedBy cfg u req w.db)

  -- The next key of the VM table is not in use.
  pub record IsFresh (d : Db) : Type 0 where
    pub no_vm : count_where (has_id d.vms.next_id) d.vms.rows ≡ 0
    pub no_port : count_where (of_vm d.vms.next_id) d.vm_ports.rows ≡ 0

  -- Row for row the same tables.
  pub record SameRows (d d' : Db) : Type 0 where
    pub users : d'.users ≡ d.users
    pub servers : d'.servers ≡ d.servers
    pub vms : d'.vms.rows ≡ d.vms.rows
    pub vm_ports : d'.vm_ports.rows ≡ d.vm_ports.rows
    pub https_routes : d'.https_routes ≡ d.https_routes
    pub email_verifications : d'.email_verifications ≡ d.email_verifications
    pub notifications : d'.notifications ≡ d.notifications
    pub faq_questions : d'.faq_questions ≡ d.faq_questions
    pub vm_creation_jobs : d'.vm_creation_jobs ≡ d.vm_creation_jobs

  drop_new_vm :
      (u : User) (server : Server) (specs : Specs) (new : NewVm) (ip : Ip) (d : Db)
      → IsFresh d
      → (delete_where (has_id d.vms.next_id) (insert (vm_row u server specs new ip) d.vms)).rows
        ≡ d.vms.rows
  drop_new_vm u server specs new ip d h =
      drop_where-insert (has_id d.vms.next_id) (vm_row u server specs new ip) d.vms (==_refl _)
      ∙ drop_where_none (has_id d.vms.next_id) d.vms.rows h.no_vm

  drop_new_ports :
      (ports : Ports) (d : Db)
      → IsFresh d
      → (delete_where (of_vm d.vms.next_id) (insert_ports d.vms.next_id ports d.vm_ports)).rows
        ≡ d.vm_ports.rows
  drop_new_ports ports d h =
      drop_where-insert of_new (default_port d.vms.next_id 10000 ports.svc2 tcp_udp "SVC") with_http
        (==_refl _)
      ∙ drop_where-insert of_new (default_port d.vms.next_id 80 ports.svc1 tcp "HTTP") with_ssh
          (==_refl _)
      ∙ drop_where-insert of_new (default_port d.vms.next_id 22 ports.ssh tcp "SSH") d.vm_ports
          (==_refl _)
      ∙ drop_where_none of_new d.vm_ports.rows h.no_port
    where
      of_new : VmPort → Bool
      of_new = of_vm d.vms.next_id

      with_ssh : Table VmPort
      with_ssh = insert (default_port d.vms.next_id 22 ports.ssh tcp "SSH") d.vm_ports

      with_http : Table VmPort
      with_http = insert (default_port d.vms.next_id 80 ports.svc1 tcp "HTTP") with_ssh

  -- Taking the new records out again leaves every row as it was.
  cleanup-insert_vm :
      (u : User) (server : Server) (specs : Specs) (new : NewVm) (ip : Ip) (ports : Ports) (d : Db)
      → IsFresh d
      → SameRows d
          (cleanup_vm_db_record d.vms.next_id (insert_vm (vm_row u server specs new ip) ports d))
  cleanup-insert_vm u server specs new ip ports d h = record {
    users = refl;
    servers = refl;
    vms = drop_new_vm u server specs new ip d h;
    vm_ports = drop_new_ports ports d h;
    https_routes = refl;
    email_verifications = refl;
    notifications = refl;
    faq_questions = refl;
    vm_creation_jobs = refl;
  }

  -- What a creation that returns `r` has stored and chosen.
  pub record IsCreated (draws : Draws) (u : User) (req : VmCreate) (d : Db) (r : VmCreated)
      (d' : Db) : Type 0 where
    pub id : ℕ
    pub job : Job
    pub specs : Specs
    pub server : Server
    pub storage : Option String
    pub reserved_db : Db
    pub accepted : Accepted cfg u req d specs
    pub named : IsNamed req.node_name d server
    pub prepared : IsPrepared p g cfg u draws req (specs, server, storage) d id job reserved_db
    pub finished : d' ≡ finish_db u job id draws.now reserved_db
    pub returned : r ≡ created cfg job

  abbrev pub CreateOutcome : Draws → User → VmCreate → World E → Result VmCreated × World E → Type 0
  CreateOutcome draws u req w (ok r, w') = IsCreated draws u req w.db r w'.db × (w'.queue ≡ w.queue)
  CreateOutcome draws u req w (err x, w') = SameRows w.db w'.db × (w'.queue ≡ w.queue)

  module _ (draws : Draws) (u : User) (req : VmCreate) (w : World E) where
    same : (w' : World E) → w'.db ≡ w.db → SameRows w.db w'.db
    same w' h = rw h (record {
      users = refl;
      servers = refl;
      vms = refl;
      vm_ports = refl;
      https_routes = refl;
      email_verifications = refl;
      notifications = refl;
      faq_questions = refl;
      vm_creation_jobs = refl;
    })

    -- The reservation of a run whose checks wrote nothing is one from the tables it started with.
    pub Prepared-from :
        (a : Specs × Server × Option String) (w₁ : World E)
        → (w₁.db ≡ w.db)
        → (w₁.queue ≡ w.queue)
        → (t : Result (ℕ × Job) × World E) → prepare p g cfg draws u req a w₁ ≡ t
        → Prepared p g cfg u draws req a w.db w.queue t
    Prepared-from a w₁ hd hq t h =
        subst (λ q. Prepared p g cfg u draws req a w.db q t) hq
          (subst (λ d. Prepared p g cfg u draws req a d w₁.queue t) hd
            (subst (Prepared p g cfg u draws req a w₁.db w₁.queue) h
              (prepare-Prepared p g cfg u draws req w₁ a)))

  module _ (draws : Draws) (u : User) (req : VmCreate) (w : World E) (fresh : IsFresh w.db) where
    after_provision :
        (a : Specs × Server × Option String) (id : ℕ) (j : Job) (w' : World E)
        → Accepted cfg u req w.db a.0 × IsNamed req.node_name w.db a.1
        → IsPrepared p g cfg u draws req a w.db id j w'.db
        → (w'.queue ≡ w.queue)
        → (t : Result VmCreated × World E) → Provisioned p g cfg u draws.now id j w' t
        → CreateOutcome draws u req w t
    after_provision a id j w' ha hp hq (ok r, w'') (hr, hd, hq') = (
      record {
        id = id;
        job = j;
        specs = a.0;
        server = a.1;
        storage = a.2;
        reserved_db = w'.db;
        accepted = ha.0;
        named = ha.1;
        prepared = hp;
        finished = hd;
        returned = hr;
      },
      hq' ∙ hq,
    )
    after_provision a id j w' ha hp hq (err x, w'') (hd, hq') = (
      rw (hd, r.stored, r.key)
          (cleanup-insert_vm u j.server j.specs (new_vm p g cfg draws u req j.vmid) j.ip r.ports
            w.db fresh),
      hq' ∙ hq,
    )
      where
        r : IsReserved cfg u j.server j.specs (new_vm p g cfg draws u req j.vmid) w.db j.ip id w'.db
        r = hp.reserved

    -- `create_vm`, run where the next key of the VM table is not in use. If it returns, the request
    -- was accepted, and its node is the active server of the table that the request names; the VMID
    -- was free; the address is the lowest
    -- free one and the ports are those of the VMID; the tables are the old ones with this VM, its
    -- ports and the notification added, the VM marked ready; and the result describes that VM. If it
    -- raises, at whatever step, every table has the rows it had before. The queue is the same.
    pub create_vm-outcome : CreateOutcome draws u req w (create_vm p g cfg draws u req w)
    unfolding create_vm
    create_vm-outcome =
        bind_step (CreateOutcome draws u req w) (admit p g cfg u req) rest_of_creation w
          (λ a w₁ ha. admitted a w₁ (subst (Admitted u req w) ha (admit-Admitted u req w)))
          (λ x w₁ ha. failed x w₁ (subst (Admitted u req w) ha (admit-Admitted u req w)))
      where
        failed :
            (x : Exc) (w₁ : World E)
            → (w₁.db ≡ w.db) × (w₁.queue ≡ w.queue)
            → CreateOutcome draws u req w (err x, w₁)
        failed x w₁ (hd, hq) = (same draws u req w w₁ hd, hq)

        rest_of_creation : Specs × Server × Option String → Exec (World E) VmCreated
        rest_of_creation a =
            prepare p g cfg draws u req a >>= λ x. provision p g cfg u draws.now x.0 x.1

        admitted :
            (a : Specs × Server × Option String) (w₁ : World E)
            → Admitted u req w (ok a, w₁)
            → CreateOutcome draws u req w (rest_of_creation a w₁)
        admitted a w₁ (acc, act, hd, hq) =
            bind_step (CreateOutcome draws u req w) (prepare p g cfg draws u req a)
              (λ x. provision p g cfg u draws.now x.0 x.1) w₁
              (λ x w₂ hp.
                let q : Prepared p g cfg u draws req a w.db w.queue (ok x, w₂) =
                  Prepared-from draws u req w a w₁ hd hq (ok x, w₂) hp in
                after_provision a x.0 x.1 w₂ (acc, act) q.0 q.1
                  (provision p g cfg u draws.now x.0 x.1 w₂)
                  (provision-Provisioned p g cfg u draws.now x.0 x.1 w₂))
              (λ x w₂ hp. failed x w₂ (Prepared-from draws u req w a w₁ hd hq (err x, w₂) hp))
