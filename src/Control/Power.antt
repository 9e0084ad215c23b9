-- ===== src/Control/Power.antt =====
-- `control_vm`
use gsm_sv.Prelude.{
  ℕ, Bool, true, false, Bool-cases, inl, inr, not, ◌&&◌, Option, some, String, ◌≡◌, ◌≢◌, refl,
  arith, ap, sym, subst, not-false, ◌==◌, none, if◌then◌else◌,
}
use gsm_sv.Exec.{Exec, Exc, Result, ok, err, recover, continue, ◌>>=◌, ◌>>◌, catch}
use gsm_sv.Exec.Steps.{bind_step, reject_step}
use gsm_sv.Models.{admin, eq_role, eq_role_iff, User, Server, Vm, Db}
use gsm_sv.Table.{find_first}
use gsm_sv.Platform.{Platform, VmAction}
use gsm_sv.Platform.World.{World, call, on_db}
use gsm_sv.Auth.{get_vm_with_owner_check}
use gsm_sv.Auth.Access.{Own, OwnBy, owner_check-OwnBy}
use gsm_sv.Ports.{server_of}
use gsm_sv.Control.{
  Guest, has_expired, starts, stops, still_provisioning, stop_or_go, check_stop, as_proxmox,
  control_vm,
}

module _ {E : Type 0} (vmid : ℕ) (u : User) (node : Option String) where
  -- The owner check in the whole state.
  abbrev pub Mine : World E → Result Vm × World E → Type 0
  Mine w (ok vm, w') = Own vmid u node w.db vm × (w'.db ≡ w.db)
  Mine w (err x, w') = w'.db ≡ w.db

  pub owner_check-Mine : (w : World E) → Mine w (on_db (get_vm_with_owner_check vmid u node) w)
  owner_check-Mine w =
      go (get_vm_with_owner_check vmid u node w.db) (owner_check-OwnBy vmid u node w.db)
    where
      go : (t : Result Vm × Db) → OwnBy vmid u node w.db t → Mine w (t.0, record w { db = t.1 })
      go (ok vm, d) (own, same) = (own, same)
      go (err x, d) same = same

module _ {E A : Type 0} (Q : Result A × World E → Type 0) (w : World E) where
  -- Walking on from the owner check, from the query of the VM's server, and from a call.
  pub owned_step :
      (vmid : ℕ) (u : User) (node : Option String) (k : Vm → Exec (World E) A)
      → ((vm : Vm) → Own vmid u node w.db vm → Q (k vm w))
      → ((x : Exc) → Q (err x, w))
      → Q ((on_db (get_vm_with_owner_check vmid u node) >>= k) w)
  owned_step vmid u node k served raised =
      go (get_vm_with_owner_check vmid u node w.db) (owner_check-OwnBy vmid u node w.db)
    where
      go :
          (t : Result Vm × Db)
          → OwnBy vmid u node w.db t
          → Q (continue k t.0 (record w { db = t.1 }))
      go (ok vm, d) (own, same) =
          subst (λ d. Q (k vm (record w { db = d }))) (sym same) (served vm own)
      go (err x, d) same = subst (λ d. Q (err x, record w { db = d })) (sym same) (raised x)

  pub server_step :
      (vm : Vm) (k : Server → Exec (World E) A)
      → ((server : Server)
          → find_first (λ (s : Server). s.id == vm.server_id) w.db.servers.rows ≡ some server
          → Q (k server w))
      → ((x : Exc) → Q (err x, w))
      → Q ((on_db (server_of vm) >>= k) w)
  server_step vm k served raised =
      go (find_first (λ (s : Server). s.id == vm.server_id) w.db.servers.rows) refl
    where
      go :
          (o : Option Server)
          → find_first (λ (s : Server). s.id == vm.server_id) w.db.servers.rows ≡ o
          → Q ((on_db (server_of vm) >>= k) w)
      go none h = rw h (raised _)
      go (some server) h = rw h (served server h)

  pub call_step :
      {B : Type 0} (f : E → Result B × E) (k : B → Exec (World E) A)
      → ((b : B) → (f w.env).0 ≡ ok b → Q (k b (record w { env = (f w.env).1 })))
      → ((x : Exc) → Q (err x, record w { env = (f w.env).1 }))
      → Q ((call f >>= k) w)
  call_step {B = B} f k served raised = go (f w.env).0 refl
    where
      go : (r : Result B) → (f w.env).0 ≡ r → Q (continue k r (record w { env = (f w.env).1 }))
      go (ok b) h = served b h
      go (err x) h = raised x

module _ {E : Type 0} where
  -- The database is this one, whether the action returned or raised.
  abbrev pub SameDb : {A : Type 0} → Db → Result A × World E → Type 0
  SameDb d (ok a, w') = w'.db ≡ d
  SameDb d (err x, w') = w'.db ≡ d

  pub server_of-SameDb : (vm : Vm) (w : World E) → SameDb w.db (on_db (server_of vm) w)
  server_of-SameDb vm w = ground arith

  pub call-SameDb : {A : Type 0} (f : E → Result A × E) (w : World E) → SameDb w.db (call f w)
  call-SameDb {A = A} f w = go (f w.env)
    where
      go : (t : Result A × E) → SameDb w.db (t.0, record w { env = t.1 })
      go (ok a, e) = refl
      go (err x, e) = refl

  -- A step that leaves the database alone.
  pub same_step :
      {A B : Type 0} (Q : Result B × World E → Type 0) (m : Exec (World E) A)
      (k : A → Exec (World E) B) (w : World E)
      → SameDb w.db (m w)
      → ((a : A) (w' : World E) → w'.db ≡ w.db → Q (k a w'))
      → ((x : Exc) (w' : World E) → w'.db ≡ w.db → Q (err x, w'))
      → Q ((m >>= k) w)
  same_step Q m k w h rest raised =
      bind_step Q m k w (λ a w' e. rest a w' (subst (SameDb w.db) e h))
        (λ x w' e. raised x w' (subst (SameDb w.db) e h))

module _ {E : Type 0} (p : Platform E) (k : Guest E) where
  module _ (now : ℕ) (node : Option String) (vmid : ℕ) (action : VmAction) (u : User)
      (w : World E) where
    abbrev pub connected : Server → E
    connected server = (p.connect server w.env).1

    -- Whether the VM still sets itself up, as the node answers after the login.
    abbrev pub busy : Vm → Server → Bool × E
    busy vm server =
        still_provisioning p k now server vm
          (p.status_current server.name vm.hypervisor_vmid (connected server))

    -- The outside world to which the action is sent.
    abbrev pub checked : Vm → Server → E
    checked vm server = if stops action then (busy vm server).1 else connected server

    -- An action that was passed on: the VM and its server are those of the database, and what the node
    -- has done is this one action.
    pub record Controlled (w' : World E) : Type 0 where
      pub vm : Vm
      pub own : Own vmid u node w.db vm
      pub ready : vm.ready ≡ true
      pub in_time : starts action ≡ true → u.role ≢ admin → has_expired now vm.expires_at ≡ false
      pub server : Server
      pub of_vm : find_first (λ (s : Server). s.id == vm.server_id) w.db.servers.rows ≡ some server
      pub set_up : stops action ≡ true → (busy vm server).0 ≡ false
      pub accepted : (p.power action server.name vm.hypervisor_vmid (checked vm server)).0 ≡ ok tt
      pub sent : w'.env ≡ (p.power action server.name vm.hypervisor_vmid (checked vm server)).1

    abbrev pub ControlledBy : Result (Unit {0}) × World E → Type 0
    ControlledBy (ok x, w') = Controlled w' × (w'.db ≡ w.db)
    ControlledBy (err x, w') = w'.db ≡ w.db

    ended :
        (vm : Vm)
        → (starts action && has_expired now vm.expires_at && not (eq_role u.role admin)) ≡ false
        → starts action ≡ true
        → u.role ≢ admin
        → has_expired now vm.expires_at ≡ false
    ended vm h s other = elim (Bool-cases (eq_role u.role admin)) [
      | inl same ↦ absurd (other ((eq_role_iff u.role admin).0 same))
      | inr no_admin ↦ not_both (has_expired now vm.expires_at) (rw (s, no_admin) at h)
    ]
      where
        not_both : (b : Bool) → (b && true) ≡ false → b ≡ false
        not_both true e = e
        not_both false e = refl

    module _ (vm : Vm) (server : Server) (own : Own vmid u node w.db vm)
        (of_vm : find_first (λ (s : Server). s.id == vm.server_id) w.db.servers.rows ≡ some server)
        (ready : vm.ready ≡ true)
        (in_time : starts action ≡ true
          → u.role ≢ admin
          → has_expired now vm.expires_at ≡ false) where
      power : Exec (World E) (Unit {0})
      power = catch (call (p.power action server.name vm.hypervisor_vmid)) (as_proxmox p k)

      powered :
          (e : E)
          → checked vm server ≡ e
          → (stops action ≡ true → (busy vm server).0 ≡ false)
          → ControlledBy (power (record w { env = e }))
      unfolding power
      powered e is set_up = go (p.power action server.name vm.hypervisor_vmid e) refl
        where
          go :
              (t : Result (Unit {0}) × E)
              → p.power action server.name vm.hypervisor_vmid e ≡ t
              → ControlledBy (recover (as_proxmox p k) t.0 (record w { env = t.1 }))
          go (ok x, e') h = (
            record {
              vm = vm;
              own = own;
              ready = ready;
              in_time = in_time;
              server = server;
              of_vm = of_vm;
              set_up = set_up;
              accepted = rw (is, h) refl;
              sent = rw (is, h) refl;
            },
            refl,
          )
          go (err x, e') h = ground arith

      last_step :
          ControlledBy
            ((check_stop p k now action server vm >> power) (record w { env = connected server }))
      last_step = go (stops action) refl (busy vm server) refl
        where
          go :
              (b : Bool)
              → stops action ≡ b
              → (t : Bool × E) → busy vm server ≡ t
              → ControlledBy ((stop_or_go p k b t >> power) (record w { env = connected server }))
          go false s t e = powered (connected server) (rw s refl) (λ s'. absurd cc)
          go true s (true, e') e = refl
          go true s (false, e') e = powered e' (rw (s, e) refl) (λ s'. ap (λ (t : Bool × E). t.0) e)

    -- `control_vm` passes an action on only for the owner of the VM or an administrator, only when the
    -- creation of the VM is complete, never starts or reboots an expired VM for anyone but an
    -- administrator, and stops, shuts down or reboots a running VM in its first three minutes only
    -- after the guest has shown its marker. It answers with success only if the node accepted that
    -- action on that VM. It never writes to the database.
    pub control_vm-ControlledBy : ControlledBy (control_vm p k now node vmid action u w)
    unfolding control_vm power
    control_vm-ControlledBy =
        owned_step ControlledBy w vmid u node _
          (λ vm own.
            reject_step ControlledBy (not vm.ready) 409 _ _ w
              (λ is_ready.
                reject_step ControlledBy
                  (starts action && has_expired now vm.expires_at && not (eq_role u.role admin)) 403
                  _ _ w
                  (λ fresh.
                    server_step ControlledBy w vm _
                      (λ server of_vm.
                        call_step ControlledBy w (p.connect server) _
                          (λ x h.
                            last_step vm server own of_vm (not-false is_ready) (ended vm fresh))
                          (λ x. refl))
                      (λ x. refl))
                  (λ late. refl))
              (λ unready. refl))
          (λ x. refl)
