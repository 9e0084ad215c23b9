-- ===== src/Ports/Restore/Complete.antt =====
-- What `restore_default_ports` leaves in the port table.
use gsm_sv.Prelude.{
  any-append, any_last, ℕ, ◌==◌, ◌⊎◌, ==_refl, Bool, true, false, not, Bool-cases, inl, inr, some,
  String, List, [], ◌∷◌, ◌≡◌, refl, sym, ap, ◌∙◌, subst, any, All, length,
}
use gsm_sv.Exec.{Result, ok, err, port_conflict}
use gsm_sv.Exec.Steps.{bind_step, reject_step}
use gsm_sv.Table.{Table, select, insert, find_first}
use gsm_sv.Auth.Access.{Own}
use gsm_sv.Models.{User, Server, Vm, VmPort, Db, Settings}
use gsm_sv.Network.{Gateway, Ports, calculate_ports}
use gsm_sv.Platform.World.{World, call}
use gsm_sv.Auth.{lift}
use gsm_sv.Control.Power.{owned_step, server_step, call-SameDb, same_step}
use gsm_sv.Ports.Restore.{
  DefaultPort, default_ports, is_default_at, exists_in, missing_ports, is_taken, default_row,
  add_rows, open_if, save_rows, restore_missing, restore_default_ports,
}

module _ (vm : Vm) (numbers : Ports) where
  rows_stay :
      (q : VmPort → Bool) (ds : List DefaultPort) (table : Table VmPort)
      → any q table.rows ≡ true
      → any q (add_rows vm numbers ds table).rows ≡ true
  rows_stay q [] table h = h
  rows_stay q (d ∷ ds) table h =
      rows_stay q ds (insert (default_row vm numbers d) table) (any-append q table.rows _ h)

  rows_added :
      (ds : List DefaultPort) (table : Table VmPort)
      → All (λ d. exists_in vm.id (add_rows vm numbers ds table).rows d ≡ true) ds
  rows_added [] table = tt
  rows_added (d ∷ ds) table =
      let table₁ = insert (default_row vm numbers d) table in
      (
        rows_stay (is_default_at vm.id d.internal_port) ds table₁ (
            any_last (is_default_at vm.id d.internal_port) table.rows _
              (rw (==_refl vm.id, ==_refl d.internal_port) refl)),
        rows_added ds table₁,
      )

  -- A default port that was there stays, and one that was missing is added.
  all_there :
      (ds all : List DefaultPort) (table : Table VmPort)
      → All
          (λ d. exists_in vm.id (add_rows vm numbers all table).rows d ≡ true)
          (select (λ d. not (exists_in vm.id table.rows d)) ds)
      → All (λ d. exists_in vm.id (add_rows vm numbers all table).rows d ≡ true) ds
  all_there [] all table h = tt
  all_there (d ∷ ds) all table h = elim (Bool-cases (exists_in vm.id table.rows d)) [
    | inl e ↦ (
      rows_stay (is_default_at vm.id d.internal_port) all table e,
      all_there ds all table (rw e at h),
    )
    | inr e ↦
        let new : (exists_in vm.id (add_rows vm numbers all table).rows d ≡ true)
            × All (λ d. exists_in vm.id (add_rows vm numbers all table).rows d ≡ true)
                (select (λ d. not (exists_in vm.id table.rows d)) ds) =
          rw e at h in
        (new.0, all_there ds all table new.1)
  ]

module _ {E : Type 0} (g : Gateway E) (is_network : String → Bool) (cfg : Settings) (node : String)
    (vmid : ℕ) (u : User) (w : World E) where
  -- An answer of the restoration.
  pub record Restored (n : ℕ) (w' : World E) : Type 0 where
    pub vm : Vm
    pub own : Own vmid u (some node) w.db vm
    pub server : Server
    pub of_vm : find_first (λ (s : Server). s.id == vm.server_id) w.db.servers.rows ≡ some server
    pub count : n ≡ length (missing_ports vm.id w.db.vm_ports.rows)
    pub numbers : Ports
    pub numbered :
        (missing_ports vm.id w.db.vm_ports.rows ≡ [])
        ⊎ (calculate_ports server.base_port vmid ≡ ok numbers)
    pub unused :
        any (is_taken numbers w.db.vm_ports.rows) (missing_ports vm.id w.db.vm_ports.rows) ≡ false
    pub stored :
        w'.db.vm_ports ≡ add_rows vm numbers (missing_ports vm.id w.db.vm_ports.rows) w.db.vm_ports
    pub complete : All (λ d. exists_in vm.id w'.db.vm_ports.rows d ≡ true) default_ports

  abbrev pub RestoredBy : Result ℕ × World E → Type 0
  RestoredBy (ok n, w') = Restored n w'
  RestoredBy (err x, w') = w'.db ≡ w.db

  restored :
      (vm : Vm) (server : Server) (numbers : Ports) (ds : List DefaultPort) (w' : World E)
      → Own vmid u (some node) w.db vm
      → find_first (λ (s : Server). s.id == vm.server_id) w.db.servers.rows ≡ some server
      → (ds ≡ []) ⊎ (calculate_ports server.base_port vmid ≡ ok numbers)
      → missing_ports vm.id w.db.vm_ports.rows ≡ ds
      → any (is_taken numbers w.db.vm_ports.rows) ds ≡ false
      → w'.db.vm_ports ≡ add_rows vm numbers ds w.db.vm_ports
      → Restored (length ds) w'
  restored vm server numbers ds w' own of_vm numbered is free stored = record {
    vm = vm;
    own = own;
    server = server;
    of_vm = of_vm;
    count = ap length (sym is);
    numbers = numbers;
    numbered = rw is numbered;
    unused = rw is free;
    stored = rw is stored;
    complete = rw stored (
        all_there vm numbers default_ports ds w.db.vm_ports (
          subst (All (λ d. exists_in vm.id (add_rows vm numbers ds w.db.vm_ports).rows d ≡ true))
            (sym is) (rows_added vm numbers ds w.db.vm_ports)));
  }

  missing-RestoredBy :
      (vm : Vm) (server : Server) (ds : List DefaultPort) (w₁ : World E)
      → Own vmid u (some node) w.db vm
      → find_first (λ (s : Server). s.id == vm.server_id) w.db.servers.rows ≡ some server
      → missing_ports vm.id w.db.vm_ports.rows ≡ ds
      → w₁.db ≡ w.db
      → RestoredBy (restore_missing g is_network cfg vm server vmid w.db.vm_ports.rows ds w₁)
  missing-RestoredBy vm server [] w₁ own of_vm is same =
      restored vm server (record { ssh = 0; svc1 = 0; svc2 = 0 }) [] w₁ own of_vm (inl refl) is refl
        (ap (λ (db : Db). db.vm_ports) same)
  missing-RestoredBy vm server (d ∷ ds) w₁ own of_vm is same =
      bind_step RestoredBy (lift (calculate_ports server.base_port vmid)) _ w₁
        (λ numbers w₂ e.
          let before : w₂.db ≡ w.db = ap (λ (t : Result Ports × World E). t.1.db) (sym e) ∙ same in
          reject_step RestoredBy (any (is_taken numbers w.db.vm_ports.rows) (d ∷ ds)) 409
            port_conflict _ w₂
            (λ free.
              same_step RestoredBy
                (call (open_if g is_network cfg server vm.internal_ip numbers (d ∷ ds))) _ w₂
                (call-SameDb (open_if g is_network cfg server vm.internal_ip numbers (d ∷ ds)) w₂)
                (λ x w₃ s₃.
                  restored vm server numbers (d ∷ ds)
                    (save_rows g is_network cfg vm numbers (d ∷ ds) w₃) own of_vm
                    (inr (ap (λ (t : Result Ports × World E). t.0) e)) is free
                    (ap (λ (db : Db). add_rows vm numbers (d ∷ ds) db.vm_ports) (s₃ ∙ before)))
                (λ x w₃ s₃. s₃ ∙ before))
            (λ taken. before))
        (λ x w₂ e. ap (λ (t : Result Ports × World E). t.1.db) (sym e) ∙ same)

  -- `restore_default_ports` on a VM of the user's own (an administrator: any VM) adds a record for each
  -- default port that has none, with the external ports that
  -- the VMID has, none of which a record had; after it every default port
  -- of the VM has a record. A refusal, that of a port in use and an exception of the gateway's checks
  -- included, leaves the database as it was.
  pub restore_default_ports-RestoredBy :
      RestoredBy (restore_default_ports g is_network cfg node vmid u w)
  unfolding restore_default_ports
  restore_default_ports-RestoredBy =
      owned_step RestoredBy w vmid u (some node) _
        (λ vm own.
          server_step RestoredBy w vm _
            (λ server of_vm.
              missing-RestoredBy vm server (missing_ports vm.id w.db.vm_ports.rows) w own of_vm refl
                refl)
            (λ x. refl))
        (λ x. refl)
