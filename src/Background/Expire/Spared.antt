-- ===== src/Background/Expire/Spared.antt =====
-- What a round of the expiry loop leaves in the tables.
use gsm_sv.Prelude.{
  ℕ, ◌≤◌, Bool, true, Bool-cases, inl, inr, Option, none, some, String, List, [], ◌∷◌, ◌≡◌, ◌⊎◌,
  refl, sym, ap, ◌∙◌, any, All, All-map, ltb, not, ◌+◌, ◌*◌, arith,
}
use gsm_sv.Exec.{Result, ok, err}
use gsm_sv.Table.{Table, select, count_where, drop_where, delete_where}
use gsm_sv.Table.Laws.{All-drop_where}
use gsm_sv.Models.{Server, Vm, Notification, Db, Settings}
use gsm_sv.Network.{Gateway}
use gsm_sv.Platform.{Platform}
use gsm_sv.Platform.World.{World}
use gsm_sv.Ports.{server_of}
use gsm_sv.Vm.Create.{has_id}
use gsm_sv.Vm.Delete.{Caddy, delete_vm}
use gsm_sv.Vm.Delete.Gone.{GoneBy, delete_vm-GoneBy}
use gsm_sv.Background.Expire.Covers.{Covers, unique-Covers, drop_covered}
use gsm_sv.Background.Expire.{
  truthy, ran_out, is_over, in_grace, is_soon, grace_notice_of, tell_if, warn_if, warn_all,
  soon_notice_of, serve_grace, serve_each, tell_deleted, delete_with, delete_each, expire_round,
}

-- A VM that has no end, or ran out less than three days of 86,400 seconds ago, or has not run out.
abbrev pub grace_left : ℕ → Option ℕ → Bool
grace_left now none = true
grace_left now (some end) = ltb now (end + 3 * 86400)

abbrev pub is_spared : ℕ → Vm → Bool
is_spared now vm = grace_left now vm.expires_at

spared_or_over : (now : ℕ) (o : Option ℕ) → grace_left now o ≡ not (ran_out now o)
spared_or_over now none = refl
spared_or_over now (some end) = ground arith

select_spared :
    (now : ℕ) (rows : List Vm) → select (is_spared now) rows ≡ drop_where (is_over now) rows
select_spared now [] = refl
select_spared now (vm ∷ rows) = elim (Bool-cases (ran_out now vm.expires_at)) [
  | inl e ↦ rw (spared_or_over now vm.expires_at, e) (select_spared now rows)
  | inr e ↦
      rw (spared_or_over now vm.expires_at, e) (ap (λ rest. vm ∷ rest) (select_spared now rows))
]

module _ (now : ℕ) where
  -- The VMs whose grace period is not over are left, and accounts and jobs.
  pub record Spares (d d' : Db) : Type 0 where
    pub vms : select (is_spared now) d'.vms.rows ≡ select (is_spared now) d.vms.rows
    pub accounts : d'.users ≡ d.users
    pub jobs : d'.vm_creation_jobs ≡ d.vm_creation_jobs

  -- Only notifications differ.
  record Notifies (d d' : Db) : Type 0 where
    vms : d'.vms ≡ d.vms
    accounts : d'.users ≡ d.users
    jobs : d'.vm_creation_jobs ≡ d.vm_creation_jobs

  Notifies-trans : (a b c : Db) → Notifies a b → Notifies b c → Notifies a c
  Notifies-trans a b c x y = record {
    vms = y.vms ∙ x.vms;
    accounts = y.accounts ∙ x.accounts;
    jobs = y.jobs ∙ x.jobs;
  }

  tell-Notifies : (vm : Vm) (o : Option ℕ) (d : Db) → Notifies d (tell_if now vm o d)
  tell-Notifies vm none d = record { vms = refl; accounts = refl; jobs = refl }
  tell-Notifies vm (some owner) d =
      elim (Bool-cases (any (grace_notice_of owner vm) d.notifications.rows)) [
        | inl e ↦ rw e (record { vms = refl; accounts = refl; jobs = refl })
        | inr e ↦ rw e (record { vms = refl; accounts = refl; jobs = refl })
      ]

  warn-Notifies :
      (committed : List Notification) (vm : Vm) (o : Option ℕ) (d : Db)
      → Notifies d (warn_if now committed vm o d)
  warn-Notifies committed vm none d = record { vms = refl; accounts = refl; jobs = refl }
  warn-Notifies committed vm (some owner) d =
      elim (Bool-cases (any (soon_notice_of now owner vm) committed)) [
        | inl e ↦ rw e (record { vms = refl; accounts = refl; jobs = refl })
        | inr e ↦ rw e (record { vms = refl; accounts = refl; jobs = refl })
      ]

  warn_all-Notifies :
      (committed : List Notification) (vms : List Vm) (d : Db)
      → Notifies d (warn_all now committed vms d)
  warn_all-Notifies committed [] d = record { vms = refl; accounts = refl; jobs = refl }
  warn_all-Notifies committed (vm ∷ vms) d =
      let d₁ = warn_if now committed vm (truthy vm.owner_id) d in
      Notifies-trans d d₁ (warn_all now committed vms d₁)
        (warn-Notifies committed vm (truthy vm.owner_id) d) (warn_all-Notifies committed vms d₁)

  module _ {E : Type 0} (p : Platform E) (g : Gateway E) (c : Caddy E) (is_network : String → Bool)
      (cfg : Settings) where
    serve-Notifies :
        (vms : List Vm) (w : World E) → Notifies w.db (serve_each p g c is_network cfg now vms w).db
    serve-Notifies [] w = record { vms = refl; accounts = refl; jobs = refl }
    serve-Notifies (vm ∷ vms) w =
        let w₁ = serve_grace p g c is_network cfg now vm w in
        Notifies-trans w.db w₁.db (serve_each p g c is_network cfg now vms w₁).db
          (tell-Notifies vm (truthy vm.owner_id) w.db) (serve-Notifies vms w₁)

    -- One deletion: nothing changes, or the VM of the key goes.
    abbrev DropsBy : Vm → Db → Db → Type 0
    DropsBy vm d d' =
        ((d'.vms ≡ d.vms) ⊎ (d'.vms ≡ delete_where (has_id vm.id) d.vms))
        × (d'.users ≡ d.users)
        × (d'.vm_creation_jobs ≡ d.vm_creation_jobs)

    told :
        (server : Server) (vm : Vm) (o : Option ℕ) (w : World E)
        → (t : Result (Unit {0}) × World E) → GoneBy p g c is_network cfg server vm true now w t
        → DropsBy vm w.db (tell_deleted p g c is_network cfg now vm o t).db
    told server vm none w (ok x, w') gone = (inr gone.only, gone.accounts, gone.jobs)
    told server vm (some owner) w (ok x, w') gone = (inr gone.only, gone.accounts, gone.jobs)
    told server vm none w (err x, w') same = rw same (inl refl, refl, refl)
    told server vm (some owner) w (err x, w') same = rw same (inl refl, refl, refl)

    delete_with-DropsBy :
        (vm : Vm) (r : Result Server) (w : World E)
        → DropsBy vm w.db (delete_with p g c is_network cfg now vm r w).db
    delete_with-DropsBy vm (err x) w = (inl refl, refl, refl)
    delete_with-DropsBy vm (ok server) w =
        told server vm (truthy vm.owner_id) w (delete_vm p g c is_network cfg server vm true now w)
          (delete_vm-GoneBy p g c is_network cfg server vm true now w)

    covered_stay :
        (vm other : Vm) (d d' : Db)
        → DropsBy vm d d'
        → Covers (is_over now) d.vms.rows other
        → Covers (is_over now) d'.vms.rows other
    covered_stay vm other d d' (inl e, accounts, jobs) h = rw e h
    covered_stay vm other d d' (inr e, accounts, jobs) h = rw e (
        All-drop_where (λ v. has_id other.id v ≡ true → is_over now v ≡ true) (has_id vm.id)
          d.vms.rows h)

    one-Spares :
        (vm : Vm) (d d' : Db)
        → DropsBy vm d d'
        → Covers (is_over now) d.vms.rows vm
        → select (is_spared now) d'.vms.rows ≡ select (is_spared now) d.vms.rows
    one-Spares vm d d' (inl e, accounts, jobs) h = rw e refl
    one-Spares vm d d' (inr e, accounts, jobs) h = rw e (
        select_spared now (drop_where (has_id vm.id) d.vms.rows)
        ∙ drop_covered (is_over now) vm d.vms.rows h
        ∙ sym (select_spared now d.vms.rows))

    delete_each-Spares :
        (vms : List Vm) (w : World E)
        → All (Covers (is_over now) w.db.vms.rows) vms
        → Spares w.db (delete_each p g c is_network cfg now vms w).db
    delete_each-Spares [] w h = record { vms = refl; accounts = refl; jobs = refl }
    delete_each-Spares (vm ∷ vms) w h =
        let w₁ = delete_with p g c is_network cfg now vm (server_of vm w.db).0 w in
        let step = delete_with-DropsBy vm (server_of vm w.db).0 w in
        let rest =
          delete_each-Spares vms w₁
            (All-map (λ other covered. covered_stay vm other w.db w₁.db step covered) vms h.1) in
        record {
          vms = rest.vms ∙ one-Spares vm w.db w₁.db step h.0;
          accounts = rest.accounts ∙ step.1;
          jobs = rest.jobs ∙ step.2;
        }

    -- A round of `_expire_vms_loop`, where the keys of VMs are unique: whatever Proxmox, the gateway
    -- and Caddy do, the VMs that have no end or whose grace period of three days is not over are the
    -- same after it, in the same order, and accounts and jobs are untouched.
    pub expire_round-Spares :
        (w : World E)
        → ((id : ℕ) → count_where (has_id id) w.db.vms.rows ≤ 1)
        → Spares w.db (expire_round p g c is_network cfg now w).db
    unfolding expire_round
    expire_round-Spares w one =
        let vms = select (in_grace now) w.db.vms.rows in
        let w₁ = serve_each p g c is_network cfg now vms w in
        let first = serve-Notifies vms w in
        let over = select (is_over now) w₁.db.vms.rows in
        let w₂ = delete_each p g c is_network cfg now over w₁ in
        let second =
          delete_each-Spares over w₁
            (unique-Covers (is_over now) w₁.db.vms.rows (λ id. rw first.vms (one id))) in
        let third =
          warn_all-Notifies w₂.db.notifications.rows (select (is_soon now) w₂.db.vms.rows) w₂.db in
        record {
          vms =
              ap (λ (t : Table Vm). select (is_spared now) t.rows) third.vms
              ∙ second.vms
              ∙ ap (λ (t : Table Vm). select (is_spared now) t.rows) first.vms;
          accounts = third.accounts ∙ second.accounts ∙ first.accounts;
          jobs = third.jobs ∙ second.jobs ∙ first.jobs;
        }
