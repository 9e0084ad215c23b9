-- ===== src/Background/Daily/Spared.antt =====
-- Which snapshots a round of the daily snapshots leaves alone.
use gsm_sv.Prelude.{
  ℕ, zero, suc, Bool, true, false, Option, none, some, String, List, [], ◌∷◌, ◌≡◌, ◌⊎◌, inl, inr,
  refl, All, ltb, Bool-cases,
}
use gsm_sv.Exec.{Result, IsOk, pure}
use gsm_sv.Exec.Keeps.{Keeps, Keeps-bind, Keeps-pure, Keeps-catch}
use gsm_sv.Models.{Server, Db}
use gsm_sv.Platform.{Platform}
use gsm_sv.Control.{Guest, Snapshot, is_auto}
use gsm_sv.Background.Daily.{
  Deletion, Remover, Sweep, on_env, add_wait, targets, poll_all, pause, wait_all, remove_if,
  remove_each, remove_old, remove_for, take_new, take_for, swept, daily_round,
}

module _ {E : Type 0} (p : Platform E) (k : Guest E) (r : Remover E)
    (Present : String → ℕ → String → E → Type 0) where
  -- What the node does to the snapshots that are there (node, VMID, name): only the deletion of a
  -- snapshot may take it away, and one that was taken is there.
  pub record SnapshotLaws : Type 0 where
    pub connect_keeps :
        (server : Server) (n : String) (v : ℕ) (s : String) (e : E)
        → Present n v s e
        → Present n v s (p.connect server e).1
    pub list_keeps :
        (node : String) (vmid : ℕ) (n : String) (v : ℕ) (s : String) (e : E)
        → Present n v s e
        → Present n v s (k.snapshots node vmid e).1
    pub status_keeps :
        (node : String) (upid : ℕ) (n : String) (v : ℕ) (s : String) (e : E)
        → Present n v s e
        → Present n v s (p.task_status node upid e).1
    pub sleep_keeps :
        (d : ℕ) (n : String) (v : ℕ) (s : String) (e : E)
        → Present n v s e
        → Present n v s (p.sleep d e)
    pub take_keeps :
        (node : String) (vmid : ℕ) (name : String) (n : String) (v : ℕ) (s : String) (e : E)
        → Present n v s e
        → Present n v s (k.take_snapshot node vmid name e).1
    pub take_makes :
        (n : String) (v : ℕ) (s : String) (e : E)
        → IsOk (k.take_snapshot n v s e).0
        → Present n v s (k.take_snapshot n v s e).1
    pub remove_others :
        (node : String) (vmid : ℕ) (name : String) (n : String) (v : ℕ) (s : String) (e : E)
        → (node ≡ n → vmid ≡ v → name ≡ s → ⊥)
        → Present n v s e
        → Present n v s (r.remove node vmid name e).1

  -- The VM is none of those with daily snapshots.
  abbrev pub IsOff : String → ℕ → ℕ × Option Server → Type 0
  IsOff n v (vmid, none) = Unit
  IsOff n v (vmid, some server) = server.name ≡ n → vmid ≡ v → ⊥

  module _ (laws : SnapshotLaws) (n : String) (v : ℕ) (s : String) where
    abbrev pub Kept : E → Type 0
    Kept e = Present n v s e

    abbrev KeptIn : Sweep E → Type 0
    KeptIn sweep = Kept sweep.env

    on_env-Keeps :
        {A : Type 0} (f : E → Result A × E)
        → ((e : E) → Kept e → Kept (f e).1)
        → Keeps KeptIn (on_env f)
    on_env-Keeps f keep = record { at = λ sweep h. keep sweep.env h }

    remove_if-Keeps :
        (b : Bool) (server : Server) (vmid : ℕ) (name : String)
        → (b ≡ true → server.name ≡ n → vmid ≡ v → name ≡ s → ⊥)
        → Keeps KeptIn (remove_if p k r b server vmid name)
    remove_if-Keeps false server vmid name apart = Keeps-pure tt
    remove_if-Keeps true server vmid name apart =
        Keeps-bind _ _
          (on_env-Keeps (r.remove server.name vmid name)
            (λ e h. laws.remove_others server.name vmid name n v s e (apart refl) h))
          (λ upid. record { at = waiting upid })
      where
        waiting :
            (upid : Option ℕ) (sweep : Sweep E)
            → KeptIn sweep
            → KeptIn (add_wait server.name upid sweep)
        waiting none sweep h = h
        waiting (some u) sweep h = h

    -- The name has not the prefix, or the VM has no daily snapshots.
    abbrev pub Apart : ℕ × Option Server → Type 0
    Apart t = (is_auto s ≡ false) ⊎ IsOff n v t

    remove_each-Keeps :
        (server : Server) (vmid : ℕ) (snaps : List Snapshot)
        → Apart (vmid, some server)
        → Keeps KeptIn (remove_each p k r server vmid snaps)
    unfolding remove_each
    remove_each-Keeps server vmid [] apart = Keeps-pure tt
    remove_each-Keeps server vmid (snap ∷ snaps) apart =
        Keeps-bind _ _
          (remove_if-Keeps (is_auto snap.name) server vmid snap.name
            (λ t a b c. other apart t a b c))
          (λ x. remove_each-Keeps server vmid snaps apart)
      where
        other :
            Apart (vmid, some server)
            → is_auto snap.name ≡ true
            → server.name ≡ n
            → vmid ≡ v
            → snap.name ≡ s
            → ⊥
        other (inl q) t a b c = absurd cc
        other (inr off) t a b c = off a b

    remove_old-Keeps : (t : ℕ × Option Server) → Apart t → Keeps KeptIn (remove_old p k r t)
    remove_old-Keeps (vmid, none) apart = record { at = λ sweep h. h }
    remove_old-Keeps (vmid, some server) apart =
        Keeps-bind _ _ (on_env-Keeps (p.connect server) (laws.connect_keeps server n v s)) (λ x.
          Keeps-bind _ _
            (on_env-Keeps (k.snapshots server.name vmid) (laws.list_keeps server.name vmid n v s))
            (λ snaps. remove_each-Keeps server vmid snaps apart))

    remove_for-Kept :
        (ts : List (ℕ × Option Server)) (sweep : Sweep E)
        → All Apart ts
        → KeptIn sweep
        → KeptIn (remove_for p k r ts sweep)
    unfolding remove_for
    remove_for-Kept [] sweep apart h = h
    remove_for-Kept (t ∷ ts) sweep apart h = remove_for-Kept ts _ apart.1 (
        (Keeps-catch (remove_old p k r t) (λ x. pure tt) (remove_old-Keeps t apart.0)
            (λ x. Keeps-pure tt)).at
          sweep h)

    poll_all-Kept :
        (deadline : ℕ) (ds : List Deletion) (e : E) → Kept e → Kept (poll_all p k r deadline ds e).1
    unfolding poll_all
    poll_all-Kept deadline [] e h = h
    poll_all-Kept deadline ((node, upid) ∷ ds) e h = elim (Bool-cases (ltb (p.time e) deadline)) [
      | inl b ↦ rw b (poll_all-Kept deadline ds _ (laws.status_keeps node upid n v s e h))
      | inr b ↦ rw b (poll_all-Kept deadline ds e h)
    ]

    pause-Kept : (ds : List Deletion) (e : E) → Kept e → Kept (pause p k r ds e)
    pause-Kept [] e h = h
    pause-Kept (d ∷ ds) e h = laws.sleep_keeps 4 n v s e h

    wait_all-Kept :
        (fuel deadline : ℕ) (ds : List Deletion) (e : E)
        → Kept e
        → Kept (wait_all p k r fuel deadline ds e).1
    unfolding wait_all
    wait_all-Kept zero deadline ds e h = h
    wait_all-Kept (suc fuel) deadline [] e h = h
    wait_all-Kept (suc fuel) deadline (d ∷ ds) e h =
        wait_all-Kept fuel deadline _ _ (pause-Kept _ _ (poll_all-Kept deadline (d ∷ ds) e h))

    take_new-Keeps : (name : String) (t : ℕ × Option Server) → Keeps Kept (take_new p k r name t)
    take_new-Keeps name (vmid, none) = record { at = λ e h. h }
    take_new-Keeps name (vmid, some server) =
        Keeps-bind (p.connect server) (λ x. k.take_snapshot server.name vmid name)
          (record { at = laws.connect_keeps server n v s })
          (λ x. record { at = laws.take_keeps server.name vmid name n v s })

    pub take_for-Kept :
        (name : String) (ts : List (ℕ × Option Server)) (e : E)
        → Kept e
        → Kept (take_for p k r name ts e)
    unfolding take_for
    take_for-Kept name [] e h = h
    take_for-Kept name (t ∷ ts) e h = take_for-Kept name ts _ (
        (Keeps-catch (take_new p k r name t) (λ x. pure tt) (take_new-Keeps name t)
            (λ x. Keeps-pure tt)).at
          e h)

    -- A round of the daily snapshots, whatever fails on the way and whatever the second query sees,
    -- keeps a snapshot whose name has not the prefix of the automatic ones, and every snapshot of a VM
    -- for which the first query finds no daily snapshots, if only the deletion of that very snapshot
    -- may take it away.
    pub daily_round-Kept :
        (today : String) (db later : Db) (e : E)
        → All Apart (targets db)
        → Kept e
        → Kept (daily_round p k r today db later e)
    unfolding daily_round
    daily_round-Kept today db later e apart h =
        let clean = remove_for-Kept (targets db) (record { env = e; waits = [] }) apart h in
        take_for-Kept _ (targets later) _
          (laws.sleep_keeps 120 n v s _ (wait_all-Kept _ _ (swept p k r db e).waits _ clean))
