-- ===== src/Vm/Select/Free.antt =====
-- What `_select_vmid` answers.
use gsm_sv.Prelude.{ℕ, zero, suc, ◌+◌, ◌≤◌, ◌<◌, Bool, true, false, ◌≡◌, arith, any, refl, ap}
use gsm_sv.Exec.{Result, ok, err}
use gsm_sv.Exec.Steps.{bind_step}
use gsm_sv.Models.{Server, Db}
use gsm_sv.Network.{Ports, calculate_ports}
use gsm_sv.Platform.{Platform}
use gsm_sv.Vm.Select.{
  is_vm_at, in_ports, vmid_conflicts_in_db, usable, probe_next, probe, select_vmid, max_vmid_probes,
  get_next_vmid,
}

-- No record of the node has the VMID, and no port record any of its three external ports.
pub record IsFree (db : Db) (server : Server) (vmid : ℕ) (ports : Ports) : Type 0 where
  pub numbered : calculate_ports server.base_port vmid ≡ ok ports
  pub no_vm : any (is_vm_at server.id vmid) db.vms.rows ≡ false
  pub no_port : any (in_ports ports) db.vm_ports.rows ≡ false

no_conflict :
    (db : Db) (server : Server) (vmid : ℕ)
    → vmid_conflicts_in_db db server vmid ≡ ok false
    → (ports : Ports) × IsFree db server vmid ports
unfolding vmid_conflicts_in_db
no_conflict db server vmid h = go (calculate_ports server.base_port vmid) refl
  where
    go :
        (r : Result Ports)
        → calculate_ports server.base_port vmid ≡ r
        → (ports : Ports) × IsFree db server vmid ports
    go (err e) c = absurd (ground arith)
    go (ok ports) c = (ports, record { numbered = c; no_vm = ground arith; no_port = ground arith })

module _ {E : Type 0} (p : Platform E) (db : Db) (server : Server) where
  -- A number from `first` on, below `last`, that is free.
  abbrev pub FreeFrom : ℕ → ℕ → Result ℕ → Type 0
  FreeFrom first last (ok vmid) =
      (first ≤ vmid) × (vmid < last) × ((ports : Ports) × IsFree db server vmid ports)
  FreeFrom first last (err e) = Unit

  FreeFrom-lower :
      (first last : ℕ) (r : Result ℕ) → FreeFrom (first + 1) last r → FreeFrom first last r
  FreeFrom-lower first last (ok vmid) h = (omega arith, h.1, h.2)
  FreeFrom-lower first last (err e) h = tt

  FreeFrom-eq :
      (first last last' : ℕ) (r : Result ℕ)
      → last ≡ last'
      → FreeFrom first last r
      → FreeFrom first last' r
  FreeFrom-eq first last last' (ok vmid) e h = (h.0, omega arith, h.2)
  FreeFrom-eq first last last' (err x) e h = tt

  usable-IsFree :
      (vmid : ℕ) (e e' : E)
      → usable p db server vmid e ≡ (ok true, e')
      → (ports : Ports) × IsFree db server vmid ports
  usable-IsFree vmid e e' h = go (vmid_conflicts_in_db db server vmid) refl
    where
      go :
          (r : Result Bool)
          → vmid_conflicts_in_db db server vmid ≡ r
          → (ports : Ports) × IsFree db server vmid ports
      go (ok true) c = absurd (ground arith)
      go (ok false) c = no_conflict db server vmid c
      go (err x) c = absurd (ground arith)

  probe-FreeFrom :
      (rounds vmid : ℕ) (e : E) → FreeFrom vmid (vmid + rounds) (probe p rounds db server vmid e).0
  unfolding probe
  probe-FreeFrom zero vmid e = tt
  probe-FreeFrom (suc rounds) vmid e =
      bind_step (λ t. FreeFrom vmid (vmid + suc rounds) t.0) (usable p db server vmid)
        (probe_next p (probe p rounds db server (vmid + 1)) vmid) e
        (next (λ e'. probe-FreeFrom rounds (vmid + 1) e')) (λ x e' h. tt)
    where
      next :
          ((e' : E)
            → FreeFrom (vmid + 1) (vmid + 1 + rounds) (probe p rounds db server (vmid + 1) e').0)
          → (b : Bool) (e' : E) → usable p db server vmid e ≡ (ok b, e')
          → FreeFrom vmid
              (vmid + suc rounds)
              (probe_next p (probe p rounds db server (vmid + 1)) vmid b e').0
      next ih true e' h = (omega arith, omega arith, usable-IsFree vmid e e' h)
      next ih false e' h =
          FreeFrom-eq vmid (vmid + 1 + rounds) (vmid + suc rounds) _ (omega arith)
            (FreeFrom-lower vmid (vmid + 1 + rounds) _ (ih e'))

  -- Free, and within the probes from the number that `_get_next_vmid` gives.
  abbrev pub Selected : E → Result ℕ → Type 0
  Selected e (ok vmid) =
      (first : ℕ) × ((get_next_vmid p server.name e).0 ≡ ok first)
      × FreeFrom first (first + max_vmid_probes) (ok vmid)
  Selected e (err x) = Unit

  Selected-intro :
      (e : E) (first : ℕ) (r : Result ℕ)
      → (get_next_vmid p server.name e).0 ≡ ok first
      → FreeFrom first (first + max_vmid_probes) r
      → Selected e r
  Selected-intro e first (ok vmid) began h = (first, began, h)
  Selected-intro e first (err x) began h = tt

  pub Selected-IsFree :
      (e : E) (vmid : ℕ) → Selected e (ok vmid) → (ports : Ports) × IsFree db server vmid ports
  Selected-IsFree e vmid (first, began, (low, high, free)) = free

  -- Whatever Proxmox answers, a VMID that `_select_vmid` returns belongs to no VM record of the node,
  -- none of its three external ports is in the port table, and it lies less than 50 above the number
  -- that `_get_next_vmid` gave.
  pub select_vmid-Selected : (e : E) → Selected e (select_vmid p db server e).0
  unfolding select_vmid
  select_vmid-Selected e =
      bind_step (λ t. Selected e t.0) (get_next_vmid p server.name)
        (λ vmid. probe p max_vmid_probes db server vmid) e
        (λ vmid e' h.
          Selected-intro e vmid (probe p max_vmid_probes db server vmid e').0
            (ap (λ (t : Result ℕ × E). t.0) h) (probe-FreeFrom max_vmid_probes vmid e'))
        (λ x e' h. tt)
