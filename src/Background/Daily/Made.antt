-- ===== src/Background/Daily/Made.antt =====
-- The snapshots of the day that a round of the daily snapshots leaves.
use gsm_sv.Prelude.{ℕ, Option, none, some, String, List, [], ◌∷◌, ◌⊎◌}
use gsm_sv.Exec.{Result, IsOk}
use gsm_sv.Models.{Server}
use gsm_sv.Platform.{Platform}
use gsm_sv.Control.{Guest}
use gsm_sv.Background.Daily.{Remover, take_new}
use gsm_sv.Background.Daily.Spared.{SnapshotLaws}

module _ {E : Type 0} (p : Platform E) (k : Guest E) (r : Remover E)
    (Present : String → ℕ → String → E → Type 0) where
  -- Of a VM that was reached in the first state: in the last one it has the snapshot, or the node
  -- refused the login or the snapshot when it was reached.
  abbrev pub MadeOn : String → (reached last : E) → ℕ × Option Server → Type 0
  MadeOn name reached last (vmid, none) = Unit
  MadeOn name reached last (vmid, some server) =
      Present server.name vmid name last
      ⊎ (IsOk (take_new p k r name (vmid, some server) reached).0 → ⊥)

  -- One VM is reached after the other, each in the state that the one before it left.
  abbrev pub MadeFrom : String → (reached last : E) → List (ℕ × Option Server) → Type 0
  MadeFrom name reached last [] = Unit
  MadeFrom name reached last (t ∷ ts) =
      MadeOn name reached last t × MadeFrom name (take_new p k r name t reached).1 last ts

  module _ (laws : SnapshotLaws p k r Present) (name : String) where
    abbrev PresentIf : String → ℕ → Result (Unit {0}) × E → Type 0
    PresentIf node vmid (t, e) = IsOk t → Present node vmid name e
