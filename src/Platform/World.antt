-- ===== src/Platform/World.antt =====
-- The whole state of the program: the database, the in-process job queue
-- (`_vm_creation_queue` of services/vm_creation_queue.py) and the outside world.
use gsm_sv.Prelude.{List}
use gsm_sv.Exec.{Exec, Result}
use gsm_sv.Exec.Keeps.{Keeps}
use gsm_sv.Models.{Db, JobId}

-- An entry of the queue: a job id, or `_QUEUE_STOP_SENTINEL`.
pub data QueueItem : Type 0 where
  job : JobId → QueueItem
  stop : QueueItem

pub record World (E : Type 0) : Type 0 where
  pub db : Db
  pub queue : List QueueItem
  pub env : E

module _ {E A : Type 0} where
  -- A call of the outside world.
  abbrev pub call : (E → Result A × E) → Exec (World E) A
  call f w = let (r, e) = f w.env in (r, record w { env = e })

  -- A function on the database alone.
  abbrev pub on_db : Exec Db A → Exec (World E) A
  on_db m w = let (r, d) = m w.db in (r, record w { db = d })

module _ {E A : Type 0} {P : World E → Type 0} where
  -- A call keeps what does not speak of the outside world.
  pub Keeps-call :
      (f : E → Result A × E)
      → ((w : World E) (e : E) → P w → P (record w { env = e }))
      → Keeps P (call f)
  Keeps-call f keep = record { at = λ w h. keep w (f w.env).1 h }
