-- ===== src/TaskQueue/Threads.antt =====
-- internal/queue/lock_free_queue.go with any number of goroutines: one step is a step of one of
-- them, in any order. A run carries the log of what its steps showed.
use wsgnet.Prelude.{ℕ, List, [], ◌∷◌, ◌++◌, ◌≡◌}
use wsgnet.TaskQueue.{Queue, new_lock_free_queue, Pc, idle, deq_head, Label, enqueue, step, update}
use Label.{quiet, linked, taken}

pub record System : Type 0 where
  pub queue : Queue
  pub pc : ℕ → Pc

abbrev pub init : System
init = record { queue = new_lock_free_queue; pc = λ _. idle }

pub data Step (s : System) : Label → System → Type 0 where
  -- Goroutine i calls Enqueue with the task v, calls Dequeue, or goes on with its call.
  start_enqueue :
      (i v : ℕ)
      → s.pc i ≡ idle
      → Step s quiet
          (record { queue = (enqueue s.queue v).1; pc = update s.pc i (enqueue s.queue v).0 })
  start_dequeue :
      (i : ℕ)
      → s.pc i ≡ idle
      → Step s quiet (record { queue = s.queue; pc = update s.pc i deq_head })
  move :
      (i : ℕ)
      → Step s (step s.queue (s.pc i)).0 (record {
        queue = (step s.queue (s.pc i)).2;
        pc = update s.pc i (step s.queue (s.pc i)).1;
      })

-- The tasks that a label shows to be put in, and to be taken out.
abbrev pub put : Label → List ℕ
put (linked v) = v ∷ []
put _ = []

abbrev pub got : Label → List ℕ
got (taken v) = v ∷ []
got _ = []

-- The states reached, with the tasks put in and the tasks taken out on the way, in order.
pub data Reach : List ℕ → List ℕ → System → Type 0 where
  start : Reach [] [] init
  later :
      {ins outs : List ℕ} {l : Label} {s t : System}
      → Reach ins outs s
      → Step s l t
      → Reach (ins ++ put l) (outs ++ got l) t
