-- ===== src/Poller/Threads.antt =====
-- internal/netpoll/epoll_default_poller.go: the loop and any number of triggering goroutines, in any
-- order.
use wsgnet.Prelude.{ℕ, false, ◌==◌, if◌then◌else◌, ◌≡◌}
use wsgnet.Poller.{
  Poller, open_poller, TriggerPc, idle, to_swap, LoopPc, waiting, Met, enqueue_urgent,
  enqueue_async, trigger_step, loop_step,
}

pub record System : Type 0 where
  pub poller : Poller
  pub loop_pc : LoopPc
  pub trigger : ℕ → TriggerPc

abbrev pub init : System
init = record { poller = open_poller; loop_pc = waiting false; trigger = λ _. idle }

abbrev pub set_trigger : (ℕ → TriggerPc) → ℕ → TriggerPc → ℕ → TriggerPc
set_trigger f i a j = if i == j then a else f j

pub data Step (s : System) : System → Type 0 where
  triggers_urgent :
      (i t : ℕ)
      → s.trigger i ≡ idle
      → Step s (record s {
        poller = enqueue_urgent s.poller t;
        trigger = set_trigger s.trigger i to_swap;
      })
  triggers :
      (i t : ℕ)
      → s.trigger i ≡ idle
      → Step s (record s {
        poller = enqueue_async s.poller t;
        trigger = set_trigger s.trigger i to_swap;
      })
  trigger_moves :
      (i : ℕ)
      → Step s (record s {
        poller = (trigger_step s.poller (s.trigger i)).1;
        trigger = set_trigger s.trigger i (trigger_step s.poller (s.trigger i)).0;
      })
  loop_moves :
      (m : Met)
      → Step s (record s {
        poller = (loop_step m s.poller s.loop_pc).1;
        loop_pc = (loop_step m s.poller s.loop_pc).0;
      })

pub data Reach : System → Type 0 where
  start : Reach init
  later : {s t : System} → Reach s → Step s t → Reach t
