-- ===== src/Poller.antt =====
-- internal/netpoll/epoll_default_poller.go and epoll_events.go: the poller of an event loop. Its loop
-- and the goroutines that trigger tasks run at the same time; one step is one operation on what they
-- share. Enqueue, Dequeue and IsEmpty of the task queues are one step each.
use wsgnet.Prelude.{
  ℕ, zero, suc, ◌+◌, ◌-◌, ◌*◌, ◌/◌, Bool, true, false, not, Option, none, some, List, [], ◌∷◌, ◌++◌,
  ◌==◌, if◌then◌else◌, leb, ltb, ◌||◌,
}
pub mod EventList
pub mod Threads
pub mod Wakeup
pub mod Chores
mod Tests

abbrev pub max_async_tasks : ℕ
max_async_tasks = 256

-- `wakeup_call` is an int32 that is 0 or 1. `pending`: the event descriptor is readable. A task is a
-- number.
pub record Poller : Type 0 where
  pub wakeup_call : Bool
  pub pending : Bool
  pub urgent_queue : List ℕ
  pub async_queue : List ℕ

-- OpenPoller
abbrev pub open_poller : Poller
open_poller = record { wakeup_call = false; pending = false; urgent_queue = []; async_queue = [] }

-- A goroutine in Trigger or UrgentTrigger, the task enqueued: the compare-and-swap, then the write to
-- the event descriptor.
pub data TriggerPc : Type 0 where
  idle to_swap to_write : TriggerPc

-- The loop of Polling, with doChores where it is not known: in epoll_wait; after the events; before a
-- task of the one queue, and of the other with the number of those taken; before wakeupCall is set to
-- 0; before IsEmpty of the one queue, and of the other; before the compare-and-swap; before the write.
pub data LoopPc : Type 0 where
  waiting handling : Bool → LoopPc
  urgent_tasks : LoopPc
  async_tasks : ℕ → LoopPc
  storing asking asking_urgent swapping writing stopped : LoopPc

-- What the loop meets in one step: `awake`, epoll_wait gives the event descriptor; `shutdown`, the
-- callback, proc or the task returns an error that ends the loop; `failed`, a write to the event
-- descriptor gives an error other than EAGAIN.
pub record Met : Type 0 where
  pub awake : Bool
  pub shutdown : Bool
  pub failed : Bool

-- `p.urgentAsyncTaskQueue.Enqueue(task)` and `p.asyncTaskQueue.Enqueue(task)`
unfoldable pub enqueue_urgent : Poller → ℕ → Poller
enqueue_urgent p t = record p { urgent_queue = p.urgent_queue ++ (t ∷ []) }

unfoldable pub enqueue_async : Poller → ℕ → Poller
enqueue_async p t = record p { async_queue = p.async_queue ++ (t ∷ []) }

-- The rest of Trigger and of UrgentTrigger.
unfoldable pub trigger_step : Poller → TriggerPc → TriggerPc × Poller
trigger_step p idle = (idle, p)
trigger_step p to_swap =
    if p.wakeup_call then (idle, p) else (to_write, record p { wakeup_call = true })
trigger_step p to_write = (idle, record p { pending = true })

abbrev pub is_nil : List ℕ → Bool
is_nil [] = true
is_nil (t ∷ ts) = false

abbrev pub tail : List ℕ → List ℕ
tail [] = []
tail (t ∷ ts) = ts

unfoldable pub loop_step : Met → Poller → LoopPc → LoopPc × Poller
loop_step m p (waiting chores) =
    if m.shutdown
    then (stopped, p)
    else if m.awake
    then (handling true, record p { pending = false })
    else (handling chores, p)
loop_step m p (handling chores) =
    ((if m.shutdown then stopped else if chores then urgent_tasks else waiting false), p)
loop_step m p urgent_tasks = if is_nil p.urgent_queue then (async_tasks 0, p) else (
  (if m.shutdown then stopped else urgent_tasks),
  record p { urgent_queue = tail p.urgent_queue },
)
loop_step m p (async_tasks i) =
    if leb max_async_tasks i || is_nil p.async_queue then (storing, p) else (
      (if m.shutdown then stopped else async_tasks (suc i)),
      record p { async_queue = tail p.async_queue },
    )
loop_step m p storing = (asking, record p { wakeup_call = false })
loop_step m p asking = ((if is_nil p.async_queue then asking_urgent else swapping), p)
loop_step m p asking_urgent = ((if is_nil p.urgent_queue then waiting false else swapping), p)
loop_step m p swapping =
    if p.wakeup_call then (waiting false, p) else (writing, record p { wakeup_call = true })
loop_step m p writing =
    if m.failed then (waiting true, p) else (waiting false, record p { pending = true })
loop_step m p stopped = (stopped, p)
