-- ===== src/TaskQueue.antt =====
-- internal/queue/lock_free_queue.go: the lock-free queue of tasks, with any number of goroutines in
-- its operations at a time. A node and a task are numbers; one step is one load, one
-- compare-and-swap or one atomic addition, with the local work behind it.
use wsgnet.Prelude.{
  ℕ, zero, suc, ◌+◌, ◌-◌, ◌%◌, ◌^◌, Bool, true, false, Option, none, some, ◌==◌, if◌then◌else◌,
}
pub mod Threads
pub mod Invariant
pub mod Later
pub mod Moves
pub mod Steps
pub mod Keeping
pub mod Fifo
pub mod Alone
mod Tests

-- The queue, and the fields of the nodes in memory. `length` is an int32, as its bit pattern.
pub record Queue : Type 0 where
  pub head : ℕ
  pub tail : ℕ
  pub length : ℕ
  pub next : ℕ → Option ℕ
  pub value : ℕ → ℕ
  pub fresh : ℕ

-- NewLockFreeQueue: one node, whose value is not looked at.
abbrev pub new_lock_free_queue : Queue
new_lock_free_queue = record {
  head = 0;
  tail = 0;
  length = 0;
  next = λ _. none;
  value = λ _. 0;
  fresh = 1;
}

-- Where a goroutine is: what it does next, with what it has read.
pub data Pc : Type 0 where
  idle : Pc
  -- Enqueue of the node n: load the tail, load its next, load the tail again, link the node, move the
  -- tail on to the node, count, and move on the tail for another.
  enq_tail : ℕ → Pc
  enq_next : ℕ → ℕ → Pc
  enq_check : ℕ → ℕ → Option ℕ → Pc
  enq_link : ℕ → ℕ → Pc
  enq_swing : ℕ → ℕ → Pc
  enq_count : Pc
  enq_help : ℕ → ℕ → ℕ → Pc
  -- Dequeue: load the head, load the tail, load the head's next, load the head again, move on the
  -- tail for another, move the head on, and count.
  deq_head : Pc
  deq_tail : ℕ → Pc
  deq_next : ℕ → ℕ → Pc
  deq_check : ℕ → ℕ → Option ℕ → Pc
  deq_help : ℕ → ℕ → Pc
  deq_swing : ℕ → ℕ → ℕ → Pc
  deq_count : ℕ → Pc
  -- A nil pointer has been dereferenced.
  crashed : Pc

-- What a step shows: a task is linked, a task is taken off, Dequeue returns nil, or nothing.
pub data Label : Type 0 where
  quiet : Label
  linked : ℕ → Label
  taken : ℕ → Label
  nothing : Label

-- A write to the field of one node.
abbrev pub update : {A : Type 0} → (ℕ → A) → ℕ → A → ℕ → A
update f i a j = if i == j then a else f j

-- cas(&q.tail, old, new) and cas(&q.head, old, new).
unfoldable pub cas_tail : Queue → ℕ → ℕ → Queue
cas_tail q old new = if q.tail == old then record q { tail = new } else q

unfoldable pub cas_head : Queue → ℕ → ℕ → Queue
cas_head q old new = if q.head == old then record q { head = new } else q

-- `n := &node{value: task}`, the start of Enqueue.
unfoldable pub enqueue : Queue → ℕ → Pc × Queue
enqueue q task = (
  enq_tail q.fresh,
  record q {
    next = update q.next q.fresh none;
    value = update q.value q.fresh task;
    fresh = suc q.fresh;
  },
)

-- What follows once the tail was read twice the same.
abbrev pub after_tail_check : ℕ → ℕ → Option ℕ → Pc
after_tail_check n tail none = enq_link n tail
after_tail_check n tail (some next) = enq_help n tail next

-- What follows once the head was read twice the same: the task is read from `next`.
abbrev pub after_head_check : Queue → ℕ → ℕ → Option ℕ → Label × Pc
after_head_check q head tail none = if head == tail then (nothing, idle) else (quiet, crashed)
after_head_check q head tail (some next) =
    (quiet, (if head == tail then deq_help tail next else deq_swing head next (q.value next)))

-- One step of a goroutine that is in Enqueue or Dequeue.
unfoldable pub step : Queue → Pc → Label × Pc × Queue
unfolding cas_tail cas_head
step q idle = (quiet, idle, q)
step q (enq_tail n) = (quiet, enq_next n q.tail, q)
step q (enq_next n tail) = (quiet, enq_check n tail (q.next tail), q)
step q (enq_check n tail next) =
    (quiet, (if tail == q.tail then after_tail_check n tail next else enq_tail n), q)
step q (enq_link n tail) = elim (q.next tail) [
  | none ↦ (linked (q.value n), enq_swing n tail, record q { next = update q.next tail (some n) })
  | some _ ↦ (quiet, enq_tail n, q)
]
step q (enq_swing n tail) = (quiet, enq_count, cas_tail q tail n)
step q enq_count = (quiet, idle, record q { length = (q.length + 1) % 2 ^ 32 })
step q (enq_help n tail next) = (quiet, enq_tail n, cas_tail q tail next)
step q deq_head = (quiet, deq_tail q.head, q)
step q (deq_tail head) = (quiet, deq_next head q.tail, q)
step q (deq_next head tail) = (quiet, deq_check head tail (q.next head), q)
step q (deq_check head tail next) =
    if head == q.head
    then (let (l, pc) = after_head_check q head tail next in (l, pc, q))
    else (quiet, deq_head, q)
step q (deq_help tail next) = (quiet, deq_head, cas_tail q tail next)
step q (deq_swing head next task) =
    if q.head == head
    then (taken task, deq_count task, cas_head q head next)
    else (quiet, deq_head, q)
step q (deq_count task) = (quiet, idle, record q { length = (q.length + (2 ^ 32 - 1)) % 2 ^ 32 })
step q crashed = (quiet, crashed, q)

-- IsEmpty
unfoldable pub is_empty : Queue → Bool
is_empty q = q.length == 0
