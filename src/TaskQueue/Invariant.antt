-- ===== src/TaskQueue/Invariant.antt =====
-- internal/queue/lock_free_queue.go: what the nodes in memory form at any moment, and what a
-- goroutine knows of them at each point of Enqueue and Dequeue.
use wsgnet.Prelude.{ℕ, suc, ◌≤◌, ◌<◌, Option, none, some, List, [], ◌∷◌, ◌≡◌, ◌≢◌}
use wsgnet.TaskQueue.{
  Queue, Pc, idle, enq_tail, enq_next, enq_check, enq_link, enq_swing, enq_count, enq_help,
  deq_head, deq_tail, deq_next, deq_check, deq_help, deq_swing, deq_count, crashed,
}
use wsgnet.TaskQueue.Threads.{System}

-- The tasks in the nodes behind the node n, by the links in memory.
pub data Chain (q : Queue) : ℕ → List ℕ → Type 0 where
  last_node : {n : ℕ} → q.next n ≡ none → Chain q n []
  link :
      {n : ℕ} (m : ℕ) {vs : List ℕ} → q.next n ≡ some m → Chain q m vs → Chain q n (q.value m ∷ vs)

abbrev pub Holds : Queue → List ℕ → Type 0
Holds q vs = Chain q q.head vs

-- The nodes linked so far, in order, and the places of the head and of the tail among them.
pub record Nodes : Type 0 where
  pub at : ℕ → ℕ
  pub last : ℕ
  pub hd : ℕ
  pub tl : ℕ

pub record IsLinked (q : Queue) (g : Nodes) : Type 0 where
  pub head_at : g.at g.hd ≡ q.head
  pub tail_at : g.at g.tl ≡ q.tail
  pub ordered : g.hd ≤ g.tl
  pub within : g.tl ≤ g.last
  pub lag : g.last ≤ suc g.tl
  pub linked : (k : ℕ) → k < g.last → q.next (g.at k) ≡ some (g.at (suc k))
  pub ended : q.next (g.at g.last) ≡ none
  pub distinct : (j k : ℕ) → j ≤ g.last → k ≤ g.last → g.at j ≡ g.at k → j ≡ k
  pub made : (k : ℕ) → k ≤ g.last → g.at k < q.fresh

-- A node that is made and not yet linked.
pub record IsOwn (q : Queue) (g : Nodes) (n : ℕ) : Type 0 where
  pub old : n < q.fresh
  pub apart : (k : ℕ) → k ≤ g.last → g.at k ≢ n
  pub single : q.next n ≡ none

-- A node that the tail has been at, with its place; and with the node behind it.
pub record Passed (g : Nodes) (n : ℕ) : Type 0 where
  pub place : ℕ
  pub bound : place ≤ g.tl
  pub is_at : g.at place ≡ n

pub record Followed (g : Nodes) (n m : ℕ) : Type 0 where
  pub place : ℕ
  pub bound : place ≤ g.tl
  pub more : place < g.last
  pub is_at : g.at place ≡ n
  pub then_at : g.at (suc place) ≡ m

-- A node that the head has been at, and a node that the tail was at later; the second is not
-- before the first.
pub record Spanned (g : Nodes) (h t : ℕ) : Type 0 where
  pub place : ℕ
  pub place' : ℕ
  pub reached : place ≤ g.hd
  pub span : place ≤ place'
  pub bound : place' ≤ g.tl
  pub is_at : g.at place ≡ h
  pub is_at' : g.at place' ≡ t

-- The same, and m is the node behind the first.
pub record SpannedBy (g : Nodes) (h t m : ℕ) : Type 0 where
  pub spanned : Spanned g h t
  pub more : spanned.place < g.last
  pub then_at : g.at (suc spanned.place) ≡ m

pub record Swinging (q : Queue) (g : Nodes) (h m v : ℕ) : Type 0 where
  pub place : ℕ
  pub bound : place < g.tl
  pub is_at : g.at place ≡ h
  pub then_at : g.at (suc place) ≡ m
  pub is_value : q.value m ≡ v

-- What a goroutine knows.
abbrev pub Knows : Queue → Nodes → Pc → Type 0
Knows q g idle = Unit
Knows q g (enq_tail n) = IsOwn q g n
Knows q g (enq_next n t) = IsOwn q g n × Passed g t
Knows q g (enq_check n t none) = IsOwn q g n × Passed g t
Knows q g (enq_check n t (some m)) = IsOwn q g n × Followed g t m
Knows q g (enq_link n t) = IsOwn q g n × Passed g t
Knows q g (enq_swing n t) = Followed g t n
Knows q g enq_count = Unit
Knows q g (enq_help n t m) = IsOwn q g n × Followed g t m
Knows q g deq_head = Unit
Knows q g (deq_tail h) = (k : ℕ) × (k ≤ g.hd) × (g.at k ≡ h)
Knows q g (deq_next h t) = Spanned g h t
Knows q g (deq_check h t none) = h ≡ t
Knows q g (deq_check h t (some m)) = SpannedBy g h t m
Knows q g (deq_help t m) = Followed g t m
Knows q g (deq_swing h m v) = Swinging q g h m v
Knows q g (deq_count v) = Unit
Knows q g crashed = ⊥

-- The node that a goroutine has made and not yet linked.
abbrev pub own_node : Pc → Option ℕ
own_node (enq_tail n) = some n
own_node (enq_next n t) = some n
own_node (enq_check n t m) = some n
own_node (enq_link n t) = some n
own_node (enq_help n t m) = some n
own_node _ = none

pub record Inv (s : System) : Type 0 where
  pub nodes : Nodes
  pub linked : IsLinked s.queue nodes
  pub knows : (i : ℕ) → Knows s.queue nodes (s.pc i)
  pub unique : (i j n : ℕ) → own_node (s.pc i) ≡ some n → own_node (s.pc j) ≡ some n → i ≡ j
