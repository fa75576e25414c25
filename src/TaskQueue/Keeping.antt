-- ===== src/TaskQueue/Keeping.antt =====
-- internal/queue/lock_free_queue.go: a step of any goroutine keeps the invariant.
use wsgnet.Prelude.{
  ℕ, none, some, ◌++◌, ◌≡◌, ◌≢◌, refl, ap, sym, ◌∙◌, subst, arith, ℕ_discrete, inl, inr, append-nil,
}
use wsgnet.TaskQueue.{
  Queue, Pc, idle, enq_tail, enq_next, enq_check, enq_link, enq_help, deq_head, Label, enqueue,
  update,
}
use Label.{quiet}
use wsgnet.TaskQueue.Threads.{System, init, Step, start_enqueue, start_dequeue, move, put, got}
use wsgnet.TaskQueue.Invariant.{Nodes, IsLinked, IsOwn, Knows, own_node, Inv}
use wsgnet.TaskQueue.Later.{Knows-later, contents, window-eq}
use wsgnet.TaskQueue.Moves.{Moved, Later-refl}
use wsgnet.TaskQueue.Steps.{step-Moved}

module _ {A : Type 0} (f : ℕ → A) (a : A) {i j : ℕ} where
  update-same : i ≡ j → update f i a j ≡ a
  update-same e = ground arith

  update-other : i ≢ j → update f i a j ≡ f j
  update-other ne = ground arith

some_eq : {m n : ℕ} → some m ≡ some n → m ≡ n
some_eq e = cc

owned : {q : Queue} {g : Nodes} {m n : ℕ} → some m ≡ some n → IsOwn q g m → IsOwn q g n
owned {q} {g} e = subst (IsOwn q g) (some_eq e)

own_node-IsOwn :
    {q : Queue} {g : Nodes} (pc : Pc) {n : ℕ} → own_node pc ≡ some n → Knows q g pc → IsOwn q g n
own_node-IsOwn (enq_tail m) e k = owned e k
own_node-IsOwn (enq_next m t) e k = owned e k.0
own_node-IsOwn (enq_check m t none) e k = owned e k.0
own_node-IsOwn (enq_check m t (some a)) e k = owned e k.0
own_node-IsOwn (enq_link m t) e k = owned e k.0
own_node-IsOwn (enq_help m t a) e k = owned e k.0
own_node-IsOwn pc e k = absurd cc

pub no_node : {n : ℕ} → own_node idle ≡ some n → ⊥
no_node e = cc

abbrev pub init_inv : Inv init
init_inv = record {
  nodes = record { at = λ _. 0; last = 0; hd = 0; tl = 0 };
  linked = record {
    head_at = refl;
    tail_at = refl;
    ordered = omega arith;
    within = omega arith;
    lag = omega arith;
    linked = λ k b. absurd (omega arith);
    ended = refl;
    distinct = λ j k b c e. omega arith;
    made = λ k b. omega arith;
  };
  knows = λ i. tt;
  unique = λ i j n e f. absurd (no_node e);
}

-- What a step does to the invariant and to the tasks in the queue.
pub record Kept {s : System} (inv : Inv s) (l : Label) (t : System) : Type 0 where
  pub inv' : Inv t
  pub fifo : got l ++ contents t.queue inv'.nodes ≡ contents s.queue inv.nodes ++ put l

module _ {s : System} (inv : Inv s) (i : ℕ) where
  -- Goroutine i moves to pc'; the others know what they knew.
  moved-Kept :
      {l : Label} {pc' : Pc} {q' : Queue}
      → Moved s.queue inv.nodes (s.pc i) l pc' q'
      → Kept inv l (record { queue = q'; pc = update s.pc i pc' })
  moved-Kept {l} {pc'} {q'} m = record {
    inv' = record { nodes = m.nodes; linked = m.is_linked; knows = all_know; unique = all_unique };
    fifo = m.fifo;
  }
    where
      all_know : (j : ℕ) → Knows q' m.nodes (update s.pc i pc' j)
      all_know j = elim (ℕ_discrete i j) [
        | yes e ↦ subst (Knows q' m.nodes) (sym (update-same s.pc pc' e)) m.knows
        | no ne ↦ subst (Knows q' m.nodes) (sym (update-other s.pc pc' ne)) (
            Knows-later m.later inv.linked (s.pc j)
              (λ n e. m.apart n (λ e'. ne (inv.unique i j n e' e))) (inv.knows j))
      ]

      -- No other goroutine has a node that i has afterwards.
      alone : (j n : ℕ) → i ≢ j → own_node pc' ≡ some n → own_node (s.pc j) ≢ some n
      alone j n ne e e' = elim (m.own n e) [
        | inl before ↦ ne (inv.unique i j n before e')
        | inr new ↦ ground (arith, (own_node-IsOwn (s.pc j) e' (inv.knows j)).old)
      ]

      all_unique :
          (j k n : ℕ)
          → own_node (update s.pc i pc' j) ≡ some n
          → own_node (update s.pc i pc' k) ≡ some n
          → j ≡ k
      all_unique j k n e f = elim (ℕ_discrete i j) [
        | yes a ↦ elim (ℕ_discrete i k) [
          | yes b ↦ omega arith
          | no b ↦ absurd (alone k n b (here a e) (there b f))
        ]
        | no a ↦ elim (ℕ_discrete i k) [
          | yes b ↦ absurd (alone j n a (here b f) (there a e))
          | no b ↦ inv.unique j k n (there a e) (there b f)
        ]
      ]
        where
          here : {j : ℕ} → i ≡ j → own_node (update s.pc i pc' j) ≡ some n → own_node pc' ≡ some n
          here a e = ap own_node (sym (update-same s.pc pc' a)) ∙ e

          there :
              {j : ℕ} → i ≢ j → own_node (update s.pc i pc' j) ≡ some n → own_node (s.pc j) ≡ some n
          there a e = ap own_node (sym (update-other s.pc pc' a)) ∙ e

  -- A new node: no goroutine and no link has it.
  enqueue-Moved :
      (v : ℕ)
      → s.pc i ≡ idle
      → Moved s.queue inv.nodes (s.pc i) quiet (enqueue s.queue v).0 (enqueue s.queue v).1
  unfolding enqueue
  enqueue-Moved v e = record {
    nodes = inv.nodes;
    is_linked = record {
      head_at = w.head_at;
      tail_at = w.tail_at;
      ordered = w.ordered;
      within = w.within;
      lag = w.lag;
      linked = λ k b. ground (arith, w.linked k, w.made k);
      ended = ground (arith, w.ended, w.made inv.nodes.last);
      distinct = w.distinct;
      made = λ k b. omega (arith, w.made k b);
    };
    knows = record {
      old = omega arith;
      apart = λ k b a. omega (arith, w.made k b);
      single = ground arith;
    };
    later = record {
      last = omega arith;
      hd = omega arith;
      tl = omega arith;
      same = λ k _. refl;
      values = λ n b. ground arith;
    };
    apart = λ n ne o. record {
      old = omega (arith, o.old);
      apart = o.apart;
      single = ground (arith, o.single);
    };
    own = λ n a. inr (omega (arith, some_eq a));
    fifo =
        window-eq _ _ _ _ (λ k b. ground (arith, w.made k, w.ordered, w.within))
        ∙ sym (append-nil (contents s.queue inv.nodes));
  }
    where
      w : IsLinked s.queue inv.nodes
      w = inv.linked

  dequeue-Moved : s.pc i ≡ idle → Moved s.queue inv.nodes (s.pc i) quiet deq_head s.queue
  dequeue-Moved e = record {
    nodes = inv.nodes;
    is_linked = inv.linked;
    knows = tt;
    later = Later-refl s.queue inv.nodes;
    apart = λ n _ o. o;
    own = λ n a. absurd cc;
    fifo = sym (append-nil (contents s.queue inv.nodes));
  }

pub Step-Kept : {s t : System} {l : Label} (inv : Inv s) → Step s l t → Kept inv l t
Step-Kept inv (start_enqueue i v e) = moved-Kept inv i (enqueue-Moved inv i v e)
Step-Kept inv (start_dequeue i e) = moved-Kept inv i (dequeue-Moved inv i e)
Step-Kept {s} inv (move i) = moved-Kept inv i (step-Moved inv.linked (s.pc i) (inv.knows i))
