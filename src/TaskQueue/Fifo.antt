-- ===== src/TaskQueue/Fifo.antt =====
-- internal/queue/lock_free_queue.go: whatever the order of the steps, the queue is a queue.
use wsgnet.Prelude.{
  ℕ, zero, suc, ◌+◌, ◌-◌, none, List, [], ◌++◌, ◌≡◌, ◌≢◌, refl, ap, sym, ◌∙◌, ◌≡⟨◌⟩◌, ◌∎, subst,
  arith, append-nil, append_assoc,
}
use wsgnet.TaskQueue.{Queue, deq_next, crashed, Label}
use wsgnet.TaskQueue.Threads.{System, put, got, Reach, start, later}
use wsgnet.TaskQueue.Invariant.{Chain, last_node, link, Holds, Nodes, IsLinked, Knows, Inv}
use wsgnet.TaskQueue.Later.{contents, window}
use wsgnet.TaskQueue.Keeping.{Kept, Step-Kept, init_inv}
use wsgnet.TaskQueue.Invariant.{Spanned}
use wsgnet.TaskQueue.Steps.{place_ended}

-- The tasks in the queue are those behind the head.
chain :
    {q : Queue} {g : Nodes}
    → IsLinked q g
    → (n i : ℕ) → i + n ≡ g.last
    → Chain q (g.at i) (window (λ k. q.value (g.at k)) (suc i) n)
chain {q} {g} w zero i e = last_node (subst (λ k. q.next (g.at k) ≡ none) at_end w.ended)
  where
    at_end : g.last ≡ i
    at_end = omega arith
chain {q} {g} w (suc n) i e =
    link (g.at (suc i)) (w.linked i (omega arith)) (chain w n (suc i) (omega arith))

contents-Holds : {q : Queue} {g : Nodes} → IsLinked q g → Holds q (contents q g)
contents-Holds {q} {g} w =
    subst (λ n. Chain q n (contents q g)) w.head_at
      (chain w (g.last - g.hd) g.hd (omega (arith, w.ordered, w.within)))

pub record Sound (ins outs : List ℕ) (s : System) : Type 0 where
  pub inv : Inv s
  pub fifo : outs ++ contents s.queue inv.nodes ≡ ins

later-Sound :
    {ins outs : List ℕ} {l : Label} {s t : System}
    → (r : Sound ins outs s) → Kept r.inv l t
    → Sound (ins ++ put l) (outs ++ got l) t
later-Sound {ins} {outs} {l} {s} {t} r k = record {
  inv = k.inv';
  fifo =
      (outs ++ got l) ++ contents t.queue k.inv'.nodes
      ≡⟨ append_assoc outs (got l) _ ⟩ outs ++ (got l ++ contents t.queue k.inv'.nodes)
      ≡⟨ ap (λ vs. outs ++ vs) k.fifo ⟩ outs ++ (contents s.queue r.inv.nodes ++ put l)
      ≡⟨ sym (append_assoc outs _ (put l)) ⟩ (outs ++ contents s.queue r.inv.nodes) ++ put l
      ≡⟨ ap (λ vs. vs ++ put l) r.fifo ⟩ ins ++ put l ∎;
}

pub Reach-Sound : {ins outs : List ℕ} {s : System} → Reach ins outs s → Sound ins outs s
Reach-Sound start = record { inv = init_inv; fifo = refl }
Reach-Sound (later r st) = let sound = Reach-Sound r in later-Sound sound (Step-Kept sound.inv st)

-- In every state that goroutines reach by calls of Enqueue and Dequeue, their steps in any order,
-- the links from the head lead through a list of tasks and end, and the tasks taken out so far
-- followed by these are the tasks put in so far, in order: none is lost, doubled or overtaken.
pub Reach-fifo :
    {ins outs : List ℕ} {s : System}
    → Reach ins outs s
    → (vs : List ℕ) × (Holds s.queue vs) × (outs ++ vs ≡ ins)
Reach-fifo {s = s} r =
    let sound = Reach-Sound r in
    (contents s.queue sound.inv.nodes, contents-Holds sound.inv.linked, sound.fifo)

-- No goroutine dereferences a nil pointer, whatever the order of their steps.
pub Reach-never-crashed :
    {ins outs : List ℕ} {s : System} → Reach ins outs s → (i : ℕ) → s.pc i ≢ crashed
Reach-never-crashed {s = s} r i e =
    let sound = Reach-Sound r in subst (Knows s.queue sound.inv.nodes) e (sound.inv.knows i)

-- When Dequeue reads that no node is behind the head it has read, as it does before it returns
-- nil, no task is in the queue at that moment.
pub Reach-empty :
    {ins outs : List ℕ} {s : System}
    → Reach ins outs s
    → (i h t : ℕ) → s.pc i ≡ deq_next h t
    → s.queue.next h ≡ none
    → ins ≡ outs
Reach-empty {ins} {outs} {s} r i h t e f =
    sym sound.fifo ∙ ap (λ vs. outs ++ vs) no_tasks ∙ append-nil outs
  where
    sound : Sound ins outs s
    sound = Reach-Sound r

    k : Spanned sound.inv.nodes h t
    k = subst (Knows s.queue sound.inv.nodes) e (sound.inv.knows i)

    w : IsLinked s.queue sound.inv.nodes
    w = sound.inv.linked

    none_left : sound.inv.nodes.last - sound.inv.nodes.hd ≡ 0
    none_left = omega (
      arith,
      k.reached,
      w.ordered,
      w.within,
      place_ended w k.place (omega (arith, k.reached, w.ordered, w.within)) k.is_at f,
    )

    no_tasks : contents s.queue sound.inv.nodes ≡ []
    no_tasks =
        ap (window (λ k. s.queue.value (sound.inv.nodes.at k)) (suc sound.inv.nodes.hd)) none_left
