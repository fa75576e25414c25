-- ===== src/TaskQueue/Alone.antt =====
-- internal/queue/lock_free_queue.go: the retries of a goroutine end as soon as the others pause.
use wsgnet.Prelude.{
  ℕ, zero, suc, ◌+◌, ◌<◌, Option, none, some, List, ◌≡◌, ◌≢◌, refl, sym, subst, ◌==◌, arith,
  ℕ_discrete, dec_lt, Option-cases, if-elim, ◌⊎◌, inl, inr,
}
use wsgnet.TaskQueue.{
  Queue, Pc, Label, idle, enq_tail, enq_next, enq_check, enq_link, enq_swing, enq_count, enq_help,
  deq_head, deq_tail, deq_next, deq_check, deq_help, deq_swing, deq_count, crashed, cas_tail,
  cas_head, step,
}
use wsgnet.TaskQueue.Invariant.{Nodes, IsLinked, Knows}
use wsgnet.TaskQueue.Threads.{System, Reach}
use wsgnet.TaskQueue.Fifo.{Reach-Sound}
use wsgnet.TaskQueue.Steps.{step-Moved, step-links, step-relinks, place_more, helped}

-- A number of steps of one goroutine, with no other in between.
pub solo : ℕ → Queue → Pc → Pc × Queue
solo zero q pc = (pc, q)
solo (suc k) q pc = solo k (step q pc).2 (step q pc).1

-- It is done within k steps.
abbrev Ends : ℕ → Queue → Pc → Type 0
Ends k q pc = (solo k q pc).0 ≡ idle

-- The tail is at the last node, or at the one before.
abbrev Near : Queue → Type 0
Near q = (q.next q.tail ≡ none) ⊎ ((m : ℕ) × (q.next q.tail ≡ some m) × (q.next m ≡ none))

IsLinked-Near : {q : Queue} {g : Nodes} → IsLinked q g → Near q
IsLinked-Near {q} {g} w = elim (dec_lt g.tl g.last) [
  | yes b ↦ inr (
    g.at (suc g.tl),
    cc (w.linked g.tl b, w.tail_at),
    subst (λ k. q.next (g.at k) ≡ none) (one_more b) w.ended,
  )
  | no nb ↦ inl (cc (w.ended, subst (λ k. g.at k ≡ q.tail) (same nb) w.tail_at))
]
  where
    one_more : g.tl < g.last → g.last ≡ suc g.tl
    one_more b = omega (arith, w.lag)

    same : (g.tl < g.last → ⊥) → g.tl ≡ g.last
    same nb = omega (arith, w.within)

idle-Ends : (k : ℕ) (q : Queue) → Ends k q idle
unfolding solo step
idle-Ends zero q = refl
idle-Ends (suc k) q = idle-Ends k q

zero_plus : (k : ℕ) → 0 + k ≡ k
zero_plus k = omega arith

suc_plus : (d k : ℕ) → suc (d + k) ≡ suc d + k
suc_plus d k = omega arith

Ends-suc : (k : ℕ) (q : Queue) (pc : Pc) → Ends k q pc → Ends (suc k) q pc
unfolding solo step
Ends-suc zero q pc e = subst (λ pc. Ends 1 q pc) (sym e) refl
Ends-suc (suc k) q pc e = Ends-suc k (step q pc).2 (step q pc).1 e

Ends-more : (d k : ℕ) (q : Queue) (pc : Pc) → Ends k q pc → Ends (d + k) q pc
Ends-more zero k q pc e = subst (λ j. Ends j q pc) (sym (zero_plus k)) e
Ends-more (suc d) k q pc e =
    subst (λ j. Ends j q pc) (suc_plus d k) (Ends-suc (d + k) q pc (Ends-more d k q pc e))

enq_tail-Ends : (q : Queue) (n : ℕ) → q.next q.tail ≡ none → Ends 6 q (enq_tail n)
unfolding solo step cas_tail
enq_tail-Ends q n e = ground arith

enq_tail-Ends' :
    (q : Queue) (n m : ℕ) → q.next q.tail ≡ some m → q.next m ≡ none → Ends 10 q (enq_tail n)
unfolding solo step cas_tail
enq_tail-Ends' q n m e f = ground arith

deq_head-Ends : (q : Queue) (m : ℕ) → q.next q.head ≡ some m → q.head ≢ q.tail → Ends 6 q deq_head
unfolding solo step cas_head
deq_head-Ends q m e ne = ground arith

deq_head-Ends_empty : (q : Queue) → q.next q.head ≡ none → q.head ≡ q.tail → Ends 4 q deq_head
unfolding solo step
deq_head-Ends_empty q e f = ground arith

deq_head-Ends_late :
    (q : Queue) (m : ℕ) → q.next q.head ≡ some m → q.head ≡ q.tail → q.head ≢ m → Ends 11 q deq_head
unfolding solo step cas_tail cas_head
deq_head-Ends_late q m e f ne = ground arith

module _ {q : Queue} {g : Nodes} (w : IsLinked q g) where
  enq_tail-Ends_all : (n : ℕ) → Ends 10 q (enq_tail n)
  enq_tail-Ends_all n = elim (IsLinked-Near w) [
    | inl e ↦ Ends-more 4 6 q (enq_tail n) (enq_tail-Ends q n e)
    | inr (m, e, f) ↦ enq_tail-Ends' q n m e f
  ]

  deq_head-Ends_all : Ends 11 q deq_head
  deq_head-Ends_all = elim (ℕ_discrete q.head q.tail) [
    | yes e ↦ elim (Option-cases (q.next q.head)) [
      | inl f ↦ Ends-more 7 4 q deq_head (deq_head-Ends_empty q f e)
      | inr (m, f) ↦ deq_head-Ends_late q m f e (apart f)
    ]
    | no ne ↦ Ends-more 5 6 q deq_head (deq_head-Ends q (g.at (suc g.hd)) (linked_next ne) ne)
  ]
    where
      apart : {m : ℕ} → q.next q.head ≡ some m → q.head ≢ m
      apart {m} f e =
          let more = place_more w g.hd (omega (arith, w.ordered, w.within)) w.head_at f in
          absurd (
            omega (
              arith,
              w.distinct g.hd (suc g.hd) (omega arith) more
                  (cc (w.linked g.hd more, w.head_at, f, e)),
            ))

      linked_next : q.head ≢ q.tail → q.next q.head ≡ some (g.at (suc g.hd))
      linked_next ne = cc (w.linked g.hd (below ne), w.head_at)
        where
          below : q.head ≢ q.tail → g.hd < g.last
          below ne = elim (ℕ_discrete g.hd g.tl) [
            | yes e ↦ absurd (ne (cc (subst (λ k. g.at k ≡ q.head) e w.head_at, w.tail_at)))
            | no apart ↦ omega (arith, w.ordered, w.within)
          ]

abbrev EndsAfter : ℕ → Label × Pc × Queue → Type 0
EndsAfter k r = Ends k r.2 r.1

enq_swing-Ends : (q : Queue) (n t k : ℕ) → Ends (suc (suc k)) q (enq_swing n t)
unfolding solo step
enq_swing-Ends q n t k = idle-Ends k _

deq_count-Ends : (q : Queue) (v k : ℕ) → Ends (suc k) q (deq_count v)
unfolding solo step
deq_count-Ends q v k = idle-Ends k _

-- The steps of the two loops, from where they come back to their start.
module _ {q : Queue} {g : Nodes} (w : IsLinked q g) where
  enq_help-Ends : (n t m : ℕ) → Knows q g (enq_help n t m) → Ends 11 q (enq_help n t m)
  unfolding solo step
  enq_help-Ends n t m k = enq_tail-Ends_all (step-Moved w (enq_help n t m) k).is_linked n

  enq_link-Ends : (n t : ℕ) → Ends 11 q (enq_link n t)
  unfolding solo
  enq_link-Ends n t = elim (Option-cases (q.next t)) [
    | inl e ↦ subst (EndsAfter 10) (sym (step-links q n t e)) (enq_swing-Ends _ n t 8)
    | inr (m, e) ↦ subst (EndsAfter 10) (sym (step-relinks q n t m e)) (enq_tail-Ends_all w n)
  ]

  enq_check-Ends :
      (n t : ℕ) (m : Option ℕ) → Knows q g (enq_check n t m) → Ends 12 q (enq_check n t m)
  unfolding solo step
  enq_check-Ends n t none k =
      if-elim (t == q.tail) (Ends 11 q) (λ _. enq_link-Ends n t)
        (λ _. Ends-suc 10 q (enq_tail n) (enq_tail-Ends_all w n))
  enq_check-Ends n t (some m) k =
      if-elim (t == q.tail) (Ends 11 q) (λ _. enq_help-Ends n t m k)
        (λ _. Ends-suc 10 q (enq_tail n) (enq_tail-Ends_all w n))

  deq_help-Ends : (t m : ℕ) → Knows q g (deq_help t m) → Ends 12 q (deq_help t m)
  unfolding solo step
  deq_help-Ends t m k = deq_head-Ends_all (step-Moved w (deq_help t m) k).is_linked

  deq_swing-Ends : (h m v : ℕ) → Ends 12 q (deq_swing h m v)
  unfolding solo step
  deq_swing-Ends h m v =
      if-elim (q.head == h) (EndsAfter 11) (λ _. deq_count-Ends (cas_head q h m) v 10)
        (λ _. deq_head-Ends_all w)

  deq_check-Ends :
      (h t : ℕ) (m : Option ℕ) → Knows q g (deq_check h t m) → Ends 13 q (deq_check h t m)
  unfolding solo step
  deq_check-Ends h t none k =
      if-elim (h == q.head) (EndsAfter 12)
        (λ _.
          if-elim {A = Label × Pc} (h == t) (λ r. EndsAfter 12 (r.0, r.1, q)) (λ _. idle-Ends 12 q)
            (λ ne. absurd (ground (arith, k))))
        (λ _. Ends-suc 11 q deq_head (deq_head-Ends_all w))
  deq_check-Ends h t (some m) k =
      if-elim (h == q.head) (EndsAfter 12)
        (λ _.
          if-elim (h == t) (Ends 12 q) (λ e. deq_help-Ends t m (helped w k (ground arith)))
            (λ _. deq_swing-Ends h m (q.value m)))
        (λ _. Ends-suc 11 q deq_head (deq_head-Ends_all w))

module _ {q : Queue} {g : Nodes} (w : IsLinked q g) where
  deq_next-Ends : (h t : ℕ) → Knows q g (deq_next h t) → Ends 14 q (deq_next h t)
  unfolding solo step
  deq_next-Ends h t k =
      let mv = step-Moved w (deq_next h t) k in deq_check-Ends mv.is_linked h t (q.next h) mv.knows

module _ {q : Queue} {g : Nodes} (w : IsLinked q g) where
  all-Ends : (pc : Pc) → Knows q g pc → Ends 15 q pc
  unfolding solo step
  all-Ends idle k = idle-Ends 15 q
  all-Ends (enq_tail n) k = Ends-more 5 10 q (enq_tail n) (enq_tail-Ends_all w n)
  all-Ends (enq_next n t) k =
      let mv = step-Moved w (enq_next n t) k in
      Ends-more 2 12 q (enq_check n t (q.next t))
        (enq_check-Ends mv.is_linked n t (q.next t) mv.knows)
  all-Ends (enq_check n t m) k = Ends-more 3 12 q (enq_check n t m) (enq_check-Ends w n t m k)
  all-Ends (enq_link n t) k = Ends-more 4 11 q (enq_link n t) (enq_link-Ends w n t)
  all-Ends (enq_swing n t) k = enq_swing-Ends q n t 13
  all-Ends enq_count k = idle-Ends 14 (step q enq_count).2
  all-Ends (enq_help n t m) k = Ends-more 4 11 q (enq_help n t m) (enq_help-Ends w n t m k)
  all-Ends deq_head k = Ends-more 4 11 q deq_head (deq_head-Ends_all w)
  all-Ends (deq_tail h) k =
      let mv = step-Moved w (deq_tail h) k in deq_next-Ends mv.is_linked h q.tail mv.knows
  all-Ends (deq_next h t) k = Ends-more 1 14 q (deq_next h t) (deq_next-Ends w h t k)
  all-Ends (deq_check h t m) k = Ends-more 2 13 q (deq_check h t m) (deq_check-Ends w h t m k)
  all-Ends (deq_help t m) k = Ends-more 3 12 q (deq_help t m) (deq_help-Ends w t m k)
  all-Ends (deq_swing h m v) k = Ends-more 3 12 q (deq_swing h m v) (deq_swing-Ends w h m v)
  all-Ends (deq_count v) k = deq_count-Ends q v 14
  all-Ends crashed k = absurd k

-- From any state that goroutines reach, a goroutine that goes on alone is out of Enqueue or Dequeue
-- within 15 steps, whatever point the other goroutines have stopped at.
pub Reach-alone :
    {ins outs : List ℕ} {s : System}
    → Reach ins outs s
    → (i : ℕ) → (solo 15 s.queue (s.pc i)).0 ≡ idle
Reach-alone {s = s} r i =
    let inv = (Reach-Sound r).inv in all-Ends inv.linked (s.pc i) (inv.knows i)
