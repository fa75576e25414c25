-- ===== src/TaskQueue/Steps.antt =====
-- internal/queue/lock_free_queue.go: each step of Enqueue and Dequeue, by what the goroutine knows.
use wsgnet.Prelude.{
  true, ℕ, ◌≤◌, ◌<◌, Option, none, some, ◌≡◌, ◌≢◌, refl, sym, subst, dec_lt, ◌==◌, if-elim, arith,
  ℕ_discrete, append-nil, Option-cases, inl, inr,
}
use wsgnet.TaskQueue.{
  Queue, Pc, idle, enq_tail, enq_next, enq_check, enq_link, enq_swing, enq_count, enq_help,
  deq_head, deq_tail, deq_next, deq_check, deq_help, deq_swing, deq_count, crashed, Label, cas_head,
  step, update,
}
use Label.{quiet, linked, taken, nothing}
use wsgnet.TaskQueue.Invariant.{
  Nodes, IsLinked, Passed, Followed, Spanned, SpannedBy, Swinging, Knows,
}
use wsgnet.TaskQueue.Later.{contents}
use wsgnet.TaskQueue.Moves.{Moved, Later-refl, stays, tail_moves, head_moves, links}

abbrev StepMoved : Queue → Nodes → Pc → Type 0
StepMoved q g pc = Moved q g pc (step q pc).0 (step q pc).1 (step q pc).2

abbrev MovedBy : Queue → Nodes → Pc → Label × Pc × Queue → Type 0
MovedBy q g pc r = Moved q g pc r.0 r.1 r.2

pub step-links :
    (q : Queue) (n t : ℕ)
    → q.next t ≡ none
    → step q (enq_link n t)
      ≡ (linked (q.value n), enq_swing n t, record q { next = update q.next t (some n) })
unfolding step
step-links q n t e = ground arith

pub step-relinks :
    (q : Queue) (n t m : ℕ) → q.next t ≡ some m → step q (enq_link n t) ≡ (quiet, enq_tail n, q)
unfolding step
step-relinks q n t m e = ground arith

cas_head-moves :
    (q : Queue) (h m : ℕ) → (q.head == h) ≡ true → cas_head q h m ≡ record q { head = m }
unfolding cas_head
cas_head-moves q h m e = ground arith

module _ {q : Queue} {g : Nodes} (w : IsLinked q g) where
  -- What is behind a linked node.
  pub place_ended : {h : ℕ} (j : ℕ) → j ≤ g.last → g.at j ≡ h → q.next h ≡ none → j ≡ g.last
  place_ended j b a e = elim (dec_lt j g.last) [
    | yes lt ↦ absurd (cc (w.linked j lt, a, e))
    | no nlt ↦ omega arith
  ]

  pub place_more : {h m : ℕ} (j : ℕ) → j ≤ g.last → g.at j ≡ h → q.next h ≡ some m → j < g.last
  place_more {h} j b a e = elim (ℕ_discrete j g.last) [
    | yes f ↦ absurd (cc (w.ended, e, subst (λ k. g.at k ≡ h) f a))
    | no ne ↦ omega arith
  ]

  followed : {t m : ℕ} → Passed g t → q.next t ≡ some m → Followed g t m
  followed p e = record {
    place = p.place;
    bound = p.bound;
    more = more;
    is_at = p.is_at;
    then_at = cc (w.linked p.place more, p.is_at, e);
  }
    where
      more : p.place < g.last
      more = place_more p.place (omega (arith, p.bound, w.within)) p.is_at e

  spanned_by : {h t m : ℕ} → Spanned g h t → q.next h ≡ some m → SpannedBy g h t m
  spanned_by k e = record {
    spanned = k;
    more = more;
    then_at = cc (w.linked k.place more, k.is_at, e);
  }
    where
      more : k.place < g.last
      more = place_more k.place (omega (arith, k.span, k.bound, w.within)) k.is_at e

  -- If nothing is behind the head that was read, the tail that was read is the same node.
  spanned_ended : {h t : ℕ} → Spanned g h t → q.next h ≡ none → h ≡ t
  spanned_ended {h} {t} k e = cc (subst (λ j. g.at j ≡ t) same_place k.is_at', k.is_at)
    where
      same_place : k.place' ≡ k.place
      same_place = omega (
        arith,
        k.span,
        k.bound,
        w.within,
        place_ended k.place (omega (arith, k.span, k.bound, w.within)) k.is_at e,
      )

  -- The count of the tasks alone changes.
  counts : (n : ℕ) (pc : Pc) → Moved q g pc quiet idle (record q { length = n })
  counts n pc = record {
    nodes = g;
    is_linked = record {
      head_at = w.head_at;
      tail_at = w.tail_at;
      ordered = w.ordered;
      within = w.within;
      lag = w.lag;
      linked = w.linked;
      ended = w.ended;
      distinct = w.distinct;
      made = w.made;
    };
    knows = tt;
    later = record {
      last = omega arith;
      hd = omega arith;
      tl = omega arith;
      same = λ k _. refl;
      values = λ n _. refl;
    };
    apart = λ n _ o. record { old = o.old; apart = o.apart; single = o.single };
    own = λ n e. absurd cc;
    fifo = sym (append-nil (contents q g));
  }

  returns_nothing : (pc : Pc) → Moved q g pc nothing idle q
  returns_nothing pc = record {
    nodes = g;
    is_linked = w;
    knows = tt;
    later = Later-refl q g;
    apart = λ n _ o. o;
    own = λ n e. absurd cc;
    fifo = sym (append-nil (contents q g));
  }

  pub helped : {h t m : ℕ} → SpannedBy g h t m → h ≡ t → Followed g t m
  helped k e = record {
    place = k.spanned.place;
    bound = omega (arith, k.spanned.span, k.spanned.bound);
    more = k.more;
    is_at = cc (k.spanned.is_at, e);
    then_at = k.then_at;
  }

  swinging : {h t m : ℕ} → SpannedBy g h t m → h ≢ t → Swinging q g h m (q.value m)
  swinging {h} {t} k ne = record {
    place = k.spanned.place;
    bound = elim (ℕ_discrete k.spanned.place k.spanned.place') [
      | yes e ↦ absurd (ne (cc (subst (λ j. g.at j ≡ h) e k.spanned.is_at, k.spanned.is_at')))
      | no apart ↦ omega (arith, k.spanned.span, k.spanned.bound)
    ];
    is_at = k.spanned.is_at;
    then_at = k.then_at;
    is_value = refl;
  }

  step-enq_next : (n t : ℕ) → Knows q g (enq_next n t) → StepMoved q g (enq_next n t)
  unfolding step
  step-enq_next n t (o, p) =
      stays w (enq_next n t) (enq_check n t (q.next t))
        (elim (Option-cases (q.next t)) [
          | inl e ↦ subst (λ m. Knows q g (enq_check n t m)) (sym e) (o, p)
          | inr (m, e) ↦ subst (λ m. Knows q g (enq_check n t m)) (sym e) (o, followed p e)
        ])
        (λ n e. e)

  step-enq_check :
      (n t : ℕ) (m : Option ℕ) → Knows q g (enq_check n t m) → StepMoved q g (enq_check n t m)
  unfolding step
  step-enq_check n t none (o, p) =
      if-elim (t == q.tail) (λ pc'. Moved q g (enq_check n t none) quiet pc' q)
        (λ _. stays w _ (enq_link n t) (o, p) (λ n e. e)) (λ _. stays w _ (enq_tail n) o (λ n e. e))
  step-enq_check n t (some m) (o, f) =
      if-elim (t == q.tail) (λ pc'. Moved q g (enq_check n t (some m)) quiet pc' q)
        (λ _. stays w _ (enq_help n t m) (o, f) (λ n e. e))
        (λ _. stays w _ (enq_tail n) o (λ n e. e))

  step-enq_link : (n t : ℕ) → Knows q g (enq_link n t) → StepMoved q g (enq_link n t)
  step-enq_link n t (o, p) = elim (Option-cases (q.next t)) [
    | inl e ↦
        subst (MovedBy q g (enq_link n t)) (sym (step-links q n t e))
          (links w (enq_link n t) refl o p e)
    | inr (m, e) ↦
        subst (MovedBy q g (enq_link n t)) (sym (step-relinks q n t m e))
          (stays w (enq_link n t) (enq_tail n) o (λ n e. e))
  ]

  step-deq_next : (h t : ℕ) → Knows q g (deq_next h t) → StepMoved q g (deq_next h t)
  unfolding step
  step-deq_next h t k =
      stays w (deq_next h t) (deq_check h t (q.next h))
        (elim (Option-cases (q.next h)) [
          | inl e ↦ subst (λ m. Knows q g (deq_check h t m)) (sym e) (spanned_ended k e)
          | inr (m, e) ↦ subst (λ m. Knows q g (deq_check h t m)) (sym e) (spanned_by k e)
        ])
        (λ n e. e)

  step-deq_check :
      (h t : ℕ) (m : Option ℕ) → Knows q g (deq_check h t m) → StepMoved q g (deq_check h t m)
  unfolding step
  step-deq_check h t none k =
      if-elim (h == q.head) (MovedBy q g (deq_check h t none))
        (λ _.
          if-elim {A = Label × Pc} (h == t) (λ r. MovedBy q g (deq_check h t none) (r.0, r.1, q))
            (λ _. returns_nothing (deq_check h t none)) (λ ne. absurd (ground (arith, k))))
        (λ _. stays w _ deq_head tt (λ n e. e))
  step-deq_check h t (some m) k =
      if-elim (h == q.head) (MovedBy q g (deq_check h t (some m)))
        (λ _.
          if-elim (h == t) (λ pc'. Moved q g (deq_check h t (some m)) quiet pc' q)
            (λ e. stays w _ (deq_help t m) (helped k (ground arith)) (λ n e. e))
            (λ ne. stays w _ (deq_swing h m (q.value m)) (swinging k (ground arith)) (λ n e. e)))
        (λ _. stays w _ deq_head tt (λ n e. e))

  step-deq_swing : (h m v : ℕ) → Knows q g (deq_swing h m v) → StepMoved q g (deq_swing h m v)
  unfolding step
  step-deq_swing h m v k =
      if-elim (q.head == h) (MovedBy q g (deq_swing h m v))
        (λ e.
          subst (Moved q g (deq_swing h m v) (taken v) (deq_count v)) (sym (cas_head-moves q h m e))
            (head_moves w _ (deq_count v) k (ground arith) (λ _ _. tt) (λ n e. e)))
        (λ _. stays w _ deq_head tt (λ n e. e))

  -- One step of the goroutine.
  pub step-Moved : (pc : Pc) → Knows q g pc → StepMoved q g pc
  unfolding step
  step-Moved idle k = stays w idle idle tt (λ n e. e)
  step-Moved (enq_tail n) k =
      stays w (enq_tail n) (enq_next n q.tail)
        (k, record { place = g.tl; bound = omega arith; is_at = w.tail_at }) (λ n e. e)
  step-Moved (enq_next n t) k = step-enq_next n t k
  step-Moved (enq_check n t m) k = step-enq_check n t m k
  step-Moved (enq_link n t) k = step-enq_link n t k
  step-Moved (enq_swing n t) k = tail_moves w (enq_swing n t) enq_count k (λ _ _ _. tt) (λ n e. e)
  step-Moved enq_count k = counts _ enq_count
  step-Moved (enq_help n t m) (o, f) =
      tail_moves w (enq_help n t m) (enq_tail n) f (λ q' g' keep. keep n o) (λ n e. e)
  step-Moved deq_head k =
      stays w deq_head (deq_tail q.head) (g.hd, omega arith, w.head_at) (λ n e. e)
  step-Moved (deq_tail h) (j, b, e) =
      stays w (deq_tail h) (deq_next h q.tail)
        (record {
          place = j;
          place' = g.tl;
          reached = b;
          span = omega (arith, w.ordered);
          bound = omega arith;
          is_at = e;
          is_at' = w.tail_at;
        })
        (λ n e. e)
  step-Moved (deq_next h t) k = step-deq_next h t k
  step-Moved (deq_check h t m) k = step-deq_check h t m k
  step-Moved (deq_help t m) k = tail_moves w (deq_help t m) deq_head k (λ _ _ _. tt) (λ n e. e)
  step-Moved (deq_swing h m v) k = step-deq_swing h m v k
  step-Moved (deq_count v) k = counts _ (deq_count v)
  step-Moved crashed k = absurd k
