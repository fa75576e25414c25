-- ===== src/Poller/Wakeup.antt =====
-- internal/netpoll/epoll_default_poller.go: no wake-up is lost.
use wsgnet.Prelude.{
  ℕ, Bool, true, false, List, [], ◌∷◌, ◌≡◌, ◌≢◌, ◌⊎◌, inl, inr, refl, sym, ap, ◌∙◌, subst, if-elim,
  leb, ◌||◌, arith, ℕ_discrete,
}
use wsgnet.Poller.{
  Poller, open_poller, TriggerPc, idle, to_swap, to_write, LoopPc, waiting, handling, urgent_tasks,
  async_tasks, storing, asking, asking_urgent, swapping, writing, stopped, Met, enqueue_urgent,
  enqueue_async, trigger_step, loop_step, is_nil, tail, max_async_tasks,
}
use wsgnet.Poller.Threads.{
  System, set_trigger, Step, triggers_urgent, triggers, trigger_moves, loop_moves, Reach, start,
  later,
}

-- Somebody has yet to look at wakeupCall, or it is 1 already.
abbrev pub Called : Poller → (ℕ → TriggerPc) → Type 0
Called p t = (p.wakeup_call ≡ true) ⊎ ((i : ℕ) × (t i ≡ to_swap))

-- The tasks that the loop will not find by itself have called it.
abbrev pub Noticed : Poller → (ℕ → TriggerPc) → LoopPc → Type 0
Noticed p t asking = Unit
Noticed p t asking_urgent = is_nil p.async_queue ≡ false → Called p t
Noticed p t swapping = Unit
Noticed p t pc = ((is_nil p.urgent_queue ≡ false) ⊎ (is_nil p.async_queue ≡ false)) → Called p t

-- The loop is on its way to the tasks, or to the write.
abbrev pub OnTheWay : LoopPc → Type 0
OnTheWay (waiting chores) = chores ≡ true
OnTheWay (handling chores) = chores ≡ true
OnTheWay asking = ⊥
OnTheWay asking_urgent = ⊥
OnTheWay swapping = ⊥
OnTheWay pc = Unit

-- A call is followed by an event, or somebody is about to write one.
abbrev pub Answered : Poller → (ℕ → TriggerPc) → LoopPc → Type 0
Answered p t pc = (p.pending ≡ true) ⊎ (OnTheWay pc ⊎ ((i : ℕ) × (t i ≡ to_write)))

pub record Inv (p : Poller) (t : ℕ → TriggerPc) (pc : LoopPc) : Type 0 where
  pub noticed : Noticed p t pc
  pub answered : p.wakeup_call ≡ true → Answered p t pc

Answered-mono :
    (p : Poller) (t : ℕ → TriggerPc) (pc pc' : LoopPc)
    → (OnTheWay pc → OnTheWay pc')
    → Answered p t pc
    → Answered p t pc'
Answered-mono p t pc pc' f (inl e) = inl e
Answered-mono p t pc pc' f (inr (inl w)) = inr (inl (f w))
Answered-mono p t pc pc' f (inr (inr x)) = inr (inr x)

tail-is_nil : (q : List ℕ) → is_nil (tail q) ≡ false → is_nil q ≡ false
tail-is_nil [] e = e
tail-is_nil (x ∷ q) e = refl

apart : {A : Type 0} {b : Bool} → b ≡ true → b ≡ false → A
apart e f = absurd cc

module _ (m : Met) (p : Poller) (t : ℕ → TriggerPc) where
  abbrev Holds : LoopPc × Poller → Type 0
  Holds r = Inv r.1 t r.0

  loop-Inv : (pc : LoopPc) → Inv p t pc → Holds (loop_step m p pc)
  unfolding loop_step
  loop-Inv (waiting chores) h =
      if-elim {A = LoopPc × Poller} m.shutdown Holds
        (λ _. record { noticed = h.noticed; answered = λ e. inr (inl tt) })
        (λ _.
          if-elim {A = LoopPc × Poller} m.awake Holds
            (λ _. record { noticed = h.noticed; answered = λ e. inr (inl refl) })
            (λ _. record { noticed = h.noticed; answered = h.answered }))
  loop-Inv (handling chores) h =
      if-elim m.shutdown (Inv p t)
        (λ _. record { noticed = h.noticed; answered = λ e. inr (inl tt) })
        (λ _.
          if-elim chores (Inv p t)
            (λ _. record { noticed = h.noticed; answered = λ e. inr (inl tt) })
            (λ off. record {
              noticed = h.noticed;
              answered = λ e.
                  Answered-mono p t (handling chores) (waiting false) (λ on. sym off ∙ on)
                    (h.answered e);
            }))
  loop-Inv urgent_tasks h =
      if-elim {A = LoopPc × Poller} (is_nil p.urgent_queue) Holds
        (λ _. record { noticed = h.noticed; answered = h.answered })
        (λ _.
          if-elim m.shutdown (Inv (record p { urgent_queue = tail p.urgent_queue }) t)
            (λ _. record { noticed = fewer; answered = λ e. inr (inl tt) })
            (λ _. record { noticed = fewer; answered = λ e. inr (inl tt) }))
    where
      fewer : (is_nil (tail p.urgent_queue) ≡ false) ⊎ (is_nil p.async_queue ≡ false) → Called p t
      fewer (inl e) = h.noticed (inl (tail-is_nil p.urgent_queue e))
      fewer (inr e) = h.noticed (inr e)
  loop-Inv (async_tasks i) h =
      if-elim {A = LoopPc × Poller} (leb max_async_tasks i || is_nil p.async_queue) Holds
        (λ _. record { noticed = h.noticed; answered = h.answered })
        (λ _.
          if-elim m.shutdown (Inv (record p { async_queue = tail p.async_queue }) t)
            (λ _. record { noticed = fewer; answered = λ e. inr (inl tt) })
            (λ _. record { noticed = fewer; answered = λ e. inr (inl tt) }))
    where
      fewer : (is_nil p.urgent_queue ≡ false) ⊎ (is_nil (tail p.async_queue) ≡ false) → Called p t
      fewer (inl e) = h.noticed (inl e)
      fewer (inr e) = h.noticed (inr (tail-is_nil p.async_queue e))
  loop-Inv storing h = record { noticed = tt; answered = λ e. apart e refl }
  loop-Inv asking h =
      if-elim (is_nil p.async_queue) (Inv p t)
        (λ e. record { noticed = λ f. apart e f; answered = h.answered })
        (λ _. record { noticed = tt; answered = h.answered })
  loop-Inv asking_urgent h =
      if-elim (is_nil p.urgent_queue) (Inv p t)
        (λ e. record {
          noticed = left e;
          answered =
              λ e. Answered-mono p t asking_urgent (waiting false) (λ x. absurd x) (h.answered e);
        })
        (λ _. record { noticed = tt; answered = h.answered })
    where
      left :
          is_nil p.urgent_queue ≡ true
          → (is_nil p.urgent_queue ≡ false) ⊎ (is_nil p.async_queue ≡ false)
          → Called p t
      left e (inl f) = apart e f
      left e (inr f) = h.noticed f
  loop-Inv swapping h =
      if-elim {A = LoopPc × Poller} p.wakeup_call Holds
        (λ e. record {
          noticed = λ _. inl e;
          answered = λ e. Answered-mono p t swapping (waiting false) (λ x. absurd x) (h.answered e);
        })
        (λ _. record { noticed = λ _. inl refl; answered = λ e. inr (inl tt) })
  loop-Inv writing h =
      if-elim {A = LoopPc × Poller} m.failed Holds
        (λ _. record { noticed = h.noticed; answered = λ e. inr (inl refl) })
        (λ _. record { noticed = h.noticed; answered = λ e. inl refl })
  loop-Inv stopped h = h

-- A state where somebody has called.
Called-Noticed : (p : Poller) (t : ℕ → TriggerPc) (pc : LoopPc) → Called p t → Noticed p t pc
Called-Noticed p t asking c = tt
Called-Noticed p t asking_urgent c = λ _. c
Called-Noticed p t swapping c = tt
Called-Noticed p t (waiting b) c = λ _. c
Called-Noticed p t (handling b) c = λ _. c
Called-Noticed p t urgent_tasks c = λ _. c
Called-Noticed p t (async_tasks i) c = λ _. c
Called-Noticed p t storing c = λ _. c
Called-Noticed p t writing c = λ _. c
Called-Noticed p t stopped c = λ _. c

Noticed-mono :
    (p : Poller) (b : Bool) (t t' : ℕ → TriggerPc) (pc : LoopPc)
    → (Called p t → Called p t')
    → Noticed p t pc
    → Noticed (record p { pending = b }) t' pc
Noticed-mono p b t t' asking g n = tt
Noticed-mono p b t t' asking_urgent g n = λ e. g (n e)
Noticed-mono p b t t' swapping g n = tt
Noticed-mono p b t t' (waiting c) g n = λ e. g (n e)
Noticed-mono p b t t' (handling c) g n = λ e. g (n e)
Noticed-mono p b t t' urgent_tasks g n = λ e. g (n e)
Noticed-mono p b t t' (async_tasks i) g n = λ e. g (n e)
Noticed-mono p b t t' storing g n = λ e. g (n e)
Noticed-mono p b t t' writing g n = λ e. g (n e)
Noticed-mono p b t t' stopped g n = λ e. g (n e)

module _ (t : ℕ → TriggerPc) (i : ℕ) where
  set-same : (a : TriggerPc) → set_trigger t i a i ≡ a
  set-same a = ground arith

  -- A goroutine that is elsewhere than i is where it was.
  others :
      {a b : TriggerPc} (c : TriggerPc)
      → t i ≡ a
      → a ≢ b
      → (j : ℕ) → t j ≡ b
      → set_trigger t i c j ≡ b
  others {a} {b} c e ne j f = elim (ℕ_discrete i j) [
    | yes same ↦ absurd (ne (sym e ∙ ap t same ∙ f))
    | no ne' ↦ ground (arith, f)
  ]

  Called-others :
      (p : Poller) {a : TriggerPc} (c : TriggerPc)
      → t i ≡ a
      → a ≢ to_swap
      → Called p t
      → Called p (set_trigger t i c)
  Called-others p c e ne (inl w) = inl w
  Called-others p c e ne (inr (j, f)) = inr (j, others c e ne j f)

  Answered-others :
      (p : Poller) (pc : LoopPc) {a : TriggerPc} (c : TriggerPc)
      → t i ≡ a
      → a ≢ to_write
      → Answered p t pc
      → Answered p (set_trigger t i c) pc
  Answered-others p pc c e ne (inl w) = inl w
  Answered-others p pc c e ne (inr (inl w)) = inr (inl w)
  Answered-others p pc c e ne (inr (inr (j, f))) = inr (inr (j, others c e ne j f))

  trigger-Inv :
      (p : Poller) (pc : LoopPc) (a : TriggerPc)
      → t i ≡ a
      → Inv p t pc
      → Inv (trigger_step p a).1 (set_trigger t i (trigger_step p a).0) pc
  unfolding trigger_step
  trigger-Inv p pc idle e h = record {
    noticed =
        Noticed-mono p p.pending t (set_trigger t i idle) pc (Called-others p idle e (λ q. cc))
          h.noticed;
    answered = λ f. Answered-others p pc idle e (λ q. cc) (h.answered f);
  }
  trigger-Inv p pc to_swap e h =
      if-elim {A = TriggerPc × Poller} p.wakeup_call (λ r. Inv r.1 (set_trigger t i r.0) pc)
        (λ f. record {
          noticed = Called-Noticed p (set_trigger t i idle) pc (inl f);
          answered = λ f. Answered-others p pc idle e (λ q. cc) (h.answered f);
        })
        (λ _. record {
          noticed =
              Called-Noticed (record p { wakeup_call = true }) (set_trigger t i to_write) pc
                (inl refl);
          answered = λ f. inr (inr (i, set-same to_write));
        })
  trigger-Inv p pc to_write e h = record {
    noticed =
        Noticed-mono p true t (set_trigger t i idle) pc (Called-others p idle e (λ q. cc))
          h.noticed;
    answered = λ f. inl refl;
  }

  -- A task is put into one of the queues.
  enqueue-Inv :
      (p p' : Poller) (pc : LoopPc)
      → t i ≡ idle
      → p'.wakeup_call ≡ p.wakeup_call
      → p'.pending ≡ p.pending
      → Inv p t pc
      → Inv p' (set_trigger t i to_swap) pc
  enqueue-Inv p p' pc e w q h = record {
    noticed = Called-Noticed p' (set_trigger t i to_swap) pc (inr (i, set-same to_swap));
    answered = λ f. still (Answered-others p pc to_swap e (λ q. cc) (h.answered (sym w ∙ f)));
  }
    where
      still : Answered p (set_trigger t i to_swap) pc → Answered p' (set_trigger t i to_swap) pc
      still (inl x) = inl (q ∙ x)
      still (inr x) = inr x

Step-Inv :
    {s s' : System}
    → Step s s'
    → Inv s.poller s.trigger s.loop_pc
    → Inv s'.poller s'.trigger s'.loop_pc
unfolding enqueue_urgent enqueue_async
Step-Inv {s} (triggers_urgent i t e) h =
    enqueue-Inv s.trigger i s.poller (enqueue_urgent s.poller t) s.loop_pc e refl refl h
Step-Inv {s} (triggers i t e) h =
    enqueue-Inv s.trigger i s.poller (enqueue_async s.poller t) s.loop_pc e refl refl h
Step-Inv {s} (trigger_moves i) h = trigger-Inv s.trigger i s.poller s.loop_pc (s.trigger i) refl h
Step-Inv {s} (loop_moves m) h = loop-Inv m s.poller s.trigger s.loop_pc h

init-noticed : (is_nil [] ≡ false) ⊎ (is_nil [] ≡ false) → Called open_poller (λ _. idle)
init-noticed (inl e) = absurd cc
init-noticed (inr e) = absurd cc

Reach-Inv : {s : System} → Reach s → Inv s.poller s.trigger s.loop_pc
Reach-Inv start = record { noticed = init-noticed; answered = λ e. absurd cc }
Reach-Inv (later r x) = Step-Inv x (Reach-Inv r)

-- No wake-up is lost: whenever the loop is in epoll_wait, no goroutine is inside Trigger or
-- UrgentTrigger, and a task is in one of the queues, the event descriptor is readable or the loop
-- knows that it has tasks to do. The writes of Trigger to the event descriptor do not fail with an
-- error other than EAGAIN.
pub Reach-awake :
    {s : System} {chores : Bool}
    → Reach s
    → s.loop_pc ≡ waiting chores
    → ((i : ℕ) → s.trigger i ≡ idle)
    → (is_nil s.poller.urgent_queue ≡ false) ⊎ (is_nil s.poller.async_queue ≡ false)
    → (s.poller.pending ≡ true) ⊎ (chores ≡ true)
Reach-awake {s} {chores} r at quiet some_task = ready (inv.answered called)
  where
    inv : Inv s.poller s.trigger (waiting chores)
    inv = subst (Inv s.poller s.trigger) at (Reach-Inv r)

    called : s.poller.wakeup_call ≡ true
    called = by_call (inv.noticed some_task)
      where
        by_call : Called s.poller s.trigger → s.poller.wakeup_call ≡ true
        by_call (inl e) = e
        by_call (inr (i, e)) = absurd (no_swap (sym (quiet i) ∙ e))
          where
            no_swap : idle ≡ to_swap → ⊥
            no_swap q = cc

    ready :
        Answered s.poller s.trigger (waiting chores) → (s.poller.pending ≡ true) ⊎ (chores ≡ true)
    ready (inl e) = inl e
    ready (inr (inl e)) = inr e
    ready (inr (inr (i, e))) = absurd (no_write (sym (quiet i) ∙ e))
      where
        no_write : idle ≡ to_write → ⊥
        no_write q = cc
