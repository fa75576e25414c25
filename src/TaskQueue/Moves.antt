-- ===== src/TaskQueue/Moves.antt =====
-- internal/queue/lock_free_queue.go: a step of one goroutine keeps the nodes in order, and changes
-- the tasks in the queue by what it shows.
use wsgnet.Prelude.{
  ℕ, suc, ◌+◌, ◌-◌, ◌≤◌, ◌<◌, Option, none, some, [], ◌∷◌, ◌++◌, ◌≡◌, ◌≢◌, refl, ap, ap₂, sym,
  subst, ◌∙◌, ◌≡⟨◌⟩◌, ◌∎, dec_lt, arith, ℕ_discrete, append-nil, ◌⊎◌, inl,
}
use wsgnet.TaskQueue.{Queue, Pc, enq_link, enq_swing, Label, cas_tail, update}
use Label.{quiet, linked, taken}
use wsgnet.TaskQueue.Threads.{put, got}
use wsgnet.TaskQueue.Invariant.{Nodes, IsLinked, IsOwn, Passed, Followed, Swinging, Knows, own_node}
use wsgnet.TaskQueue.Later.{Later, contents, window, window-uncons, window-eq, window-snoc}

-- A step from pc to pc' that shows l: it keeps the order and the nodes that others have made, and
-- the tasks change by l. A node it has afterwards is its own from before or new.
pub record Moved (q : Queue) (g : Nodes) (pc : Pc) (l : Label) (pc' : Pc) (q' : Queue)
    : Type 0 where
  pub nodes : Nodes
  pub is_linked : IsLinked q' nodes
  pub knows : Knows q' nodes pc'
  pub later : Later q g q' nodes
  pub apart : (n : ℕ) → own_node pc ≢ some n → IsOwn q g n → IsOwn q' nodes n
  pub own : (n : ℕ) → own_node pc' ≡ some n → (own_node pc ≡ some n) ⊎ (q.fresh ≤ n)
  pub fifo : got l ++ contents q' nodes ≡ contents q g ++ put l

pub Later-refl : (q : Queue) (g : Nodes) → Later q g q g
Later-refl q g = record {
  last = omega arith;
  hd = omega arith;
  tl = omega arith;
  same = λ k _. refl;
  values = λ n _. refl;
}

cas_tail-swings : (q : Queue) {t : ℕ} (m : ℕ) → q.tail ≡ t → cas_tail q t m ≡ record q { tail = m }
unfolding cas_tail
cas_tail-swings q m e = ground arith

cas_tail-stays : (q : Queue) {t : ℕ} (m : ℕ) → q.tail ≢ t → cas_tail q t m ≡ q
unfolding cas_tail
cas_tail-stays q m ne = ground arith

module _ {q : Queue} {g : Nodes} (w : IsLinked q g) (pc : Pc) where
  -- Nothing but the goroutine's own place has changed.
  pub stays :
      (pc' : Pc)
      → Knows q g pc'
      → ((n : ℕ) → own_node pc' ≡ some n → own_node pc ≡ some n)
      → Moved q g pc quiet pc' q
  stays pc' k own = record {
    nodes = g;
    is_linked = w;
    knows = k;
    later = Later-refl q g;
    apart = λ n _ o. o;
    own = λ n e. inl (own n e);
    fifo = sym (append-nil (contents q g));
  }

  -- The tail moves on to the node behind it, if it is still there.
  pub tail_moves :
      (pc' : Pc) {t m : ℕ}
      → Followed g t m
      → ((q' : Queue) (g' : Nodes) → ((n : ℕ) → IsOwn q g n → IsOwn q' g' n) → Knows q' g' pc')
      → ((n : ℕ) → own_node pc' ≡ some n → own_node pc ≡ some n)
      → Moved q g pc quiet pc' (cas_tail q t m)
  tail_moves pc' {t} {m} f k own = elim (ℕ_discrete q.tail t) [
    | yes e ↦ subst (Moved q g pc quiet pc') (sym (cas_tail-swings q m e)) (record {
      nodes = record g { tl = suc f.place };
      is_linked = record {
        head_at = w.head_at;
        tail_at = f.then_at;
        ordered = omega (arith, w.ordered, at_tail e);
        within = f.more;
        lag = omega (arith, w.lag, at_tail e);
        linked = w.linked;
        ended = w.ended;
        distinct = w.distinct;
        made = w.made;
      };
      knows = k (record q { tail = m }) (record g { tl = suc f.place }) own_kept;
      later = record {
        last = omega arith;
        hd = omega arith;
        tl = omega (arith, at_tail e);
        same = λ k _. refl;
        values = λ n _. refl;
      };
      apart = λ n _ o. own_kept n o;
      own = λ n e. inl (own n e);
      fifo = sym (append-nil (contents q g));
    })
    | no ne ↦
        subst (Moved q g pc quiet pc') (sym (cas_tail-stays q m ne))
          (stays pc' (k q g (λ n o. o)) own)
  ]
    where
      own_kept :
          (n : ℕ) → IsOwn q g n → IsOwn (record q { tail = m }) (record g { tl = suc f.place }) n
      own_kept n o = record { old = o.old; apart = o.apart; single = o.single }

      at_tail : q.tail ≡ t → f.place ≡ g.tl
      at_tail e =
          w.distinct f.place g.tl (omega (arith, f.more)) w.within (cc (e, f.is_at, w.tail_at))

  -- The head moves on to the node behind it: the task in that node is taken.
  pub head_moves :
      (pc' : Pc) {h m v : ℕ}
      → Swinging q g h m v
      → q.head ≡ h
      → ((q' : Queue) (g' : Nodes) → Knows q' g' pc')
      → ((n : ℕ) → own_node pc' ≡ some n → own_node pc ≡ some n)
      → Moved q g pc (taken v) pc' (record q { head = m })
  head_moves pc' {h} {m} {v} f e k own = record {
    nodes = record g { hd = suc f.place };
    is_linked = record {
      head_at = f.then_at;
      tail_at = w.tail_at;
      ordered = f.bound;
      within = w.within;
      lag = w.lag;
      linked = w.linked;
      ended = w.ended;
      distinct = w.distinct;
      made = w.made;
    };
    knows = k _ _;
    later = record {
      last = omega arith;
      hd = omega (arith, at_head);
      tl = omega arith;
      same = λ k _. refl;
      values = λ n _. refl;
    };
    apart = λ n _ o. record { old = o.old; apart = o.apart; single = o.single };
    own = λ n e. inl (own n e);
    fifo = sym (append-nil (contents q g) ∙ contents_split);
  }
    where
      at_head : f.place ≡ g.hd
      at_head =
          w.distinct f.place g.hd (omega (arith, f.bound, w.within))
            (omega (arith, w.ordered, w.within)) (cc (e, f.is_at, w.head_at))

      contents_split :
          contents q g ≡ v ∷ contents (record q { head = m }) (record g { hd = suc f.place })
      contents_split =
          contents q g
          ≡⟨ window-uncons _ (suc g.hd) (omega (arith, at_head, f.bound, w.within)) ⟩
            q.value (g.at (suc g.hd))
            ∷ window (λ k. q.value (g.at k)) (suc (suc g.hd)) (g.last - suc f.place)
          ≡⟨ cc (at_head, f.then_at, f.is_value) ⟩
            v ∷ contents (record q { head = m }) (record g { hd = suc f.place }) ∎

  -- A node is linked behind the last one.
  pub links :
      {n t : ℕ}
      → pc ≡ enq_link n t
      → IsOwn q g n
      → Passed g t
      → q.next t ≡ none
      → Moved q g pc
          (linked (q.value n))
          (enq_swing n t)
          (record q { next = update q.next t (some n) })
  links {n} {t} here o p e = record {
    nodes = record g { at = at'; last = suc g.last };
    is_linked = record {
      head_at = cc (at_old g.hd (omega (arith, w.ordered, w.within)), w.head_at);
      tail_at = cc (at_old g.tl w.within, w.tail_at);
      ordered = w.ordered;
      within = omega (arith, w.within);
      lag = omega (arith, at_last, p.bound);
      linked = next_linked;
      ended = end_single;
      distinct = at-distinct;
      made = at-made;
    };
    knows = record {
      place = p.place;
      bound = p.bound;
      more = omega (arith, at_last);
      is_at = cc (at_old p.place (omega (arith, at_last)), p.is_at);
      then_at = ground (arith, at_last);
    };
    later = record {
      last = omega arith;
      hd = omega arith;
      tl = omega arith;
      same = at_old;
      values = λ n _. refl;
    };
    apart = λ m ne a. record { old = a.old; apart = at-apart m ne a; single = next-single m ne a };
    own = λ m q. absurd cc;
    fifo = contents_grow;
  }
    where
      at' : ℕ → ℕ
      at' = update g.at (suc g.last) n

      next' : ℕ → Option ℕ
      next' = update q.next t (some n)

      at_last : p.place ≡ g.last
      at_last = elim (dec_lt p.place g.last) [
        | yes b ↦ absurd (cc (w.linked p.place b, p.is_at, e))
        | no nb ↦ omega (arith, p.bound, w.within)
      ]

      at_t : g.at g.last ≡ t
      at_t = subst (λ k. g.at k ≡ t) at_last p.is_at

      at_old : (k : ℕ) → k ≤ g.last → at' k ≡ g.at k
      at_old k b = ground arith

      at-distinct : (j k : ℕ) → j ≤ suc g.last → k ≤ suc g.last → at' j ≡ at' k → j ≡ k
      at-distinct j k b c q = ground (arith, w.distinct j k, o.apart j, o.apart k)

      next_linked : (k : ℕ) → k < suc g.last → next' (at' k) ≡ some (at' (suc k))
      next_linked k b = elim (ℕ_discrete k g.last) [
        | yes f ↦ ground (arith, at_t, o.apart g.last)
        | no f ↦ ground (arith, at_t, w.linked k, w.distinct k g.last)
      ]

      end_single : next' (at' (suc g.last)) ≡ none
      end_single = ground (arith, at_t, o.apart g.last, o.single)

      at-made : (k : ℕ) → k ≤ suc g.last → at' k < q.fresh
      at-made k b = ground (arith, w.made k, o.old)

      other : (m : ℕ) → own_node pc ≢ some m → n ≢ m
      other m ne e = ne (cc (here, e))

      at-apart : (m : ℕ) → own_node pc ≢ some m → IsOwn q g m → (k : ℕ) → k ≤ suc g.last → at' k ≢ m
      at-apart m ne a k b = ground (arith, other m ne, a.apart k)

      next-single : (m : ℕ) → own_node pc ≢ some m → IsOwn q g m → next' m ≡ none
      next-single m ne a = ground (arith, at_t, a.apart g.last, a.single)

      at_new : at' (suc g.hd + (g.last - g.hd)) ≡ n
      at_new = ground (arith, w.ordered, w.within)

      one_more : suc g.last - g.hd ≡ suc (g.last - g.hd)
      one_more = omega (arith, w.ordered, w.within)

      contents_grow :
          window (λ k. q.value (at' k)) (suc g.hd) (suc g.last - g.hd)
          ≡ contents q g ++ (q.value n ∷ [])
      contents_grow =
          window (λ k. q.value (at' k)) (suc g.hd) (suc g.last - g.hd)
          ≡⟨ ap (window _ _) one_more ⟩
            window (λ k. q.value (at' k)) (suc g.hd) (suc (g.last - g.hd))
          ≡⟨ window-snoc _ _ _ ⟩
            window (λ k. q.value (at' k)) (suc g.hd) (g.last - g.hd)
            ++ (q.value (at' (suc g.hd + (g.last - g.hd))) ∷ [])
          ≡⟨ ap₂ (λ vs v. vs ++ (v ∷ []))
              (window-eq _ _ _ _ (λ k b. ap q.value (at_old k (omega arith)))) (ap q.value at_new) ⟩
            contents q g ++ (q.value n ∷ []) ∎
