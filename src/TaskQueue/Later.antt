-- ===== src/TaskQueue/Later.antt =====
-- internal/queue/lock_free_queue.go: what a goroutine knows stays true while others move.
use wsgnet.Prelude.{
  ℕ, zero, suc, ◌+◌, ◌-◌, ◌≤◌, ◌<◌, none, some, List, [], ◌∷◌, ◌++◌, ◌≡◌, refl, ap, subst, arith,
}
use wsgnet.TaskQueue.{
  Queue, Pc, idle, enq_tail, enq_next, enq_check, enq_link, enq_swing, enq_count, enq_help,
  deq_head, deq_tail, deq_next, deq_check, deq_help, deq_swing, deq_count, crashed,
}
use wsgnet.TaskQueue.Invariant.{
  Nodes, IsLinked, IsOwn, Passed, Followed, Spanned, SpannedBy, Swinging, Knows, own_node,
}

-- The values of f from i on, n of them.
abbrev pub window : (ℕ → ℕ) → ℕ → ℕ → List ℕ
window f i zero = []
window f i (suc n) = f i ∷ window f (suc i) n

pub window-eq :
    (f f' : ℕ → ℕ) (i n : ℕ) → ((k : ℕ) → k < i + n → f' k ≡ f k) → window f' i n ≡ window f i n
window-eq f f' i zero h = refl
window-eq f f' i (suc n) h =
    cc (h i (omega arith), window-eq f f' (suc i) n (λ k b. h k (omega arith)))

pub window-snoc : (f : ℕ → ℕ) (i n : ℕ) → window f i (suc n) ≡ window f i n ++ (f (i + n) ∷ [])
window-snoc f i zero = ap (λ k. f k ∷ []) plus-zero
  where
    plus-zero : i ≡ i + 0
    plus-zero = omega arith
window-snoc f i (suc n) = cc (window-snoc f (suc i) n, plus-suc)
  where
    plus-suc : suc i + n ≡ i + suc n
    plus-suc = omega arith

pub window-uncons :
    (f : ℕ → ℕ) (i : ℕ) {n m : ℕ} → n ≡ suc m → window f i n ≡ f i ∷ window f (suc i) m
window-uncons f i e = ap (window f i) e

-- The tasks in the queue.
abbrev pub contents : Queue → Nodes → List ℕ
contents q g = window (λ k. q.value (g.at k)) (suc g.hd) (g.last - g.hd)

-- What only grows.
pub record Later (q : Queue) (g : Nodes) (q' : Queue) (g' : Nodes) : Type 0 where
  pub last : g.last ≤ g'.last
  pub hd : g.hd ≤ g'.hd
  pub tl : g.tl ≤ g'.tl
  pub same : (k : ℕ) → k ≤ g.last → g'.at k ≡ g.at k
  pub values : (n : ℕ) → n < q.fresh → q'.value n ≡ q.value n

module _ {q q' : Queue} {g g' : Nodes} (r : Later q g q' g') (w : IsLinked q g) where
  Passed-later : {n : ℕ} → Passed g n → Passed g' n
  Passed-later k = record {
    place = k.place;
    bound = omega (arith, k.bound, r.tl);
    is_at = cc (r.same k.place (omega (arith, k.bound, w.within)), k.is_at);
  }

  Followed-later : {n m : ℕ} → Followed g n m → Followed g' n m
  Followed-later k = record {
    place = k.place;
    bound = omega (arith, k.bound, r.tl);
    more = omega (arith, k.more, r.last);
    is_at = cc (r.same k.place (omega (arith, k.more)), k.is_at);
    then_at = cc (r.same (suc k.place) (omega (arith, k.more)), k.then_at);
  }

  Spanned-later : {h t : ℕ} → Spanned g h t → Spanned g' h t
  Spanned-later k = record {
    place = k.place;
    place' = k.place';
    reached = omega (arith, k.reached, r.hd);
    span = k.span;
    bound = omega (arith, k.bound, r.tl);
    is_at = cc (r.same k.place (omega (arith, k.span, k.bound, w.within)), k.is_at);
    is_at' = cc (r.same k.place' (omega (arith, k.bound, w.within)), k.is_at');
  }

  SpannedBy-later : {h t m : ℕ} → SpannedBy g h t m → SpannedBy g' h t m
  unfolding Spanned-later
  SpannedBy-later k = record {
    spanned = Spanned-later k.spanned;
    more = omega (arith, k.more, r.last);
    then_at = cc (r.same (suc k.spanned.place) k.more, k.then_at);
  }

  Swinging-later : {h m v : ℕ} → Swinging q g h m v → Swinging q' g' h m v
  Swinging-later {h} {m} {v} k = record {
    place = k.place;
    bound = omega (arith, k.bound, r.tl);
    is_at = cc (r.same k.place (omega (arith, k.bound, w.within)), k.is_at);
    then_at = cc (r.same (suc k.place) next_below, k.then_at);
    is_value = cc (
      r.values m (subst (λ n. n < q.fresh) k.then_at (w.made (suc k.place) next_below)),
      k.is_value,
    );
  }
    where
      next_below : suc k.place ≤ g.last
      next_below = omega (arith, k.bound, w.within)

  -- What a goroutine knows stays true while another one moves.
  pub Knows-later :
      (pc : Pc)
      → ((n : ℕ) → own_node pc ≡ some n → IsOwn q g n → IsOwn q' g' n)
      → Knows q g pc
      → Knows q' g' pc
  Knows-later idle own k = tt
  Knows-later (enq_tail n) own k = own n refl k
  Knows-later (enq_next n t) own (o, k) = (own n refl o, Passed-later k)
  Knows-later (enq_check n t none) own (o, k) = (own n refl o, Passed-later k)
  Knows-later (enq_check n t (some m)) own (o, k) = (own n refl o, Followed-later k)
  Knows-later (enq_link n t) own (o, k) = (own n refl o, Passed-later k)
  Knows-later (enq_swing n t) own k = Followed-later k
  Knows-later enq_count own k = tt
  Knows-later (enq_help n t m) own (o, k) = (own n refl o, Followed-later k)
  Knows-later deq_head own k = tt
  Knows-later (deq_tail h) own (j, b, e) =
      (j, omega (arith, b, r.hd), cc (r.same j (omega (arith, b, w.ordered, w.within)), e))
  Knows-later (deq_next h t) own k = Spanned-later k
  Knows-later (deq_check h t none) own k = k
  Knows-later (deq_check h t (some m)) own k = SpannedBy-later k
  Knows-later (deq_help t m) own k = Followed-later k
  Knows-later (deq_swing h m v) own k = Swinging-later k
  Knows-later (deq_count v) own k = tt
  Knows-later crashed own k = k
