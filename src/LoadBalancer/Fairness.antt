-- ===== src/LoadBalancer/Fairness.antt =====
-- What the balancers promise.
use wsgnet.Prelude.{
  ℕ, zero, suc, ◌+◌, ◌%◌, ◌≤◌, ◌<◌, ◌≡◌, refl, Option, some, List, [], ◌∷◌, ◌++◌, if◌then◌else◌,
  length, get_elem?, arith, ap, sym, subst, ◌∙◌, length-append, dec_lt, ◌>>=◌, lt→ltb, le→ltb,
}
use native.Mathlib.Nat.{mod-add-mod, mod-lt, mod-eq_of_lt}
use wsgnet.Ring.Removal.{mod_once}
use wsgnet.LoadBalancer.{
  EventLoop, Loops, register, RoundRobin, round_robin_next, least_of, least_connections_next,
  hash_next,
}

-- The count is that of the event loops, and each has its place as its index.
abbrev pub HasIndices : ℕ → List EventLoop → Type 0
HasIndices n [] = Unit {0}
HasIndices n (el ∷ els) = (el.idx ≡ n) × HasIndices (n + 1) els

pub record IsRegistered (l : Loops) : Type 0 where
  pub count : l.size ≡ length l.event_loops
  pub indices : HasIndices 0 l.event_loops

HasIndices-append :
    (n : ℕ) (els : List EventLoop) (el : EventLoop)
    → HasIndices n els
    → el.idx ≡ n + length els
    → HasIndices n (els ++ el ∷ [])
HasIndices-append n [] el h e = (omega (arith, e), tt)
HasIndices-append n (v ∷ els) el (here, h) e =
    (here, HasIndices-append (n + 1) els el h (omega (arith, e)))

-- Registration gives each event loop its place as its index, and keeps the count.
pub register-IsRegistered :
    (l : Loops) (el : EventLoop) → IsRegistered l → IsRegistered (register l el)
unfolding register
register-IsRegistered l el v = record {
  count = omega (arith, v.count, length-append l.event_loops (record el { idx = l.size } ∷ []));
  indices =
      HasIndices-append 0 l.event_loops (record el { idx = l.size }) v.indices
        (omega (arith, v.count));
}

pub get_elem-some :
    {A : Type 0} (xs : List A) (i : ℕ) → i < length xs → (a : A) × (get_elem? xs i ≡ some a)
get_elem-some [] i h = absurd (omega arith)
get_elem-some (x ∷ xs) zero h = (x, refl)
get_elem-some (x ∷ xs) (suc i) h = get_elem-some xs i (omega arith)

-- The event loops that k calls of `next` give, and the balancer after them.
unfoldable pub calls : ℕ → RoundRobin → Option (List EventLoop × RoundRobin)
calls zero lb = some ([], lb)
calls (suc k) lb = do
  (el, lb') ← round_robin_next lb
  (els, lb2) ← calls k lb'
  some (el ∷ els, lb2)

round_robin_step :
    (lb : RoundRobin) (el : EventLoop)
    → lb.loops.size ≡ length lb.loops.event_loops
    → lb.next_loop_index < lb.loops.size
    → get_elem? lb.loops.event_loops lb.next_loop_index ≡ some el
    → round_robin_next lb
      ≡ some (el, record lb { next_loop_index = (lb.next_loop_index + 1) % lb.loops.size })
unfolding round_robin_next
round_robin_step lb el c h e = ground (arith, e, mod_once (lb.next_loop_index + 1) lb.loops.size)

calls_step :
    (k : ℕ) (lb lb1 lb2 : RoundRobin) (el : EventLoop) (els : List EventLoop)
    → round_robin_next lb ≡ some (el, lb1)
    → calls k lb1 ≡ some (els, lb2)
    → calls (suc k) lb ≡ some (el ∷ els, lb2)
unfolding calls
calls_step k lb lb1 lb2 el els e f = ground (arith, e, f)

calls_none : (lb : RoundRobin) → calls 0 lb ≡ some ([], lb)
unfolding calls
calls_none lb = refl

-- The event loops, one round, from a place on.
abbrev pub Serves : List EventLoop → ℕ → ℕ → List EventLoop → Type 0
Serves loops start n [] = Unit {0}
Serves loops start n (el ∷ els) =
    (get_elem? loops (start % n) ≡ some el) × Serves loops (start + 1) n els

mod_next : (a n : ℕ) → (a % n + 1) % n ≡ (a + 1) % n
mod_next a n = mod-add-mod a n 1

served :
    (k start : ℕ) (lb : RoundRobin)
    → IsRegistered lb.loops
    → 0 < lb.loops.size
    → lb.next_loop_index ≡ start % lb.loops.size
    → (els : List EventLoop) × (lb' : RoundRobin) × (calls k lb ≡ some (els, lb'))
      × (length els ≡ k)
      × Serves lb.loops.event_loops start lb.loops.size els
served zero start lb v h e = ([], lb, calls_none lb, refl, tt)
served (suc k) start lb v h e =
    let (el, found) =
      get_elem-some lb.loops.event_loops lb.next_loop_index (omega (arith, v.count, below)) in
    let after : RoundRobin = record lb {
      next_loop_index = (lb.next_loop_index + 1) % lb.loops.size;
    } in
    let (els, last, eq, count, rest) =
      served k (start + 1) after v h
        (ap (λ i. (i + 1) % lb.loops.size) e ∙ mod_next start lb.loops.size) in
    (
      el ∷ els,
      last,
      calls_step k lb after last el els (round_robin_step lb el v.count below found) eq,
      omega (arith, count),
      (ap (get_elem? lb.loops.event_loops) (sym e) ∙ found, rest),
    )
  where
    below : lb.next_loop_index < lb.loops.size
    below = omega (arith, e, mod-lt start h)

-- A round-robin balancer that has not served yet serves any number of connections, and the i-th of
-- them by the event loop at the place i modulo their number: each in turn, and no call panics.
pub round_robin-Serves :
    (k : ℕ) (l : Loops)
    → IsRegistered l
    → 0 < l.size
    → (els : List EventLoop) × (lb' : RoundRobin) × (calls k
          (record { next_loop_index = 0; loops = l })
        ≡ some (els, lb'))
      × (length els ≡ k)
      × Serves l.event_loops 0 l.size els
round_robin-Serves k l v h =
    served k 0 (record { next_loop_index = 0; loops = l }) v h
      (omega (arith, mod-eq_of_lt {n = 0} {m = l.size} h))

-- Every event loop of the list has at least n connections.
abbrev pub AllAtLeast : ℕ → List EventLoop → Type 0
AllAtLeast n [] = Unit {0}
AllAtLeast n (el ∷ els) = (n ≤ el.conn_count) × AllAtLeast n els

AllAtLeast-le : (m n : ℕ) (els : List EventLoop) → m ≤ n → AllAtLeast n els → AllAtLeast m els
AllAtLeast-le m n [] h a = tt
AllAtLeast-le m n (el ∷ els) h a = (omega (arith, a.0), AllAtLeast-le m n els h a.1)

least_of_take :
    (el v : EventLoop) (vs : List EventLoop)
    → v.conn_count < el.conn_count
    → least_of el (v ∷ vs) ≡ least_of v vs
unfolding least_of
least_of_take el v vs h =
    ap (λ b. least_of (if b then v else el) vs) (lt→ltb v.conn_count el.conn_count h)

least_of_keep :
    (el v : EventLoop) (vs : List EventLoop)
    → el.conn_count ≤ v.conn_count
    → least_of el (v ∷ vs) ≡ least_of el vs
unfolding least_of
least_of_keep el v vs h =
    ap (λ b. least_of (if b then v else el) vs) (le→ltb v.conn_count el.conn_count h)

least_of_none : (el : EventLoop) → least_of el [] ≡ el
unfolding least_of
least_of_none el = refl

-- It is one of the event loops, and none has fewer connections.
abbrev IsLeast : List EventLoop → EventLoop → Type 0
IsLeast els best = (i : ℕ) × (get_elem? els i ≡ some best) × AllAtLeast best.conn_count els

least_of-IsLeast : (el : EventLoop) (vs : List EventLoop) → IsLeast (el ∷ vs) (least_of el vs)
least_of-IsLeast el [] =
    subst (IsLeast (el ∷ [])) (sym (least_of_none el)) (0, refl, (omega arith, tt))
least_of-IsLeast el (v ∷ vs) = elim (dec_lt v.conn_count el.conn_count) [
  | yes fewer ↦
      let (i, found, all) = least_of-IsLeast v vs in
      subst (IsLeast (el ∷ v ∷ vs)) (sym (least_of_take el v vs fewer))
        (suc i, found, (omega (arith, all.0), all))
  | no more ↦
      subst (IsLeast (el ∷ v ∷ vs)) (sym (least_of_keep el v vs (omega arith)))
        (kept el v vs (omega arith) (least_of el vs) (least_of-IsLeast el vs))
]
  where
    kept :
        (el v : EventLoop) (vs : List EventLoop)
        → el.conn_count ≤ v.conn_count
        → (best : EventLoop) → IsLeast (el ∷ vs) best
        → IsLeast (el ∷ v ∷ vs) best
    kept el v vs h best (zero, found, all) = (0, found, (all.0, (omega (arith, all.0), all.1)))
    kept el v vs h best (suc i, found, all) =
        (suc (suc i), found, (all.0, (omega (arith, all.0), all.1)))

-- The least-connections balancer, with an event loop at least, gives one of them than which none has
-- fewer connections.
pub least_connections_lem :
    (l : Loops)
    → 0 < length l.event_loops
    → (best : EventLoop) × (least_connections_next l ≡ some best)
      × (i : ℕ) × (get_elem? l.event_loops i ≡ some best)
      × AllAtLeast best.conn_count l.event_loops
unfolding least_connections_next
least_connections_lem l h = of_list l.event_loops refl h
  where
    of_list :
        (els : List EventLoop)
        → l.event_loops ≡ els
        → 0 < length els
        → (best : EventLoop) × (least_connections_next l ≡ some best)
          × (i : ℕ) × (get_elem? els i ≡ some best)
          × AllAtLeast best.conn_count els
    of_list [] e h = absurd (omega arith)
    of_list (el ∷ els) e h =
        let (i, found, all) = least_of-IsLeast el els in
        (least_of el els, ground (arith, e), i, found, all)

-- The hash balancer gives the same event loop for the same address, one of those registered, and
-- does not panic.
pub hash_lem :
    {Addr : Type 0} (checksum : Addr → ℕ) (l : Loops) (addr : Addr)
    → IsRegistered l
    → 0 < l.size
    → (el : EventLoop) × (hash_next checksum l addr ≡ some el)
      × (get_elem? l.event_loops (checksum addr % l.size) ≡ some el)
unfolding hash_next
hash_lem checksum l addr v h =
    let (el, found) =
      get_elem-some l.event_loops (checksum addr % l.size)
        (omega (arith, v.count, mod-lt (checksum addr) h)) in
    (el, ground (arith, found, lt→ltb 0 l.size h), found)
