-- ===== src/LoadBalancer.antt =====
-- load_balancer.go: which event loop serves the next connection.
use wsgnet.Prelude.{
  ℕ, zero, suc, ◌+◌, ◌%◌, Bool, true, false, Option, none, some, List, [], ◌∷◌, ◌++◌, ltb, leb,
  if◌then◌else◌, length, get_elem?, ◌>>=◌,
}
pub mod Fairness
mod Tests

-- Of an event loop: its index, and the number of its connections, which is not negative here.
pub record EventLoop : Type 0 where
  pub idx : ℕ
  pub conn_count : ℕ

-- The event loops that a balancer knows, with their number.
pub record Loops : Type 0 where
  pub event_loops : List EventLoop
  pub size : ℕ

abbrev pub no_loops : Loops
no_loops = record { event_loops = []; size = 0 }

-- `register`, the same for each balancer.
unfoldable pub register : Loops → EventLoop → Loops
register l el = record {
  event_loops = l.event_loops ++ record el { idx = l.size } ∷ [];
  size = l.size + 1;
}

-- `iterate`, the same for each balancer: f changes a state, and says whether to go on.
unfoldable pub iterate_from :
    {S : Type 0} → (ℕ → EventLoop → S → Bool × S) → ℕ → List EventLoop → S → S
iterate_from f i [] s = s
iterate_from f i (el ∷ els) s =
    let (more, s') = f i el s in
    let rest = iterate_from f (i + 1) els s' in if more then rest else s'

unfoldable pub iterate : {S : Type 0} → (ℕ → EventLoop → S → Bool × S) → Loops → S → S
iterate f l s = iterate_from f 0 l.event_loops s

-- roundRobinLoadBalancer
pub record RoundRobin : Type 0 where
  pub next_loop_index : ℕ
  pub loops : Loops

unfoldable pub round_robin_next : RoundRobin → Option (EventLoop × RoundRobin)
round_robin_next lb = do
  el ← get_elem? lb.loops.event_loops lb.next_loop_index
  some (
    el,
    record lb {
      next_loop_index =
          if leb lb.loops.size (lb.next_loop_index + 1) then 0 else lb.next_loop_index + 1;
    },
  )

-- leastConnectionsLoadBalancer: the loop of `min`, with the best event loop so far.
unfoldable pub least_of : EventLoop → List EventLoop → EventLoop
least_of el [] = el
least_of el (v ∷ vs) = least_of (if ltb v.conn_count el.conn_count then v else el) vs

unfoldable pub least_connections_next : Loops → Option EventLoop
unfolding least_of
least_connections_next l = elim l.event_loops [ [] ↦ none | el ∷ els ↦ some (least_of el els) ]

-- sourceAddrHashLoadBalancer: `checksum` is crc32.ChecksumIEEE of an address, a number of 32 bits
-- that an `int` of 64 bits holds as it is, so that `hash` never changes its sign.
unfoldable pub hash_next : {Addr : Type 0} → (Addr → ℕ) → Loops → Addr → Option EventLoop
hash_next checksum l addr =
    if ltb 0 l.size then get_elem? l.event_loops (checksum addr % l.size) else none
