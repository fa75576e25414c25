-- ===== src/LoadBalancer/Tests.antt =====
-- Runs of the balancers at concrete inputs, and their theorems applied to them.
use wsgnet.Prelude.{ℕ, ◌+◌, ◌≡◌, refl, some, List, [], ◌∷◌, length, get_elem?, arith}
use wsgnet.LoadBalancer.{EventLoop, Loops, RoundRobin, least_connections_next}
use wsgnet.LoadBalancer.Fairness.{
  IsRegistered, calls, Serves, round_robin-Serves, AllAtLeast, least_connections_lem,
}

-- Two event loops, of 5 and of 3 connections.
abbrev two : Loops
two = record {
  event_loops = record { idx = 0; conn_count = 5 } ∷ record { idx = 1; conn_count = 3 } ∷ [];
  size = 2;
}

two-IsRegistered : IsRegistered two
two-IsRegistered = record { count = refl; indices = (refl, (refl, tt)) }

abbrev third : EventLoop
third = record { idx = 0; conn_count = 0 }

round_robin-Serves_example :
    (els : List EventLoop) × (lb : RoundRobin) × (calls 5
        (record { next_loop_index = 0; loops = two })
      ≡ some (els, lb))
    × (length els ≡ 5)
    × Serves two.event_loops 0 2 els
round_robin-Serves_example = round_robin-Serves 5 two two-IsRegistered (omega arith)

least_connections_lem_example :
    (best : EventLoop) × (least_connections_next two ≡ some best)
    × (i : ℕ) × (get_elem? two.event_loops i ≡ some best)
    × AllAtLeast best.conn_count two.event_loops
least_connections_lem_example = least_connections_lem two (omega arith)

abbrev checksum : ℕ → ℕ
checksum addr = addr + 7
