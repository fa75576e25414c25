-- ===== src/TaskQueue/Tests.antt =====
-- internal/queue/lock_free_queue.go: two goroutines, one in Enqueue and one in Dequeue.
use wsgnet.Prelude.{ℕ, List, [], ◌∷◌, ◌++◌, ◌≡◌, ◌≢◌, refl}
use wsgnet.TaskQueue.{idle, crashed, deq_head, enqueue, step, update, cas_tail, cas_head}
use wsgnet.TaskQueue.Threads.{System, init, Reach, start, later, start_enqueue, start_dequeue, move}
use wsgnet.TaskQueue.Invariant.{Holds}
use wsgnet.TaskQueue.Fifo.{Reach-fifo, Reach-never-crashed, Reach-empty}
use wsgnet.TaskQueue.Alone.{solo, Reach-alone}

abbrev begun : System
begun = record { queue = (enqueue init.queue 7).1; pc = update init.pc 0 (enqueue init.queue 7).0 }

abbrev moved : ℕ → System → System
moved i s = record {
  queue = (step s.queue (s.pc i)).2;
  pc = update s.pc i (step s.queue (s.pc i)).1;
}

-- The node of goroutine 0 is linked, and the tail not yet moved; goroutine 1 has called Dequeue.
abbrev asked : System
asked = record { queue = begun.queue; pc = update begun.pc 1 deq_head }

abbrev half_way : System
half_way = moved 0 (moved 0 (moved 0 (moved 0 asked)))

half_way_reached : Reach (7 ∷ []) [] half_way
unfolding step enqueue
half_way_reached =
    later
      (later
        (later
          (later (later (later start (start_enqueue 0 7 refl)) (start_dequeue 1 refl)) (move 0))
          (move 0))
        (move 0))
      (move 0)

Reach-fifo_example : (vs : List ℕ) × (Holds half_way.queue vs) × ([] ++ vs ≡ 7 ∷ [])
Reach-fifo_example = Reach-fifo half_way_reached

Reach-never-crashed_example : half_way.pc 1 ≢ crashed
Reach-never-crashed_example = Reach-never-crashed half_way_reached 1

Reach-alone_example : (solo 15 half_way.queue (half_way.pc 1)).0 ≡ idle
Reach-alone_example = Reach-alone half_way_reached 1

abbrev just_7 : List ℕ
just_7 = 7 ∷ []

-- The task 7 is put in and taken out, and goroutine 1 calls Dequeue again.
abbrev taken_out : System
taken_out = moved 1 (moved 1 (moved 1 (moved 1 (moved 1 (moved 1 (moved 0 (moved 0 half_way)))))))

abbrev asked_again : System
asked_again = record { queue = taken_out.queue; pc = update taken_out.pc 1 deq_head }

taken_out_reached : Reach (7 ∷ []) (7 ∷ []) taken_out
unfolding step enqueue cas_tail cas_head
taken_out_reached =
    later
      (later
        (later
          (later
            (later (later (later (later half_way_reached (move 0)) (move 0)) (move 1)) (move 1))
            (move 1))
          (move 1))
        (move 1))
      (move 1)

asked_again_reached : Reach (7 ∷ []) (7 ∷ []) (moved 1 (moved 1 asked_again))
unfolding step enqueue cas_tail cas_head
asked_again_reached =
    later (later (later taken_out_reached (start_dequeue 1 refl)) (move 1)) (move 1)

Reach-empty_example : just_7 ≡ just_7
unfolding step enqueue cas_tail cas_head
Reach-empty_example = Reach-empty asked_again_reached 1 1 1 refl refl
