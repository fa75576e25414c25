-- ===== src/Poller/Tests.antt =====
-- internal/netpoll/epoll_default_poller.go: runs at concrete states.
use wsgnet.Prelude.{suc, ◌+◌, ◌≡◌, ◌⊎◌, inr, refl, true, false, [], ◌∷◌, arith}
use wsgnet.Poller.{
  Poller, idle, to_swap, to_write, waiting, urgent_tasks, storing, enqueue_async, trigger_step,
}
use wsgnet.Poller.EventList.{resized, Fitting, resized-Fitting}
use wsgnet.Poller.Threads.{System, set_trigger, triggers, trigger_moves, Reach, start, later}
use wsgnet.Poller.Wakeup.{Reach-awake}
use wsgnet.Poller.Chores.{alone, chores_lem}

-- One goroutine has called Trigger with the task 7.
abbrev triggered : System
triggered = record {
  poller = record { wakeup_call = true; pending = true; urgent_queue = []; async_queue = 7 ∷ [] };
  loop_pc = waiting false;
  trigger = set_trigger (set_trigger (set_trigger (λ _. idle) 0 to_swap) 0 to_write) 0 idle;
}

triggered_reached : Reach triggered
unfolding trigger_step enqueue_async
triggered_reached =
    later (later (later start (triggers 0 7 refl)) (trigger_moves 0)) (trigger_moves 0)

Reach-awake_example : (true ≡ true) ⊎ (false ≡ true)
Reach-awake_example = Reach-awake triggered_reached refl (λ i. ground arith) (inr refl)

abbrev busy : Poller
busy = record {
  wakeup_call = true;
  pending = false;
  urgent_queue = 1 ∷ 2 ∷ [];
  async_queue = 3 ∷ [];
}

chores_lem_example :
    alone (suc (2 + suc 1)) (urgent_tasks, busy)
    ≡ (storing, record busy { urgent_queue = []; async_queue = [] })
chores_lem_example = chores_lem busy

resized-Fitting_example : Fitting (resized (128 ∷ 256 ∷ 3 ∷ []) 128)
resized-Fitting_example = resized-Fitting (128 ∷ 256 ∷ 3 ∷ []) 128 (omega arith, omega arith)
