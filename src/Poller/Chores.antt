-- ===== src/Poller/Chores.antt =====
-- internal/netpoll/epoll_default_poller.go: what the loop does with the tasks once it is awake.
use wsgnet.Prelude.{
  ℕ, zero, suc, ◌+◌, ◌≤◌, ◌<◌, ◌≡◌, refl, ap, ◌∙◌, false, List, [], ◌∷◌, arith, length, drop, min,
}
use wsgnet.Poller.{Poller, LoopPc, urgent_tasks, async_tasks, storing, Met, loop_step}

-- Nothing happens: no event, no error.
abbrev pub calm : Met
calm = record { awake = false; shutdown = false; failed = false }

-- A number of steps of the loop, with no goroutine that triggers in between.
pub alone : ℕ → LoopPc × Poller → LoopPc × Poller
alone zero r = r
alone (suc k) r = alone k (loop_step calm r.1 r.0)

async-step :
    (p : Poller) (i t : ℕ) (ts : List ℕ)
    → i < 256
    → loop_step calm (record p { async_queue = t ∷ ts }) (async_tasks i)
      ≡ (async_tasks (suc i), record p { async_queue = ts })
unfolding loop_step
async-step p i t ts h = ground arith

async-full : (p : Poller) (i : ℕ) → 256 ≤ i → loop_step calm p (async_tasks i) ≡ (storing, p)
unfolding loop_step
async-full p i h = ground arith

async-empty :
    (p : Poller) (i : ℕ)
    → loop_step calm (record p { async_queue = [] }) (async_tasks i)
      ≡ (storing, record p { async_queue = [] })
unfolding loop_step
async-empty p i = ground arith

async_lem :
    (d i k : ℕ) (p : Poller) (ts : List ℕ)
    → d + i ≡ 256
    → k ≡ min d (length ts)
    → alone (suc k) (async_tasks i, record p { async_queue = ts })
      ≡ (storing, record p { async_queue = drop d ts })
unfolding alone
async_lem zero i (suc k) p ts h e = absurd (omega arith)
async_lem zero i zero p ts h e = async-full (record p { async_queue = ts }) i (omega arith)
async_lem (suc d) i (suc k) p [] h e = absurd (omega arith)
async_lem (suc d) i zero p [] h e = async-empty p i
async_lem (suc d) i zero p (t ∷ ts) h e = absurd (omega arith)
async_lem (suc d) i (suc k) p (t ∷ ts) h e =
    ap (alone (suc k)) (async-step p i t ts (omega arith))
    ∙ async_lem d (suc i) k p ts (omega arith) (omega arith)

urgent_lem :
    (k n : ℕ) (p : Poller) (us : List ℕ)
    → k ≡ length us
    → alone (suc (k + n)) (urgent_tasks, record p { urgent_queue = us })
      ≡ alone n (async_tasks 0, record p { urgent_queue = [] })
unfolding alone loop_step
urgent_lem zero n p [] e =
    ap (λ j. alone j (async_tasks 0, record p { urgent_queue = [] })) zero_plus
  where
    zero_plus : 0 + n ≡ n
    zero_plus = omega arith
urgent_lem zero n p (u ∷ us) e = absurd (omega arith)
urgent_lem (suc k) n p [] e = absurd (omega arith)
urgent_lem (suc k) n p (u ∷ us) e =
    ap (λ j. alone j (urgent_tasks, record p { urgent_queue = us })) suc_plus
    ∙ urgent_lem k n p us (omega arith)
  where
    suc_plus : suc k + n ≡ suc (k + n)
    suc_plus = omega arith

-- Once the loop is awake, and no task ends it, it takes every urgent task, and then up to 256 of the
-- others, before it looks at anything else: it takes one step for each and two more, in which
-- nothing else is triggered.
pub chores_lem :
    (p : Poller)
    → let k = length p.urgent_queue in
      let n = min 256 (length p.async_queue) in
      alone (suc (k + suc n)) (urgent_tasks, p)
      ≡ (storing, record p { urgent_queue = []; async_queue = drop 256 p.async_queue })
chores_lem p =
    urgent_lem (length p.urgent_queue) (suc (min 256 (length p.async_queue))) p p.urgent_queue refl
    ∙ async_lem 256 0 (min 256 (length p.async_queue)) (record p { urgent_queue = [] })
        p.async_queue refl refl
