-- ===== src/Poller/EventList.antt =====
-- internal/netpoll/epoll_events.go: the list of events that epoll_wait fills, by its size.
use wsgnet.Prelude.{ℕ, ◌*◌, ◌/◌, ◌≤◌, List, [], ◌∷◌, leb, ltb, ◌==◌, if◌then◌else◌, arith}

abbrev pub init_poll_events_cap : ℕ
init_poll_events_cap = 128

abbrev pub max_poll_events_cap : ℕ
max_poll_events_cap = 1024

abbrev pub min_poll_events_cap : ℕ
min_poll_events_cap = 32

-- `size << 1` and `size >> 1`
unfoldable pub expand : ℕ → ℕ
expand size = if leb (size * 2) max_poll_events_cap then size * 2 else size

unfoldable pub shrink : ℕ → ℕ
shrink size = if leb min_poll_events_cap (size / 2) then size / 2 else size

-- The end of a round of Polling, after n events.
unfoldable pub resize : ℕ → ℕ → ℕ
unfolding expand shrink
resize size n =
    if ltb 0 n
    then (if n == size then expand size else if ltb n (size / 2) then shrink size else size)
    else size

-- The sizes after rounds with these numbers of events.
abbrev pub resized : List ℕ → ℕ → ℕ
resized [] size = size
resized (n ∷ ns) size = resized ns (resize size n)

abbrev pub Fitting : ℕ → Type 0
Fitting size = (min_poll_events_cap ≤ size) × (size ≤ max_poll_events_cap)

resize-Fitting : (size n : ℕ) → Fitting size → Fitting (resize size n)
unfolding resize expand shrink
resize-Fitting size n (a, b) = (ground arith, ground arith)

-- However many events each round of the loop gives, the list of events has room for 32 at least and
-- for 1024 at most, if it had before.
pub resized-Fitting : (ns : List ℕ) (size : ℕ) → Fitting size → Fitting (resized ns size)
resized-Fitting [] size h = h
resized-Fitting (n ∷ ns) size h = resized-Fitting ns (resize size n) (resize-Fitting size n h)
