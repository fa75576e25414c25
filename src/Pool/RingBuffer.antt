-- ===== src/Pool/RingBuffer.antt =====
-- pkg/pool/ringbuffer/ringbuffer.go: the pool of ring buffers, which counts the sizes that come back
-- and now and then chooses the sizes to make and to keep. One call runs at a time here; `sort` is
-- sort.Sort on the counted sizes, and `percentile` the product with 0.95 in floating point.
use wsgnet.Prelude.{
  ℕ, zero, suc, ◌+◌, ◌-◌, ◌*◌, ◌/◌, ◌^◌, Bool, false, Option, none, some, List, [], ◌∷◌, ltb, leb,
  ◌==◌, ◌||◌, if◌then◌else◌, ◌>>=◌,
}
use wsgnet.Ring.Defs.{Ring, new, reset, len, cap}

abbrev pub steps : ℕ
steps = 20

abbrev pub min_size : ℕ
min_size = 64

abbrev pub calibrate_calls_threshold : ℕ
calibrate_calls_threshold = 42000

-- The field `pool` is left out: what is put is kept, or dropped, by a sync.Pool.
pub record Pool : Type 0 where
  pub calls : ℕ → ℕ
  pub calibrating : Bool
  pub default_size : ℕ
  pub max_size : ℕ

pub record CallSize : Type 0 where
  pub calls : ℕ
  pub size : ℕ

-- The loop of `index`, on fuel: 64 rounds for an `int`.
unfoldable pub bits_above : ℕ → ℕ → ℕ
bits_above zero n = 0
bits_above (suc fuel) n = let rest = bits_above fuel (n / 2) in if ltb 0 n then suc rest else 0

-- For n = 0 the code shifts -1, which stays -1 and ends the loop at once, as 0 does.
unfoldable pub index : ℕ → ℕ
index n = let idx = bits_above 64 ((n - 1) / 2 ^ 6) in if leb steps idx then steps - 1 else idx

-- The sizes from the step i on, with their counts.
unfoldable pub counted : Pool → ℕ → ℕ → List CallSize
counted p zero i = []
counted p (suc k) i = record { calls = p.calls i; size = min_size * 2 ^ i } ∷ counted p k (i + 1)

unfoldable pub sum_calls : List CallSize → ℕ
sum_calls [] = 0
sum_calls (c ∷ cs) = c.calls + sum_calls cs

-- The loop for the largest size among those that make up the percentile.
unfoldable pub max_loop : ℕ → ℕ → ℕ → List CallSize → ℕ
max_loop max_sum sum best [] = best
max_loop max_sum sum best (c ∷ cs) =
    let rest = max_loop max_sum (sum + c.calls) (if ltb best c.size then c.size else best) cs in
    if ltb max_sum sum then best else rest

module _ (sort : List CallSize → List CallSize) (percentile : ℕ → ℕ) where
  unfoldable pub calibrate : Pool → Option Pool
  unfolding counted sum_calls max_loop
  calibrate p =
      if p.calibrating
      then some p
      else let a = counted p steps 0 in
        elim (sort a) [
          | [] ↦ none
          | first ∷ others ↦ some (record {
            calls = λ _. 0;
            calibrating = false;
            default_size = first.size;
            max_size = max_loop (percentile (sum_calls a)) 0 first.size (first ∷ others);
          })
        ]

  -- Put: the pool, and the buffer that goes to the sync.Pool, if it is kept.
  unfoldable pub put : Pool → Ring → Option (Pool × Option Ring)
  unfolding index
  put p b = do
    let counting = record p { calls = λ i. if i == index (len b) then p.calls i + 1 else p.calls i }
    p' ←
        if ltb calibrate_calls_threshold (p.calls (index (len b)) + 1)
        then calibrate counting
        else some counting
    some (p', (if p'.max_size == 0 || leb (cap b) p'.max_size then some (reset b) else none))

-- Get: what the sync.Pool gives, or a new buffer of the default size.
unfoldable pub get : Pool → Option Ring → Option Ring
get p (some b) = some b
get p none = new p.default_size
