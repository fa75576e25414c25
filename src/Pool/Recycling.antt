-- ===== src/Pool/Recycling.antt =====
-- pkg/pool/ringbuffer: what the pool keeps and gives is a well-formed buffer that holds nothing, and
-- calibration keeps its sizes in order.
use wsgnet.Prelude.{
  ℕ, suc, ◌+◌, ◌≤◌, ◌<◌, ◌^◌, ◌≡◌, ◌≢◌, ◌⊎◌, inl, inr, refl, true, false, Option, none, some, List,
  [], ◌∷◌, leb, ◌==◌, ◌||◌, if◌then◌else◌, arith, subst, sym, Bool-cases, dec_lt, lt→ltb, le→ltb,
}
use wsgnet.Ring.Defs.{Ring, reset, len, cap}
use wsgnet.Ring.Contents.{IsValid}
use wsgnet.Ring.Removal.{reset-IsValid}
use wsgnet.Ring.Making.{new_lem}
use wsgnet.Elastic.Held.{IsPooled}
use wsgnet.Pool.RingBuffer.{
  Pool, CallSize, counted, sum_calls, max_loop, calibrate, put, get, index,
}

-- Get gives a well-formed buffer that holds nothing, where what the sync.Pool gives is one: it is
-- what the elastic buffers take from the pool.
pub get-IsPooled :
    (p : Pool) (found : Option Ring)
    → (found ≡ none) ⊎ ((b : Ring) × (found ≡ some b) × IsPooled b)
    → p.default_size ≤ 2 ^ 62
    → (b : Ring) × (get p found ≡ some b) × IsPooled b
unfolding get
get-IsPooled p none h k =
    let (b, eq, valid, nothing, _) = new_lem p.default_size k in (b, eq, (valid, nothing))
get-IsPooled p (some b) h k = (b, refl, kept h)
  where
    kept : (some b ≡ none) ⊎ ((c : Ring) × (some b ≡ some c) × IsPooled c) → IsPooled b
    kept (inl e) = cc
    kept (inr (c, e, pooled)) = subst IsPooled (sym (same e)) pooled
      where
        same : some b ≡ some c → b ≡ c
        same e = cc

max_loop-ge : (max_sum sum best : ℕ) (cs : List CallSize) → best ≤ max_loop max_sum sum best cs
unfolding max_loop
max_loop-ge max_sum sum best [] = omega arith
max_loop-ge max_sum sum best (c ∷ cs) = ground (
  arith,
  max_loop-ge max_sum (sum + c.calls) c.size cs,
  max_loop-ge max_sum (sum + c.calls) best cs,
)

-- The size of new buffers is within that of the buffers that are kept.
abbrev pub IsOrdered : Pool → Type 0
IsOrdered p = p.default_size ≤ p.max_size

counted-some : (p : Pool) (k i : ℕ) → counted p (suc k) i ≢ []
unfolding counted
counted-some p k i e = cc

module _ (sort : List CallSize → List CallSize) (percentile : ℕ → ℕ) where
  calibrate-eq :
      (p : Pool) (first : CallSize) (others : List CallSize)
      → p.calibrating ≡ false
      → sort (counted p 20 0) ≡ first ∷ others
      → calibrate sort percentile p
        ≡ some (record {
          calls = λ _. 0;
          calibrating = false;
          default_size = first.size;
          max_size =
              max_loop (percentile (sum_calls (counted p 20 0))) 0 first.size (first ∷ others);
        })
  unfolding calibrate
  calibrate-eq p first others e f = ground (arith, e, f)

  calibrate-busy : (p : Pool) → p.calibrating ≡ true → calibrate sort percentile p ≡ some p
  unfolding calibrate
  calibrate-busy p e = ground (arith, e)

  calibrate-IsOrdered :
      (p : Pool)
      → ((cs : List CallSize) → sort cs ≡ [] → cs ≡ [])
      → IsOrdered p
      → (p' : Pool) × (calibrate sort percentile p ≡ some p') × IsOrdered p'
  calibrate-IsOrdered p keeps v = elim (Bool-cases p.calibrating) [
    | inl busy ↦ (p, calibrate-busy p busy, v)
    | inr idle ↦ go (sort (counted p 20 0)) refl idle
  ]
    where
      go :
          (cs : List CallSize)
          → sort (counted p 20 0) ≡ cs
          → p.calibrating ≡ false
          → (p' : Pool) × (calibrate sort percentile p ≡ some p') × IsOrdered p'
      go [] e idle = absurd (counted-some p 19 0 (keeps (counted p 20 0) e))
      go (first ∷ others) e idle = (
        _,
        calibrate-eq p first others idle e,
        max_loop-ge (percentile (sum_calls (counted p 20 0))) 0 first.size (first ∷ others),
      )

  -- The pool with one more buffer of b's size counted.
  counting : Pool → Ring → Pool
  counting p b = record p { calls = λ i. if i == index (len b) then p.calls i + 1 else p.calls i }

  kept_of : Pool → Ring → Option Ring
  kept_of p b = if p.max_size == 0 || leb (cap b) p.max_size then some (reset b) else none

  still : (p : Pool) (b : Ring) → IsOrdered p → IsOrdered (counting p b)
  unfolding counting
  still p b h = h

  put-quiet :
      (p : Pool) (b : Ring)
      → p.calls (index (len b)) + 1 ≤ 42000
      → put sort percentile p b ≡ some (counting p b, kept_of (counting p b) b)
  unfolding put counting kept_of
  put-quiet p b h = ground (arith, le→ltb 42000 (p.calls (index (len b)) + 1) h)

  put-calibrated :
      (p p' : Pool) (b : Ring)
      → 42000 < p.calls (index (len b)) + 1
      → calibrate sort percentile (counting p b) ≡ some p'
      → put sort percentile p b ≡ some (p', kept_of p' b)
  unfolding put counting kept_of
  put-calibrated p p' b h e = ground (arith, e, lt→ltb 42000 (p.calls (index (len b)) + 1) h)

  kept_of-IsPooled :
      (p : Pool) (b : Ring)
      → IsValid b
      → (kept_of p b ≡ none) ⊎ ((c : Ring) × (kept_of p b ≡ some c) × IsPooled c)
  unfolding kept_of
  kept_of-IsPooled p b v = elim (Bool-cases (p.max_size == 0 || leb (cap b) p.max_size)) [
    | inl e ↦ inr (reset b, ground (arith, e), reset-IsValid v)
    | inr e ↦ inl (ground (arith, e))
  ]

  -- Put does not panic, and keeps the default size within the largest size that is kept; what it
  -- hands to the sync.Pool, if anything, is well-formed and holds nothing. Sorting loses no size.
  pub put-IsPooled :
      (p : Pool) (b : Ring)
      → ((cs : List CallSize) → sort cs ≡ [] → cs ≡ [])
      → IsOrdered p
      → IsValid b
      → (p' : Pool) × (kept : Option Ring) × (put sort percentile p b ≡ some (p', kept))
        × IsOrdered p'
        × ((kept ≡ none) ⊎ ((c : Ring) × (kept ≡ some c) × IsPooled c))
  put-IsPooled p b keeps ordered v = elim (dec_lt 42000 (p.calls (index (len b)) + 1)) [
    | yes due ↦
        let (p', eq, ordered') = calibrate-IsOrdered (counting p b) keeps (still p b ordered) in
        (p', kept_of p' b, put-calibrated p p' b due eq, ordered', kept_of-IsPooled p' b v)
    | no quiet ↦ (
      counting p b,
      kept_of (counting p b) b,
      put-quiet p b (omega arith),
      still p b ordered,
      kept_of-IsPooled (counting p b) b v,
    )
  ]
