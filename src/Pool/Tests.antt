-- ===== src/Pool/Tests.antt =====
-- The theorems of the pools, at concrete inputs.
use wsgnet.Prelude.{ℕ, ◌≡◌, ◌⊎◌, refl, false, Option, none, some, List, [], ◌∷◌, arith}
use wsgnet.Ring.Defs.{Ring}
use wsgnet.Ring.Contents.{IsValid}
use wsgnet.Elastic.Held.{IsPooled}
use wsgnet.Pool.ByteSlice.{Slice, Pools, put}
use wsgnet.Pool.Sizes.{IsHonest, IsBacked, put-IsHonest}
use wsgnet.Pool.RingBuffer as ring
use wsgnet.Pool.RingBuffer.{Pool, CallSize}
use wsgnet.Pool.Recycling.{IsOrdered, put-IsPooled}

abbrev nothing_put : Pools
nothing_put i = []

nothing-IsHonest : IsHonest nothing_put
nothing-IsHonest i = tt

-- A slice of 100 bytes that the pool has not made.
abbrev odd : Slice
odd = record { len = 90; cap = 100; memory = 100 }

odd-IsBacked : IsBacked odd
odd-IsBacked = record { within = omega arith; backed = omega arith }

put-IsHonest_example : IsHonest (put nothing_put odd)
put-IsHonest_example = put-IsHonest nothing_put odd nothing-IsHonest odd-IsBacked

abbrev fresh_pool : Pool
fresh_pool = record { calls = λ i. 42000; calibrating = false; default_size = 0; max_size = 0 }

-- Four bytes, of which the two that are held go round the end.
abbrev wrapped : Ring
wrapped = record { buf = 11 ∷ 12 ∷ 13 ∷ 14 ∷ []; size = 4; r = 3; w = 1; is_empty = false }

wrapped-IsValid : IsValid wrapped
wrapped-IsValid = record {
  held = refl;
  r_in = omega arith;
  w_in = omega arith;
  empty_meets = λ e. cc;
  room = λ _. omega arith;
}

abbrev in_place : List CallSize → List CallSize
in_place cs = cs

abbrev all_of : ℕ → ℕ
all_of n = n

put-IsPooled_example :
    (p : Pool) × (kept : Option Ring) × (ring.put in_place all_of fresh_pool wrapped
      ≡ some (p, kept))
    × IsOrdered p
    × ((kept ≡ none) ⊎ ((c : Ring) × (kept ≡ some c) × IsPooled c))
put-IsPooled_example =
    put-IsPooled in_place all_of fresh_pool wrapped (λ cs e. e) (omega arith) wrapped-IsValid
