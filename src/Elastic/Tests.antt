-- ===== src/Elastic/Tests.antt =====
-- Runs of the elastic buffer at concrete inputs, and its theorems applied to them.
use wsgnet.Prelude.{
  ℕ, ◌+◌, ◌≤◌, ◌^◌, ◌≡◌, refl, true, false, none, some, List, [], ◌∷◌, ◌++◌, length, copy, arith,
  pos, min,
}
use wsgnet.Ring.Defs.{Ring, zeros}
use wsgnet.Ring.Contents.{IsValid, contents}
use wsgnet.LinkedList.Defs.{LinkedList, empty, peek_bound}
use wsgnet.LinkedList.Defs as linked
use wsgnet.Elastic.RingBuffer.{is_drained}
use wsgnet.LinkedList.Contents.{Holds, empty-Holds}
use wsgnet.LinkedList.Peeking.{flatten}
use wsgnet.Elastic.Buffer.{Buffer, read, peek, discard, write, is_empty}
use wsgnet.Elastic.Held.{IsPooled, held, size_of}
use wsgnet.Elastic.Storing.{Stores, write-Stores}
use wsgnet.Elastic.Taking.{Outcome, read-Stores, discard-Stores}
use wsgnet.Elastic.Showing.{peek-Stores}

abbrev junk : ℕ → ℕ → ℕ
junk n i = n + i

-- A new buffer of 64 bytes, from the pool.
abbrev pooled : Ring
pooled = record { buf = zeros 64; size = 64; r = 0; w = 0; is_empty = true }

pooled-IsPooled : IsPooled pooled
unfolding contents
pooled-IsPooled = (
  record {
    held = refl;
    r_in = omega arith;
    w_in = omega arith;
    empty_meets = λ _. refl;
    room = λ e. cc;
  },
  refl,
)

-- Four bytes, of which the two that are held go round the end.
abbrev wrapped : Ring
wrapped = record { buf = 11 ∷ 12 ∷ 13 ∷ 14 ∷ []; size = 4; r = 3; w = 1; is_empty = false }

wrapped-IsValid : IsValid wrapped
wrapped-IsValid = record {
  held = refl;
  r_in = omega arith;
  w_in = omega arith;
  empty_meets = λ e. cc;
  room = λ _. omega arith;
}

-- A list of one node.
abbrev one_node : LinkedList
one_node = record {
  next = λ i. none;
  buf = λ i. 1 ∷ 2 ∷ 3 ∷ [];
  fresh = 1;
  head = some 0;
  tail = some 0;
  size = 1;
  bytes = 3;
}

one_node-Holds : Holds one_node (1 ∷ 2 ∷ 3 ∷ [])
one_node-Holds = (
  0 ∷ [],
  record {
    chain = (refl, refl);
    last = refl;
    size_eq = refl;
    bytes_eq = refl;
    distinct = (tt, tt);
    below = (omega arith, tt);
  },
  refl,
)

abbrev mixed : Buffer
mixed = record { max_static_bytes = 4; ring_buffer = some wrapped; list_buffer = one_node }

mixed-Stores : Stores mixed (14 ∷ 11 ∷ 1 ∷ 2 ∷ 3 ∷ [])
unfolding held contents
mixed-Stores = (wrapped-IsValid, 1 ∷ 2 ∷ 3 ∷ [], one_node-Holds, refl)

mixed-small : size_of pooled mixed.ring_buffer + 2 ≤ 2 ^ 62
unfolding size_of
mixed-small = omega arith

write-Stores_example :
    (mb : Buffer) × (write junk pooled mixed (5 ∷ 6 ∷ []) ≡ some (2, mb))
    × Stores mb ((14 ∷ 11 ∷ 1 ∷ 2 ∷ 3 ∷ []) ++ 5 ∷ 6 ∷ [])
write-Stores_example =
    write-Stores junk pooled mixed (5 ∷ 6 ∷ []) pooled-IsPooled mixed-Stores mixed-small

read-Stores_example :
    (out : Outcome) × (read mixed (0 ∷ 0 ∷ 0 ∷ []) ≡ some out)
    × (out.0 ≡ copy (0 ∷ 0 ∷ 0 ∷ []) (14 ∷ 11 ∷ 1 ∷ 2 ∷ 3 ∷ []))
    × (out.1 ≡ 3)
    × Stores out.3 (2 ∷ 3 ∷ [])
read-Stores_example = read-Stores mixed (0 ∷ 0 ∷ 0 ∷ []) mixed-Stores

discard-Stores_example :
    ((discard mixed (pos 3)).0 ≡ 3) × Stores (discard mixed (pos 3)).2 (2 ∷ 3 ∷ [])
discard-Stores_example = discard-Stores mixed (pos 3) mixed-Stores

peek-Stores_example :
    (bs : List (List ℕ)) × (peek mixed (pos 3) ≡ some bs)
    × (rest : List ℕ) × (flatten bs ++ rest ≡ 14 ∷ 11 ∷ 1 ∷ 2 ∷ 3 ∷ [])
    × (min (peek_bound (pos 3)) 5 ≤ length (flatten bs))
peek-Stores_example = peek-Stores mixed (pos 3) mixed-Stores

abbrev fresh_buffer : Buffer
fresh_buffer = record { max_static_bytes = 4; ring_buffer = none; list_buffer = empty }

fresh-Stores : Stores fresh_buffer []
unfolding held
fresh-Stores = (tt, [], empty-Holds, refl)

fresh-empty : is_empty fresh_buffer ≡ true
unfolding is_empty is_drained linked.is_empty empty
fresh-empty = refl
