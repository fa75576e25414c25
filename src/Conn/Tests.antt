-- ===== src/Conn/Tests.antt =====
-- Runs of a connection at concrete inputs, and its theorems applied to them.
use wsgnet.Prelude.{
  ◌<◌, ℕ, ◌+◌, ◌≤◌, ◌^◌, ◌≡◌, refl, true, false, none, some, List, [], ◌∷◌, ◌++◌, length, take,
  drop, copy, arith, pos, min,
}
use wsgnet.Io.{Writer, Honest}
use wsgnet.Ring.Defs.{Ring, zeros}
use wsgnet.Ring.Contents.{IsValid, contents}
use wsgnet.LinkedList.Defs as linked
use wsgnet.LinkedList.Contents.{empty-Holds}
use wsgnet.Elastic.Buffer.{Buffer}
use wsgnet.Elastic.Held.{IsPooled, held, size_of}
use wsgnet.Elastic.Storing.{Stores}
use wsgnet.Conn.Inbound.{Inbound, peek, next, discard, read}
use wsgnet.Conn.Stream.{stream, IsGood, shown, peek-stream}
use wsgnet.Conn.Consuming.{discarding, next-stream, discard-stream}
use wsgnet.Conn.Reading.{read-stream}
use wsgnet.Conn.Outbound.{Next, write, flush}
use wsgnet.Conn.Sending.{IsWhole, Passed, write-Passed}
use wsgnet.LinkedList.Peeking.{flatten}
use wsgnet.Conn.Flushing.{Kept, flush-Kept}

abbrev junk : ℕ → ℕ → ℕ
junk n i = n + i

abbrev pooled : Ring
pooled = record { buf = zeros 64; size = 64; r = 0; w = 0; is_empty = true }

pooled-IsPooled : IsPooled pooled
unfolding contents
pooled-IsPooled = (
  record {
    held = refl;
    r_in = omega arith;
    w_in = omega arith;
    empty_meets = λ _. refl;
    room = λ e. cc;
  },
  refl,
)

-- Four bytes, of which the two that are held go round the end.
abbrev wrapped : Ring
wrapped = record { buf = 11 ∷ 12 ∷ 13 ∷ 14 ∷ []; size = 4; r = 3; w = 1; is_empty = false }

wrapped-IsValid : IsValid wrapped
wrapped-IsValid = record {
  held = refl;
  r_in = omega arith;
  w_in = omega arith;
  empty_meets = λ e. cc;
  room = λ _. omega arith;
}

abbrev arriving : Inbound
arriving = record { inbound_buffer = some wrapped; buffer = 1 ∷ 2 ∷ 3 ∷ [] }

peek-stream_example : peek arriving (pos 4) ≡ some (shown (stream arriving) (pos 4))
peek-stream_example = peek-stream arriving (pos 4) wrapped-IsValid

next-stream_example :
    (c : Inbound) × (next arriving (pos 4)
      ≡ some ((shown (stream arriving) (pos 4)).0, (shown (stream arriving) (pos 4)).1, c))
    × IsGood c
    × (stream c ≡ drop (length (shown (stream arriving) (pos 4)).0) (stream arriving))
next-stream_example = next-stream arriving (pos 4) wrapped-IsValid

discard-stream_example :
    (c : Inbound) × (discard arriving (pos 3) ≡ some (discarding (stream arriving) (pos 3), c))
    × IsGood c
    × (stream c ≡ drop (discarding (stream arriving) (pos 3)) (stream arriving))
discard-stream_example = discard-stream arriving (pos 3) wrapped-IsValid

read-stream_example :
    (p : List ℕ) × (n : ℕ) × (c : Inbound) × (read arriving (0 ∷ 0 ∷ 0 ∷ []) ≡ some (p, n, c))
    × (p ≡ copy (0 ∷ 0 ∷ 0 ∷ []) (stream arriving))
    × (n ≡ min 3 (length (stream arriving)))
    × IsGood c
    × (stream c ≡ drop 3 (stream arriving))
read-stream_example = read-stream arriving (0 ∷ 0 ∷ 0 ∷ []) wrapped-IsValid

-- A socket that takes two bytes of each slice.
abbrev takes_two : Writer (List ℕ)
takes_two s p = (min 2 (length p), none, s ++ take 2 p)

takes_two-Honest : Honest takes_two
takes_two-Honest s p = omega arith

takes_two-IsWhole : IsWhole takes_two
takes_two-IsWhole s p h = absurd (h refl)

abbrev idle : Buffer
idle = record { max_static_bytes = 64; ring_buffer = none; list_buffer = linked.empty }

idle-Stores : Stores idle []
unfolding held
idle-Stores = (tt, [], empty-Holds, refl)

idle-small : size_of pooled idle.ring_buffer + 3 ≤ 2 ^ 62
unfolding size_of
idle-small = omega arith

write-Passed_example :
    (r : Buffer × Next × List ℕ) × (write junk pooled takes_two idle (1 ∷ 2 ∷ 3 ∷ []) [] ≡ some r)
    × Passed takes_two [] idle (1 ∷ 2 ∷ 3 ∷ []) [] r
write-Passed_example =
    write-Passed junk pooled takes_two idle (1 ∷ 2 ∷ 3 ∷ []) [] takes_two-Honest takes_two-IsWhole
      pooled-IsPooled idle-Stores idle-small

abbrev leaving : Buffer
leaving = record { max_static_bytes = 4; ring_buffer = some wrapped; list_buffer = linked.empty }

leaving-Stores : Stores leaving (14 ∷ 11 ∷ [])
unfolding held contents
leaving-Stores = (wrapped-IsValid, [], empty-Holds, refl)

flush-Kept_example :
    (r : Buffer × Next × List ℕ) × (flush takes_two leaving [] ≡ some r)
    × Kept takes_two leaving (14 ∷ 11 ∷ []) [] r
flush-Kept_example = flush-Kept takes_two leaving [] takes_two-Honest leaving-Stores (omega arith)

four_bytes : 3 < length (flatten ((1 ∷ 2 ∷ []) ∷ (3 ∷ 4 ∷ []) ∷ []))
unfolding flatten
four_bytes = omega arith
