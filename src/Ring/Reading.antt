-- ===== src/Ring/Reading.antt =====
-- pkg/buffer/ring/ring_buffer.go: the operations that take bytes out, Peek, Discard, Read, ReadByte.
use wsgnet.Prelude.{
  ℕ, ◌+◌, ◌-◌, ◌%◌, Option, none, some, List, [], ltb, leb, ◌==◌, if◌then◌else◌, length, slice,
  get_elem?, copy, copy_at, ◌>>=◌, ℤ, pos_part, non_positive,
}
use wsgnet.Errors.{Error, is_empty}
use wsgnet.Ring.Defs.{Ring, buffered, reset}

-- `if m > n { m = n }`
unfoldable pub at_most : ℕ → ℕ → ℕ
at_most m n = if ltb n m then n else m

unfoldable pub peek_all : Ring → Option (List ℕ × List ℕ)
peek_all b =
    if b.is_empty
    then some ([], [])
    else if ltb b.r b.w
    then (do head ← slice b.buf b.r b.w; some (head, []))
    else (do
      head ← slice b.buf b.r (length b.buf)
      if b.w == 0 then some (head, []) else do tail ← slice b.buf 0 b.w; some (head, tail))

-- The part of Peek below its guards: n is positive, the buffer not empty.
unfoldable pub peek_some : Ring → ℕ → Option (List ℕ × List ℕ)
peek_some b n =
    if ltb b.r b.w
    then (do head ← slice b.buf b.r (b.r + at_most (b.w - b.r) n); some (head, []))
    else let m = at_most (b.size - b.r + b.w) n in
      if leb (b.r + m) b.size then (do head ← slice b.buf b.r (b.r + m); some (head, [])) else (do
        head ← slice b.buf b.r (length b.buf)
        tail ← slice b.buf 0 (m - (b.size - b.r))
        some (head, tail))

unfoldable pub peek : Ring → ℤ → Option (List ℕ × List ℕ)
peek b n =
    if b.is_empty
    then some ([], [])
    else if non_positive n
    then peek_all b
    else peek_some b (pos_part n)

-- The error of Discard is always nil.
unfoldable pub discard : Ring → ℤ → ℕ × Ring
discard b n =
    if non_positive n
    then (0, b)
    else if ltb (pos_part n) (buffered b)
    then (pos_part n, record b { r = (b.r + pos_part n) % b.size })
    else (buffered b, reset b)

-- `if rb.r == rb.w { rb.Reset() }`
unfoldable pub reset_if_drained : Ring → Ring
reset_if_drained b = if b.r == b.w then reset b else b

-- Read: the slice p with what was copied into it, the count, the error and the buffer.
abbrev pub ReadResult : Type 0
ReadResult = List ℕ × ℕ × Option Error × Ring

unfoldable pub read_straight : Ring → List ℕ → Option ReadResult
unfolding reset_if_drained
read_straight b p =
    let n = at_most (b.w - b.r) (length p) in
    do
      chunk ← slice b.buf b.r (b.r + n)
      some (copy p chunk, n, none, reset_if_drained (record b { r = b.r + n }))

-- The copies of Read when the data may go round the end.
unfoldable pub copy_out : Ring → List ℕ → ℕ → Option (List ℕ)
copy_out b p n =
    if leb (b.r + n) b.size
    then (do chunk ← slice b.buf b.r (b.r + n); some (copy p chunk))
    else (do
      front ← slice b.buf b.r (length b.buf)
      back ← slice b.buf 0 (n - (b.size - b.r))
      some (copy_at (b.size - b.r) (copy p front) back))

unfoldable pub read_round : Ring → List ℕ → Option ReadResult
unfolding reset_if_drained copy_out
read_round b p =
    let n = at_most (b.size - b.r + b.w) (length p) in
    do
      p' ← copy_out b p n
      some (p', n, none, reset_if_drained (record b { r = (b.r + n) % b.size }))

unfoldable pub read : Ring → List ℕ → Option ReadResult
unfolding read_straight read_round
read b p =
    if length p == 0
    then some (p, 0, none, b)
    else if b.is_empty
    then some (p, 0, some is_empty, b)
    else if ltb b.r b.w
    then read_straight b p
    else read_round b p

-- `rb.r++; if rb.r == rb.size { rb.r = 0 }`
abbrev pub step_index : ℕ → ℕ → ℕ
step_index i size = if i + 1 == size then 0 else i + 1

-- ReadByte returns 0 beside its error.
unfoldable pub read_byte : Ring → Option (ℕ × Option Error × Ring)
unfolding reset_if_drained
read_byte b = if b.is_empty then some (0, some is_empty, b) else do
  c ← get_elem? b.buf b.r
  some (c, none, reset_if_drained (record b { r = step_index b.r b.size }))
