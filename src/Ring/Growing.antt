-- ===== src/Ring/Growing.antt =====
-- pkg/buffer/ring/ring_buffer.go: grow, Write, WriteString and WriteByte.
use wsgnet.Prelude.{
  ℕ, zero, suc, ◌+◌, ◌-◌, ◌/◌, false, ◌&&◌, Option, none, some, List, ltb, leb, ◌==◌, if◌then◌else◌,
  length, slice, set, copy_at, tabulate, ◌>>=◌,
}
use wsgnet.Toolkit.{add_int, lt_int, le_int, ceil_to_power_of_two}
use wsgnet.Ring.Defs.{Ring, default_buffer_size, buffer_grow_threshold, buffered, available}
use wsgnet.Ring.Reading.{read}

-- `for 0 < n && n < newCap { n += n / 4 }` on fuel.
unfoldable pub quarter_loop : ℕ → ℕ → ℕ → ℕ
unfolding add_int lt_int
quarter_loop zero n new_cap = n
quarter_loop (suc fuel) n new_cap =
    let rest = quarter_loop fuel (add_int n (n / 4)) new_cap in
    if lt_int 0 n && lt_int n new_cap then rest else n

-- The first call has new_cap of at most n + n, and 1.25 ^ 4 > 2.
abbrev pub quarter_fuel : ℕ
quarter_fuel = 5

-- The capacity that `grow` settles on, for a buffer of the size n.
unfoldable pub grown_cap : ℕ → ℕ → Option ℕ
grown_cap n new_cap =
    if n == 0
    then (if leb new_cap default_buffer_size
        then some default_buffer_size
        else ceil_to_power_of_two new_cap)
    else if le_int new_cap (add_int n n)
    then (if ltb n buffer_grow_threshold
        then some (add_int n n)
        else let m = quarter_loop quarter_fuel n new_cap in
          if lt_int 0 m then some m else some new_cap)
    else some new_cap

-- copy(xs[i:], ys), with the panic of an i beyond the end.
unfoldable pub copy_into : List ℕ → ℕ → List ℕ → Option (List ℕ)
copy_into xs i ys = if leb i (length xs) then some (copy_at i xs ys) else none

-- The copies of Write, and the new write index before it goes round.
unfoldable pub place : Ring → List ℕ → Option (List ℕ × ℕ)
unfolding copy_into
place b p =
    if leb b.r b.w
    then (if leb (length p) (b.size - b.w)
        then (do buf ← copy_into b.buf b.w p; some (buf, b.w + length p))
        else (do
          front ← slice p 0 (b.size - b.w)
          buf ← copy_into b.buf b.w front
          back ← slice p (b.size - b.w) (length p)
          buf' ← copy_into buf 0 back
          some (buf', length p - (b.size - b.w))))
    else (do buf ← copy_into b.buf b.w p; some (buf, b.w + length p))

abbrev pub wrap_index : ℕ → ℕ → ℕ
wrap_index i size = if i == size then 0 else i

-- `rb.buf[i] = c`, with the panic of an index out of range.
unfoldable pub store : List ℕ → ℕ → ℕ → Option (List ℕ)
store xs i c = if ltb i (length xs) then some (set xs i c) else none

-- `mem` is what the memory holds that the byte-slice pool hands out: the byte at each index of a
-- slice of a given size.
module _ (mem : ℕ → ℕ → ℕ) where
  unfoldable pub grow : Ring → ℕ → Option Ring
  grow b new_cap = do
    new_cap' ← grown_cap b.size new_cap
    (new_buf, _, _, b') ← read b (tabulate new_cap' (mem new_cap'))
    some (record {
      buf = new_buf;
      size = new_cap';
      r = 0;
      w = buffered b;
      is_empty = if ltb 0 (buffered b) then false else b'.is_empty;
    })

  unfoldable pub write : Ring → List ℕ → Option (ℕ × Ring)
  unfolding place
  write b p = if length p == 0 then some (0, b) else do
    b' ← if ltb (available b) (length p) then grow b (b.size + length p - available b) else some b
    (buf, w) ← place b' p
    some (length p, record b' { buf = buf; w = wrap_index w b'.size; is_empty = false })

  unfoldable pub write_byte : Ring → ℕ → Option Ring
  unfolding store
  write_byte b c = do
    b' ← if ltb (available b) 1 then grow b 1 else some b
    buf ← store b'.buf b'.w c
    some (record b' { buf = buf; w = wrap_index (b'.w + 1) b'.size; is_empty = false })
