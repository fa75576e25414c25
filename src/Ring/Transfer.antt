-- ===== src/Ring/Transfer.antt =====
-- pkg/buffer/ring/ring_buffer.go: ReadFrom and WriteTo.
use wsgnet.Prelude.{
  ℕ, zero, suc, ◌+◌, ◌-◌, ◌%◌, false, not, Option, none, some, List, ltb, leb, if◌then◌else◌,
  length, slice, copy_at, ◌>>=◌,
}
use wsgnet.Errors.{
  Error, is_empty, eof, short_write, short_buffer, negative_size, unsupported_op, engine_shutdown,
  again, other,
}
use wsgnet.Io.{Reader, Writer}
use wsgnet.Ring.Defs.{Ring, buffered, available, min_read}
use wsgnet.Ring.Reading.{reset_if_drained}
use wsgnet.Ring.Growing.{grow}

-- The count, the error and the states of a transfer.
abbrev pub Transferred : Type 0 → Type 0
Transferred S = ℕ × Option Error × Ring × S

-- `if err == io.EOF { return n, nil }`
unfoldable pub without_eof : Error → Option Error
without_eof eof = none
without_eof is_empty = some is_empty
without_eof short_write = some short_write
without_eof short_buffer = some short_buffer
without_eof negative_size = some negative_size
without_eof unsupported_op = some unsupported_op
without_eof engine_shutdown = some engine_shutdown
without_eof again = some again
without_eof (other n) = some (other n)

-- The buffer after m bytes have been read into it from the index i on: `rb.w = (rb.w + m) % rb.size`.
unfoldable pub received : Ring → ℕ → List ℕ → Ring
received b i chunk = record b {
  buf = copy_at i b.buf chunk;
  w = (b.w + length chunk) % b.size;
  is_empty = false;
}

module _ {S : Type 0} (mem : ℕ → ℕ → ℕ) (read : Reader S) where
  -- The growth at the head of the loop of ReadFrom.
  unfoldable pub make_room : Ring → Option Ring
  make_room b = if ltb (available b) min_read then grow mem b (buffered b + min_read) else some b

  -- A read into rb.buf[i:j], and what is returned if it ends the loop; `again` is the rest of the
  -- loop.
  unfoldable pub read_into :
      Ring → ℕ → ℕ → ℕ → S → (Ring → ℕ → S → Option (Transferred S)) → Option (Transferred S)
  unfolding received without_eof
  read_into b i j n s continue = do
    space ← slice b.buf i j
    let (chunk, err, s') = read s (length space)
    elim err [
      | some e ↦ some (n + length chunk, without_eof e, received b i chunk, s')
      | none ↦ continue (received b i chunk) (n + length chunk) s'
    ]

  -- ReadFrom on fuel, from the count n on: `none` is a panic, or that the fuel ran out.
  unfoldable pub read_from : ℕ → Ring → ℕ → S → Option (Transferred S)
  unfolding read_into make_room
  read_from zero b n s = none
  read_from (suc fuel) b n s = do
    b' ← make_room b
    if leb b'.r b'.w
        then read_into b' b'.w (length b'.buf) n s
            (λ b1 n1 s1. read_into b1 0 b1.r n1 s1 (λ b2 n2 s2. read_from fuel b2 n2 s2))
        else read_into b' b'.w b'.r n s (λ b1 n1 s1. read_from fuel b1 n1 s1)

module _ {S : Type 0} (write : Writer S) where
  -- The end of WriteTo: the error of the writer, or io.ErrShortWrite where bytes are left.
  unfoldable pub write_result : ℕ → Option Error → Ring → S → Transferred S
  write_result n (some e) b s = (n, some e, b, s)
  write_result n none b s = (n, if not b.is_empty then some short_write else none, b, s)

  -- One write of n bytes from r on, all that is held; r goes on by what was written.
  unfoldable pub write_straight : Ring → ℕ → S → (ℕ → ℕ) → Option (Transferred S)
  unfolding write_result reset_if_drained
  write_straight b n s next = do
    chunk ← slice b.buf b.r (b.r + n)
    let (m, err, s') = write s chunk
    if ltb n m
        then none
        else some (write_result m err (reset_if_drained (record b { r = next m })) s')

  -- The second write, of what lies at the start, after c1 bytes.
  unfoldable pub write_back : Ring → ℕ → ℕ → S → Option (Transferred S)
  unfolding write_result reset_if_drained
  write_back b c1 c2 s = do
    chunk ← slice b.buf 0 c2
    let (m, err, s') = write s chunk
    if ltb c2 m
        then none
        else some (write_result (c1 + m) err (reset_if_drained (record b { r = m })) s')

  -- The writes of data that goes round the end.
  unfoldable pub write_round : Ring → ℕ → S → Option (Transferred S)
  unfolding write_back
  write_round b n s = do
    chunk ← slice b.buf b.r (length b.buf)
    let c1 = b.size - b.r
    let (m, err, s') = write s chunk
    let b' = record b { r = (b.r + m) % b.size }
    if ltb c1 m then none else elim err [
      | some e ↦ some (m, some e, b', s')
      | none ↦ if ltb m c1 then some (m, some short_write, b', s') else write_back b' m (n - c1) s'
    ]

  unfoldable pub write_to : Ring → S → Option (Transferred S)
  write_to b s =
      if b.is_empty
      then some (0, some is_empty, b, s)
      else if ltb b.r b.w
      then write_straight b (b.w - b.r) s (λ m. b.r + m)
      else let n = b.size - b.r + b.w in
        if leb (b.r + n) b.size
        then write_straight b n s (λ m. (b.r + m) % b.size)
        else write_round b n s
