-- ===== src/Ring/Socket.antt =====
-- pkg/buffer/ring/ring_buffer_unix.go: CopyFromSocket and Rewind. The socket is a reader; one
-- `readv` into two slices is one read into their joint length.
use wsgnet.Prelude.{
  ℕ, ◌+◌, ◌-◌, ◌/◌, ◌%◌, false, Option, some, List, ltb, ◌==◌, if◌then◌else◌, length, slice, take,
  drop, copy, copy_at, ◌>>=◌, min,
}
use wsgnet.Io.{Reader}
use wsgnet.Ring.Defs.{Ring, default_buffer_size, reset}
use wsgnet.Ring.Growing.{grow}
use wsgnet.Ring.Transfer.{Transferred}

-- `if n > 0 { rb.w = (rb.w + n) % rb.size }` after a read into rb.buf[i:].
unfoldable pub filled : Ring → ℕ → List ℕ → Ring
filled b i chunk =
    if ltb 0 (length chunk)
    then record b { buf = copy_at i b.buf chunk; w = (b.w + length chunk) % b.size }
    else b

-- The same, with `rb.isEmpty = false` too.
unfoldable pub filled_first : Ring → List ℕ → Ring
filled_first b chunk =
    if ltb 0 (length chunk)
    then record b {
      buf = copy_at 0 b.buf chunk;
      w = (b.w + length chunk) % b.size;
      is_empty = false;
    }
    else b

-- A readv into rb.buf[rb.w:] and rb.buf[:rb.r].
unfoldable pub filled_both : Ring → List ℕ → Ring
filled_both b chunk =
    if ltb 0 (length chunk)
    then record b {
      buf =
          copy_at 0 (copy_at b.w b.buf (take (length b.buf - b.w) chunk))
            (drop (length b.buf - b.w) chunk);
      w = (b.w + length chunk) % b.size;
    }
    else b

module _ {S : Type 0} (mem : ℕ → ℕ → ℕ) (read : Reader S) where
  -- A system call whose bytes land in the buffer as `fill` says. Where it fails the count is 0, and -1
  -- in the code.
  unfoldable pub receive : ℕ → (List ℕ → Ring) → S → Transferred S
  receive room fill s = let (chunk, err, s') = read s room in (length chunk, err, fill chunk, s')

  unfoldable pub copy_from_socket : Ring → S → Option (Transferred S)
  copy_from_socket b s =
      if b.r == b.w
      then (if b.is_empty
          then (let b' = record b { r = 0; w = 0 } in
              some (receive (length b'.buf) (filled_first b') s))
          else do
            b' ← grow mem b (b.size + b.size / 2)
            space ← slice b'.buf b'.w (length b'.buf)
            some (receive (length space) (filled b' b'.w) s))
      else if ltb b.w b.r
      then (do space ← slice b.buf b.w b.r; some (receive (length space) (filled b b.w) s))
      else (do
        back ← slice b.buf b.w (length b.buf)
        front ← slice b.buf 0 b.r
        some (receive (length back + length front) (filled_both b) s))

-- `n = copy(rb.buf, chunk); rb.r = 0; rb.w = n`
unfoldable pub move_down : Ring → List ℕ → ℕ × Ring
move_down b chunk =
    let n = min (length b.buf) (length chunk) in
    (n, record b { buf = copy b.buf chunk; r = 0; w = n })

unfoldable pub rewind : (ℕ → ℕ → ℕ) → Ring → Option (ℕ × Ring)
unfolding move_down
rewind mem b =
    if b.is_empty
    then some (0, reset b)
    else if b.w == 0
    then (if ltb b.r (b.size - b.r)
        then (do b' ← grow mem b (b.size + b.size - b.r); some (b'.size - b'.r, b'))
        else (do chunk ← slice b.buf b.r (length b.buf); some (move_down b chunk)))
    else if ltb (b.size - b.w) default_buffer_size
    then
        -- `rb.r < rb.w - rb.r` is a test between signed numbers.
        (if ltb (b.r + b.r) b.w
        then (do b' ← grow mem b (b.size + b.w - b.r); some (b'.w - b'.r, b'))
        else (do chunk ← slice b.buf b.r b.w; some (move_down b chunk)))
    else some (0, b)
