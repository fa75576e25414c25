-- ===== src/Conn/Inbound.antt =====
-- connection.go: the inbound side of a connection. What the socket gave last lies in `buffer`, a
-- slice of the event loop's packet buffer; what the application has left of earlier packets lies in
-- `inbound_buffer`. The loop's cache, into which scattered bytes are joined, is overwritten before
-- it is read, and is not kept.
use wsgnet.Prelude.{
  ℕ, ◌+◌, ◌-◌, ◌||◌, Option, none, some, List, [], ◌++◌, ltb, leb, ◌==◌, if◌then◌else◌, length,
  slice, drop, copy, copy_at, min, ℤ, pos, pos_part, non_positive, ◌>>=◌,
}
use wsgnet.Errors.{Error, short_buffer}
use wsgnet.Io.{Writer}
use wsgnet.Elastic.RingBuffer.{RingBuffer}
use wsgnet.Elastic.RingBuffer as ring

pub record Inbound : Type 0 where
  pub inbound_buffer : RingBuffer
  pub buffer : List ℕ

unfoldable pub inbound_buffered : Inbound → ℕ
inbound_buffered c = ring.buffered c.inbound_buffer + length c.buffer

unfoldable pub reset_buffer : Inbound → Inbound
reset_buffer c = record { inbound_buffer = ring.reset c.inbound_buffer; buffer = [] }

-- Read: the slice p with what was copied into it, the count and the connection. Its error is always
-- nil.
unfoldable pub read : Inbound → List ℕ → Option (List ℕ × ℕ × Inbound)
read c p =
    if ring.is_drained c.inbound_buffer
    then (let n = min (length p) (length c.buffer) in
        some (copy p c.buffer, n, record c { buffer = drop n c.buffer }))
    else (do
      (p1, n, _, rb) ← ring.read c.inbound_buffer p
      if n == length p
          then some (p1, n, record c { inbound_buffer = rb })
          else (let m = min (length p - n) (length c.buffer) in
              some (
                copy_at n p1 c.buffer,
                n + m,
                record { inbound_buffer = rb; buffer = drop m c.buffer },
              )))

-- The number of bytes that are asked for: all where n is not positive.
unfoldable pub wanted : Inbound → ℤ → ℕ
unfolding inbound_buffered
wanted c n = if non_positive n then inbound_buffered c else pos_part n

-- The bytes that Peek and Next show, k of them, from the ring buffer and from `buffer`.
unfoldable pub assemble : Inbound → ℕ → Option (List ℕ)
assemble c k = if ring.is_drained c.inbound_buffer then slice c.buffer 0 k else do
  (head, tail) ← ring.peek c.inbound_buffer (pos k)
  if leb k (length head)
      then slice head 0 k
      else if leb k (ring.buffered c.inbound_buffer)
      then some (head ++ tail)
      else (do
        rest ← slice c.buffer 0 (k - ring.buffered c.inbound_buffer)
        some (head ++ tail ++ rest))

unfoldable pub peek : Inbound → ℤ → Option (List ℕ × Option Error)
peek c n =
    if ltb (inbound_buffered c) (pos_part n)
    then some ([], some short_buffer)
    else do shown ← assemble c (wanted c n); some (shown, none)

-- What Next takes off, k bytes: the deferred Discard of the ring buffer, and the rest from `buffer`.
unfoldable pub take_off : Inbound → ℕ → Inbound
take_off c k =
    if ring.is_drained c.inbound_buffer then record c { buffer = drop k c.buffer } else record {
      inbound_buffer = (ring.discard c.inbound_buffer (pos k)).2;
      buffer =
          if leb k (ring.buffered c.inbound_buffer)
          then c.buffer
          else drop (k - ring.buffered c.inbound_buffer) c.buffer;
    }

unfoldable pub next : Inbound → ℤ → Option (List ℕ × Option Error × Inbound)
next c n =
    if ltb (inbound_buffered c) (pos_part n)
    then some ([], some short_buffer, c)
    else do shown ← assemble c (wanted c n); some (shown, none, take_off c (wanted c n))

-- The error of Discard is always nil.
unfoldable pub discard : Inbound → ℤ → Option (ℕ × Inbound)
discard c n =
    if ltb (inbound_buffered c) (pos_part n) || non_positive n
    then some (inbound_buffered c, reset_buffer c)
    else if ring.is_drained c.inbound_buffer
    then (do
      rest ← slice c.buffer (pos_part n) (length c.buffer)
      some (pos_part n, record c { buffer = rest }))
    else (let (discarded, _, rb) = ring.discard c.inbound_buffer n in
        if ltb discarded (ring.buffered c.inbound_buffer)
        then some (discarded, record c { inbound_buffer = rb })
        else (do
          rest ← slice c.buffer (pos_part n - ring.buffered c.inbound_buffer) (length c.buffer)
          some (pos_part n, record { inbound_buffer = rb; buffer = rest })))

-- The write of `buffer`, after n bytes of the ring buffer.
unfoldable pub write_rest :
    {S : Type 0} → Writer S → Inbound → ℕ → RingBuffer → S → Option (ℕ × Option Error × Inbound × S)
write_rest write c n rb s = do
  let (m, err, s') = write s c.buffer
  rest ← slice c.buffer m (length c.buffer)
  some (n + m, err, record { inbound_buffer = rb; buffer = rest }, s')

unfoldable pub write_to :
    {S : Type 0} → Writer S → Inbound → S → Option (ℕ × Option Error × Inbound × S)
unfolding write_rest
write_to write c s =
    if ring.is_drained c.inbound_buffer then write_rest write c 0 c.inbound_buffer s else do
      (n, err, rb, s1) ← ring.write_to write c.inbound_buffer s
      elim err [
        | some e ↦ some (n, some e, record c { inbound_buffer = rb }, s1)
        | none ↦ write_rest write c n rb s1
      ]
