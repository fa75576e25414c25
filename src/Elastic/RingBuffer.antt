-- ===== src/Elastic/RingBuffer.antt =====
-- pkg/buffer/elastic/elastic_ring_buffer.go: a ring buffer that is taken from a pool when bytes are
-- written and given back when it is drained. `pooled` is the buffer that the pool gives, which is
-- a reset one or a new one; what the pool keeps does not show in the elastic buffer.
use wsgnet.Prelude.{
  ℕ, Bool, true, false, Option, none, some, List, [], ◌==◌, if◌then◌else◌, length, ℤ, ◌>>=◌,
}
use wsgnet.Errors.{Error, is_empty}
use wsgnet.Io.{Reader, Writer}
use wsgnet.Ring.Defs.{Ring}
use wsgnet.Ring.Defs as defs
use wsgnet.Ring.Reading as reading
use wsgnet.Ring.Growing as growing
use wsgnet.Ring.Transfer as transfer

-- The field `rb`, a pointer that may be nil.
abbrev pub RingBuffer : Type 0
RingBuffer = Option Ring

-- The deferred `done`: a drained buffer goes back to the pool.
unfoldable pub done : Ring → RingBuffer
done b = if b.is_empty then none else some b

unfoldable pub peek : RingBuffer → ℤ → Option (List ℕ × List ℕ)
peek none n = some ([], [])
peek (some b) n = reading.peek b n

unfoldable pub discard : RingBuffer → ℤ → ℕ × Option Error × RingBuffer
discard none n = (0, some is_empty, none)
discard (some b) n = let (discarded, b') = reading.discard b n in (discarded, none, done b')

-- The slice p with what was copied into it, the count, the error and the buffer.
abbrev pub ReadResult : Type 0
ReadResult = List ℕ × ℕ × Option Error × RingBuffer

unfoldable pub read : RingBuffer → List ℕ → Option ReadResult
read none p = some (p, 0, some is_empty, none)
read (some b) p = do (p', n, err, b') ← reading.read b p; some (p', n, err, done b')

unfoldable pub read_byte : RingBuffer → Option (ℕ × Option Error × RingBuffer)
read_byte none = some (0, some is_empty, none)
read_byte (some b) = do (c, err, b') ← reading.read_byte b; some (c, err, done b')

unfoldable pub buffered : RingBuffer → ℕ
buffered none = 0
buffered (some b) = defs.buffered b

unfoldable pub memory_len : RingBuffer → ℕ
memory_len none = 0
memory_len (some b) = defs.len b

unfoldable pub cap : RingBuffer → ℕ
cap none = 0
cap (some b) = defs.cap b

unfoldable pub available : RingBuffer → ℕ
available none = 0
available (some b) = defs.available b

unfoldable pub bytes : RingBuffer → Option (List ℕ)
bytes none = some []
bytes (some b) = defs.bytes b

unfoldable pub is_full : RingBuffer → Bool
is_full none = false
is_full (some b) = defs.is_full b

unfoldable pub is_drained : RingBuffer → Bool
is_drained none = true
is_drained (some b) = b.is_empty

unfoldable pub reset : RingBuffer → RingBuffer
reset none = none
reset (some b) = some (defs.reset b)

unfoldable pub write_to :
    {S : Type 0} → Writer S → RingBuffer → S → Option (ℕ × Option Error × RingBuffer × S)
write_to write none s = some (0, some is_empty, none, s)
write_to write (some b) s = do
  (n, err, b', s') ← transfer.write_to write b s
  some (n, err, done b', s')

module _ (mem : ℕ → ℕ → ℕ) (pooled : Ring) where
  unfoldable pub instance_of : RingBuffer → Ring
  instance_of none = pooled
  instance_of (some b) = b

  -- Write and WriteString.
  unfoldable pub write : RingBuffer → List ℕ → Option (ℕ × RingBuffer)
  write b p =
      if length p == 0
      then some (0, b)
      else do (n, b') ← growing.write mem (instance_of b) p; some (n, some b')

  unfoldable pub write_byte : RingBuffer → ℕ → Option RingBuffer
  write_byte b c = do b' ← growing.write_byte mem (instance_of b) c; some (some b')

  unfoldable pub read_from :
      {S : Type 0} → Reader S → ℕ → RingBuffer → S → Option (ℕ × Option Error × RingBuffer × S)
  read_from read fuel b s = do
    (n, err, b', s') ← transfer.read_from mem read fuel (instance_of b) 0 s
    some (n, err, some b', s')
