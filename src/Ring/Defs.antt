-- ===== src/Ring/Defs.antt =====
-- pkg/buffer/ring/ring_buffer.go: the state of ring.Buffer, its constructor and its observers.
-- Every index is a native number; a slice or an index out of range is a panic, `none`.
use wsgnet.Prelude.{
  ℕ, ◌+◌, ◌-◌, Bool, true, not, ◌&&◌, Option, some, List, [], ◌++◌, ltb, ◌==◌, if◌then◌else◌,
  length, slice, tabulate, ◌>>=◌,
}
use wsgnet.Toolkit.{ceil_to_power_of_two}

-- ring.Buffer. Its field `bs` only hands two slices of `buf` to one system call.
pub record Ring : Type 0 where
  pub buf : List ℕ
  pub size : ℕ
  pub r : ℕ
  pub w : ℕ
  pub is_empty : Bool

abbrev pub default_buffer_size : ℕ
default_buffer_size = 1024

abbrev pub buffer_grow_threshold : ℕ
buffer_grow_threshold = 4096

abbrev pub min_read : ℕ
min_read = 512

-- The zeroed memory of `make`.
abbrev pub zeros : ℕ → List ℕ
zeros n = tabulate n (λ _. 0)

unfoldable pub new : ℕ → Option Ring
new size =
    if size == 0 then some (record { buf = []; size = 0; r = 0; w = 0; is_empty = true }) else do
      size' ← ceil_to_power_of_two size
      some (record { buf = zeros size'; size = size'; r = 0; w = 0; is_empty = true })

unfoldable pub buffered : Ring → ℕ
buffered b =
    if b.r == b.w
    then (if b.is_empty then 0 else b.size)
    else if ltb b.r b.w
    then b.w - b.r
    else b.size - b.r + b.w

-- Buffer.Len
unfoldable pub len : Ring → ℕ
len b = length b.buf

-- Buffer.Cap
unfoldable pub cap : Ring → ℕ
cap b = b.size

unfoldable pub available : Ring → ℕ
available b =
    if b.r == b.w
    then (if b.is_empty then b.size else 0)
    else if ltb b.w b.r
    then b.r - b.w
    else b.size - b.w + b.r

unfoldable pub is_full : Ring → Bool
is_full b = b.r == b.w && not b.is_empty

unfoldable pub reset : Ring → Ring
reset b = record b { r = 0; w = 0; is_empty = true }

-- Buffer.Bytes
unfoldable pub bytes : Ring → Option (List ℕ)
bytes b =
    if b.is_empty
    then some []
    else if b.w == b.r
    then (do front ← slice b.buf b.r (length b.buf); back ← slice b.buf 0 b.w; some (front ++ back))
    else if ltb b.r b.w
    then slice b.buf b.r b.w
    else (do
      front ← slice b.buf b.r (length b.buf)
      back ← slice b.buf 0 b.w
      some (if b.w == 0 then front else front ++ back))
