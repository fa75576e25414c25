-- ===== src/Ring/Contents.antt =====
-- The well-formedness of ring.Buffer, the bytes that a buffer holds, and what its observers say.
use wsgnet.Prelude.{
  ℕ, ◌+◌, ◌-◌, ◌≤◌, ◌<◌, ◌≡◌, true, false, some, List, [], ◌++◌, ltb, if◌then◌else◌, length, take,
  drop, arith, slice_from, slice_to, slice-eq-some, length-append, length-take, length-drop,
  append-nil,
}
use wsgnet.Ring.Defs.{Ring, buffered, available, bytes}

-- The indices lie in the buffer (both are 0 if it has no room), they meet where nothing is held,
-- and a buffer without room holds nothing.
pub record IsValid (b : Ring) : Type 0 where
  pub held : length b.buf ≡ b.size
  pub r_in : b.r ≤ b.size - 1
  pub w_in : b.w ≤ b.size - 1
  pub empty_meets : b.is_empty ≡ true → b.r ≡ b.w
  pub room : b.is_empty ≡ false → 0 < b.size

-- The bytes that the buffer holds, oldest first.
unfoldable pub contents : Ring → List ℕ
contents b =
    if b.is_empty
    then []
    else if ltb b.r b.w
    then take (b.w - b.r) (drop b.r b.buf)
    else drop b.r b.buf ++ take b.w b.buf

pub length-contents : {b : Ring} → IsValid b → length (contents b) ≡ buffered b
unfolding contents buffered
length-contents {b} v = ground (
  arith,
  length-append (drop b.r b.buf) (take b.w b.buf),
  length-take (b.w - b.r) (drop b.r b.buf),
  length-take b.w b.buf,
  length-drop b.r b.buf,
)

-- What Buffered and Available count makes up the size.
pub buffered-add-available : {b : Ring} → IsValid b → buffered b + available b ≡ b.size
unfolding buffered available
buffered-add-available v = ground arith

-- Bytes gives the bytes that are held, oldest first, and does not panic.
pub bytes-eq-contents : {b : Ring} → IsValid b → bytes b ≡ some (contents b)
unfolding bytes contents
bytes-eq-contents {b} v = ground (
  arith,
  slice_from b.buf b.r,
  slice_to b.buf b.w,
  slice-eq-some b.buf b.r b.w,
  append-nil (drop b.r b.buf),
)
