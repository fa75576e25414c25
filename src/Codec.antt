-- ===== src/Codec.antt =====
-- codec.go: the codec of frames that begin with their length.
use wsgnet.Prelude.{
  ℕ, zero, suc, ◌+◌, ◌*◌, ◌/◌, ◌%◌, ◌^◌, ◌≤◌, ◌≡◌, ◌||◌, ◌∷◌, ◌++◌, Option, none, some, List, [],
  ltb, leb, ◌==◌, if◌then◌else◌, length, slice, get_elem?, drop, copy, tabulate, bit_or, ℤ, pos,
  ◌>>=◌,
}
use wsgnet.Errors.{Error}
use wsgnet.Conn.Stream.{shown}
use wsgnet.Conn.Consuming.{discarding}
pub mod Header
pub mod RoundTrip
pub mod Connection
mod Tests

-- What the codec uses of a connection: a stream of bytes that it peeks at and takes off.
pub record Source (S : Type 0) : Type 1 where
  pub peek : S → ℤ → Option (List ℕ × Option Error)
  pub discard : S → ℤ → Option (ℕ × S)
  pub IsGood : S → Type 0
  pub bytes : S → List ℕ
  pub peek_law : (s : S) (n : ℤ) → IsGood s → peek s n ≡ some (shown (bytes s) n)
  pub discard_law :
      (s : S) (n : ℤ)
      → IsGood s
      → (s' : S) × (discard s n ≡ some (discarding (bytes s) n, s'))
        × IsGood s'
        × (bytes s' ≡ drop (discarding (bytes s) n) (bytes s))

-- binary.ByteOrder
pub data ByteOrder : Type 0 where
  little_endian big_endian : ByteOrder

abbrev pub byte_at : ℕ → ℕ → ℕ
byte_at v i = v / 256 ^ i % 256

-- PutUint16 and PutUint32 of encoding/binary, as the bytes that they put.
abbrev pub put_uint16 : ByteOrder → ℕ → List ℕ
put_uint16 little_endian v = byte_at v 0 ∷ byte_at v 1 ∷ []
put_uint16 big_endian v = byte_at v 1 ∷ byte_at v 0 ∷ []

abbrev pub put_uint32 : ByteOrder → ℕ → List ℕ
put_uint32 little_endian v = byte_at v 0 ∷ byte_at v 1 ∷ byte_at v 2 ∷ byte_at v 3 ∷ []
put_uint32 big_endian v = byte_at v 3 ∷ byte_at v 2 ∷ byte_at v 1 ∷ byte_at v 0 ∷ []

-- Uint16 and Uint32 of encoding/binary, which panic on a slice that is too short.
abbrev pub uint16 : ByteOrder → List ℕ → Option ℕ
uint16 little_endian (a ∷ b ∷ rest) = some (a + b * 256)
uint16 big_endian (a ∷ b ∷ rest) = some (b + a * 256)
uint16 order [] = none
uint16 order (a ∷ []) = none

abbrev pub uint32 : ByteOrder → List ℕ → Option ℕ
uint32 little_endian (a ∷ b ∷ c ∷ d ∷ rest) = some (a + b * 256 + c * 65536 + d * 16777216)
uint32 big_endian (a ∷ b ∷ c ∷ d ∷ rest) = some (d + c * 256 + b * 65536 + a * 16777216)
uint32 order [] = none
uint32 order (a ∷ []) = none
uint32 order (a ∷ b ∷ []) = none
uint32 order (a ∷ b ∷ c ∷ []) = none

unfoldable pub write_uint24 : ByteOrder → ℕ → List ℕ
write_uint24 little_endian v = byte_at v 0 ∷ byte_at v 1 ∷ byte_at v 2 ∷ []
write_uint24 big_endian v = byte_at v 2 ∷ byte_at v 1 ∷ byte_at v 0 ∷ []

unfoldable pub read_uint24 : ByteOrder → List ℕ → Option ℕ
read_uint24 little_endian (a ∷ b ∷ c ∷ rest) = some (bit_or (bit_or a (b * 2 ^ 8)) (c * 2 ^ 16))
read_uint24 big_endian (a ∷ b ∷ c ∷ rest) = some (bit_or (bit_or c (b * 2 ^ 8)) (a * 2 ^ 16))
read_uint24 order [] = none
read_uint24 order (a ∷ []) = none
read_uint24 order (a ∷ b ∷ []) = none

-- The length field of Encode, or `none` for the error that the length does not fit.
unfoldable pub header : ByteOrder → ℕ → ℕ → Option (List ℕ)
unfolding write_uint24
header order n v =
    if n == 1
    then (if leb 256 v then none else some (byte_at v 0 ∷ []))
    else if n == 2
    then (if leb 65536 v then none else some (put_uint16 order v))
    else if n == 3
    then (if leb 16777216 v then none else some (write_uint24 order v))
    else if n == 4
    then some (put_uint32 order (v % 2 ^ 32))
    else some (tabulate n (λ _. 0))

unfoldable pub encode : ByteOrder → ℕ → List ℕ → Option (List ℕ)
unfolding header
encode order n buf = do field ← header order n (length buf); some (field ++ buf)

unfoldable pub get_frame_length : ByteOrder → ℕ → List ℕ → Option ℕ
unfolding read_uint24
get_frame_length order n xs =
    if n == 1
    then get_elem? xs 0
    else if n == 2
    then uint16 order xs
    else if n == 3
    then read_uint24 order xs
    else uint32 order xs

abbrev pub frame_limit : ℕ
frame_limit = 10485760

-- The message, if one is complete, the error, and the connection.
abbrev pub Decoded : Type 0 → Type 0
Decoded S = Option (List ℕ) × Option Error × S

module _ {S : Type 0} (src : Source S) (order : ByteOrder) (n : ℕ) where
  -- A peek that failed, or showed too little, ends Decode with its error.
  unfoldable pub peeked : S → ℕ → (List ℕ → Option (Decoded S)) → Option (Decoded S)
  peeked s k continue = do
    (bytes, err) ← src.peek s (pos k)
    elim err [
      | some e ↦ some (none, some e, s)
      | none ↦ if ltb (length bytes) k then some (none, none, s) else continue bytes
    ]

  unfoldable pub decode : S → Option (Decoded S)
  unfolding peeked
  decode s = peeked s n λ prefix. do
    frame ← get_frame_length order n prefix
    if frame + n == 0 || leb frame_limit (frame + n)
        then some (none, none, s)
        else peeked s (frame + n) (λ bytes. do
          body ← slice bytes n (length bytes)
          (_, s') ← src.discard s (pos (frame + n))
          some (some (copy (tabulate frame (λ _. 0)) body), none, s'))
