-- ===== src/Codec/Header.antt =====
-- The length field: what Encode writes of a length, Decode reads.
use wsgnet.Prelude.{
  ℕ, zero, suc, ◌+◌, ◌*◌, ◌/◌, ◌%◌, ◌^◌, ◌≤◌, ◌<◌, ◌≡◌, ◌∷◌, refl, some, List, [], length, bit_or,
  arith, ap, ◌∙◌,
}
use wsgnet.Toolkit.Bits.{bit_or_step, zero-bit_or}
use wsgnet.Codec.{
  ByteOrder, little_endian, big_endian, byte_at, put_uint16, put_uint32, write_uint24, read_uint24,
  header, get_frame_length,
}

-- b, moved k bits up, and 2 ^ k.
abbrev shifted : ℕ → ℕ → ℕ
shifted zero b = b
shifted (suc k) b = shifted k b * 2

-- Bits that do not overlap add up.
or_shifted : (k a b : ℕ) → a < shifted k 1 → bit_or a (shifted k b) ≡ a + shifted k b
or_shifted zero zero b h = zero-bit_or b ∙ omega arith
or_shifted zero (suc a) b h = absurd (omega arith)
or_shifted (suc k) a b h = omega (
  arith,
  bit_or_step a (shifted k b * 2),
  or_shifted k (a / 2) b (omega arith),
  ap (bit_or (a / 2)) {x = shifted k b * 2 / 2} {y = shifted k b} (omega arith),
)

or_bytes :
    (a b c : ℕ)
    → a < 256
    → b < 256
    → bit_or (bit_or a (b * 2 ^ 8)) (c * 2 ^ 16) ≡ a + b * 256 + c * 65536
or_bytes a b c h k =
    ap (λ x. bit_or (bit_or a x) (c * 2 ^ 16)) {y = shifted 8 b} (omega arith)
    ∙ ap (λ x. bit_or x (c * 2 ^ 16)) (or_shifted 8 a b (omega arith))
    ∙ ap (bit_or (a + shifted 8 b)) {y = shifted 16 c} (omega arith)
    ∙ or_shifted 16 (a + shifted 8 b) c (omega arith)
    ∙ omega arith

-- A field of n bytes stands for the length v.
abbrev pub IsField : ByteOrder → ℕ → ℕ → Type 0
IsField order n v =
    (field : List ℕ) × (header order n v ≡ some field)
    × (length field ≡ n)
    × (get_frame_length order n field ≡ some v)

IsField-one : (order : ByteOrder) (v : ℕ) → v < 256 → IsField order 1 v
unfolding header get_frame_length
IsField-one order v h = (byte_at v 0 ∷ [], ground arith, refl, ap some (omega arith))

IsField-two : (order : ByteOrder) (v : ℕ) → v < 65536 → IsField order 2 v
unfolding header get_frame_length
IsField-two little_endian v h =
    (put_uint16 little_endian v, ground arith, refl, ap some (omega arith))
IsField-two big_endian v h = (put_uint16 big_endian v, ground arith, refl, ap some (omega arith))

IsField-three : (order : ByteOrder) (v : ℕ) → v < 16777216 → IsField order 3 v
unfolding header get_frame_length write_uint24 read_uint24
IsField-three little_endian v h = (
  write_uint24 little_endian v,
  ground arith,
  refl,
  ap some (
      or_bytes (byte_at v 0) (byte_at v 1) (byte_at v 2) (omega arith) (omega arith) ∙ omega arith),
)
IsField-three big_endian v h = (
  write_uint24 big_endian v,
  ground arith,
  refl,
  ap some (
      or_bytes (byte_at v 0) (byte_at v 1) (byte_at v 2) (omega arith) (omega arith) ∙ omega arith),
)

IsField-four : (order : ByteOrder) (v : ℕ) → v < 4294967296 → IsField order 4 v
unfolding header get_frame_length
IsField-four little_endian v h =
    (put_uint32 little_endian (v % 2 ^ 32), ground arith, refl, ap some (omega arith))
IsField-four big_endian v h =
    (put_uint32 big_endian (v % 2 ^ 32), ground arith, refl, ap some (omega arith))

-- A length that fits a field of one to four bytes is written in that many bytes, and read back.
pub field_lem :
    (order : ByteOrder) (n v : ℕ)
    → 1 ≤ n
    → n ≤ 4
    → v < 256 ^ n
    → (field : List ℕ) × (header order n v ≡ some field)
      × (length field ≡ n)
      × (get_frame_length order n field ≡ some v)
field_lem order zero v h k p = absurd (omega arith)
field_lem order (suc zero) v h k p = IsField-one order v (omega arith)
field_lem order (suc (suc zero)) v h k p = IsField-two order v (omega arith)
field_lem order (suc (suc (suc zero))) v h k p = IsField-three order v (omega arith)
field_lem order (suc (suc (suc (suc zero)))) v h k p = IsField-four order v (omega arith)
field_lem order (suc (suc (suc (suc (suc n))))) v h k p = absurd (omega arith)
