-- ===== src/Toolkit.antt =====
-- internal/toolkit/math.go, and the 64-bit `int` arithmetic of Go that the growth of a buffer
-- tests for overflow. An `int` is the bit pattern of its two's complement, below 2 ^ 64.
pub mod Bits
pub mod Ceil
use wsgnet.Prelude.{
  ℕ, ◌+◌, ◌-◌, ◌/◌, ◌%◌, ◌^◌, Bool, not, ◌&&◌, Option, none, some, ltb, leb, ◌==◌, if◌then◌else◌,
  bit_and, bit_or,
}

-- Addition wraps round.
unfoldable pub add_int : ℕ → ℕ → ℕ
add_int a b = (a + b) % 2 ^ 64

-- The signed order: the sign bit is flipped.
unfoldable pub lt_int : ℕ → ℕ → Bool
lt_int a b = ltb ((a + 2 ^ 63) % 2 ^ 64) ((b + 2 ^ 63) % 2 ^ 64)

unfoldable pub le_int : ℕ → ℕ → Bool
le_int a b = leb ((a + 2 ^ 63) % 2 ^ 64) ((b + 2 ^ 63) % 2 ^ 64)

abbrev pub max_int_head_bit : ℕ
max_int_head_bit = 2 ^ 62

-- For n of at least 1: `n - 1` is not written for 0 here.
unfoldable pub is_power_of_two : ℕ → Bool
is_power_of_two n = bit_and n (n - 1) == 0

unfoldable pub fill_bits : ℕ → ℕ
fill_bits n0 =
    let n1 = bit_or n0 (n0 / 2 ^ 1) in
    let n2 = bit_or n1 (n1 / 2 ^ 2) in
    let n3 = bit_or n2 (n2 / 2 ^ 4) in
    let n4 = bit_or n3 (n3 / 2 ^ 8) in let n5 = bit_or n4 (n4 / 2 ^ 16) in bit_or n5 (n5 / 2 ^ 32)

-- `none` is the panic "argument is too large". The argument is not negative.
unfoldable pub ceil_to_power_of_two : ℕ → Option ℕ
ceil_to_power_of_two n =
    if not (bit_and n max_int_head_bit == 0) && ltb max_int_head_bit n
    then none
    else if leb n 2
    then some 2
    else some (fill_bits (n - 1) + 1)

unfoldable pub floor_to_power_of_two : ℕ → ℕ
floor_to_power_of_two n = if leb n 2 then 2 else fill_bits n / 2 ^ 1 + 1
