-- ===== src/Ring/Capacity.antt =====
-- The capacity that grow settles on: it is never less than what was asked for.
use wsgnet.Prelude.{
  ℕ, zero, suc, ◌+◌, ◌-◌, ◌/◌, ◌%◌, ◌^◌, ◌≤◌, ◌<◌, ◌≡◌, refl, inl, inr, true, ◌&&◌, some, ltb,
  if◌then◌else◌, arith, dec_lt, dec_le, le→leb, lt→leb, Bool-cases,
}
use wsgnet.Toolkit.{add_int, lt_int, le_int, fill_bits, ceil_to_power_of_two}
use wsgnet.Toolkit.Bits.{le-bit_or}
use wsgnet.Ring.Growing.{quarter_loop, quarter_fuel, grown_cap}

lt_int_small : (a b : ℕ) → a < 2 ^ 63 → b < 2 ^ 63 → lt_int a b ≡ ltb a b
unfolding lt_int
lt_int_small a b h k = ground arith

lt_int_zero : (a : ℕ) → a < 2 ^ 64 → lt_int 0 a ≡ (ltb 0 a && ltb a (2 ^ 63))
unfolding lt_int
lt_int_zero a h = ground arith

-- One round of the loop, on a number that is positive as an `int`.
quarter_step :
    (fuel n c : ℕ)
    → 0 < n
    → n < 2 ^ 63
    → c < 2 ^ 63
    → quarter_loop (suc fuel) n c ≡ (if ltb n c then quarter_loop fuel (n + n / 4) c else n)
unfolding quarter_loop
quarter_step fuel n c p h k = ground (arith, in_word)
  where
    in_word : (n + n / 4) % 2 ^ 64 ≡ n + n / 4
    in_word = omega arith

-- A number that is negative as an `int` ends the loop.
quarter_negative : (fuel n c : ℕ) → 2 ^ 63 ≤ n → n < 2 ^ 64 → quarter_loop fuel n c ≡ n
unfolding quarter_loop
quarter_negative zero n c h k = refl
quarter_negative (suc fuel) n c h k = ground arith

-- The number after some rounds, with no regard to overflow.
abbrev quarters : ℕ → ℕ → ℕ
quarters zero n = n
quarters (suc fuel) n = quarters fuel (n + n / 4)

-- The loop does not run out of fuel: it ends above the target, or negative.
quarter_ends :
    (fuel n c : ℕ)
    → 0 < n
    → n < 2 ^ 64
    → c < 2 ^ 63
    → c ≤ quarters fuel n
    → (c ≤ quarter_loop fuel n c) × (quarter_loop fuel n c < 2 ^ 64)
unfolding quarter_loop
quarter_ends zero n c p h k e = omega arith
quarter_ends (suc fuel) n c p h k e = elim (dec_lt n (2 ^ 63)) [
  | yes small ↦ ground (
    arith,
    quarter_step fuel n c p small k,
    quarter_ends fuel (n + n / 4) c (omega arith) (omega arith) k e,
  )
  | no large ↦ omega (arith, quarter_negative (suc fuel) n c (omega arith) h)
]

quarter_fuel_enough : (n c : ℕ) → 4096 ≤ n → c ≤ n + n → c ≤ quarters quarter_fuel n
quarter_fuel_enough n c h k = omega arith

le-fill_bits : (n : ℕ) → n ≤ fill_bits n
unfolding fill_bits
le-fill_bits n = omega (arith, le-bit_or)

pub ceil-le : (c : ℕ) → c ≤ 2 ^ 62 → (m : ℕ) × (ceil_to_power_of_two c ≡ some m) × (c ≤ m)
unfolding ceil_to_power_of_two
ceil-le c h = elim (dec_le c 2) [
  | yes small ↦ (2, ground arith, small)
  | no large ↦ (fill_bits (c - 1) + 1, ground arith, omega (arith, le-fill_bits (c - 1)))
]

grown_cap_first : (c : ℕ) → c ≤ 2 ^ 62 → (m : ℕ) × (grown_cap 0 c ≡ some m) × (c ≤ m)
unfolding grown_cap
grown_cap_first c h = elim (dec_le c 1024) [
  | yes small ↦ (1024, rw (le→leb c 1024 small), small)
  | no large ↦ rw (lt→leb c 1024 (omega arith)) (ceil-le c h)
]

-- Where the doubled size passes the signed test it has not overflowed.
within_double :
    (n c : ℕ)
    → n ≤ 2 ^ 62
    → c ≤ 2 ^ 62
    → le_int c (add_int n n) ≡ true
    → (c ≤ add_int n n) × (c ≤ n + n)
unfolding le_int add_int
within_double n c h k e = ground arith

-- The larger of the doubled, stepped or requested capacity for a buffer that is not empty of room.
grown_cap_next :
    (n c : ℕ) → 0 < n → n ≤ 2 ^ 62 → c ≤ 2 ^ 62 → (m : ℕ) × (grown_cap n c ≡ some m) × (c ≤ m)
unfolding grown_cap
grown_cap_next n c p h k = elim (Bool-cases (le_int c (add_int n n))) [
  | inl within ↦ elim (dec_lt n 4096) [
    | yes short ↦ (add_int n n, ground arith, (within_double n c h k within).0)
    | no long ↦ elim (Bool-cases (lt_int 0 (quarter_loop quarter_fuel n c))) [
      | inl stepped ↦ (
        quarter_loop quarter_fuel n c,
        ground arith,
        enough (omega arith) (within_double n c h k within).1,
      )
      | inr negative ↦ (c, ground arith, omega arith)
    ]
  ]
  | inr beyond ↦ (c, ground arith, omega arith)
]
  where
    enough : 4096 ≤ n → c ≤ n + n → c ≤ quarter_loop quarter_fuel n c
    enough a b =
        (quarter_ends quarter_fuel n c (omega arith) (omega arith) (omega arith)
          (quarter_fuel_enough n c a b)).0

-- A capacity of at least what was asked for is found, and grow does not panic, up to 2 ^ 62 bytes.
pub grown_cap-le : (n c : ℕ) → n ≤ c → c ≤ 2 ^ 62 → (m : ℕ) × (grown_cap n c ≡ some m) × (c ≤ m)
grown_cap-le zero c h k = grown_cap_first c k
grown_cap-le (suc n) c h k = grown_cap_next (suc n) c (omega arith) (omega arith) k

-- WriteByte asks for a capacity of 1: below the threshold that doubles the size.
pub grown_cap_one_small : (n : ℕ) → n < 4096 → (m : ℕ) × (grown_cap n 1 ≡ some m) × (n < m)
unfolding grown_cap le_int add_int
grown_cap_one_small zero h = (1024, refl, omega arith)
grown_cap_one_small (suc n) h = ((suc n + suc n) % 2 ^ 64, ground arith, omega arith)

-- From the threshold on it leaves the size as it is.
pub grown_cap_one_large : (n : ℕ) → 4096 ≤ n → n ≤ 2 ^ 61 → grown_cap n 1 ≡ some n
unfolding grown_cap le_int add_int
grown_cap_one_large n h k = ground (
  arith,
  quarter_step 4 n 1 (omega arith) (omega arith) (omega arith),
  lt_int_zero n (omega arith),
)
