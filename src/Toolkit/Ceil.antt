-- ===== src/Toolkit/Ceil.antt =====
-- internal/toolkit/math.go: the powers of two that CeilToPowerOfTwo and FloorToPowerOfTwo give.
use native.Mathlib.Nat.{
  le-div_iff_mul-le, div-lt_iff_lt-mul, pow-succ', add-mul-div_right, mul_assoc, mul_comm,
  pow-le-pow_right, div-le_self,
}
use wsgnet.Prelude.{
  ℕ, zero, suc, ◌+◌, ◌-◌, ◌*◌, ◌/◌, ◌^◌, ◌≤◌, ◌<◌, ◌≡◌, sym, ap, ◌∙◌, some, bit_or, dec_le, arith,
}
use wsgnet.Toolkit.{fill_bits, ceil_to_power_of_two, floor_to_power_of_two}
use wsgnet.Toolkit.Bits.{zero-bit_or, bit_or_step, le-bit_or}

or_bits-lt : (k a b : ℕ) → a < 2 ^ k → b < 2 ^ k → bit_or a b < 2 ^ k
or_bits-lt zero zero b p q = omega (arith, zero-bit_or b)
or_bits-lt zero (suc a) b p q = absurd (omega arith)
or_bits-lt (suc k) a b p q = omega (
  arith,
  bit_or_step a b,
  or_bits-lt k (a / 2) (b / 2) (omega (arith, pow-succ' 2 k)) (omega (arith, pow-succ' 2 k)),
  pow-succ' 2 k,
)

pow-pos : (k : ℕ) → 0 < 2 ^ k
pow-pos zero = omega arith
pow-pos (suc k) = omega (arith, pow-pos k, pow-succ' 2 k)

plus_zero : (m : ℕ) → m + 0 ≡ m
plus_zero m = omega arith

pow-add : (m j : ℕ) → 2 ^ (m + j) ≡ 2 ^ m * 2 ^ j
pow-add m zero = omega (arith, ap (λ n. 2 ^ n) (plus_zero m))
pow-add m (suc j) = grind (arith, pow-add m j, pow-succ' 2 (m + j), pow-succ' 2 j)

-- An `or` has the high digits of the one and the low digits of the other.
or_bits-high : (m p a b : ℕ) → p * 2 ^ m ≤ a → b < 2 ^ m → p * 2 ^ m + b ≤ bit_or a b
or_bits-high zero p a b h l = omega (arith, le-bit_or a b)
or_bits-high (suc m) p a b h l = omega (
  arith,
  bit_or_step a b,
  twice,
  or_bits-high m p (a / 2) (b / 2) (omega (arith, twice)) (omega (arith, pow-succ' 2 m)),
)
  where
    twice : p * 2 ^ suc m ≡ p * 2 ^ m * 2
    twice = ap (λ q. p * q) (pow-succ' 2 m ∙ mul_comm 2 (2 ^ m)) ∙ sym (mul_assoc p (2 ^ m) 2)

-- Where the high j digits are set, a shift by j sets the next j.
low_digits :
    (m j x n : ℕ)
    → x < 2 ^ m * 2 ^ j
    → 2 ^ m * 2 ^ j ≤ x + n * 2 ^ j
    → (x / 2 ^ j < 2 ^ m) × (2 ^ m ≤ x / 2 ^ j + n)
low_digits m j x n l h = (
  (div-lt_iff_lt-mul (pow-pos j)).1 l,
  omega (
    arith,
    add-mul-div_right x n (pow-pos j),
    (le-div_iff_mul-le {x = 2 ^ m} {y = x + n * 2 ^ j} (pow-pos j)).1 h,
  ),
)

all_but_low_of : (q r : ℕ) → 0 < q → (q - 1) * r + r ≡ r * q
all_but_low_of zero r h = absurd (omega arith)
all_but_low_of (suc k) r h = grind arith

all_but_low : (m j : ℕ) → (2 ^ j - 1) * 2 ^ m + 2 ^ m ≡ 2 ^ m * 2 ^ j
all_but_low m j = all_but_low_of (2 ^ j) (2 ^ m) (pow-pos j)

minus_plus : (m j : ℕ) → j ≤ m → m - j + j ≡ m
minus_plus m j h = omega arith

minus_all : (m j : ℕ) → m ≤ j → m - j ≡ 0
minus_all m j h = omega arith

less_one : (m : ℕ) → m + 1 - 1 ≡ m
less_one m = omega arith

minus_twice : (m j : ℕ) → m - j - j ≡ m - (j + j)
minus_twice m j = omega arith

plus_one : (m : ℕ) → m + 1 ≡ suc m
plus_one m = omega arith

digits_of_shift : (m j : ℕ) → 2 ^ m ≤ 2 ^ (m - j) * 2 ^ j
digits_of_shift m j = elim (dec_le j m) [
  | yes h ↦ grind (arith, pow-add (m - j) j, ap (λ n. 2 ^ n) (minus_plus m j h))
  | no h ↦ grind (
    arith,
    pow-le-pow_right {n = 2} (omega arith) {i = m} {j = j} (omega arith),
    ap (λ n. 2 ^ n) (minus_all m j (omega arith)),
  )
]

fill_more :
    (m j x : ℕ)
    → 2 ^ (m + j) ≤ x + 2 ^ m
    → x < 2 ^ (m + j)
    → 2 ^ (m + j) ≤ bit_or x (x / 2 ^ j) + 2 ^ (m - j)
fill_more m j x h l = omega (
  arith,
  pow-add m j,
  all_but_low m j,
  low.1,
  or_bits-high m (2 ^ j - 1) x (x / 2 ^ j) (omega (arith, pow-add m j, all_but_low m j)) low.0,
)
  where
    low : (x / 2 ^ j < 2 ^ m) × (2 ^ m ≤ x / 2 ^ j + 2 ^ (m - j))
    low =
        low_digits m j x (2 ^ (m - j)) (omega (arith, pow-add m j))
          (omega (arith, pow-add m j, digits_of_shift m j))

-- Of the k digits of x the high j are set.
Filled : ℕ → ℕ → ℕ → Type 0
Filled k j x = (2 ^ k ≤ x + 2 ^ (k - j)) × (x < 2 ^ k)

fill_step : (k j x : ℕ) → Filled k j x → Filled k (j + j) (bit_or x (x / 2 ^ j))
unfolding Filled
fill_step k j x f =
    (high (dec_le j k), or_bits-lt k x (x / 2 ^ j) f.1 (omega (arith, f.1, div-le_self x (2 ^ j))))
  where
    high : Dec (j ≤ k) → 2 ^ k ≤ bit_or x (x / 2 ^ j) + 2 ^ (k - (j + j))
    high (yes h) = omega (
      arith,
      fill_more (k - j) j x (omega (arith, f.0, ap (λ n. 2 ^ n) (minus_plus k j h)))
          (omega (arith, f.1, ap (λ n. 2 ^ n) (minus_plus k j h))),
      ap (λ n. 2 ^ n) (minus_plus k j h),
      ap (λ n. 2 ^ n) (minus_twice k j),
    )
    high (no h) = omega (
      arith,
      f.0,
      le-bit_or x (x / 2 ^ j),
      ap (λ n. 2 ^ n) (minus_all k j (omega arith)),
      pow-pos (k - (j + j)),
    )

-- What fill_bits makes of a number of k digits.
fill_bits-Filled : (k n : ℕ) → Filled k 1 n → Filled k 64 (fill_bits n)
unfolding fill_bits
fill_bits-Filled k n f =
    fill_step k 32 _
      (fill_step k 16 _ (fill_step k 8 _ (fill_step k 4 _ (fill_step k 2 _ (fill_step k 1 n f)))))

fill_bits-ones : (k n : ℕ) → k ≤ 63 → 2 ^ k ≤ n → n < 2 ^ (k + 1) → fill_bits n + 1 ≡ 2 ^ (k + 1)
unfolding Filled
fill_bits-ones k n small h l =
    let f = fill_bits-Filled (k + 1) n (
      omega (arith, pow-succ' 2 k, ap (λ m. 2 ^ m) (plus_one k), ap (λ m. 2 ^ m) (less_one k)),
      l,
    ) in
    omega (arith, f.0, f.1, ap (λ m. 2 ^ m) (minus_all (k + 1) 64 (omega arith)))

-- The number of digits.
digits_of :
    (bound n : ℕ) → 0 < n → n < 2 ^ bound → (k : ℕ) × (k < bound) × (2 ^ k ≤ n) × (n < 2 ^ (k + 1))
digits_of zero n p h = absurd (omega arith)
digits_of (suc bound) n p h = elim (dec_le (2 ^ bound) n) [
  | yes large ↦ (bound, omega arith, large, omega (arith, ap (λ m. 2 ^ m) (plus_one bound)))
  | no less ↦
      let (k, b, low, high) = digits_of bound n p (omega arith) in (k, omega arith, low, high)
]

-- From 3 up to 2 ^ 62, CeilToPowerOfTwo does not panic, and gives the least power of two that is not
-- below n.
pub ceil_to_power_of_two-least :
    (n : ℕ)
    → 2 < n
    → n ≤ 2 ^ 62
    → (k : ℕ) × (ceil_to_power_of_two n ≡ some (2 ^ (k + 1))) × (2 ^ k < n) × (n ≤ 2 ^ (k + 1))
unfolding ceil_to_power_of_two
ceil_to_power_of_two-least n p h =
    let (k, small, low, high) = digits_of 62 (n - 1) (omega arith) (omega arith) in
    (k, ground (arith, fill_bits-ones k (n - 1) (omega arith) low high), omega arith, omega arith)

-- From 3 up to 2 ^ 63, FloorToPowerOfTwo gives the greatest power of two that is not above n.
pub floor_to_power_of_two-greatest :
    (n : ℕ)
    → 2 < n
    → n < 2 ^ 63
    → (k : ℕ) × (floor_to_power_of_two n ≡ 2 ^ k) × (2 ^ k ≤ n) × (n < 2 ^ (k + 1))
unfolding floor_to_power_of_two
floor_to_power_of_two-greatest n p h =
    let (k, small, low, high) = digits_of 63 n (omega arith) (omega arith) in
    (
      k,
      ground (
        arith,
        fill_bits-ones k n (omega arith) low high,
        pow-succ' 2 k,
        ap (λ m. 2 ^ m) (plus_one k),
      ),
      low,
      high,
    )
