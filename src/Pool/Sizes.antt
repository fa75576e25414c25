-- ===== src/Pool/Sizes.antt =====
-- pkg/pool/byteslice: a slice that Get gives has the memory that its capacity claims.
use wsgnet.Prelude.{
  ℕ, zero, suc, ◌-◌, ◌*◌, ◌/◌, ◌^◌, ◌≤◌, ◌<◌, ◌≡◌, ◌≢◌, ◌⊎◌, inl, inr, refl, Option, none, some,
  List, [], ◌∷◌, ◌==◌, if◌then◌else◌, arith, ap, sym, subst, ◌∙◌, dec_lt, ℕ_discrete,
}
use native.Mathlib.Nat.{pow-succ'}
use wsgnet.Pool.ByteSlice.{Slice, Pools, bit_len, index, get, class_of, put}

double : (k : ℕ) → 2 ^ suc k ≡ 2 * 2 ^ k
double k = pow-succ' 2 k

bit_len_pos : (fuel n : ℕ) → 0 < n → bit_len (suc fuel) n ≡ suc (bit_len fuel (n / 2))
unfolding bit_len
bit_len_pos fuel (suc n) h = ground arith
bit_len_pos fuel zero h = absurd (omega arith)

bit_len_zero : (fuel : ℕ) → bit_len fuel 0 ≡ 0
unfolding bit_len
bit_len_zero zero = refl
bit_len_zero (suc fuel) = refl

lt-bit_len : (fuel n : ℕ) → n < 2 ^ fuel → n < 2 ^ bit_len fuel n
lt-bit_len zero zero h = subst (λ k. 0 < 2 ^ k) (sym (bit_len_zero 0)) (omega arith)
lt-bit_len zero (suc n) h = absurd (omega arith)
lt-bit_len (suc fuel) zero h = subst (λ k. 0 < 2 ^ k) (sym (bit_len_zero (suc fuel))) (omega arith)
lt-bit_len (suc fuel) (suc n) h =
    let half = lt-bit_len fuel (suc n / 2) (omega (arith, double fuel)) in
    subst (λ k. suc n < 2 ^ k) (sym (bit_len_pos fuel (suc n) (omega arith)))
      (omega (arith, half, double (bit_len fuel (suc n / 2))))

twice-le : (b m n : ℕ) → 0 < m → m < 2 ^ b → 2 ^ (b - 1) ≤ m → m ≡ n / 2 → 2 ^ (suc b - 1) ≤ n
twice-le zero m n h p q e = absurd (omega arith)
twice-le (suc b) m n h p q e =
    let less : 2 ^ b ≤ m = subst (λ k. 2 ^ k ≤ m) {y = b} (omega arith) q in
    subst (λ k. 2 ^ k ≤ n) {x = suc b} (omega arith) (omega (arith, less, double b))

bit_len-le : (fuel n : ℕ) → 0 < n → n < 2 ^ fuel → 2 ^ (bit_len fuel n - 1) ≤ n
bit_len-le zero n h k = absurd (omega arith)
bit_len-le (suc fuel) n h k =
    subst (λ b. 2 ^ (b - 1) ≤ n) (sym (bit_len_pos fuel n h))
      (elim (dec_lt n 2) [
        | yes one ↦
            subst (λ b. 2 ^ (suc b - 1) ≤ n)
              (sym (ap (bit_len fuel) {y = 0} (omega arith) ∙ bit_len_zero fuel)) (omega arith)
        | no more ↦
            let half : n / 2 < 2 ^ fuel = omega (arith, k, double fuel) in
            twice-le (bit_len fuel (n / 2)) (n / 2) n (omega arith) (lt-bit_len fuel (n / 2) half)
              (bit_len-le fuel (n / 2) (omega arith) half) refl
      ])

index-eq : (n : ℕ) → 0 < n → n ≤ 2 ^ 32 → index n ≡ bit_len 32 (n - 1)
unfolding index
index-eq n h k = ap (bit_len 32) (omega arith)

-- The class of a size holds it, and the class below does not unless the size is 1.
pub index_lem :
    (n : ℕ) → 0 < n → n ≤ 2 ^ 32 → (n ≤ 2 ^ index n) × ((n ≡ 1) ⊎ (2 ^ (index n - 1) < n))
index_lem n h k =
    subst (λ i. (n ≤ 2 ^ i) × ((n ≡ 1) ⊎ (2 ^ (i - 1) < n))) (sym (index-eq n h k))
      (
        omega (arith, lt-bit_len 32 (n - 1) (omega arith)),
        elim (dec_lt 1 n) [
          | yes more ↦ inr (omega (arith, bit_len-le 32 (n - 1) (omega arith) (omega arith)))
          | no one ↦ inl (omega arith)
        ],
      )

-- What is behind every pointer that was put is at least the size of its class.
abbrev pub AllHold : ℕ → List ℕ → Type 0
AllHold n [] = Unit {0}
AllHold n (m ∷ ms) = (n ≤ m) × AllHold n ms

abbrev pub IsHonest : Pools → Type 0
IsHonest p = (i : ℕ) → AllHold (2 ^ i) (p i)

-- A slice has the memory that its capacity claims, and its length is within.
pub record IsBacked (s : Slice) : Type 0 where
  pub within : s.len ≤ s.cap
  pub backed : s.cap ≤ s.memory

get-eq :
    (size : ℕ) (found : Option ℕ)
    → 0 < size
    → size ≤ 2147483647
    → get size found
      ≡ some (record {
        len = size;
        cap = 2 ^ index size;
        memory = elim found [ none ↦ 2 ^ index size | some m ↦ m ];
      })
unfolding get
get-eq (suc size) found h k = ground arith
get-eq zero found h k = absurd (omega arith)

class-exact : (n : ℕ) → n ≡ 2 ^ index n → class_of n ≡ index n
unfolding class_of
class-exact n e = ground (arith, e)

class-below : (n : ℕ) → n ≢ 2 ^ index n → class_of n ≡ index n - 1
unfolding class_of
class-below n e = ground (arith, e)

index-one : 2 ^ index 1 ≡ 1
index-one = ap (λ k. 2 ^ k) {y = 0} (index-eq 1 (omega arith) (omega arith) ∙ bit_len_zero 32)

class-le : (n : ℕ) → 0 < n → n ≤ 2147483647 → 2 ^ class_of n ≤ n
class-le n h k = elim (ℕ_discrete n (2 ^ index n)) [
  | yes exact ↦ subst (λ c. 2 ^ c ≤ n) (sym (class-exact n exact)) (omega (arith, exact))
  | no other ↦
      subst (λ c. 2 ^ c ≤ n) (sym (class-below n other))
        (elim ((index_lem n h (omega arith)).1) [
          | inl one ↦ absurd (other (one ∙ sym (ap (λ j. 2 ^ index j) one ∙ index-one)))
          | inr less ↦ omega (arith, less)
        ])
]

-- Get gives a slice of the length that is asked for, whose capacity is memory that it has, whatever
-- the pool of its class gives of what was put.
pub get_lem :
    (p : Pools) (size : ℕ) (found : Option ℕ)
    → IsHonest p
    → 0 < size
    → size ≤ 2147483647
    → (found ≡ none) ⊎ ((m : ℕ) × (rest : List ℕ) × (found ≡ some m) × (p (index size) ≡ m ∷ rest))
    → (s : Slice) × (get size found ≡ some s) × (s.len ≡ size) × IsBacked s
get_lem p size none honest h k q = (
  _,
  get-eq size none h k,
  refl,
  record { within = (index_lem size h (omega arith)).0; backed = omega arith },
)
get_lem p size (some m) honest h k (inl q) = absurd (none_some q)
  where
    none_some : some m ≢ none
    none_some e = cc
get_lem p size (some m) honest h k (inr (n, rest, q, e)) = (
  _,
  get-eq size (some m) h k,
  refl,
  record {
    within = (index_lem size h (omega arith)).0;
    backed =
        subst (λ j. 2 ^ index size ≤ j) (some_eq (sym q))
          (subst (AllHold (2 ^ index size)) e (honest (index size))).0;
  },
)
  where
    some_eq : some n ≡ some m → n ≡ m
    some_eq e = cc

put-in :
    (p : Pools) (s : Slice)
    → 0 < s.cap
    → s.cap ≤ 2147483647
    → (i : ℕ) → put p s i ≡ (if i == class_of s.cap then s.memory ∷ p i else p i)
unfolding put
put-in p s h k i = ground arith

put-out : (p : Pools) (s : Slice) → (s.cap ≡ 0) ⊎ (2147483647 < s.cap) → (i : ℕ) → put p s i ≡ p i
unfolding put
put-out p s h i = ground arith

-- Put keeps the pools honest for any slice that has the memory that its capacity claims.
pub put-IsHonest : (p : Pools) (s : Slice) → IsHonest p → IsBacked s → IsHonest (put p s)
put-IsHonest p s honest v i = elim (dec_lt 2147483647 s.cap) [
  | yes large ↦ subst (AllHold (2 ^ i)) (sym (put-out p s (inr large) i)) (honest i)
  | no fits ↦ elim (dec_lt 0 s.cap) [
    | no nothing ↦ subst (AllHold (2 ^ i)) (sym (put-out p s (inl (omega arith)) i)) (honest i)
    | yes some_here ↦
        subst (AllHold (2 ^ i)) (sym (put-in p s some_here (omega arith) i))
          (elim (ℕ_discrete i (class_of s.cap)) [
            | yes same ↦ subst (AllHold (2 ^ i)) {x = s.memory ∷ p i} (ground (arith, same)) (
              omega (arith, ap (λ c. 2 ^ c) same, class-le s.cap some_here (omega arith), v.backed),
              honest i,
            )
            | no other ↦ subst (AllHold (2 ^ i)) {x = p i} (ground (arith, other)) (honest i)
          ])
  ]
]
