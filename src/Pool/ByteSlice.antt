-- ===== src/Pool/ByteSlice.antt =====
-- pkg/pool/byteslice/byteslice.go: byte slices by size classes. Of a slice the model keeps its
-- length, its capacity, and how many bytes there really are behind its pointer.
use wsgnet.Prelude.{
  ℕ, zero, suc, ◌+◌, ◌-◌, ◌/◌, ◌%◌, ◌^◌, Option, none, some, List, ◌∷◌, ltb, ◌==◌, ◌||◌,
  if◌then◌else◌,
}

pub record Slice : Type 0 where
  pub len : ℕ
  pub cap : ℕ
  pub memory : ℕ

-- The pools, by index: for each pointer that was put how many bytes are behind it.
abbrev pub Pools : Type 0
Pools = ℕ → List ℕ

-- bits.Len32: how many bits a number has, on 32 rounds.
unfoldable pub bit_len : ℕ → ℕ → ℕ
bit_len zero n = 0
bit_len (suc fuel) n = let rest = bit_len fuel (n / 2) in if n == 0 then 0 else suc rest

unfoldable pub index : ℕ → ℕ
index n = bit_len 32 ((n + (2 ^ 32 - 1)) % 2 ^ 32)

abbrev pub max_int32 : ℕ
max_int32 = 2147483647

-- Get, where the pool of the size's class gives `found`: `none` is a nil slice.
unfoldable pub get : ℕ → Option ℕ → Option Slice
get size found =
    if size == 0
    then none
    else if ltb max_int32 size
    then some (record { len = size; cap = size; memory = size })
    else some (record {
      len = size;
      cap = 2 ^ index size;
      memory = elim found [ none ↦ 2 ^ index size | some m ↦ m ];
    })

-- The class into which Put puts a slice.
unfoldable pub class_of : ℕ → ℕ
class_of size = if size == 2 ^ index size then index size else index size - 1

unfoldable pub put : Pools → Slice → Pools
put p s = if s.cap == 0 || ltb max_int32 s.cap then p else λ i.
    if i == class_of s.cap then s.memory ∷ p i else p i
