-- ===== src/Ring/WritingByte.antt =====
-- What WriteByte appends, and where it panics.
use wsgnet.Prelude.{
  ℕ, zero, suc, ◌^◌, ◌≤◌, ◌<◌, ◌≡◌, refl, false, none, some, List, [], ◌∷◌, ◌++◌, length, set,
  copy_at, arith, dec_le, ◌∙◌, ap, ◌⊎◌,
}
use wsgnet.Ring.Defs.{Ring, buffered, available}
use wsgnet.Ring.Growing.{grow, write_byte}
use wsgnet.Ring.Contents.{IsValid, contents, length-contents, buffered-add-available}
use wsgnet.Ring.Growth.{grow_to, grow_indices}
use wsgnet.Ring.Capacity.{grown_cap_one_small, grown_cap_one_large}
use wsgnet.Ring.Writing.{put, placed, put-IsValid, put-contents}

set-eq-copy_at : (xs : List ℕ) (i c : ℕ) → set xs i c ≡ copy_at i xs (c ∷ [])
set-eq-copy_at [] zero c = refl
set-eq-copy_at [] (suc i) c = refl
set-eq-copy_at (x ∷ []) zero c = refl
set-eq-copy_at (x ∷ y ∷ xs) zero c = refl
set-eq-copy_at (x ∷ xs) (suc i) c = ap (◌∷◌ x) (set-eq-copy_at xs i c)

-- With room for a byte.
write_byte_room :
    (mem : ℕ → ℕ → ℕ) {b : Ring} (c : ℕ)
    → IsValid b
    → 1 ≤ available b
    → write_byte mem b c ≡ some (put b (placed b (c ∷ [])))
unfolding write_byte available
write_byte_room mem {b} c v h = ground (arith, set-eq-copy_at b.buf b.w c)

-- With no room, after the growth.
write_byte_grown :
    (mem : ℕ → ℕ → ℕ) (b b' : Ring) (c : ℕ)
    → available b ≡ 0
    → grow mem b 1 ≡ some b'
    → 1 ≤ available b'
    → write_byte mem b c ≡ write_byte mem b' c
unfolding write_byte
write_byte_grown mem b b' c e g h = ground (arith, g)

appended :
    (mem : ℕ → ℕ → ℕ) {b : Ring} (c : ℕ)
    → IsValid b
    → 1 ≤ available b
    → (b' : Ring) × (write_byte mem b c ≡ some b')
      × IsValid b'
      × (contents b' ≡ contents b ++ c ∷ [])
appended mem {b} c v h = (
  put b (placed b (c ∷ [])),
  write_byte_room mem c v h,
  put-IsValid (c ∷ []) v (omega arith) h,
  put-contents (c ∷ []) v (omega arith) h,
)

-- WriteByte appends its byte and does not panic, if there is room or the size is below the growth
-- threshold.
pub write_byte_lem :
    (mem : ℕ → ℕ → ℕ) {b : Ring} (c : ℕ)
    → IsValid b
    → (1 ≤ available b) ⊎ (b.size < 4096)
    → (b' : Ring) × (write_byte mem b c ≡ some b')
      × IsValid b'
      × (contents b' ≡ contents b ++ c ∷ [])
write_byte_lem mem {b} c v h = elim (dec_le 1 (available b)) [
  | yes roomy ↦ appended mem c v roomy
  | no full ↦
      let (m, cap, lt) = grown_cap_one_small b.size (omega arith) in
      let (b1, eq, g) = grow_to mem 1 m v cap (omega (arith, buffered-add-available v)) in
      let free : 1 ≤ available b1 = omega (
        arith,
        g.larger,
        buffered-add-available v,
        buffered-add-available g.valid,
        length-contents v,
        length-contents g.valid,
        ap length g.same,
      ) in
      let (b2, eq2, valid, same) = appended mem {b = b1} c g.valid free in
      (
        b2,
        write_byte_grown mem b b1 c (omega arith) eq free ∙ eq2,
        valid,
        same ∙ ap (λ xs. xs ++ c ∷ []) g.same,
      )
]

full_held : {b : Ring} → IsValid b → available b ≡ 0 → 4096 ≤ b.size → b.is_empty ≡ false
unfolding available
full_held v e h = ground arith

-- WriteByte panics on a full buffer of the threshold's size or more: the growth that it asks for
-- leaves the size as it is, and the store is one byte beyond the end.
pub write_byte_panics :
    (mem : ℕ → ℕ → ℕ) {b : Ring} (c : ℕ)
    → IsValid b
    → available b ≡ 0
    → 4096 ≤ b.size
    → b.size ≤ 2 ^ 61
    → write_byte mem b c ≡ none
unfolding write_byte
write_byte_panics mem {b} c v e h k =
    let held : buffered b ≡ b.size = omega (arith, buffered-add-available v) in
    let (b', eq, w_eq, size_eq) =
      grow_indices mem 1 b.size v (full_held v e h) (grown_cap_one_large b.size h k)
        (omega arith) in
    ground (arith, e, eq, held, w_eq, size_eq)
