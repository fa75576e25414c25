-- ===== src/Ring/Writing.antt =====
-- What Write appends, with the growth that it may take.
use wsgnet.Prelude.{
  ℕ, suc, ◌+◌, ◌-◌, ◌^◌, ◌≤◌, ◌<◌, ◌≡◌, refl, false, ◌&&◌, some, List, [], ◌∷◌, ◌++◌, ltb, leb,
  if◌then◌else◌, length, take, drop, copy_at, arith, slice_to, slice_from, length-copy_at,
  append-nil, dec_lt, lt→ltb, le→ltb, ◌∙◌, ap,
}
use wsgnet.Ring.Defs.{Ring, available}
use wsgnet.Ring.Growing.{place, wrap_index, grow, write}
use wsgnet.Ring.Contents.{IsValid, contents, length-contents, buffered-add-available}
use wsgnet.Ring.Removal.{take_zero}
use wsgnet.Ring.Growth.{grow_lem}
use wsgnet.Ring.Placing.{straight_within, straight_to_end, straight_round, round_within}

-- The buffer with new bytes, and a write index that may have reached the end.
abbrev pub put : Ring → List ℕ × ℕ → Ring
put b (buf, w) = record b { buf = buf; w = wrap_index w b.size; is_empty = false }

-- What the copies of Write leave.
abbrev pub placed : Ring → List ℕ → List ℕ × ℕ
placed b p =
    let c = b.size - b.w in
    if leb b.r b.w && ltb c (length p)
    then (copy_at 0 (copy_at b.w b.buf (take c p)) (drop c p), length p - c)
    else (copy_at b.w b.buf p, b.w + length p)

place-eq :
    {b : Ring} (p : List ℕ) → IsValid b → length p ≤ available b → place b p ≡ some (placed b p)
unfolding place available
place-eq {b} p v h = ground (
  arith,
  slice_to p (b.size - b.w),
  slice_from p (b.size - b.w),
  length-copy_at b.w b.buf (take (b.size - b.w) p),
)

pub put-IsValid :
    {b : Ring} (p : List ℕ)
    → IsValid b
    → 0 < length p
    → length p ≤ available b
    → IsValid (put b (placed b p))
unfolding available
put-IsValid {b} p v h k = ground (
  arith,
  length-copy_at b.w b.buf p,
  length-copy_at b.w b.buf (take (b.size - b.w) p),
  length-copy_at 0 (copy_at b.w b.buf (take (b.size - b.w) p)) (drop (b.size - b.w) p),
)

pub put-contents :
    {b : Ring} (p : List ℕ)
    → IsValid b
    → 0 < length p
    → length p ≤ available b
    → contents (put b (placed b p)) ≡ contents b ++ p
unfolding available contents
put-contents {b} p v h k = ground (
  arith,
  straight_within b.buf p b.r b.w,
  straight_to_end b.buf p b.r b.w,
  straight_round b.buf p b.r b.w,
  round_within b.buf p b.r b.w,
  take_zero (drop b.r b.buf),
  take_zero (copy_at b.w b.buf p),
  append-nil (drop b.r (copy_at b.w b.buf p)),
)

-- A buffer with room for p, before its bytes are copied.
record Ready (b : Ring) (n : ℕ) (b' : Ring) : Type 0 where
  valid : IsValid b'
  same : contents b' ≡ contents b
  free : n ≤ available b'

module _ (mem : ℕ → ℕ → ℕ) where
  -- The growth of Write leaves enough room.
  ready :
      {b : Ring} (n : ℕ)
      → IsValid b
      → b.size + n ≤ 2 ^ 62
      → (b' : Ring) × ((if ltb (available b) n
            then grow mem b (b.size + n - available b)
            else some b)
          ≡ some b')
        × Ready b n b'
  ready {b} n v h = elim (dec_lt (available b) n) [
    | yes short ↦
        let (b', eq, g) =
          grow_lem mem (b.size + n - available b) v (omega arith)
            (omega (arith, buffered-add-available v)) (omega arith) in
        (
          b',
          rw (lt→ltb (available b) n short) eq,
          record {
            valid = g.valid;
            same = g.same;
            free = omega (
              arith,
              g.larger,
              buffered-add-available v,
              buffered-add-available g.valid,
              length-contents v,
              length-contents g.valid,
              ap length g.same,
            );
          },
        )
    | no long ↦ (
      b,
      rw (le→ltb (available b) n (omega arith)) refl,
      record { valid = v; same = refl; free = omega arith },
    )
  ]

  -- Write appends p, whatever the room that the buffer has, returns the length of p and does not
  -- panic, while the sizes stay up to 2 ^ 62.
  pub write_lem :
      {b : Ring} (p : List ℕ)
      → IsValid b
      → b.size + length p ≤ 2 ^ 62
      → (b' : Ring) × (write mem b p ≡ some (length p, b'))
        × IsValid b'
        × (contents b' ≡ contents b ++ p)
  unfolding write
  write_lem {b} [] v h = (b, refl, v, rw append-nil)
  write_lem {b} (x ∷ xs) v h =
      let (b', eq, r) = ready (suc (length xs)) v h in
      (
        put b' (placed b' (x ∷ xs)),
        ground (arith, eq, place-eq (x ∷ xs) r.valid r.free),
        put-IsValid (x ∷ xs) r.valid (omega arith) r.free,
        put-contents (x ∷ xs) r.valid (omega arith) r.free ∙ ap (λ c. c ++ (x ∷ xs)) r.same,
      )
