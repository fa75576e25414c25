-- ===== src/LinkedList/Discarding.antt =====
-- What Discard and Reset of linkedlist.Buffer take off.
use wsgnet.Prelude.{
  ℕ, zero, suc, ◌+◌, ◌-◌, ◌≤◌, ◌<◌, ◌≡◌, refl, some, List, [], ◌∷◌, length, drop, min, arith, ap,
  subst, sym, length-append, drop-append, drop_all, drop-nil, ℤ, pos, negsuc, pos_part, dec_lt,
  ℕ_discrete, ◌≢◌,
}
use wsgnet.LinkedList.Defs.{LinkedList, pop, reset, put_back, discard_loop, discard}
use wsgnet.LinkedList.Shape.{Linked, joined, popped, pop_lem, pop_empty}
use wsgnet.LinkedList.Contents.{Holds, cut_lem}

-- What the loop of Discard has done, with d bytes discarded before it.
abbrev Discards : List ℕ → ℕ → ℕ → ℕ × LinkedList → Type 0
Discards xs n d out = (out.0 ≡ d + min n (length xs)) × Holds out.1 (drop n xs)

discard_zero :
    (fuel : ℕ) (l : LinkedList) (n d : ℕ) → n ≡ 0 → discard_loop (suc fuel) l n d ≡ (d, l)
unfolding discard_loop
discard_zero fuel l n d e = ground arith

discard_end :
    (fuel : ℕ) (l : LinkedList) (n d : ℕ) → Linked l [] → discard_loop (suc fuel) l n d ≡ (d, l)
unfolding discard_loop
discard_end fuel l n d k = ground (arith, pop_empty l k)

discard_cut :
    (fuel : ℕ) (l : LinkedList) (n d i : ℕ)
    → pop l ≡ (some i, popped l i)
    → n ≢ 0
    → n < length (l.buf i)
    → discard_loop (suc fuel) l n d ≡ (d + n, put_back (popped l i) i n)
unfolding discard_loop
discard_cut fuel l n d i e h k = ground (arith, e)

discard_more :
    (fuel : ℕ) (l : LinkedList) (n d i : ℕ)
    → pop l ≡ (some i, popped l i)
    → n ≢ 0
    → length (l.buf i) ≤ n
    → discard_loop (suc fuel) l n d
      ≡ discard_loop fuel (popped l i) (n - length (l.buf i)) (d + length (l.buf i))
unfolding discard_loop
discard_more fuel l n d i e h k = ground (arith, e)

discard_loop-Discards :
    (fuel : ℕ) (l : LinkedList) (n d : ℕ) (ids : List ℕ)
    → Linked l ids
    → length ids < fuel
    → Discards (joined l.buf ids) n d (discard_loop fuel l n d)
discard_loop-Discards zero l n d ids k h = absurd (omega arith)
discard_loop-Discards (suc fuel) l n d [] k h =
    subst (Discards [] n d) (sym (discard_end fuel l n d k))
      (omega arith, ([], k, sym (drop-nil n)))
discard_loop-Discards (suc fuel) l n d (i ∷ ids) k h = elim (ℕ_discrete n 0) [
  | yes nothing ↦
      subst (Discards (joined l.buf (i ∷ ids)) n d) (sym (discard_zero fuel l n d nothing))
        (omega arith, (i ∷ ids, k, ap (λ m. drop m (joined l.buf (i ∷ ids))) (sym nothing)))
  | no some_left ↦ elim (dec_lt n (length (l.buf i))) [
    | yes part ↦
        subst (Discards (joined l.buf (i ∷ ids)) n d)
          (sym (discard_cut fuel l n d i (pop_lem l i ids k).0 some_left part))
          (
            omega (arith, length-append (l.buf i) (joined l.buf ids)),
            cut_lem l i n ids k (omega arith),
          )
    | no whole ↦
        let (count, holds) =
          discard_loop-Discards fuel (popped l i) (n - length (l.buf i)) (d + length (l.buf i)) ids
            (pop_lem l i ids k).1 (omega arith) in
        subst (Discards (joined l.buf (i ∷ ids)) n d)
          (sym (discard_more fuel l n d i (pop_lem l i ids k).0 some_left (omega arith)))
          (
            omega (arith, count, length-append (l.buf i) (joined l.buf ids)),
            subst (Holds _)
                (ground (arith, drop-append n (l.buf i) (joined l.buf ids), drop_all n (l.buf i)))
                holds,
          )
  ]
]

-- Discard takes the first n bytes off, or all where fewer are held, and returns how many; a node of
-- which a part is left keeps its place.
pub discard-Holds :
    {l : LinkedList} {xs : List ℕ} (n : ℤ)
    → Holds l xs
    → let out = discard l n in
      (out.0 ≡ min (pos_part n) (length xs)) × Holds out.1 (drop (pos_part n) xs)
unfolding discard
discard-Holds {l} {xs} (pos zero) (ids, k, e) = (omega arith, (ids, k, e))
discard-Holds {l} {xs} (negsuc n) (ids, k, e) = (omega arith, (ids, k, e))
discard-Holds {l} {xs} (pos (suc n)) (ids, k, e) =
    let (count, holds) =
      discard_loop-Discards (suc l.size) l (suc n) 0 ids k (omega (arith, k.size_eq)) in
    (
      omega (arith, count, ap length e),
      subst (λ ys. Holds (discard_loop (suc l.size) l (suc n) 0).1 (drop (suc n) ys)) e holds,
    )

-- Reset leaves a list that holds nothing, whatever it held.
pub reset-Holds : (l : LinkedList) → Holds (reset l) []
unfolding reset
reset-Holds l = (
  [],
  record { chain = refl; last = refl; size_eq = refl; bytes_eq = refl; distinct = tt; below = tt },
  refl,
)
