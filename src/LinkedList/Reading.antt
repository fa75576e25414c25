-- ===== src/LinkedList/Reading.antt =====
-- What Read and Discard of linkedlist.Buffer give and leave.
use wsgnet.Prelude.{
  ℕ, zero, suc, ◌+◌, ◌-◌, ◌≤◌, ◌<◌, ◌==◌, ◌≡◌, refl, true, some, List, [], ◌∷◌, ◌++◌, ltb,
  if◌then◌else◌, lt→ltb, le→ltb, length, drop, copy, copy_at, min, arith, ap, subst, sym, ◌∙◌,
  length-append, drop-append, drop_all, drop-nil, list_ext, elements, lengths, dec_lt, dec_le,
  length-copy_at,
}
use wsgnet.LinkedList.Defs.{LinkedList, pop, put_back, read_loop, read}
use wsgnet.LinkedList.Shape.{Linked, joined, popped, pop_lem, pop_empty}
use wsgnet.LinkedList.Contents.{Holds, cut_lem, off_lem}

copy_at-nil : (n : ℕ) (p : List ℕ) → copy_at n p [] ≡ p
copy_at-nil n p = list_ext _ _ λ i. simp elements (ground arith)

-- Where the bytes fill the slice, what follows them does not count.
copy_at_full :
    (n : ℕ) (p xs ys : List ℕ) → length p ≤ n + length xs → copy_at n p xs ≡ copy_at n p (xs ++ ys)
copy_at_full n p xs ys h = list_ext _ _ λ i. simp (elements, lengths) (ground arith)

-- Where they do not, what follows is copied behind them.
copy_at_more :
    (n k : ℕ) (p xs ys : List ℕ)
    → k ≡ n + length xs
    → k ≤ length p
    → copy_at k (copy_at n p xs) ys ≡ copy_at n p (xs ++ ys)
copy_at_more n k p xs ys e h = list_ext _ _ λ i. simp (elements, lengths) (ground arith)

-- What the loop of Read has done, from n bytes filled on.
Reads : List ℕ → List ℕ → ℕ → List ℕ × ℕ × LinkedList → Type 0
Reads xs p n out =
    (out.0 ≡ copy_at n p xs)
    × (out.1 ≡ n + min (length p - n) (length xs))
    × Holds out.2 (drop (length p - n) xs)

read_end :
    (fuel : ℕ) (l : LinkedList) (p : List ℕ) (n : ℕ)
    → Linked l []
    → read_loop (suc fuel) l p n ≡ (p, n, l)
unfolding read_loop
read_end fuel l p n k = ground (arith, pop_empty l k)

Reads-none : (l : LinkedList) (p : List ℕ) (n : ℕ) → Linked l [] → Reads [] p n (p, n, l)
unfolding Reads
Reads-none l p n k = (sym (copy_at-nil n p), omega arith, ([], k, sym (drop-nil (length p - n))))

read_step :
    (fuel : ℕ) (l : LinkedList) (p : List ℕ) (n i : ℕ)
    → pop l ≡ (some i, popped l i)
    → let m = min (length p - n) (length (l.buf i)) in
      let l2 = if ltb m (length (l.buf i)) then put_back (popped l i) i m else popped l i in
      read_loop (suc fuel) l p n ≡ (
        if n + m == length p
        then (copy_at n p (l.buf i), n + m, l2)
        else read_loop fuel l2 (copy_at n p (l.buf i)) (n + m))
unfolding read_loop
read_step fuel l p n i e = ground (arith, e)

-- The node that is read is cut, or taken off whole.
after_cut :
    (l : LinkedList) (i m : ℕ) (ids : List ℕ)
    → Linked l (i ∷ ids)
    → m ≤ length (l.buf i)
    → Holds
        (if ltb m (length (l.buf i)) then put_back (popped l i) i m else popped l i)
        (drop m (joined l.buf (i ∷ ids)))
after_cut l i m ids k h = elim (dec_lt m (length (l.buf i))) [
  | yes part ↦ rw (lt→ltb m (length (l.buf i)) part) (cut_lem l i m ids k h)
  | no whole ↦
      rw (le→ltb m (length (l.buf i)) (omega arith))
        (ids, (pop_lem l i ids k).1, sym (off_lem l i m ids k (omega arith)))
]

read_last :
    (fuel : ℕ) (l : LinkedList) (p : List ℕ) (n i : ℕ) (ids : List ℕ)
    → Linked l (i ∷ ids)
    → n < length p
    → length p - n ≤ length (l.buf i)
    → Reads (joined l.buf (i ∷ ids)) p n (read_loop (suc fuel) l p n)
unfolding Reads
read_last fuel l p n i ids k q last = subst (Reads (joined l.buf (i ∷ ids)) p n) (sym ends) (
  copy_at_full n p (l.buf i) (joined l.buf ids) (omega arith),
  omega (arith, length-append (l.buf i) (joined l.buf ids)),
  subst (λ m. Holds l2 (drop m (joined l.buf (i ∷ ids)))) (omega arith)
      (after_cut l i m ids k (omega arith)),
)
  where
    m : ℕ
    m = min (length p - n) (length (l.buf i))

    l2 : LinkedList
    l2 = if ltb m (length (l.buf i)) then put_back (popped l i) i m else popped l i

    ends : read_loop (suc fuel) l p n ≡ (copy_at n p (l.buf i), n + m, l2)
    ends =
        read_step fuel l p n i (pop_lem l i ids k).0
        ∙ ap
            (λ b.
              if b
              then (copy_at n p (l.buf i), n + m, l2)
              else read_loop fuel l2 (copy_at n p (l.buf i)) (n + m))
            {y = true} (ground arith)

read_more :
    (fuel : ℕ) (l : LinkedList) (p : List ℕ) (n i : ℕ) (ids : List ℕ)
    → Linked l (i ∷ ids)
    → length (l.buf i) < length p - n
    → read_loop (suc fuel) l p n
      ≡ read_loop fuel (popped l i) (copy_at n p (l.buf i)) (n + length (l.buf i))
read_more fuel l p n i ids k h = ground (arith, read_step fuel l p n i (pop_lem l i ids k).0)

Reads-more :
    (p xs ys : List ℕ) (n k : ℕ) (out : List ℕ × ℕ × LinkedList)
    → k ≡ n + length xs
    → k < length p
    → Reads ys (copy_at n p xs) k out
    → Reads (xs ++ ys) p n out
unfolding Reads
Reads-more p xs ys n k out e h (bytes, count, holds) = (
  bytes ∙ copy_at_more n k p xs ys e (omega arith),
  omega (arith, count, length-append xs ys, length-copy_at n p xs),
  subst (Holds out.2) dropped holds,
)
  where
    dropped : drop (length (copy_at n p xs) - k) ys ≡ drop (length p - n) (xs ++ ys)
    dropped =
        ground (
          arith,
          length-copy_at n p xs,
          drop-append (length p - n) xs ys,
          drop_all (length p - n) xs,
        )

read_loop-Reads :
    (fuel : ℕ) (l : LinkedList) (p : List ℕ) (n : ℕ) (ids : List ℕ)
    → Linked l ids
    → length ids < fuel
    → n < length p
    → Reads (joined l.buf ids) p n (read_loop fuel l p n)
read_loop-Reads zero l p n ids k h q = absurd (omega arith)
read_loop-Reads (suc fuel) l p n [] k h q =
    subst (Reads [] p n) (sym (read_end fuel l p n k)) (Reads-none l p n k)
read_loop-Reads (suc fuel) l p n (i ∷ ids) k h q = elim (dec_le (length p - n) (length (l.buf i))) [
  | yes last ↦ read_last fuel l p n i ids k q last
  | no more ↦
      subst (Reads (joined l.buf (i ∷ ids)) p n) (sym (read_more fuel l p n i ids k (omega arith)))
        (Reads-more p (l.buf i) (joined l.buf ids) n (n + length (l.buf i)) _ refl (omega arith) (
          read_loop-Reads fuel (popped l i) (copy_at n p (l.buf i)) (n + length (l.buf i)) ids
            (pop_lem l i ids k).1 (omega arith) (omega (arith, length-copy_at n p (l.buf i)))))
]

read-cons :
    (l : LinkedList) (x : ℕ) (p : List ℕ) → read l (x ∷ p) ≡ read_loop (suc l.size) l (x ∷ p) 0
unfolding read
read-cons l x p = ground arith

abbrev ReadDone : List ℕ → List ℕ → List ℕ × ℕ × LinkedList → Type 0
ReadDone xs p out =
    (out.0 ≡ copy p xs) × (out.1 ≡ min (length p) (length xs)) × Holds out.2 (drop (length p) xs)

Reads-done : (xs p : List ℕ) (out : List ℕ × ℕ × LinkedList) → Reads xs p 0 out → ReadDone xs p out
unfolding Reads
Reads-done xs p out (bytes, count, holds) =
    (bytes, omega (arith, count), subst (λ n. Holds out.2 (drop n xs)) (omega arith) holds)

-- Read copies the oldest bytes into p as far as both go, returns their number, and drops them from
-- the buffer; the nodes in the list are fuel enough.
pub read-Holds :
    {l : LinkedList} {xs : List ℕ} (p : List ℕ)
    → Holds l xs
    → let out = read l p in
      (out.0 ≡ copy p xs) × (out.1 ≡ min (length p) (length xs)) × Holds out.2 (drop (length p) xs)
unfolding read
read-Holds {l} {xs} [] h = (refl, omega arith, h)
read-Holds {l} {xs} (x ∷ p) (ids, k, e) =
    subst (λ ys. ReadDone ys (x ∷ p) (read l (x ∷ p))) e
      (subst (ReadDone (joined l.buf ids) (x ∷ p)) (sym (read-cons l x p)) (
        Reads-done (joined l.buf ids) (x ∷ p) (read_loop (suc l.size) l (x ∷ p) 0) (
          read_loop-Reads (suc l.size) l (x ∷ p) 0 ids k (omega (arith, k.size_eq)) (omega arith))))
