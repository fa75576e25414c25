-- ===== src/Ring/Delivery.antt =====
-- What Read and ReadByte deliver, in terms of the bytes that the buffer holds.
use wsgnet.Prelude.{
  ℕ, zero, suc, ◌+◌, ◌-◌, ◌%◌, ◌≤◌, ◌<◌, ◌≡◌, refl, ap, ◌∙◌, true, false, none, some, List, [], ◌∷◌,
  ◌++◌, min, ◌==◌, length, take, drop, copy, copy_at, arith, slice_from, slice_to, slice-eq-some,
  length-take, length-drop, append-nil, take-take, take-append, take_all, drop_all,
}
use wsgnet.Errors.{is_empty}
use wsgnet.Ring.Defs.{Ring, buffered, reset}
use wsgnet.Ring.Reading.{
  at_most, reset_if_drained, copy_out, read_straight, read_round, read, ReadResult,
}
use wsgnet.Ring.Contents.{IsValid, contents, length-contents}
use wsgnet.Ring.Removal.{
  at_most-eq-min, take_zero, reset-IsValid, mod_once, advance, advance-IsValid, advance-contents,
}

module _ {ℓ} {A : Type ℓ} where
  -- A copy takes no more than the destination has room for.
  copy-take : (n : ℕ) (p xs : List A) → length p ≤ n → copy p (take n xs) ≡ copy p xs
  copy-take n [] xs h = refl
  copy-take zero (y ∷ p) xs h = absurd (omega arith)
  copy-take (suc n) (y ∷ p) [] h = refl
  copy-take (suc n) (y ∷ p) (x ∷ xs) h = ap (◌∷◌ x) (copy-take n p xs (omega arith))

  -- Two copies in a row are a copy of the two sources in a row.
  copy_at-copy :
      (p xs ys : List A) (n : ℕ) → n ≡ length xs → copy_at n (copy p xs) ys ≡ copy p (xs ++ ys)
  copy_at-copy [] xs ys zero e = refl
  copy_at-copy [] xs ys (suc n) e = refl
  copy_at-copy (y ∷ p) [] ys zero e = refl
  copy_at-copy (y ∷ p) [] ys (suc n) e = absurd (omega arith)
  copy_at-copy (y ∷ p) (x ∷ xs) ys zero e = absurd (omega arith)
  copy_at-copy (y ∷ p) (x ∷ xs) ys (suc n) e = ap (◌∷◌ x) (copy_at-copy p xs ys n (omega arith))

copy-take-min :
    (n : ℕ) (p xs : List ℕ) → n ≡ min (length xs) (length p) → copy p (take n xs) ≡ copy p xs
copy-take-min n p xs h = ground (arith, copy-take n p xs, take_all n xs)

-- The copies of Read put the first n bytes that are held into p.
copy_out-contents :
    {b : Ring} (p : List ℕ) (n : ℕ)
    → IsValid b
    → b.is_empty ≡ false
    → b.w ≤ b.r
    → n ≤ b.size - b.r + b.w
    → copy_out b p n ≡ some (copy p (take n (contents b)))
unfolding copy_out contents
copy_out-contents {b} p n v e h k = ground (
  arith,
  slice-eq-some b.buf b.r (b.r + n),
  slice_from b.buf b.r,
  slice_to b.buf (n - (b.size - b.r)),
  take-append n (drop b.r b.buf) (take b.w b.buf),
  length-drop b.r b.buf,
  take-take (n - length (drop b.r b.buf)) b.w b.buf,
  take_all n (drop b.r b.buf),
  take_zero (take b.w b.buf),
  append-nil (take n (drop b.r b.buf)),
  copy_at-copy p (drop b.r b.buf) (take (n - (b.size - b.r)) b.buf) (b.size - b.r),
)

-- Going on by n reaches the write index exactly where n is all that is held.
advance-meets :
    {b : Ring} (n : ℕ)
    → IsValid b
    → b.is_empty ≡ false
    → 0 < n
    → n ≤ buffered b
    → ((b.r + n) % b.size == b.w) ≡ (n == buffered b)
unfolding buffered
advance-meets {b} n v e pos h = ground (arith, mod_once (b.r + n) b.size)

-- The buffer that is left when n bytes have been copied out, reset if that drained it.
pub drained_lem :
    {b : Ring} (n : ℕ)
    → IsValid b
    → b.is_empty ≡ false
    → 0 < n
    → n ≤ buffered b
    → IsValid (reset_if_drained (advance b n))
      × (contents (reset_if_drained (advance b n)) ≡ drop n (contents b))
unfolding reset_if_drained reset
drained_lem {b} n v e pos h = ground (
  arith,
  advance-meets n v e pos h,
  advance-IsValid n v,
  advance-contents n v,
  reset-IsValid v,
  drop_all n (contents b),
  length-contents v,
)

-- What Read does, for p not empty and a buffer that holds bytes.
pub record Delivers (b : Ring) (p : List ℕ) (out : ReadResult) : Type 0 where
  pub copied : out.0 ≡ copy p (contents b)
  pub count : out.1 ≡ min (length (contents b)) (length p)
  pub fine : out.2 ≡ none
  pub valid : IsValid out.3
  pub rest : contents out.3 ≡ drop (length p) (contents b)

delivered : Ring → List ℕ → ReadResult
delivered b p =
    let n = at_most (buffered b) (length p) in
    (copy p (contents b), n, none, reset_if_drained (advance b n))

read_straight-eq :
    {b : Ring} (p : List ℕ)
    → IsValid b
    → b.is_empty ≡ false
    → b.r < b.w
    → read_straight b p ≡ some (delivered b p)
unfolding read_straight delivered buffered contents
read_straight-eq {b} p v e h = ground (
  arith,
  at_most-eq-min (b.w - b.r) (length p),
  slice-eq-some b.buf b.r (b.r + at_most (b.w - b.r) (length p)),
  take-take (at_most (b.w - b.r) (length p)) (b.w - b.r) (drop b.r b.buf),
  length-take (b.w - b.r) (drop b.r b.buf),
  length-drop b.r b.buf,
  copy-take-min (at_most (b.w - b.r) (length p)) p (take (b.w - b.r) (drop b.r b.buf)),
  mod_once (b.r + at_most (b.w - b.r) (length p)) b.size,
)

read_round-eq :
    {b : Ring} (p : List ℕ)
    → IsValid b
    → b.is_empty ≡ false
    → b.w ≤ b.r
    → read_round b p ≡ some (delivered b p)
unfolding read_round delivered buffered
read_round-eq {b} p v e h = ground (
  arith,
  at_most-eq-min (b.size - b.r + b.w) (length p),
  copy_out-contents p (at_most (b.size - b.r + b.w) (length p)) v e h,
  copy-take-min (at_most (b.size - b.r + b.w) (length p)) p (contents b),
  length-contents v,
)

-- Everything but a read of nothing from a buffer that is empty.
read-eq :
    {b : Ring} (p : List ℕ)
    → IsValid b
    → b.is_empty ≡ false
    → 0 < length p
    → read b p ≡ some (delivered b p)
unfolding read
read-eq {b} p v e h = ground (arith, read_straight-eq p v e, read_round-eq p v e)

pub buffered_pos : {b : Ring} → IsValid b → b.is_empty ≡ false → 0 < buffered b
unfolding buffered
buffered_pos v e = ground arith

-- What Read gives and leaves: for p not empty and a buffer that is not empty it does not panic,
-- copies the oldest bytes into p as far as both go, returns their number with no error, and drops
-- them from the buffer.
pub read_lem :
    {b : Ring} (p : List ℕ)
    → IsValid b
    → b.is_empty ≡ false
    → 0 < length p
    → (out : ReadResult) × (read b p ≡ some out) × Delivers b p out
unfolding delivered
read_lem {b} p v e h = (
  delivered b p,
  read-eq p v e h,
  record {
    copied = refl;
    count = omega (arith, at_most-eq-min (buffered b) (length p), length-contents v);
    fine = refl;
    valid = left.0;
    rest = left.1 ∙ dropped;
  },
)
  where
    n : ℕ
    n = at_most (buffered b) (length p)

    small : n ≡ min (buffered b) (length p)
    small = at_most-eq-min (buffered b) (length p)

    left :
        IsValid (reset_if_drained (advance b n))
        × (contents (reset_if_drained (advance b n)) ≡ drop n (contents b))
    left = drained_lem n v e (omega (arith, small, buffered_pos v e)) (omega (arith, small))

    dropped : drop n (contents b) ≡ drop (length p) (contents b)
    dropped =
        ground (
          arith,
          small,
          length-contents v,
          drop_all n (contents b),
          drop_all (length p) (contents b),
        )

-- A read of nothing changes nothing, and a read from a buffer that is empty gives ErrIsEmpty.
pub read-idle :
    {b : Ring} (p : List ℕ)
    → (length p ≡ 0 → read b p ≡ some (p, 0, none, b))
      × (0 < length p → b.is_empty ≡ true → read b p ≡ some (p, 0, some is_empty, b))
unfolding read
read-idle {b} p = ((λ h. ground arith), (λ h e. ground arith))
