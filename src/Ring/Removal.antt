-- ===== src/Ring/Removal.antt =====
-- What Peek and Discard give, in terms of the bytes that the buffer holds.
use native.Mathlib.Nat.{mod-eq_of_lt, mod-eq-sub-mod}
use wsgnet.Prelude.{
  ℕ, ◌+◌, ◌-◌, ◌%◌, ◌<◌, ◌≡◌, refl, true, false, Option, none, some, List, [], ◌++◌, ltb, min,
  if◌then◌else◌, length, take, drop, arith, slice_from, slice_to, slice-eq-some, length-drop,
  append-nil, take-take, take-append, take_all, drop_all, drop-append, drop-take, drop-drop,
  take-nil, ℤ, pos, negsuc, pos_part, non_positive,
}
use wsgnet.Ring.Defs.{Ring, buffered, reset}
use wsgnet.Ring.Reading.{at_most, peek, peek_all, peek_some, discard}
use wsgnet.Ring.Contents.{IsValid, contents, length-contents}

-- The two slices of Peek, one behind the other.
abbrev pub joined : Option (List ℕ × List ℕ) → Option (List ℕ)
joined none = none
joined (some (head, tail)) = some (head ++ tail)

pub peek_all-contents : {b : Ring} → IsValid b → joined (peek_all b) ≡ some (contents b)
unfolding peek_all contents
peek_all-contents {b} v = ground (
  arith,
  slice_from b.buf b.r,
  slice_to b.buf b.w,
  slice-eq-some b.buf b.r b.w,
  append-nil (drop b.r b.buf),
  append-nil (take (b.w - b.r) (drop b.r b.buf)),
)

pub at_most-eq-min : (m n : ℕ) → at_most m n ≡ min m n
unfolding at_most
at_most-eq-min m n = ground arith

pub drop_zero : (xs : List ℕ) → drop 0 xs ≡ xs
drop_zero xs = refl

pub non_positive_zero : (n : ℤ) → non_positive n ≡ true → pos_part n ≡ 0
non_positive_zero (pos n) h = ground arith
non_positive_zero (negsuc n) h = refl

pub take_zero : (xs : List ℕ) → take 0 xs ≡ []
take_zero xs = refl

pub contents_empty : (b : Ring) → b.is_empty ≡ true → contents b ≡ []
unfolding contents
contents_empty b e = ground arith

pub peek_some-contents :
    {b : Ring} (n : ℕ)
    → IsValid b
    → b.is_empty ≡ false
    → joined (peek_some b n) ≡ some (take n (contents b))
unfolding peek_some contents
peek_some-contents {b} n v e = ground (
  arith,
  at_most-eq-min (b.w - b.r) n,
  at_most-eq-min (b.size - b.r + b.w) n,
  slice_from b.buf b.r,
  slice_to b.buf (at_most (b.size - b.r + b.w) n - (b.size - b.r)),
  slice-eq-some b.buf b.r (b.r + at_most (b.w - b.r) n),
  slice-eq-some b.buf b.r (b.r + at_most (b.size - b.r + b.w) n),
  take-take n (b.w - b.r) (drop b.r b.buf),
  take-take (n - length (drop b.r b.buf)) b.w b.buf,
  take-append n (drop b.r b.buf) (take b.w b.buf),
  take_all n (drop b.r b.buf),
  take_zero b.buf,
  length-drop b.r b.buf,
  append-nil (take (b.r + at_most (b.w - b.r) n - b.r) (drop b.r b.buf)),
  append-nil (take (b.r + at_most (b.size - b.r + b.w) n - b.r) (drop b.r b.buf)),
  append-nil (take n (drop b.r b.buf)),
  append-nil (drop b.r b.buf),
  take_all (b.r + at_most (b.size - b.r + b.w) n - b.r) (drop b.r b.buf),
)

-- Peek shows the first n bytes that are held, or all of them where n is not positive, and does not
-- panic.
pub peek-contents :
    {b : Ring} (n : ℤ)
    → IsValid b
    → joined (peek b n)
      ≡ some (if non_positive n then contents b else take (pos_part n) (contents b))
unfolding peek
peek-contents {b} n v = ground (
  arith,
  peek_all-contents v,
  peek_some-contents (pos_part n) v,
  contents_empty b,
  take-nil {A = ℕ} (pos_part n),
)

-- Reset leaves a well-formed buffer that holds nothing.
pub reset-IsValid : {b : Ring} → IsValid b → IsValid (reset b) × (contents (reset b) ≡ [])
unfolding reset contents
reset-IsValid v = ground arith

-- A remainder after at most one turn.
pub mod_once : (a s : ℕ) → a < s + s → a % s ≡ (if ltb a s then a else a - s)
mod_once a s h = ground (
  arith,
  mod-eq_of_lt {n = a} {m = s},
  mod-eq-sub-mod {n = a} {m = s},
  mod-eq_of_lt {n = a - s} {m = s},
)

-- The buffer after its read index has gone on by n.
abbrev pub advance : Ring → ℕ → Ring
advance b n = record b { r = (b.r + n) % b.size }

pub advance-IsValid : {b : Ring} (n : ℕ) → IsValid b → n < buffered b → IsValid (advance b n)
unfolding buffered
advance-IsValid {b} n v h = ground (arith, mod_once (b.r + n) b.size)

-- Going on by less than is held drops those bytes.
pub advance-contents :
    {b : Ring} (n : ℕ) → IsValid b → n < buffered b → contents (advance b n) ≡ drop n (contents b)
unfolding buffered contents
advance-contents {b} n v h = ground (
  arith,
  mod_once (b.r + n) b.size,
  drop-take n (b.w - b.r) (drop b.r b.buf),
  drop-drop n b.r b.buf,
  drop-append n (drop b.r b.buf) (take b.w b.buf),
  length-drop b.r b.buf,
  drop-take (n - length (drop b.r b.buf)) b.w b.buf,
  drop_all n (drop b.r b.buf),
  drop_zero (take b.w b.buf),
)

-- Discard takes the first n bytes off, or all where fewer are held; it returns how many.
pub discard_lem :
    {b : Ring} (n : ℤ)
    → IsValid b
    → let (count, b') = discard b n in
      IsValid b'
      × (count ≡ min (pos_part n) (length (contents b)))
      × (contents b' ≡ drop (pos_part n) (contents b))
unfolding discard
discard_lem {b} n v = ground (
  arith,
  advance-IsValid (pos_part n) v,
  advance-contents (pos_part n) v,
  reset-IsValid v,
  length-contents v,
  drop_all (pos_part n) (contents b),
  non_positive_zero n,
)
