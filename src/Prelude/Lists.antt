-- ===== src/Prelude/Lists.antt =====
-- Lists measured and indexed by native numbers, under the library's names.
use Prim.Native.Nat.{ℕ, zero, suc, ◌+◌, ◌-◌, ◌≤◌, ◌<◌, min}
use mathlib.Core.Path.{◌≡◌, refl, ap, ◌∙◌}
use mathlib.Core.Bool.{◌&&◌}
use mathlib.Core.List.{List, [], ◌∷◌, ◌++◌}
use mathlib.Core.Option.{Option, none, some}
use native.Mathlib.Omega.{arith}
use mathlib.Core.Logic.{inl, inr}
use wsgnet.Prelude.Tests.{leb, if◌then◌else◌, le→leb, lt→leb, Bool-cases}

module _ {ℓ} {A : Type ℓ} where
  abbrev pub length : List A → ℕ
  length [] = 0
  length (x ∷ xs) = suc (length xs)

  abbrev pub get_elem? : List A → ℕ → Option A
  get_elem? [] i = none
  get_elem? (x ∷ xs) zero = some x
  get_elem? (x ∷ xs) (suc i) = get_elem? xs i

  abbrev pub take : ℕ → List A → List A
  take zero xs = []
  take (suc n) [] = []
  take (suc n) (x ∷ xs) = x ∷ take n xs

  abbrev pub drop : ℕ → List A → List A
  drop zero xs = xs
  drop (suc n) [] = []
  drop (suc n) (x ∷ xs) = drop n xs

  -- A write out of bounds changes nothing.
  abbrev pub set : List A → ℕ → A → List A
  set [] i v = []
  set (x ∷ xs) zero v = v ∷ xs
  set (x ∷ xs) (suc i) v = x ∷ set xs i v

  -- Go's copy(dst, src): as many elements as both have room for.
  abbrev pub copy : List A → List A → List A
  copy [] ys = []
  copy (x ∷ xs) [] = x ∷ xs
  copy (x ∷ xs) (y ∷ ys) = y ∷ copy xs ys

  -- Go's copy(dst[i:], src), for an i within dst.
  abbrev pub copy_at : ℕ → List A → List A → List A
  copy_at zero xs ys = copy xs ys
  copy_at (suc i) [] ys = []
  copy_at (suc i) (x ∷ xs) ys = x ∷ copy_at i xs ys

  -- The n values f 0, f 1, …
  abbrev pub tabulate : ℕ → (ℕ → A) → List A
  tabulate zero f = []
  tabulate (suc n) f = f 0 ∷ tabulate n (λ i. f (suc i))

  -- Go's xs[i:j]; the panic of an index out of range is `none`.
  unfoldable pub slice : List A → ℕ → ℕ → Option (List A)
  slice xs i j = if leb i j && leb j (length xs) then some (take (j - i) (drop i xs)) else none

  pub length-append : (xs ys : List A) → length (xs ++ ys) ≡ length xs + length ys
  length-append [] ys = omega arith
  length-append (x ∷ xs) ys = omega (arith, length-append xs ys)

  pub length-take : (n : ℕ) (xs : List A) → length (take n xs) ≡ min n (length xs)
  length-take zero xs = omega arith
  length-take (suc n) [] = omega arith
  length-take (suc n) (x ∷ xs) = omega (arith, length-take n xs)

  pub length-drop : (n : ℕ) (xs : List A) → length (drop n xs) ≡ length xs - n
  length-drop zero xs = omega arith
  length-drop (suc n) [] = omega arith
  length-drop (suc n) (x ∷ xs) = omega (arith, length-drop n xs)

  pub length-set : (xs : List A) (i : ℕ) (v : A) → length (set xs i v) ≡ length xs
  length-set [] i v = refl
  length-set (x ∷ xs) zero v = refl
  length-set (x ∷ xs) (suc i) v = ap suc (length-set xs i v)

  pub length-copy : (xs ys : List A) → length (copy xs ys) ≡ length xs
  length-copy [] ys = refl
  length-copy (x ∷ xs) [] = refl
  length-copy (x ∷ xs) (y ∷ ys) = ap suc (length-copy xs ys)

  pub length-copy_at : (i : ℕ) (xs ys : List A) → length (copy_at i xs ys) ≡ length xs
  length-copy_at zero xs ys = length-copy xs ys
  length-copy_at (suc i) [] ys = refl
  length-copy_at (suc i) (x ∷ xs) ys = ap suc (length-copy_at i xs ys)

  pub length-tabulate : (n : ℕ) (f : ℕ → A) → length (tabulate n f) ≡ n
  length-tabulate zero f = refl
  length-tabulate (suc n) f = ap suc (length-tabulate n (λ i. f (suc i)))

  pub take-append-drop : (n : ℕ) (xs : List A) → take n xs ++ drop n xs ≡ xs
  take-append-drop zero xs = refl
  take-append-drop (suc n) [] = refl
  take-append-drop (suc n) (x ∷ xs) = ap (◌∷◌ x) (take-append-drop n xs)

  pub take_all : (n : ℕ) (xs : List A) → length xs ≤ n → take n xs ≡ xs
  take_all zero [] h = refl
  take_all zero (x ∷ xs) h = absurd (omega arith)
  take_all (suc n) [] h = refl
  take_all (suc n) (x ∷ xs) h = ap (◌∷◌ x) (take_all n xs (omega arith))

  pub drop_all : (n : ℕ) (xs : List A) → length xs ≤ n → drop n xs ≡ []
  drop_all zero [] h = refl
  drop_all zero (x ∷ xs) h = absurd (omega arith)
  drop_all (suc n) [] h = refl
  drop_all (suc n) (x ∷ xs) h = drop_all n xs (omega arith)

  -- A slice within bounds does not panic.
  pub slice-eq-some :
      (xs : List A) (i j : ℕ)
      → i ≤ j
      → j ≤ length xs
      → slice xs i j ≡ some (take (j - i) (drop i xs))
  unfolding slice
  slice-eq-some xs i j h k = rw (le→leb i j h, le→leb j (length xs) k)

  pub slice_from : (xs : List A) (i : ℕ) → i ≤ length xs → slice xs i (length xs) ≡ some (drop i xs)
  slice_from xs i h =
      slice-eq-some xs i (length xs) h (omega arith)
      ∙ ap some (take_all (length xs - i) (drop i xs) (omega (arith, length-drop i xs)))

  pub slice_to : (xs : List A) (j : ℕ) → j ≤ length xs → slice xs 0 j ≡ some (take j xs)
  slice_to xs j h = slice-eq-some xs 0 j (omega arith) h ∙ ap (λ n. some (take n xs)) (omega arith)

  -- A slice beyond the end panics.
  pub slice-eq-none : (xs : List A) (i j : ℕ) → length xs < j → slice xs i j ≡ none
  unfolding slice
  slice-eq-none xs i j h = elim (Bool-cases (leb i j)) [
    | inl p ↦ rw (p, lt→leb j (length xs) h)
    | inr p ↦ rw p
  ]

pub ruleset lengths = (
  length-append, length-take, length-drop, length-set, length-copy, length-copy_at, length-tabulate,
)
