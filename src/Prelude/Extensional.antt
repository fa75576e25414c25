-- ===== src/Prelude/Extensional.antt =====
-- Equations between lists by their elements: what stands at an index of `++`, `take`, `drop`,
-- `copy_at` and `set`, and that the elements determine the list.
use Prim.Native.Nat.{ℕ, zero, suc, ◌+◌, ◌-◌, ◌≤◌, ◌<◌}
use mathlib.Core.Path.{◌≡◌, refl, ap, ap₂}
use mathlib.Core.Bool.{◌&&◌}
use mathlib.Core.List.{List, [], ◌∷◌, ◌++◌}
use mathlib.Core.Option.{none, some, some-injective}
use native.Mathlib.Omega.{arith}
use wsgnet.Prelude.Tests.{ltb, leb, ◌==◌, if◌then◌else◌}
use wsgnet.Prelude.Lists.{length, get_elem?, take, drop, set, copy, copy_at}

module _ {ℓ} {A : Type ℓ} where
  pub list_ext : (xs ys : List A) → ((i : ℕ) → get_elem? xs i ≡ get_elem? ys i) → xs ≡ ys
  list_ext [] [] h = refl
  list_ext [] (y ∷ ys) h = cc (h 0)
  list_ext (x ∷ xs) [] h = cc (h 0)
  list_ext (x ∷ xs) (y ∷ ys) h =
      ap₂ ◌∷◌ (some-injective x y (h 0)) (list_ext xs ys (λ i. h (suc i)))

  pub get_elem?_beyond : (xs : List A) (i : ℕ) → length xs ≤ i → get_elem? xs i ≡ none
  get_elem?_beyond [] i h = refl
  get_elem?_beyond (x ∷ xs) zero h = absurd (omega arith)
  get_elem?_beyond (x ∷ xs) (suc i) h = get_elem?_beyond xs i (omega arith)

  pub get_elem?_within : (xs : List A) (i : ℕ) → i < length xs → (a : A) × (get_elem? xs i ≡ some a)
  get_elem?_within [] i h = absurd (omega arith)
  get_elem?_within (x ∷ xs) zero h = (x, refl)
  get_elem?_within (x ∷ xs) (suc i) h = get_elem?_within xs i (omega arith)

  pub cons_of_first : (xs : List A) (a : A) → get_elem? xs 0 ≡ some a → xs ≡ a ∷ drop 1 xs
  cons_of_first [] a e = cc
  cons_of_first (x ∷ xs) a e = ap (λ y. y ∷ xs) (some-injective x a e)

  pub get_elem?-append :
      (xs ys : List A) (i : ℕ)
      → get_elem? (xs ++ ys) i
        ≡ (if ltb i (length xs) then get_elem? xs i else get_elem? ys (i - length xs))
  get_elem?-append [] ys i = ground (arith, ap (get_elem? ys) (sub_zero i))
    where
      sub_zero : (n : ℕ) → n - 0 ≡ n
      sub_zero n = omega arith
  get_elem?-append (x ∷ xs) ys zero = ground arith
  get_elem?-append (x ∷ xs) ys (suc i) = ground (arith, get_elem?-append xs ys i)

  pub get_elem?-take :
      (n : ℕ) (xs : List A) (i : ℕ)
      → get_elem? (take n xs) i ≡ (if ltb i n then get_elem? xs i else none)
  get_elem?-take zero xs i = ground arith
  get_elem?-take (suc n) [] i = ground arith
  get_elem?-take (suc n) (x ∷ xs) zero = ground arith
  get_elem?-take (suc n) (x ∷ xs) (suc i) = ground (arith, get_elem?-take n xs i)

  pub get_elem?-drop :
      (n : ℕ) (xs : List A) (i : ℕ) → get_elem? (drop n xs) i ≡ get_elem? xs (n + i)
  get_elem?-drop zero xs i = ap (get_elem? xs) (omega arith)
  get_elem?-drop (suc n) [] i = refl
  get_elem?-drop (suc n) (x ∷ xs) i =
      ground (arith, get_elem?-drop n xs i, ap (get_elem? (x ∷ xs)) (suc_add n i))
    where
      suc_add : (n i : ℕ) → suc n + i ≡ suc (n + i)
      suc_add n i = omega arith

  pub get_elem?-copy :
      (xs ys : List A) (j : ℕ)
      → get_elem? (copy xs ys) j
        ≡ (if ltb j (length xs) && ltb j (length ys) then get_elem? ys j else get_elem? xs j)
  get_elem?-copy [] ys j = ground arith
  get_elem?-copy (x ∷ xs) [] j = ground arith
  get_elem?-copy (x ∷ xs) (y ∷ ys) zero = ground arith
  get_elem?-copy (x ∷ xs) (y ∷ ys) (suc j) = ground (arith, get_elem?-copy xs ys j)

  pub get_elem?-copy_at :
      (i : ℕ) (xs ys : List A) (j : ℕ)
      → get_elem? (copy_at i xs ys) j ≡ (
          if leb i j && ltb j (length xs) && ltb j (i + length ys)
          then get_elem? ys (j - i)
          else get_elem? xs j)
  get_elem?-copy_at zero xs ys j =
      ground (arith, get_elem?-copy xs ys j, ap (get_elem? ys) (sub_zero j))
    where
      sub_zero : (n : ℕ) → n - 0 ≡ n
      sub_zero n = omega arith
  get_elem?-copy_at (suc i) [] ys j = ground arith
  get_elem?-copy_at (suc i) (x ∷ xs) ys zero = ground arith
  get_elem?-copy_at (suc i) (x ∷ xs) ys (suc j) = ground (arith, get_elem?-copy_at i xs ys j)

  pub get_elem?-set :
      (xs : List A) (i : ℕ) (v : A) (j : ℕ)
      → get_elem? (set xs i v) j ≡ (if i == j && ltb j (length xs) then some v else get_elem? xs j)
  get_elem?-set [] i v j = ground arith
  get_elem?-set (x ∷ xs) zero v zero = ground arith
  get_elem?-set (x ∷ xs) zero v (suc j) = ground arith
  get_elem?-set (x ∷ xs) (suc i) v zero = ground arith
  get_elem?-set (x ∷ xs) (suc i) v (suc j) = ground (arith, get_elem?-set xs i v j)

pub ruleset elements =
    (get_elem?-append, get_elem?-take, get_elem?-drop, get_elem?-copy_at, get_elem?-set)
