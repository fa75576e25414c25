-- ===== src/Prelude/Splits.antt =====
-- How `take` and `drop` pass through one another, `++` and `copy`.
use Prim.Native.Nat.{ℕ, zero, suc, ◌+◌, ◌-◌, min}
use mathlib.Core.Path.{◌≡◌, refl, sym, ap, ◌∙◌}
use mathlib.Core.List.{List, [], ◌∷◌, ◌++◌}
use native.Mathlib.Omega.{arith}
use wsgnet.Prelude.Lists.{length, take, drop, copy, copy_at}

module _ {ℓ} {A : Type ℓ} where
  take_eq : (xs : List A) (m n : ℕ) → m ≡ n → take m xs ≡ take n xs
  take_eq xs m n e = ap (λ k. take k xs) e

  drop_eq : (xs : List A) (m n : ℕ) → m ≡ n → drop m xs ≡ drop n xs
  drop_eq xs m n e = ap (λ k. drop k xs) e

  pub take-nil : (n : ℕ) → take {A = A} n [] ≡ []
  take-nil zero = refl
  take-nil (suc n) = refl

  pub drop-nil : (n : ℕ) → drop {A = A} n [] ≡ []
  drop-nil zero = refl
  drop-nil (suc n) = refl

  pub take-take : (m n : ℕ) (xs : List A) → take m (take n xs) ≡ take (min m n) xs
  take-take zero n xs = take_eq xs 0 (min 0 n) (omega arith)
  take-take (suc m) zero xs = take_eq xs 0 (min (suc m) 0) (omega arith)
  take-take (suc m) (suc n) [] = sym (take-nil (min (suc m) (suc n)))
  take-take (suc m) (suc n) (x ∷ xs) =
      ap (◌∷◌ x) (take-take m n xs)
      ∙ take_eq (x ∷ xs) (suc (min m n)) (min (suc m) (suc n)) (omega arith)

  pub take-append :
      (n : ℕ) (xs ys : List A) → take n (xs ++ ys) ≡ take n xs ++ take (n - length xs) ys
  take-append zero xs ys = take_eq ys 0 (0 - length xs) (omega arith)
  take-append (suc n) [] ys = take_eq ys (suc n) (suc n - 0) (omega arith)
  take-append (suc n) (x ∷ xs) ys = ap (◌∷◌ x) (
      take-append n xs ys
      ∙ ap (◌++◌ (take n xs)) (take_eq ys (n - length xs) (suc n - suc (length xs)) (omega arith)))

  pub drop-append :
      (n : ℕ) (xs ys : List A) → drop n (xs ++ ys) ≡ drop n xs ++ drop (n - length xs) ys
  drop-append zero xs ys = ap (◌++◌ xs) (drop_eq ys 0 (0 - length xs) (omega arith))
  drop-append (suc n) [] ys = drop_eq ys (suc n) (suc n - 0) (omega arith)
  drop-append (suc n) (x ∷ xs) ys =
      drop-append n xs ys
      ∙ ap (◌++◌ (drop n xs)) (drop_eq ys (n - length xs) (suc n - suc (length xs)) (omega arith))

  pub drop-take : (m n : ℕ) (xs : List A) → drop m (take n xs) ≡ take (n - m) (drop m xs)
  drop-take zero n xs = take_eq xs n (n - 0) (omega arith)
  drop-take (suc m) zero xs = take_eq (drop (suc m) xs) 0 (0 - suc m) (omega arith)
  drop-take (suc m) (suc n) [] = sym (take-nil (suc n - suc m))
  drop-take (suc m) (suc n) (x ∷ xs) =
      drop-take m n xs ∙ take_eq (drop m xs) (n - m) (suc n - suc m) (omega arith)

  pub drop-drop : (m n : ℕ) (xs : List A) → drop m (drop n xs) ≡ drop (n + m) xs
  drop-drop m zero xs = drop_eq xs m (0 + m) (omega arith)
  drop-drop m (suc n) [] = drop-nil m ∙ sym (drop-nil (suc n + m))
  drop-drop m (suc n) (x ∷ xs) =
      drop-drop m n xs ∙ drop_eq (x ∷ xs) (suc (n + m)) (suc n + m) (omega arith)

  pub take_add : (m n : ℕ) (xs : List A) → take (m + n) xs ≡ take m xs ++ take n (drop m xs)
  take_add zero n xs = take_eq xs (0 + n) n (omega arith)
  take_add (suc m) n [] = take-nil (suc m + n) ∙ sym (take-nil n)
  take_add (suc m) n (x ∷ xs) =
      take_eq (x ∷ xs) (suc m + n) (suc (m + n)) (omega arith) ∙ ap (◌∷◌ x) (take_add m n xs)

  -- What a copy leaves: the source, as far as there is room, and the rest of the destination.
  pub copy-eq-append : (xs ys : List A) → copy xs ys ≡ take (length xs) ys ++ drop (length ys) xs
  copy-eq-append [] ys = sym (drop-nil (length ys))
  copy-eq-append (x ∷ xs) [] = refl
  copy-eq-append (x ∷ xs) (y ∷ ys) = ap (◌∷◌ y) (copy-eq-append xs ys)

  pub copy_at-eq-append :
      (i : ℕ) (xs ys : List A) → copy_at i xs ys ≡ take i xs ++ copy (drop i xs) ys
  copy_at-eq-append zero xs ys = refl
  copy_at-eq-append (suc i) [] ys = refl
  copy_at-eq-append (suc i) (x ∷ xs) ys = ap (◌∷◌ x) (copy_at-eq-append i xs ys)
