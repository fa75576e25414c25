-- ===== src/Io.antt =====
-- io.Reader, io.Writer and sockets, which the buffers are given: code that is not in the
-- repository, so each is an argument, a step on a state S of its own.
use wsgnet.Prelude.{
  ℕ, zero, suc, ◌+◌, ◌<◌, ◌∷◌, ltb, if◌then◌else◌, arith, ◌≤◌, ◌≡◌, ◌≢◌, ◌⊎◌, Option, none, some,
  List, [], ◌++◌, length, take,
}
use wsgnet.Errors.{Error, short_write}

-- A read into a slice of the given length: the bytes put at its start, the error, the new state.
abbrev pub Reader : Type 0 → Type 0
Reader S = S → ℕ → List ℕ × Option Error × S

-- A write of a slice: the count, the error, the new state.
abbrev pub Writer : Type 0 → Type 0
Writer S = S → List ℕ → ℕ × Option Error × S

-- The contract of io.Reader: 0 <= n <= len(p).
abbrev pub Fits : {S : Type 0} → Reader S → Type 0
Fits {S} read = (s : S) (n : ℕ) → length (read s n).0 ≤ n

-- The contract of io.Writer: 0 <= n <= len(p), with an error where n < len(p).
abbrev pub Honest : {S : Type 0} → Writer S → Type 0
Honest {S} write = (s : S) (p : List ℕ) → (write s p).0 ≤ length p

module _ {S : Type 0} (write : Writer S) where
  -- The writer has taken the bytes over, call by call.
  pub data Accepts : S → List ℕ → S → Type 0 where
    done : (s : S) → Accepts s [] s
    more :
        (s : S) (p rest : List ℕ) (t : S)
        → Accepts (write s p).2 rest t
        → Accepts s (take (write s p).0 p ++ rest) t

-- The bytes of pieces, one behind the other.
abbrev pub concat : List (List ℕ) → List ℕ
concat [] = []
concat (p ∷ ps) = p ++ concat ps

module _ {S : Type 0} (write : Writer S) where
  -- What it means to write pieces to a writer in turn: the first error ends it, and a piece that is
  -- cut short ends it with io.ErrShortWrite. The count, the error, the new state.
  unfoldable pub hand : List (List ℕ) → S → ℕ × Option Error × S
  hand [] s = (0, none, s)
  hand (p ∷ ps) s =
      let (m, err, t) = write s p in
      let (n, later, u) = hand ps t in
      elim err [
        | some e ↦ (m, some e, t)
        | none ↦ if ltb m (length p) then (m, some short_write, t) else (m + n, later, u)
      ]

  pub hand-fails :
      (p : List ℕ) (ps : List (List ℕ)) (s : S) (e : Error)
      → (write s p).1 ≡ some e
      → hand (p ∷ ps) s ≡ ((write s p).0, some e, (write s p).2)
  unfolding hand
  hand-fails p ps s e q = ground (arith, q)

  pub hand-short :
      (p : List ℕ) (ps : List (List ℕ)) (s : S)
      → (write s p).1 ≡ none
      → (write s p).0 < length p
      → hand (p ∷ ps) s ≡ ((write s p).0, some short_write, (write s p).2)
  unfolding hand
  hand-short p ps s q h = ground (arith, q, h)

  pub hand-on :
      (p : List ℕ) (ps : List (List ℕ)) (s : S)
      → (write s p).1 ≡ none
      → length p ≤ (write s p).0
      → let (n, later, u) = hand ps (write s p).2 in hand (p ∷ ps) s ≡ ((write s p).0 + n, later, u)
  unfolding hand
  hand-on p ps s q h = ground (arith, q, h)

module _ {S : Type 0} (read : Reader S) where
  -- The reader has given the bytes, call by call, and an error with the last call only.
  pub data Gives : S → List ℕ → Error → S → Type 0 where
    last : (s : S) (n : ℕ) (e : Error) → (read s n).1 ≡ some e → Gives s (read s n).0 e (read s n).2
    more :
        (s : S) (n : ℕ) (rest : List ℕ) (e : Error) (t : S)
        → (read s n).1 ≡ none
        → Gives (read s n).2 rest e t
        → Gives s ((read s n).0 ++ rest) e t

  -- Within k calls, whatever the slices, the reader gives an error.
  abbrev pub Ends : ℕ → S → Type 0
  Ends zero s = ⊥
  Ends (suc k) s = (n : ℕ) → ((read s n).1 ≢ none) ⊎ Ends k (read s n).2
