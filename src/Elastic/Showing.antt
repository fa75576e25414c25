-- ===== src/Elastic/Showing.antt =====
-- What Peek, IsEmpty, Reset and Release of elastic.Buffer show and leave.
use wsgnet.Prelude.{
  ℕ, zero, suc, ◌≤◌, ◌<◌, ◌≡◌, refl, true, some, List, [], ◌∷◌, ◌++◌, length, take, drop, min,
  arith, ap, ap₂, subst, sym, ◌∙◌, append-nil, append_assoc, length-take, take_all, dec_le, ℤ, pos,
  le→leb, lt→leb,
}
use wsgnet.LinkedList.Defs as linked
use wsgnet.LinkedList.Defs.{peek_bound}
use wsgnet.LinkedList.Contents.{Holds, is_empty-Holds}
use wsgnet.LinkedList.Discarding.{reset-Holds}
use wsgnet.LinkedList.Peeking.{flatten, peek_bound_pos, peek_with_bytes_lem}
use wsgnet.Elastic.RingBuffer as ring
use wsgnet.Elastic.Buffer.{Buffer, peek, is_empty, reset, release}
use wsgnet.Elastic.Held.{IsSound, held, length-held, peek-held, drained-held, reset-held, held-nil}
use wsgnet.Elastic.Storing.{Stores, take-drop-append}

peek_ring :
    (mb : Buffer) (n : ℤ) (head tail : List ℕ)
    → ring.peek mb.ring_buffer (pos (peek_bound n)) ≡ some (head, tail)
    → peek_bound n ≤ ring.buffered mb.ring_buffer
    → peek mb n ≡ some (head ∷ tail ∷ [])
unfolding peek
peek_ring mb n head tail e h =
    ground (arith, e, le→leb (peek_bound n) (ring.buffered mb.ring_buffer) h)

peek_on :
    (mb : Buffer) (n : ℤ) (head tail : List ℕ)
    → ring.peek mb.ring_buffer (pos (peek_bound n)) ≡ some (head, tail)
    → ring.buffered mb.ring_buffer < peek_bound n
    → peek mb n
      ≡ some (linked.peek_with_bytes mb.list_buffer (pos (peek_bound n)) (head ∷ tail ∷ []))
unfolding peek
peek_on mb n head tail e h =
    ground (arith, e, lt→leb (peek_bound n) (ring.buffered mb.ring_buffer) h)

flatten-two : (a b : List ℕ) → flatten (a ∷ b ∷ []) ≡ a ++ b
unfolding flatten
flatten-two a b = ap (λ xs. a ++ xs) (append-nil b)

-- What is shown is a beginning of what is held, of k bytes at least where there are as many.
abbrev PeekOf : List ℕ → Buffer → ℤ → Type 0
PeekOf xs mb n =
    (bs : List (List ℕ)) × (peek mb n ≡ some bs)
    × (rest : List ℕ) × (flatten bs ++ rest ≡ xs)
    × (min (peek_bound n) (length xs) ≤ length (flatten bs))

bound_again : (n : ℤ) → peek_bound (pos (peek_bound n)) ≡ peek_bound n
bound_again n = positive (peek_bound n) (peek_bound_pos n)
  where
    positive : (k : ℕ) → 0 < k → peek_bound (pos k) ≡ k
    positive zero h = absurd (omega arith)
    positive (suc k) h = refl

peek_joined :
    (mb : Buffer) (n : ℤ) (ys : List ℕ)
    → IsSound mb.ring_buffer
    → Holds mb.list_buffer ys
    → PeekOf (held mb.ring_buffer ++ ys) mb n
peek_joined mb n ys v h =
    let xs : List ℕ = held mb.ring_buffer in
    let k : ℕ = peek_bound n in
    let (head, tail, eq, front) = peek-held mb.ring_buffer k v (peek_bound_pos n) in
    elim (dec_le k (ring.buffered mb.ring_buffer)) [
      | yes all ↦ (
        head ∷ tail ∷ [],
        peek_ring mb n head tail eq all,
        drop k xs ++ ys,
        ap (λ zs. zs ++ (drop k xs ++ ys)) (flatten-two head tail ∙ front)
            ∙ sym (append_assoc (take k xs) (drop k xs) ys)
            ∙ ap (λ zs. zs ++ ys) (take-drop-append k xs),
        omega (
          arith,
          length-held mb.ring_buffer v,
          ap length (flatten-two head tail ∙ front),
          length-take k xs,
        ),
      )
      | no part ↦
          let (rest, same, enough) = peek_with_bytes_lem (pos k) (head ∷ tail ∷ []) h in
          let all : flatten (head ∷ tail ∷ []) ++ ys ≡ xs ++ ys =
            ap (λ zs. zs ++ ys)
              (flatten-two head tail
                ∙ front
                ∙ take_all k xs (omega (arith, length-held mb.ring_buffer v))) in
          (
            linked.peek_with_bytes mb.list_buffer (pos k) (head ∷ tail ∷ []),
            peek_on mb n head tail eq (omega arith),
            rest,
            same ∙ all,
            omega (arith, enough, bound_again n, ap length all),
          )
    ]

-- Peek shows, in order, a beginning of the bytes that are held, the ring buffer's before the list's:
-- as many as are asked for at least, and all of them where fewer are held. It does not panic.
pub peek-Stores :
    (mb : Buffer) {xs : List ℕ} (n : ℤ)
    → Stores mb xs
    → (bs : List (List ℕ)) × (peek mb n ≡ some bs)
      × (rest : List ℕ) × (flatten bs ++ rest ≡ xs)
      × (min (peek_bound n) (length xs) ≤ length (flatten bs))
peek-Stores mb n (v, ys, h, e) = subst (λ zs. PeekOf zs mb n) e (peek_joined mb n ys v h)

-- A buffer that says it is empty holds no bytes.
pub is_empty-Stores : (mb : Buffer) {xs : List ℕ} → Stores mb xs → is_empty mb ≡ true → xs ≡ []
unfolding is_empty
is_empty-Stores mb (v, ys, h, e) q =
    sym e
    ∙ ap₂ (λ a b. a ++ b) (drained-held mb.ring_buffer (ground (arith, q)))
        (is_empty-Holds h (ground (arith, q)))

-- Reset and Release leave a buffer that holds nothing.
pub reset-Stores :
    (mb : Buffer) {xs : List ℕ} (max : ℤ)
    → Stores mb xs
    → Stores (reset mb max) [] × Stores (release mb) []
unfolding reset release
reset-Stores mb max (v, ys, h, e) =
    let (sound, none_held) = reset-held mb.ring_buffer v in
    (
      (sound, [], reset-Holds mb.list_buffer, ap (λ xs. xs ++ []) none_held),
      (tt, [], reset-Holds mb.list_buffer, ap (λ xs. xs ++ []) held-nil),
    )
