-- ===== src/Elastic/Taking.antt =====
-- What Read, Discard and Peek of elastic.Buffer give and leave.
use wsgnet.Prelude.{
  ℕ, ◌+◌, ◌-◌, ◌≤◌, ◌<◌, ◌≡◌, refl, Option, none, some, List, [], ◌∷◌, ◌++◌, length, take, drop,
  copy, min, arith, ap, ap₂, subst, sym, ◌∙◌, length-append, length-drop, length-copy, dec_le, ℤ,
  pos, pos_part, list_ext, elements, lengths, le→leb, lt→leb,
}
use wsgnet.Errors.{Error}
use wsgnet.LinkedList.Defs as linked
use wsgnet.LinkedList.Contents.{Holds}
use wsgnet.LinkedList.Reading.{read-Holds}
use wsgnet.LinkedList.Discarding.{discard-Holds}
use wsgnet.Elastic.RingBuffer.{RingBuffer}
use wsgnet.Elastic.RingBuffer as ring
use wsgnet.Elastic.Buffer.{Buffer, read, discard}
use wsgnet.Elastic.Held.{IsSound, held, copy-nothing, Reads, read-Reads, discard-Reads}
use wsgnet.Elastic.Storing.{Stores}

-- Read: the slice p with what was copied into it, the count, the error and the buffer.
abbrev pub Outcome : Type 0
Outcome = List ℕ × ℕ × Option Error × Buffer

read_ring :
    (mb : Buffer) (p p1 : List ℕ) (n : ℕ) (err : Option Error) (rb : RingBuffer)
    → ring.read mb.ring_buffer p ≡ some (p1, n, err, rb)
    → n ≡ length p
    → read mb p ≡ some (p1, n, err, record mb { ring_buffer = rb })
unfolding read
read_ring mb p p1 n err rb e f = ground (arith, e, f)

read_on :
    (mb : Buffer) (p p1 p2 : List ℕ) (n m : ℕ) (err : Option Error) (rb : RingBuffer)
    (lb : linked.LinkedList)
    → ring.read mb.ring_buffer p ≡ some (p1, n, err, rb)
    → n < length p
    → linked.read mb.list_buffer (drop n p1) ≡ (p2, m, lb)
    → read mb p
      ≡ some (take n p1 ++ p2, n + m, none, record mb { ring_buffer = rb; list_buffer = lb })
unfolding read
read_on mb p p1 p2 n m err rb lb e f g = ground (arith, e, f, g)

copy_nil : (ys : List ℕ) → copy [] ys ≡ []
copy_nil [] = refl
copy_nil (y ∷ ys) = refl

pub copy_full : (p xs ys : List ℕ) → length p ≤ length xs → copy p (xs ++ ys) ≡ copy p xs
copy_full [] [] ys h = copy_nil ys
copy_full [] (x ∷ xs) ys h = refl
copy_full (y ∷ p) [] ys h = absurd (omega arith)
copy_full (y ∷ p) (x ∷ xs) ys h = ap (◌∷◌ x) (copy_full p xs ys (omega arith))

pub copy_both :
    (p xs ys : List ℕ)
    → length xs ≤ length p
    → take (length xs) (copy p xs) ++ copy (drop (length xs) (copy p xs)) ys ≡ copy p (xs ++ ys)
copy_both p [] ys h = ap (λ q. copy q ys) (copy-nothing p)
copy_both [] (x ∷ xs) ys h = absurd (omega arith)
copy_both (y ∷ p) (x ∷ xs) ys h = ap (◌∷◌ x) (copy_both p xs ys (omega arith))

pub drop_within : (n : ℕ) (xs ys : List ℕ) → n ≤ length xs → drop n xs ++ ys ≡ drop n (xs ++ ys)
drop_within n xs ys h = list_ext _ _ λ i. simp (elements, lengths) (ground arith)

pub drop_beyond :
    (n k : ℕ) (xs ys : List ℕ)
    → length xs ≤ n
    → k ≡ n - length xs
    → drop n xs ++ drop k ys ≡ drop n (xs ++ ys)
drop_beyond n k xs ys h e = list_ext _ _ λ i. simp (elements, lengths) (ground arith)

abbrev ReadOf : List ℕ → Buffer → List ℕ → Type 0
ReadOf xs mb p =
    (out : Outcome) × (read mb p ≡ some out)
    × (out.0 ≡ copy p xs)
    × (out.1 ≡ min (length p) (length xs))
    × Stores out.3 (drop (length p) xs)

read_rest :
    (mb : Buffer) (p p1 ys : List ℕ) (n : ℕ) (err : Option Error) (rb : RingBuffer)
    → Holds mb.list_buffer ys
    → ring.read mb.ring_buffer p ≡ some (p1, n, err, rb)
    → Reads (held mb.ring_buffer) p (p1, n, err, rb)
    → length (held mb.ring_buffer) < length p
    → ReadOf (held mb.ring_buffer ++ ys) mb p
read_rest mb p p1 ys n err rb h eq r part = (
  (take n p1 ++ more.0, n + more.1, none, record mb { ring_buffer = rb; list_buffer = more.2 }),
  read_on mb p p1 more.0 n more.1 err rb more.2 eq (omega (arith, n_eq)) refl,
  ap (λ q. take n p1 ++ q) listed.0
      ∙ ap₂ (λ k q. take k q ++ copy (drop k q) ys) n_eq r.copied
      ∙ copy_both p xs ys (omega arith),
  omega (
    arith,
    n_eq,
    listed.1,
    length-drop n p1,
    ap length r.copied,
    length-copy p xs,
    length-append xs ys,
  ),
  (
    r.sound,
    drop (length (drop n p1)) ys,
    listed.2,
    ap (λ zs. zs ++ drop (length (drop n p1)) ys) r.rest
        ∙ drop_beyond (length p) (length (drop n p1)) xs ys (omega arith)
            (omega (arith, n_eq, length-drop n p1, ap length r.copied, length-copy p xs)),
  ),
)
  where
    xs : List ℕ
    xs = held mb.ring_buffer

    n_eq : n ≡ length xs
    n_eq = omega (arith, r.count)

    more : List ℕ × ℕ × linked.LinkedList
    more = linked.read mb.list_buffer (drop n p1)

    listed :
        (more.0 ≡ copy (drop n p1) ys)
        × (more.1 ≡ min (length (drop n p1)) (length ys))
        × Holds more.2 (drop (length (drop n p1)) ys)
    listed = read-Holds (drop n p1) h

read_joined :
    (mb : Buffer) (p ys : List ℕ)
    → IsSound mb.ring_buffer
    → Holds mb.list_buffer ys
    → ReadOf (held mb.ring_buffer ++ ys) mb p
read_joined mb p ys v h =
    let ((p1, n, err, rb), eq, r) = read-Reads mb.ring_buffer p v in
    elim (dec_le (length p) (length (held mb.ring_buffer))) [
      | yes all ↦ (
        (p1, n, err, record mb { ring_buffer = rb }),
        read_ring mb p p1 n err rb eq (omega (arith, r.count)),
        r.copied ∙ sym (copy_full p (held mb.ring_buffer) ys all),
        omega (arith, r.count, length-append (held mb.ring_buffer) ys),
        (
          r.sound,
          ys,
          h,
          ap (λ zs. zs ++ ys) r.rest ∙ drop_within (length p) (held mb.ring_buffer) ys all,
        ),
      )
      | no part ↦ read_rest mb p p1 ys n err rb h eq r (omega arith)
    ]

-- Read copies the oldest bytes into p as far as both go, those of the ring buffer before those of
-- the list, returns their number, and drops them; it does not panic.
pub read-Stores :
    (mb : Buffer) {xs : List ℕ} (p : List ℕ)
    → Stores mb xs
    → (out : Outcome) × (read mb p ≡ some out)
      × (out.0 ≡ copy p xs)
      × (out.1 ≡ min (length p) (length xs))
      × Stores out.3 (drop (length p) xs)
read-Stores mb p (v, ys, h, e) = subst (λ zs. ReadOf zs mb p) e (read_joined mb p ys v h)

discard_ring :
    (mb : Buffer) (n : ℤ)
    → pos_part n ≤ (ring.discard mb.ring_buffer n).0
    → let (discarded, err, rb) = ring.discard mb.ring_buffer n in
      discard mb n ≡ (discarded, err, record mb { ring_buffer = rb })
unfolding discard
discard_ring mb n h = ground (arith, le→leb (pos_part n) (ring.discard mb.ring_buffer n).0 h)

discard_on :
    (mb : Buffer) (n : ℤ)
    → (ring.discard mb.ring_buffer n).0 < pos_part n
    → let (discarded, err, rb) = ring.discard mb.ring_buffer n in
      let (m, lb) = linked.discard mb.list_buffer (pos (pos_part n - discarded)) in
      discard mb n ≡ (discarded + m, none, record mb { ring_buffer = rb; list_buffer = lb })
unfolding discard
discard_on mb n h = ground (arith, lt→leb (pos_part n) (ring.discard mb.ring_buffer n).0 h)

abbrev DiscardOf : List ℕ → ℤ → ℕ × Option Error × Buffer → Type 0
DiscardOf xs n out = (out.0 ≡ min (pos_part n) (length xs)) × Stores out.2 (drop (pos_part n) xs)

discard_joined :
    (mb : Buffer) (n : ℤ) (ys : List ℕ)
    → IsSound mb.ring_buffer
    → Holds mb.list_buffer ys
    → DiscardOf (held mb.ring_buffer ++ ys) n (discard mb n)
discard_joined mb n ys v h =
    let xs : List ℕ = held mb.ring_buffer in
    let (count, sound, rest) = discard-Reads mb.ring_buffer n v in
    elim (dec_le (pos_part n) (length xs)) [
      | yes all ↦ subst (DiscardOf (xs ++ ys) n) (sym (discard_ring mb n (omega (arith, count)))) (
        omega (arith, count, length-append xs ys),
        (sound, ys, h, ap (λ zs. zs ++ ys) rest ∙ drop_within (pos_part n) xs ys all),
      )
      | no part ↦
          let k : ℕ = pos_part n - (ring.discard mb.ring_buffer n).0 in
          let (listed, left) = discard-Holds (pos k) h in
          subst (DiscardOf (xs ++ ys) n) (sym (discard_on mb n (omega (arith, count)))) (
            omega (arith, count, listed, length-append xs ys),
            (
              sound,
              drop k ys,
              left,
              ap (λ zs. zs ++ drop k ys) rest
                  ∙ drop_beyond (pos_part n) k xs ys (omega arith) (omega (arith, count)),
            ),
          )
    ]

-- Discard takes the first n bytes off, from the ring buffer first, or all where fewer are held; it
-- returns how many.
pub discard-Stores :
    (mb : Buffer) {xs : List ℕ} (n : ℤ)
    → Stores mb xs
    → let (count, err, mb') = discard mb n in
      (count ≡ min (pos_part n) (length xs)) × Stores mb' (drop (pos_part n) xs)
discard-Stores mb n (v, ys, h, e) =
    subst (λ zs. DiscardOf zs n (discard mb n)) e (discard_joined mb n ys v h)
