-- ===== src/Conn/Stream.antt =====
-- The inbound side of a connection as one stream: the bytes left from earlier packets, then those of
-- the last one.
use wsgnet.Prelude.{
  ℕ, zero, suc, ◌+◌, ◌-◌, ◌≤◌, ◌<◌, ◌≡◌, ◌⊎◌, inl, inr, refl, true, false, Option, none, some, List,
  [], ◌∷◌, ◌++◌, ltb, if◌then◌else◌, length, take, min, arith, ap, sym, ◌∙◌, length-append,
  length-take, take_all, Bool-cases, dec_le, ℤ, pos, negsuc, pos_part, non_positive, list_ext,
  elements, le→leb, lt→leb, lt→ltb, le→ltb, slice_to,
}
use wsgnet.Errors.{Error, short_buffer}
use wsgnet.Elastic.RingBuffer.{RingBuffer}
use wsgnet.Elastic.RingBuffer as ring
use wsgnet.Elastic.Held.{IsSound, held, length-held, peek-held, drained-held, buffered_pos-held}
use wsgnet.Conn.Inbound.{Inbound, inbound_buffered, wanted, assemble, peek}

-- The bytes that are to be read, in order, of a connection whose ring buffer is well-formed.
abbrev pub stream : Inbound → List ℕ
stream c = held c.inbound_buffer ++ c.buffer

abbrev pub IsGood : Inbound → Type 0
IsGood c = IsSound c.inbound_buffer

-- InboundBuffered counts the stream.
pub length-stream : (c : Inbound) → IsGood c → length (stream c) ≡ inbound_buffered c
unfolding inbound_buffered
length-stream c v =
    omega (arith, length-append (held c.inbound_buffer) c.buffer, length-held c.inbound_buffer v)

pub drained_zero :
    (c : Inbound)
    → IsGood c
    → ring.is_drained c.inbound_buffer ≡ true
    → ring.buffered c.inbound_buffer ≡ 0
drained_zero c v e =
    sym (length-held c.inbound_buffer v) ∙ ap length (drained-held c.inbound_buffer e)

pub drained_stream : (c : Inbound) → ring.is_drained c.inbound_buffer ≡ true → stream c ≡ c.buffer
drained_stream c e = ap (λ xs. xs ++ c.buffer) (drained-held c.inbound_buffer e)

take_within : (n : ℕ) (xs ys : List ℕ) → n ≤ length xs → take n (xs ++ ys) ≡ take n xs
take_within n xs ys h = list_ext _ _ λ i. simp elements (ground arith)

take_beyond :
    (n k : ℕ) (xs ys : List ℕ)
    → length xs ≤ n
    → k ≡ n - length xs
    → xs ++ take k ys ≡ take n (xs ++ ys)
take_beyond n k xs ys h e = list_ext _ _ λ i. simp elements (ground arith)

assemble_front :
    (c : Inbound) (k : ℕ) (head tail : List ℕ)
    → ring.is_drained c.inbound_buffer ≡ false
    → ring.peek c.inbound_buffer (pos k) ≡ some (head, tail)
    → k ≤ length head
    → assemble c k ≡ some (take k head)
unfolding assemble
assemble_front c k head tail e f h =
    ground (arith, e, f, le→leb k (length head) h, slice_to head k h)

assemble_both :
    (c : Inbound) (k : ℕ) (head tail : List ℕ)
    → ring.is_drained c.inbound_buffer ≡ false
    → ring.peek c.inbound_buffer (pos k) ≡ some (head, tail)
    → length head < k
    → k ≤ ring.buffered c.inbound_buffer
    → assemble c k ≡ some (head ++ tail)
unfolding assemble
assemble_both c k head tail e f h q =
    ground (arith, e, f, lt→leb k (length head) h, le→leb k (ring.buffered c.inbound_buffer) q)

assemble_all :
    (c : Inbound) (k : ℕ) (head tail : List ℕ)
    → ring.is_drained c.inbound_buffer ≡ false
    → ring.peek c.inbound_buffer (pos k) ≡ some (head, tail)
    → length head < k
    → ring.buffered c.inbound_buffer < k
    → k - ring.buffered c.inbound_buffer ≤ length c.buffer
    → assemble c k ≡ some (head ++ tail ++ take (k - ring.buffered c.inbound_buffer) c.buffer)
unfolding assemble
assemble_all c k head tail e f h q p = ground (
  arith,
  e,
  f,
  lt→leb k (length head) h,
  lt→leb k (ring.buffered c.inbound_buffer) q,
  slice_to c.buffer (k - ring.buffered c.inbound_buffer) p,
)

assemble_direct :
    (c : Inbound) (k : ℕ)
    → ring.is_drained c.inbound_buffer ≡ true
    → k ≤ length c.buffer
    → assemble c k ≡ some (take k c.buffer)
unfolding assemble
assemble_direct c k e h = ground (arith, e, slice_to c.buffer k h)

take_again : (k : ℕ) (xs : List ℕ) → take k (take k xs) ≡ take k xs
take_again zero xs = refl
take_again (suc k) [] = refl
take_again (suc k) (x ∷ xs) = ap (◌∷◌ x) (take_again k xs)

assemble_scattered :
    (c : Inbound) (k : ℕ)
    → IsGood c
    → k ≤ length (stream c)
    → 0 < k
    → ring.is_drained c.inbound_buffer ≡ false
    → assemble c k ≡ some (take k (stream c))
assemble_scattered c k v h p e =
    let xs : List ℕ = held c.inbound_buffer in
    let (head, tail, eq, front) = peek-held c.inbound_buffer k v p in
    let size : length xs ≡ ring.buffered c.inbound_buffer = length-held c.inbound_buffer v in
    let sizes : length head + length tail ≡ min k (length xs) =
      omega (arith, length-append head tail, ap length front, length-take k xs) in
    elim (dec_le k (length head)) [
      | yes one ↦
          assemble_front c k head tail e eq one
          ∙ ap some (
              sym (take_within k head tail one)
              ∙ ap (take k) front
              ∙ take_again k xs
              ∙ sym (take_within k xs c.buffer (omega (arith, sizes))))
      | no two ↦ elim (dec_le k (ring.buffered c.inbound_buffer)) [
        | yes both ↦
            assemble_both c k head tail e eq (omega arith) both
            ∙ ap some (front ∙ sym (take_within k xs c.buffer (omega (arith, size))))
        | no all ↦
            assemble_all c k head tail e eq (omega arith) (omega arith)
              (omega (arith, size, length-append xs c.buffer))
            ∙ ap some (
                ap (λ zs. zs ++ take (k - ring.buffered c.inbound_buffer) c.buffer)
                  (front ∙ take_all k xs (omega (arith, size)))
                ∙ take_beyond k (k - ring.buffered c.inbound_buffer) xs c.buffer
                    (omega (arith, size)) (omega (arith, size)))
      ]
    ]

pub assemble_lem :
    (c : Inbound) (k : ℕ)
    → IsGood c
    → k ≤ length (stream c)
    → (0 < k) ⊎ (k ≡ length (stream c))
    → assemble c k ≡ some (take k (stream c))
assemble_lem c k v h p = elim (Bool-cases (ring.is_drained c.inbound_buffer)) [
  | inl e ↦
      assemble_direct c k e (omega (arith, ap length (drained_stream c e)))
      ∙ ap (λ xs. some (take k xs)) (sym (drained_stream c e))
  | inr e ↦
      assemble_scattered c k v h
        (elim p [
          | inl q ↦ q
          | inr q ↦ omega (
            arith,
            buffered_pos-held c.inbound_buffer v e,
            length-stream c v,
            length-append (held c.inbound_buffer) c.buffer,
            length-held c.inbound_buffer v,
          )
        ])
        e
]

-- What is to be shown of the bytes xs where n are asked for.
abbrev pub shown : List ℕ → ℤ → List ℕ × Option Error
shown xs n =
    if ltb (length xs) (pos_part n)
    then ([], some short_buffer)
    else (take (if non_positive n then length xs else pos_part n) xs, none)

pub wanted-eq :
    (c : Inbound) (n : ℤ)
    → IsGood c
    → wanted c n ≡ (if non_positive n then length (stream c) else pos_part n)
unfolding wanted
wanted-eq c n v = ap (λ k. if non_positive n then k else pos_part n) (sym (length-stream c v))

pub wanted_within :
    (c : Inbound) (n : ℤ)
    → IsGood c
    → pos_part n ≤ length (stream c)
    → (wanted c n ≤ length (stream c)) × ((0 < wanted c n) ⊎ (wanted c n ≡ length (stream c)))
unfolding wanted
wanted_within c (pos zero) v h = (omega (arith, length-stream c v), inr (sym (length-stream c v)))
wanted_within c (pos (suc n)) v h = (h, inl (omega arith))
wanted_within c (negsuc n) v h = (omega (arith, length-stream c v), inr (sym (length-stream c v)))

peek_short :
    (c : Inbound) (n : ℤ)
    → inbound_buffered c < pos_part n
    → peek c n ≡ some ([], some short_buffer)
unfolding peek
peek_short c n h = ground (arith, lt→ltb (inbound_buffered c) (pos_part n) h)

peek_enough :
    (c : Inbound) (n : ℤ) (xs : List ℕ)
    → pos_part n ≤ inbound_buffered c
    → assemble c (wanted c n) ≡ some xs
    → peek c n ≡ some (xs, none)
unfolding peek
peek_enough c n xs h e = ground (arith, e, le→ltb (inbound_buffered c) (pos_part n) h)

pub shown_short :
    (xs : List ℕ) (n : ℤ) → length xs < pos_part n → shown xs n ≡ ([], some short_buffer)
shown_short xs n h = ground (arith, lt→ltb (length xs) (pos_part n) h)

pub shown_enough :
    (xs : List ℕ) (n : ℤ) (k : ℕ)
    → pos_part n ≤ length xs
    → k ≡ (if non_positive n then length xs else pos_part n)
    → shown xs n ≡ (take k xs, none)
shown_enough xs n k h e = ground (arith, e, le→ltb (length xs) (pos_part n) h)

-- Peek shows the first n bytes of the stream, all of them where n is not positive, and fails with
-- ErrShortBuffer where there are fewer; it does not panic.
pub peek-stream : (c : Inbound) (n : ℤ) → IsGood c → peek c n ≡ some (shown (stream c) n)
peek-stream c n v = elim (dec_le (pos_part n) (length (stream c))) [
  | yes enough ↦
      let (within, some_wanted) = wanted_within c n v enough in
      peek_enough c n (take (wanted c n) (stream c)) (omega (arith, length-stream c v))
        (assemble_lem c (wanted c n) v within some_wanted)
      ∙ ap some (sym (shown_enough (stream c) n (wanted c n) enough (wanted-eq c n v)))
  | no short ↦
      peek_short c n (omega (arith, length-stream c v))
      ∙ ap some (sym (shown_short (stream c) n (omega arith)))
]
