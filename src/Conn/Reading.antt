-- ===== src/Conn/Reading.antt =====
-- connection.go: what Read takes off the stream of a connection.
use wsgnet.Prelude.{
  ℕ, zero, suc, ◌+◌, ◌-◌, ◌≤◌, ◌<◌, ◌≡◌, inl, inr, true, false, Option, some, List, [], ◌∷◌, ◌++◌,
  length, drop, copy, copy_at, min, arith, ap, ap₂, sym, ◌∙◌, length-append, drop-nil, Bool-cases,
  dec_le,
}
use wsgnet.Errors.{Error}
use wsgnet.Elastic.RingBuffer.{RingBuffer, ReadResult}
use wsgnet.Elastic.RingBuffer as ring
use wsgnet.Elastic.Held.{held, read-Reads, drained-held, copy-nothing}
use wsgnet.Elastic.Taking.{copy_full, drop_within, drop_beyond}
use wsgnet.Conn.Inbound.{Inbound, read}
use wsgnet.Conn.Stream.{stream, IsGood, drained_stream}

copy_at_both :
    (p xs ys : List ℕ)
    → length xs ≤ length p
    → copy_at (length xs) (copy p xs) ys ≡ copy p (xs ++ ys)
copy_at_both p [] ys h = ap (λ q. copy q ys) (copy-nothing p)
copy_at_both [] (x ∷ xs) ys h = absurd (omega arith)
copy_at_both (y ∷ p) (x ∷ xs) ys h = ap (◌∷◌ x) (copy_at_both p xs ys (omega arith))

drop-min : (n : ℕ) (xs : List ℕ) → drop (min n (length xs)) xs ≡ drop n xs
drop-min zero xs = ap (λ k. drop k xs) {y = 0} (omega arith)
drop-min (suc n) [] = drop-nil (min (suc n) 0)
drop-min (suc n) (x ∷ xs) =
    ap (λ k. drop k (x ∷ xs)) {y = suc (min n (length xs))} (omega arith) ∙ drop-min n xs

read_direct :
    (c : Inbound) (p : List ℕ)
    → ring.is_drained c.inbound_buffer ≡ true
    → let n = min (length p) (length c.buffer) in
      read c p ≡ some (copy p c.buffer, n, record c { buffer = drop n c.buffer })
unfolding read
read_direct c p e = ground (arith, e)

read_ring :
    (c : Inbound) (p p1 : List ℕ) (n : ℕ) (err : Option Error) (rb : RingBuffer)
    → ring.is_drained c.inbound_buffer ≡ false
    → ring.read c.inbound_buffer p ≡ some (p1, n, err, rb)
    → n ≡ length p
    → read c p ≡ some (p1, n, record c { inbound_buffer = rb })
unfolding read
read_ring c p p1 n err rb e f h = ground (arith, e, f, h)

read_on :
    (c : Inbound) (p p1 : List ℕ) (n : ℕ) (err : Option Error) (rb : RingBuffer)
    → ring.is_drained c.inbound_buffer ≡ false
    → ring.read c.inbound_buffer p ≡ some (p1, n, err, rb)
    → n < length p
    → let m = min (length p - n) (length c.buffer) in
      read c p
      ≡ some
          (copy_at n p1 c.buffer, n + m, record { inbound_buffer = rb; buffer = drop m c.buffer })
unfolding read
read_on c p p1 n err rb e f h = ground (arith, e, f, h)

abbrev ReadOf : Inbound → List ℕ → Type 0
ReadOf c p =
    (p' : List ℕ) × (n : ℕ) × (c' : Inbound) × (read c p ≡ some (p', n, c'))
    × (p' ≡ copy p (stream c))
    × (n ≡ min (length p) (length (stream c)))
    × IsGood c'
    × (stream c' ≡ drop (length p) (stream c))

read_drained :
    (c : Inbound) (p : List ℕ) → IsGood c → ring.is_drained c.inbound_buffer ≡ true → ReadOf c p
read_drained c p v e =
    let n : ℕ = min (length p) (length c.buffer) in
    (
      copy p c.buffer,
      n,
      record c { buffer = drop n c.buffer },
      read_direct c p e,
      ap (copy p) (sym (drained_stream c e)),
      omega (arith, ap length (drained_stream c e)),
      v,
      ap (λ xs. xs ++ drop n c.buffer) (drained-held c.inbound_buffer e)
          ∙ drop-min (length p) c.buffer
          ∙ ap (drop (length p)) (sym (drained_stream c e)),
    )

read_scattered :
    (c : Inbound) (p : List ℕ) → IsGood c → ring.is_drained c.inbound_buffer ≡ false → ReadOf c p
read_scattered c p v e =
    let xs : List ℕ = held c.inbound_buffer in
    let ((p1, n, err, rb), eq, r) = read-Reads c.inbound_buffer p v in
    let joint = length-append xs c.buffer in
    elim (dec_le (length p) (length xs)) [
      | yes all ↦ (
        p1,
        n,
        record c { inbound_buffer = rb },
        read_ring c p p1 n err rb e eq (omega (arith, r.count)),
        r.copied ∙ sym (copy_full p xs c.buffer all),
        omega (arith, r.count, joint),
        r.sound,
        ap (λ ys. ys ++ c.buffer) r.rest ∙ drop_within (length p) xs c.buffer all,
      )
      | no part ↦
          let m : ℕ = min (length p - n) (length c.buffer) in
          (
            copy_at n p1 c.buffer,
            n + m,
            record { inbound_buffer = rb; buffer = drop m c.buffer },
            read_on c p p1 n err rb e eq (omega (arith, r.count)),
            ap₂ (λ k q. copy_at k q c.buffer) {y = length xs} (omega (arith, r.count)) r.copied
                ∙ copy_at_both p xs c.buffer (omega arith),
            omega (arith, r.count, joint),
            r.sound,
            ap₂ ◌++◌ r.rest (drop-min (length p - n) c.buffer)
                ∙ drop_beyond (length p) (length p - n) xs c.buffer (omega arith)
                    (omega (arith, r.count)),
          )
    ]

-- Read copies the first bytes of the stream into p as far as both go, returns their number, and
-- takes them off; it does not panic.
pub read-stream :
    (c : Inbound) (p : List ℕ)
    → IsGood c
    → (p' : List ℕ) × (n : ℕ) × (c' : Inbound) × (read c p ≡ some (p', n, c'))
      × (p' ≡ copy p (stream c))
      × (n ≡ min (length p) (length (stream c)))
      × IsGood c'
      × (stream c' ≡ drop (length p) (stream c))
read-stream c p v = elim (Bool-cases (ring.is_drained c.inbound_buffer)) [
  | inl e ↦ read_drained c p v e
  | inr e ↦ read_scattered c p v e
]
