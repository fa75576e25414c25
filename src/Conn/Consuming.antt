-- ===== src/Conn/Consuming.antt =====
-- connection.go: what Next, Discard and Read take off the stream of a connection.
use wsgnet.Prelude.{
  ℕ, ◌-◌, ◌≤◌, ◌<◌, ◌≡◌, inl, inr, refl, true, false, ◌||◌, Option, none, some, List, [], ◌++◌, ltb,
  if◌then◌else◌, length, take, drop, min, arith, ap, subst, sym, ◌∙◌, length-append, length-take,
  drop_all, Bool-cases, dec_le, dec_lt, ℤ, pos, pos_part, non_positive, le→leb, lt→leb, lt→ltb,
  le→ltb, slice_from,
}
use wsgnet.Errors.{Error, short_buffer}
use wsgnet.Elastic.RingBuffer.{RingBuffer}
use wsgnet.Elastic.RingBuffer as ring
use wsgnet.Elastic.Held.{IsSound, held, length-held, discard-Reads, drained-held, reset-held}
use wsgnet.Elastic.Taking.{drop_within, drop_beyond}
use wsgnet.Conn.Inbound.{
  Inbound, inbound_buffered, reset_buffer, wanted, assemble, take_off, next, discard,
}
use wsgnet.Conn.Stream.{
  stream, IsGood, length-stream, drained_stream, wanted_within, wanted-eq, shown, shown_short,
  shown_enough, assemble_lem,
}

take_off_drained :
    (c : Inbound) (k : ℕ)
    → ring.is_drained c.inbound_buffer ≡ true
    → take_off c k ≡ record c { buffer = drop k c.buffer }
unfolding take_off
take_off_drained c k e = ground (arith, e)

take_off_within :
    (c : Inbound) (k : ℕ)
    → ring.is_drained c.inbound_buffer ≡ false
    → k ≤ ring.buffered c.inbound_buffer
    → take_off c k ≡ record c { inbound_buffer = (ring.discard c.inbound_buffer (pos k)).2 }
unfolding take_off
take_off_within c k e h = ground (arith, e, le→leb k (ring.buffered c.inbound_buffer) h)

take_off_beyond :
    (c : Inbound) (k : ℕ)
    → ring.is_drained c.inbound_buffer ≡ false
    → ring.buffered c.inbound_buffer < k
    → take_off c k ≡ record {
      inbound_buffer = (ring.discard c.inbound_buffer (pos k)).2;
      buffer = drop (k - ring.buffered c.inbound_buffer) c.buffer;
    }
unfolding take_off
take_off_beyond c k e h = ground (arith, e, lt→leb k (ring.buffered c.inbound_buffer) h)

-- The stream has lost its first k bytes.
abbrev pub Dropped : List ℕ → ℕ → Inbound → Type 0
Dropped xs k c = IsGood c × (stream c ≡ drop k xs)

take_off_lem : (c : Inbound) (k : ℕ) → IsGood c → Dropped (stream c) k (take_off c k)
take_off_lem c k v =
    let xs : List ℕ = held c.inbound_buffer in
    let (count, sound, rest) = discard-Reads c.inbound_buffer (pos k) v in
    let size : length xs ≡ ring.buffered c.inbound_buffer = length-held c.inbound_buffer v in
    elim (Bool-cases (ring.is_drained c.inbound_buffer)) [
      | inl e ↦ subst (Dropped (stream c) k) (sym (take_off_drained c k e)) (
        v,
        ap (λ ys. ys ++ drop k c.buffer) (drained-held c.inbound_buffer e)
            ∙ ap (drop k) (sym (drained_stream c e)),
      )
      | inr e ↦ elim (dec_le k (ring.buffered c.inbound_buffer)) [
        | yes within ↦ subst (Dropped (stream c) k) (sym (take_off_within c k e within)) (
          sound,
          ap (λ ys. ys ++ c.buffer) rest ∙ drop_within k xs c.buffer (omega (arith, size)),
        )
        | no beyond ↦ subst (Dropped (stream c) k) (sym (take_off_beyond c k e (omega arith))) (
          sound,
          ap (λ ys. ys ++ drop (k - ring.buffered c.inbound_buffer) c.buffer) rest
              ∙ drop_beyond k (k - ring.buffered c.inbound_buffer) xs c.buffer (omega (arith, size))
                  (omega (arith, size)),
        )
      ]
    ]

next_short :
    (c : Inbound) (n : ℤ)
    → inbound_buffered c < pos_part n
    → next c n ≡ some ([], some short_buffer, c)
unfolding next
next_short c n h = ground (arith, lt→ltb (inbound_buffered c) (pos_part n) h)

next_enough :
    (c : Inbound) (n : ℤ) (xs : List ℕ)
    → pos_part n ≤ inbound_buffered c
    → assemble c (wanted c n) ≡ some xs
    → next c n ≡ some (xs, none, take_off c (wanted c n))
unfolding next
next_enough c n xs h e = ground (arith, e, le→ltb (inbound_buffered c) (pos_part n) h)

abbrev NextOf : Inbound → ℤ → List ℕ × Option Error → Type 0
NextOf c n out =
    (c' : Inbound) × (next c n ≡ some (out.0, out.1, c'))
    × IsGood c'
    × (stream c' ≡ drop (length out.0) (stream c))

-- Next gives what Peek shows, and takes exactly that off the stream: nothing where it fails.
pub next-stream :
    (c : Inbound) (n : ℤ)
    → IsGood c
    → (c' : Inbound) × (next c n ≡ some ((shown (stream c) n).0, (shown (stream c) n).1, c'))
      × IsGood c'
      × (stream c' ≡ drop (length (shown (stream c) n).0) (stream c))
next-stream c n v = elim (dec_le (pos_part n) (length (stream c))) [
  | yes enough ↦
      let (within, some_wanted) = wanted_within c n v enough in
      let off = take_off_lem c (wanted c n) v in
      subst (NextOf c n) (sym (shown_enough (stream c) n (wanted c n) enough (wanted-eq c n v))) (
        take_off c (wanted c n),
        next_enough c n (take (wanted c n) (stream c)) (omega (arith, length-stream c v))
            (assemble_lem c (wanted c n) v within some_wanted),
        off.0,
        off.1 ∙ ap (λ k. drop k (stream c)) (omega (arith, length-take (wanted c n) (stream c))),
      )
  | no short ↦
      subst (NextOf c n) (sym (shown_short (stream c) n (omega arith)))
        (c, next_short c n (omega (arith, length-stream c v)), v, refl)
]

-- How many bytes Discard takes off a stream: all where n is not positive, or more than there are.
abbrev pub discarding : List ℕ → ℤ → ℕ
discarding xs n = if ltb (length xs) (pos_part n) || non_positive n then length xs else pos_part n

abbrev DiscardOf : Inbound → ℤ → ℕ → Type 0
DiscardOf c n k =
    (c' : Inbound) × (discard c n ≡ some (k, c')) × IsGood c' × (stream c' ≡ drop k (stream c))

discard_all :
    (c : Inbound) (n : ℤ)
    → IsGood c
    → (ltb (inbound_buffered c) (pos_part n) || non_positive n) ≡ true
    → DiscardOf c n (length (stream c))
unfolding discard reset_buffer
discard_all c n v e =
    let (sound, nothing) = reset-held c.inbound_buffer v in
    (
      reset_buffer c,
      ground (arith, e, length-stream c v),
      sound,
      ap (λ xs. xs ++ []) nothing ∙ sym (drop_all (length (stream c)) (stream c) (omega arith)),
    )

discard_direct :
    (c : Inbound) (n : ℤ)
    → IsGood c
    → (ltb (inbound_buffered c) (pos_part n) || non_positive n) ≡ false
    → ring.is_drained c.inbound_buffer ≡ true
    → DiscardOf c n (pos_part n)
unfolding discard
discard_direct c n v e d = (
  record c { buffer = drop (pos_part n) c.buffer },
  ground (arith, e, d, slice_from c.buffer (pos_part n), fits),
  v,
  ap (λ ys. ys ++ drop (pos_part n) c.buffer) (drained-held c.inbound_buffer d)
      ∙ ap (drop (pos_part n)) (sym (drained_stream c d)),
)
  where
    fits : pos_part n ≤ length c.buffer
    fits = ground (arith, e, length-stream c v, ap length (drained_stream c d))

discard_within :
    (c : Inbound) (n : ℤ)
    → IsGood c
    → (ltb (inbound_buffered c) (pos_part n) || non_positive n) ≡ false
    → ring.is_drained c.inbound_buffer ≡ false
    → pos_part n < ring.buffered c.inbound_buffer
    → DiscardOf c n (pos_part n)
unfolding discard
discard_within c n v e d h = (
  record c { inbound_buffer = rb },
  ground (arith, e, d, count_eq),
  off.1,
  ap (λ ys. ys ++ c.buffer) off.2
      ∙ drop_within (pos_part n) (held c.inbound_buffer) c.buffer (omega (arith, size)),
)
  where
    rb : RingBuffer
    rb = (ring.discard c.inbound_buffer n).2

    off :
        ((ring.discard c.inbound_buffer n).0 ≡ min (pos_part n) (length (held c.inbound_buffer)))
        × IsSound rb
        × (held rb ≡ drop (pos_part n) (held c.inbound_buffer))
    off = discard-Reads c.inbound_buffer n v

    size : length (held c.inbound_buffer) ≡ ring.buffered c.inbound_buffer
    size = length-held c.inbound_buffer v

    count_eq : (ring.discard c.inbound_buffer n).0 ≡ pos_part n
    count_eq = omega (arith, off.0, size)

discard_beyond :
    (c : Inbound) (n : ℤ)
    → IsGood c
    → (ltb (inbound_buffered c) (pos_part n) || non_positive n) ≡ false
    → ring.is_drained c.inbound_buffer ≡ false
    → ring.buffered c.inbound_buffer ≤ pos_part n
    → DiscardOf c n (pos_part n)
unfolding discard
discard_beyond c n v e d h = (
  record { inbound_buffer = rb; buffer = drop k c.buffer },
  ground (arith, e, d, count_eq, slice_from c.buffer k, fits),
  off.1,
  ap (λ ys. ys ++ drop k c.buffer) off.2
      ∙ drop_beyond (pos_part n) k (held c.inbound_buffer) c.buffer (omega (arith, size))
          (omega (arith, size)),
)
  where
    k : ℕ
    k = pos_part n - ring.buffered c.inbound_buffer

    rb : RingBuffer
    rb = (ring.discard c.inbound_buffer n).2

    off :
        ((ring.discard c.inbound_buffer n).0 ≡ min (pos_part n) (length (held c.inbound_buffer)))
        × IsSound rb
        × (held rb ≡ drop (pos_part n) (held c.inbound_buffer))
    off = discard-Reads c.inbound_buffer n v

    size : length (held c.inbound_buffer) ≡ ring.buffered c.inbound_buffer
    size = length-held c.inbound_buffer v

    count_eq : (ring.discard c.inbound_buffer n).0 ≡ ring.buffered c.inbound_buffer
    count_eq = omega (arith, off.0, size)

    fits : k ≤ length c.buffer
    fits =
        ground (arith, e, size, length-stream c v, length-append (held c.inbound_buffer) c.buffer)

-- Discard takes n bytes off the stream, or all where n is not positive or more than there are; it
-- returns how many, and does not panic.
pub discard-stream :
    (c : Inbound) (n : ℤ)
    → IsGood c
    → (c' : Inbound) × (discard c n ≡ some (discarding (stream c) n, c'))
      × IsGood c'
      × (stream c' ≡ drop (discarding (stream c) n) (stream c))
discard-stream c n v = elim (Bool-cases (ltb (inbound_buffered c) (pos_part n) || non_positive n)) [
  | inl e ↦ subst (DiscardOf c n) (ground (arith, e, length-stream c v)) (discard_all c n v e)
  | inr e ↦
      subst (DiscardOf c n) (ground (arith, e, length-stream c v))
        (elim (Bool-cases (ring.is_drained c.inbound_buffer)) [
          | inl d ↦ discard_direct c n v e d
          | inr d ↦ elim (dec_lt (pos_part n) (ring.buffered c.inbound_buffer)) [
            | yes within ↦ discard_within c n v e d within
            | no beyond ↦ discard_beyond c n v e d (omega arith)
          ]
        ])
]
