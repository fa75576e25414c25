-- ===== src/Ring/DrainingAll.antt =====
-- pkg/buffer/ring/ring_buffer.go: WriteTo as a whole, and the case in which it loses bytes.
use wsgnet.Prelude.{
  ℕ, ◌+◌, ◌-◌, ◌%◌, ◌≤◌, ◌<◌, ◌≡◌, refl, true, false, Option, none, some, [], length, drop, arith,
  slice-eq-some, length-drop, take_all, append-nil, ap, ◌∙◌, dec_lt, slice,
}
use wsgnet.Errors.{Error}
use wsgnet.Io.{Writer, Honest}
use wsgnet.Ring.Defs.{Ring, reset}
use wsgnet.Ring.Reading.{reset_if_drained}
use wsgnet.Ring.Transfer.{Transferred, write_result, write_straight, write_round, write_to}
use wsgnet.Ring.Contents.{IsValid, contents, length-contents}
use wsgnet.Ring.Removal.{contents_empty, advance, mod_once, take_zero}
use wsgnet.Ring.Draining.{Drained, straight-Drained, straight-eq, result-parts}
use wsgnet.Ring.DrainingRound.{
  straight_length, behind_length, round_contents, straight_contents, write_round-Drained,
}

front_slice :
    {b : Ring}
    → IsValid b
    → b.is_empty ≡ false
    → b.w ≤ b.r
    → b.w ≡ 0
    → slice b.buf b.r (b.r + (b.size - b.r + b.w)) ≡ some (contents b)
front_slice {b} v e h k =
    slice-eq-some b.buf b.r (b.r + (b.size - b.r + b.w)) (omega arith) (omega arith)
    ∙ ground (
      arith,
      round_contents b e (omega arith),
      take_zero b.buf,
      append-nil (drop b.r b.buf),
      length-drop b.r b.buf,
      take_all (b.r + (b.size - b.r + b.w) - b.r) (drop b.r b.buf),
    )

module _ {S : Type 0} (write : Writer S) (b : Ring) (s : S) (e : b.is_empty ≡ false) where
  write_to_ahead :
      b.r < b.w → write_to write b s ≡ write_straight write b (b.w - b.r) s (λ m. b.r + m)
  unfolding write_to
  write_to_ahead h = ground arith

  write_to_front :
      IsValid b
      → b.w ≤ b.r
      → b.w ≡ 0
      → write_to write b s ≡ write_straight write b (b.size - b.r + b.w) s (λ m. (b.r + m) % b.size)
  unfolding write_to
  write_to_front v h k = ground arith

  write_to_round :
      IsValid b
      → b.w ≤ b.r
      → 0 < b.w
      → write_to write b s ≡ write_round write b (b.size - b.r + b.w) s
  unfolding write_to
  write_to_round v h k = ground arith

  -- Where the data does not go round the end, one write is all.
  straight_case :
      (n : ℕ) (next : ℕ → ℕ)
      → Honest write
      → IsValid b
      → write_to write b s ≡ write_straight write b n s next
      → slice b.buf b.r (b.r + n) ≡ some (contents b)
      → n ≡ length (contents b)
      → ((m : ℕ) → m ≤ n → next m ≡ (b.r + m) % b.size)
      → (b.r ≡ b.w → 0 < (write s (contents b)).0)
      → (out : Transferred S) × (write_to write b s ≡ some out) × Drained write b s out
  straight_case n next honest v eq found size step away = (
    _,
    eq ∙ straight-eq write b n s next found size honest step,
    straight-Drained write s v e honest away,
  )

-- WriteTo hands all the bytes that are held to the writer, in pieces from the oldest on, until the
-- writer gives an error or cuts a piece short, and returns the count and the error of that, which is
-- io.ErrShortWrite after a piece cut short; it takes exactly those bytes off that the writer took, and
-- returns no error only where nothing is left. It does not panic. The writer takes at most what it is
-- given; the buffer is not empty, and the writer takes a byte at least where the buffer is full from
-- its start.
pub write_to_lem :
    {S : Type 0} (write : Writer S) {b : Ring} (s : S)
    → Honest write
    → IsValid b
    → b.is_empty ≡ false
    → (b.r ≡ 0 → b.w ≡ 0 → 0 < (write s (contents b)).0)
    → (out : Transferred S) × (write_to write b s ≡ some out) × Drained write b s out
write_to_lem write {b} s honest v e away = elim (dec_lt b.r b.w) [
  | yes ahead ↦
      straight_case write b s e (b.w - b.r) (λ m. b.r + m) honest v
        (write_to_ahead write b s e ahead)
        (slice-eq-some b.buf b.r (b.r + (b.w - b.r)) (omega arith) (omega (arith, v.held, v.w_in))
          ∙ ground (arith, straight_contents b e ahead))
        (omega (arith, length-contents v, straight_length b e ahead))
        (λ m k. ground (arith, mod_once (b.r + m) b.size, v.w_in)) (λ q. absurd (omega arith))
  | no behind ↦ elim (dec_lt 0 b.w) [
    | yes round ↦
        let (out, eq, d) = write_round-Drained write honest s v e (omega arith) round in
        (out, write_to_round write b s e v (omega arith) round ∙ eq, d)
    | no first ↦
        straight_case write b s e (b.size - b.r + b.w) (λ m. (b.r + m) % b.size) honest v
          (write_to_front write b s e v (omega arith) (omega arith))
          (front_slice v e (omega arith) (omega arith))
          (omega (arith, length-contents v, behind_length v e (omega arith))) (λ m k. refl)
          (λ q. away (omega arith) (omega arith))
  ]
]

meeting_drained : (b : Ring) → b.r ≡ b.w → (reset_if_drained b).is_empty ≡ true
unfolding reset_if_drained reset
meeting_drained b h = ground arith

full_result :
    {S : Type 0} (write : Writer S) (s : S) (n : ℕ) (err : Option Error) (b : Ring) (t : S)
    → b.is_empty ≡ true
    → (write_result write n err b t).1 ≡ err
unfolding write_result
full_result write s n none b t h = ground arith
full_result write s n (some e) b t h = refl

-- A buffer that is full from its start loses all that it holds where the writer takes nothing: the
-- indices meet, and are taken to say that all was written.
pub write_to_loses :
    {S : Type 0} (write : Writer S) {b : Ring} (s : S)
    → Honest write
    → IsValid b
    → b.is_empty ≡ false
    → b.r ≡ 0
    → b.w ≡ 0
    → (write s (contents b)).0 ≡ 0
    → (out : Transferred S) × (write_to write b s ≡ some out)
      × (out.0 ≡ 0)
      × (out.1 ≡ (write s (contents b)).1)
      × (contents out.2 ≡ [])
write_to_loses {S} write {b} s honest v e p q h = (
  write_result write m err b' t,
  write_to_front write b s e v (omega arith) q
      ∙ straight-eq write b (b.size - b.r + b.w) s (λ m. (b.r + m) % b.size)
          (front_slice v e (omega arith) q)
          (omega (arith, length-contents v, behind_length v e (omega arith))) honest (λ m k. refl),
  parts.0 ∙ h,
  full_result write s m err b' t drained,
  ap contents parts.1 ∙ contents_empty b' drained,
)
  where
    m : ℕ
    m = (write s (contents b)).0

    err : Option Error
    err = (write s (contents b)).1

    t : S
    t = (write s (contents b)).2

    b' : Ring
    b' = reset_if_drained (advance b m)

    parts : let out = write_result write m err b' t in (out.0 ≡ m) × (out.2 ≡ b') × (out.3 ≡ t)
    parts = result-parts write m err b' t

    drained : b'.is_empty ≡ true
    drained = meeting_drained (advance b m) (ground (arith, mod_once (b.r + m) b.size))
