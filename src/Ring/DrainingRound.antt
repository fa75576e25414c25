-- ===== src/Ring/DrainingRound.antt =====
-- WriteTo on data that goes round the end: two writes.
use wsgnet.Prelude.{
  ℕ, ◌+◌, ◌-◌, ◌≤◌, ◌<◌, ◌≡◌, false, none, some, List, [], ◌∷◌, ◌++◌, length, take, drop, arith,
  slice_from, slice_to, length-take, length-drop, take-append, drop_all, append-nil, drop-append,
  sym, ap, ◌∙◌, dec_lt, Option-cases, inl, inr, subst,
}
use wsgnet.Errors.{Error, short_write}
use wsgnet.Io.{Writer, Honest, Accepts, hand, hand-fails, hand-short, hand-on}
use wsgnet.Ring.Defs.{Ring, buffered}
use wsgnet.Ring.Reading.{reset_if_drained}
use wsgnet.Ring.Transfer.{Transferred, write_result, write_back, write_round}
use wsgnet.Ring.Contents.{IsValid, contents, length-contents}
use wsgnet.Ring.Removal.{drop_zero, advance, advance-IsValid, advance-contents, mod_once, take_zero}
use wsgnet.Ring.Draining.{Drained, fails_or, Drained-after, Accepts-one, straight-Drained, back-eq}

pub straight_length : (b : Ring) → b.is_empty ≡ false → b.r < b.w → buffered b ≡ b.w - b.r
unfolding buffered
straight_length b e h = ground arith

pub behind_length :
    {b : Ring} → IsValid b → b.is_empty ≡ false → b.w ≤ b.r → buffered b ≡ b.size - b.r + b.w
unfolding buffered
behind_length v e h = ground arith

pub round_contents :
    (b : Ring) → b.is_empty ≡ false → b.w ≤ b.r → contents b ≡ drop b.r b.buf ++ take b.w b.buf
unfolding contents
round_contents b e h = ground arith

pub straight_contents :
    (b : Ring) → b.is_empty ≡ false → b.r < b.w → contents b ≡ take (b.w - b.r) (drop b.r b.buf)
unfolding contents
straight_contents b e h = ground arith

module _ {S : Type 0} (write : Writer S) (honest : Honest write) {b : Ring} (s : S) (v : IsValid b)
    (e : b.is_empty ≡ false) (h : b.w ≤ b.r) (p : 0 < b.w) where
  front : List ℕ
  front = drop b.r b.buf

  m : ℕ
  m = (write s front).0

  t : S
  t = (write s front).2

  length-front : length front ≡ b.size - b.r
  unfolding front
  length-front = omega (arith, length-drop b.r b.buf, v.held)

  m-le : m ≤ b.size - b.r
  unfolding m
  m-le = omega (arith, honest s front, length-front)

  held : length (contents b) ≡ b.size - b.r + b.w
  unfolding buffered
  held = ground (arith, length-contents v)

  take-front : (k : ℕ) → k ≤ b.size - b.r → take k (contents b) ≡ take k front
  unfolding front
  take-front k q = ground (
    arith,
    round_contents b e h,
    take-append k (drop b.r b.buf) (take b.w b.buf),
    length-drop b.r b.buf,
    take_zero (take b.w b.buf),
    append-nil (take k (drop b.r b.buf)),
  )

  -- The first write alone, with an error.
  first_only :
      (err : Error)
      → hand write (front ∷ take b.w b.buf ∷ []) s ≡ (m, some err, t)
      → Drained write b s (m, some err, advance b m, t)
  unfolding m t front buffered
  first_only err ran = record {
    valid = advance-IsValid m v (omega (arith, m-le, held, length-contents v));
    count = omega (arith, m-le, held);
    rest = advance-contents m v (omega (arith, m-le, held, length-contents v));
    taken = rw (take-front m m-le) (Accepts-one write s front);
    finished = fails_or _ (λ q. cc);
    handed = (
      front ∷ take b.w b.buf ∷ [],
      ap (λ xs. front ++ xs) (append-nil (take b.w b.buf)) ∙ sym (round_contents b e h),
      ran,
    );
  }

  rest : Ring
  rest = advance b m

  rest_fields : m ≡ b.size - b.r → IsValid rest × (contents rest ≡ take b.w b.buf) × (rest.r ≡ 0)
  unfolding rest front buffered
  rest_fields q = (
    advance-IsValid m v short,
    advance-contents m v short ∙ behind,
    ground (arith, mod_once (b.r + m) b.size, v.r_in),
  )
    where
      short : m < buffered b
      short = omega (arith, held, length-contents v)

      behind : drop m (contents b) ≡ take b.w b.buf
      behind = ground (
        arith,
        round_contents b e h,
        drop-append m (drop b.r b.buf) (take b.w b.buf),
        drop_all m (drop b.r b.buf),
        length-drop b.r b.buf,
        v.held,
        drop_zero (take b.w b.buf),
      )

  second : Transferred S
  second =
      let (m2, err, t2) = write t (contents rest) in
      write_result write (m + m2) err (reset_if_drained (advance rest m2)) t2

  second-eq : m ≡ b.size - b.r → write_back write rest m b.w t ≡ some second
  unfolding rest second
  second-eq q =
      let (valid, same, start) = rest_fields q in
      back-eq write rest m b.w t
        (slice_to b.buf b.w (omega (arith, v.held, v.w_in)) ∙ ap some (sym same))
        (omega (arith, ap length same, length-take b.w b.buf, v.held, v.w_in)) honest start
        (omega
          (arith, honest t (contents rest), ap length same, length-take b.w b.buf, v.held, v.w_in))

  second-Drained : (write s front).1 ≡ none → m ≡ b.size - b.r → Drained write b s second
  unfolding rest second front m t
  second-Drained fine q =
      let (valid, same, start) = rest_fields q in
      Drained-after write m (write t (contents (advance b m))).0
        (write t (contents (advance b m))).1
        (reset_if_drained (advance (advance b m) (write t (contents (advance b m))).0))
        (write t (contents (advance b m))).2 front (omega (arith, held, q))
        (advance-contents m v (omega (arith, q, held, length-contents v)))
        (λ ys a.
          subst (λ xs. Accepts write s (xs ++ ys) (write t (contents (advance b m))).2)
            (sym (take-front m m-le)) (Accepts.more s front ys _ a))
        (ap (λ xs. front ++ xs) same ∙ sym (round_contents b e h))
        (λ ps. hand-on write front ps s fine (omega (arith, q, length-front)))
        (straight-Drained write t valid e honest (λ w. absurd (omega (arith, start, w, p))))

  first_fails :
      (err : Error)
      → (write s front).1 ≡ some err
      → write_round write b (b.size - b.r + b.w) s ≡ some (m, some err, advance b m, t)
  unfolding write_round front m t
  first_fails err q = ground (arith, slice_from b.buf b.r, v.held, v.r_in, m-le, q)

  first_short :
      (write s front).1 ≡ none
      → m < b.size - b.r
      → write_round write b (b.size - b.r + b.w) s ≡ some (m, some short_write, advance b m, t)
  unfolding write_round front m t
  first_short q k = ground (arith, slice_from b.buf b.r, v.held, v.r_in, q, k)

  first_all :
      (write s front).1 ≡ none
      → m ≡ b.size - b.r
      → write_round write b (b.size - b.r + b.w) s ≡ some second
  unfolding write_round front m t rest
  first_all q k = ground (arith, slice_from b.buf b.r, v.held, v.r_in, q, k, second-eq k)

  -- What the writes of data that goes round have done.
  pub write_round-Drained :
      (out : Transferred S) × (write_round write b (b.size - b.r + b.w) s ≡ some out)
      × Drained write b s out
  unfolding m t
  write_round-Drained = elim (Option-cases (write s front).1) [
    | inr (err, q) ↦ (
      (m, some err, advance b m, t),
      first_fails err q,
      first_only err (hand-fails write front (take b.w b.buf ∷ []) s err q),
    )
    | inl q ↦ elim (dec_lt m (b.size - b.r)) [
      | yes short ↦ (
        (m, some short_write, advance b m, t),
        first_short q short,
        first_only short_write
            (hand-short write front (take b.w b.buf ∷ []) s q (omega (arith, short, length-front))),
      )
      | no all ↦
          let k : m ≡ b.size - b.r = omega (arith, m-le) in
          (second, first_all q k, second-Drained q k)
    ]
  ]
