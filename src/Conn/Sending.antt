-- ===== src/Conn/Sending.antt =====
-- What conn.write and eventloop.write hand to the socket, and what they keep.
use wsgnet.Prelude.{
  ℕ, ltb, if◌then◌else◌, drop_all, ◌+◌, ◌≤◌, ◌<◌, ◌^◌, ◌≡◌, ◌≢◌, ◌⊎◌, inl, inr, refl, true, false,
  none, some, List, [], ◌++◌, length, drop, arith, ap, subst, sym, ◌∙◌, length-drop, Bool-cases,
  Option-cases, dec_lt, slice_from, lt→ltb, le→ltb,
}
use wsgnet.Errors.{
  Error, again, is_empty, eof, short_write, short_buffer, negative_size, unsupported_op,
  engine_shutdown, other,
}
use wsgnet.Io.{Writer, Honest}
use wsgnet.Ring.Defs.{Ring}
use wsgnet.Elastic.Buffer.{Buffer}
use wsgnet.Elastic.Buffer as elastic
use wsgnet.Elastic.Held.{IsPooled, size_of}
use wsgnet.Elastic.Storing.{Stores, write-Stores}
use wsgnet.Elastic.Showing.{is_empty-Stores}
use wsgnet.Conn.Telling.{Told, Told-none, Told-again, Told-some}
use wsgnet.Conn.Outbound.{Next, carry_on, watch_both, close, on_error, write}

-- A system call that fails has taken nothing.
abbrev pub IsWhole : {S : Type 0} → Writer S → Type 0
IsWhole {S} send = (s : S) (p : List ℕ) → (send s p).1 ≢ none → (send s p).0 ≡ 0

-- What a write of p has done where xs was held. Where the buffer is in use, the socket is not called,
-- and p is kept behind what is held; where it is not, the socket is called once, with p, and what it
-- did not take of p is kept, unless the connection is to be closed.
abbrev pub Passed :
    {S : Type 0} → Writer S → List ℕ → Buffer → List ℕ → S → Buffer × Next × S → Type 0
Passed send xs out p s (out', next, t) =
    (elastic.is_empty out ≡ false → (next ≡ carry_on) × (t ≡ s) × Stores out' (xs ++ p))
    × (elastic.is_empty out ≡ true
        → (xs ≡ [])
          × (t ≡ (send s p).2)
          × Told (send s p).1 (if ltb (send s p).0 (length p) then watch_both else carry_on)
              watch_both next
          × (Stores out' (drop (send s p).0 p) ⊎ ((e : Error) × (next ≡ close e) × Stores out' [])))

module _ {S : Type 0} (mem : ℕ → ℕ → ℕ) (pooled : Ring) (send : Writer S) where
  write_behind :
      (out out' : Buffer) (p : List ℕ) (n : ℕ) (s : S)
      → elastic.is_empty out ≡ false
      → elastic.write mem pooled out p ≡ some (n, out')
      → write mem pooled send out p s ≡ some (out', carry_on, s)
  unfolding write
  write_behind out out' p n s e f = ground (arith, e, f)

  write_again :
      (out out' : Buffer) (p : List ℕ) (n : ℕ) (s : S)
      → elastic.is_empty out ≡ true
      → (send s p).1 ≡ some again
      → elastic.write mem pooled out p ≡ some (n, out')
      → write mem pooled send out p s ≡ some (out', watch_both, (send s p).2)
  unfolding write on_error
  write_again out out' p n s e q f = ground (arith, e, f, q)

  write_part :
      (out out' : Buffer) (p : List ℕ) (n : ℕ) (s : S)
      → elastic.is_empty out ≡ true
      → (send s p).1 ≡ none
      → (send s p).0 < length p
      → elastic.write mem pooled out (drop (send s p).0 p) ≡ some (n, out')
      → write mem pooled send out p s ≡ some (out', watch_both, (send s p).2)
  unfolding write
  write_part out out' p n s e q h f =
      ground (arith, e, f, q, lt→ltb (send s p).0 (length p) h, slice_from p (send s p).0)

  write_whole :
      (out : Buffer) (p : List ℕ) (s : S)
      → elastic.is_empty out ≡ true
      → (send s p).1 ≡ none
      → length p ≤ (send s p).0
      → write mem pooled send out p s ≡ some (out, carry_on, (send s p).2)
  unfolding write
  write_whole out p s e q h = ground (arith, e, q, le→ltb (send s p).0 (length p) h)

  write_closed :
      (out : Buffer) (p : List ℕ) (s : S) (e : Error)
      → elastic.is_empty out ≡ true
      → (send s p).1 ≡ some e
      → (e ≡ again)
        ⊎ ((e ≢ again) × (write mem pooled send out p s ≡ some (out, close e, (send s p).2)))
  unfolding write on_error
  write_closed out p s again f q = inl refl
  write_closed out p s is_empty f q = inr ((λ r. cc), ground (arith, f, q))
  write_closed out p s eof f q = inr ((λ r. cc), ground (arith, f, q))
  write_closed out p s short_write f q = inr ((λ r. cc), ground (arith, f, q))
  write_closed out p s short_buffer f q = inr ((λ r. cc), ground (arith, f, q))
  write_closed out p s negative_size f q = inr ((λ r. cc), ground (arith, f, q))
  write_closed out p s unsupported_op f q = inr ((λ r. cc), ground (arith, f, q))
  write_closed out p s engine_shutdown f q = inr ((λ r. cc), ground (arith, f, q))
  write_closed out p s (other n) f q = inr ((λ r. cc), ground (arith, f, q))

  -- conn.write keeps the order: where the outbound buffer is in use, it puts the new bytes behind those
  -- that are held and does not call the socket; where it is not, nothing is held, the socket is called
  -- once with the new bytes, and what it did not take of them is kept. It goes on where all were taken,
  -- watches for room to write after a short write or EAGAIN, and closes the connection for any other
  -- error, and only then are the new bytes left out. It does not panic while the sizes stay up to
  -- 2 ^ 62. The socket takes at most what it is given, and nothing where it fails; the buffer from the
  -- pool is well-formed and empty.
  pub write-Passed :
      {xs : List ℕ} (out : Buffer) (p : List ℕ) (s : S)
      → Honest send
      → IsWhole send
      → IsPooled pooled
      → Stores out xs
      → size_of pooled out.ring_buffer + length p ≤ 2 ^ 62
      → (r : Buffer × Next × S) × (write mem pooled send out p s ≡ some r)
        × Passed send xs out p s r
  write-Passed {xs} out p s honest whole pool st k = elim (Bool-cases (elastic.is_empty out)) [
    | inr held ↦
        let (out', eq, st') = write-Stores mem pooled out p pool st k in
        (
          (out', carry_on, s),
          write_behind out out' p (length p) s held eq,
          ((λ _. (refl, refl, st')), (λ e. absurd cc)),
        )
    | inl drained ↦ elim (Option-cases (send s p).1) [
      | inl fine ↦ elim (dec_lt (send s p).0 (length p)) [
        | yes part ↦
            let (out', eq, st') =
              write-Stores mem pooled out (drop m p) pool st (omega (arith, length-drop m p)) in
            (
              (out', watch_both, t),
              write_part out out' p _ s drained fine part eq,
              called out' _ drained
                  (subst
                    (λ b.
                      Told (send s p).1 (if b then watch_both else carry_on) watch_both watch_both)
                    (sym (lt→ltb m (length p) part)) (Told-none fine))
                  (inl (behind_none out' _ drained st')),
            )
        | no all ↦ (
          (out, carry_on, t),
          write_whole out p s drained fine (omega arith),
          called out _ drained
              (subst
                (λ b. Told (send s p).1 (if b then watch_both else carry_on) watch_both carry_on)
                (sym (le→ltb m (length p) (omega arith))) (Told-none fine))
              (inl (
                subst (Stores out)
                  (is_empty-Stores out st drained ∙ sym (drop_all m p (omega arith))) st)),
        )
      ]
      | inr (e, failed) ↦ elim (write_closed out p s e drained failed) [
        | inl temporary ↦
            let (out', eq, st') = write-Stores mem pooled out p pool st k in
            (
              (out', watch_both, t),
              write_again out out' p _ s drained (failed ∙ ap some temporary) eq,
              called out' _ drained (Told-again (failed ∙ ap some temporary))
                  (inl (subst (Stores out') (after_none failed) (behind_none out' _ drained st'))),
            )
        | inr (lasting, closed) ↦ (
          (out, close e, t),
          closed,
          called out _ drained (Told-some e lasting failed)
              (inr (e, refl, subst (Stores out) (is_empty-Stores out st drained) st)),
        )
      ]
    ]
  ]
    where
      m : ℕ
      m = (send s p).0

      t : S
      t = (send s p).2

      called :
          (out' : Buffer) (next : Next)
          → elastic.is_empty out ≡ true
          → Told (send s p).1 (if ltb m (length p) then watch_both else carry_on) watch_both next
          → Stores out' (drop m p) ⊎ ((e : Error) × (next ≡ close e) × Stores out' [])
          → Passed send xs out p s (out', next, t)
      called out' next drained told left =
          ((λ e. absurd cc), (λ _. (is_empty-Stores out st drained, refl, told, left)))

      behind_none :
          (out' : Buffer) (ys : List ℕ)
          → elastic.is_empty out ≡ true
          → Stores out' (xs ++ ys)
          → Stores out' ys
      behind_none out' ys drained st' =
          subst (λ zs. Stores out' (zs ++ ys)) (is_empty-Stores out st drained) st'

      after_none : {e : Error} → (send s p).1 ≡ some e → p ≡ drop m p
      after_none {e} q = ap (λ n. drop n p) {x = 0} (sym (whole s p (λ n. cc)))
