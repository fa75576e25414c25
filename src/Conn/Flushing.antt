-- ===== src/Conn/Flushing.antt =====
-- eventloop.go: what a flush of the outbound buffer hands to the socket, and what it keeps.
use wsgnet.Prelude.{
  ℕ, subst, zero, suc, ◌≤◌, ◌<◌, ◌≡◌, ◌≢◌, ◌⊎◌, inl, inr, refl, none, some, List, [], ◌∷◌, ◌++◌,
  if◌then◌else◌, length, take, drop, min, arith, ap, sym, ◌∙◌, append_assoc, Bool-cases,
  Option-cases, pos, negsuc,
}
use wsgnet.Errors.{
  Error, again, is_empty, eof, short_write, short_buffer, negative_size, unsupported_op,
  engine_shutdown, other,
}
use wsgnet.Io.{Writer, Honest}
use wsgnet.LinkedList.Peeking.{flatten, flatten-nil}
use wsgnet.Elastic.Buffer.{Buffer}
use wsgnet.Elastic.Buffer as elastic
use wsgnet.Elastic.Storing.{Stores}
use wsgnet.Elastic.Taking.{discard-Stores}
use wsgnet.Elastic.Showing.{peek-Stores, is_empty-Stores}
use wsgnet.Conn.Telling.{Told, Told-none, Told-again, Told-some}
use wsgnet.Conn.Outbound.{Next, carry_on, watch_read, close, on_error, iov_max, flush}

-- The first k slices are a beginning of all.
pub flatten-take :
    (k : ℕ) (bs : List (List ℕ)) → (rest : List ℕ) × (flatten (take k bs) ++ rest ≡ flatten bs)
unfolding flatten
flatten-take zero bs = (flatten bs, refl)
flatten-take (suc k) [] = ([], refl)
flatten-take (suc k) (b ∷ bs) =
    let (rest, e) = flatten-take k bs in
    (rest, append_assoc b (flatten (take k bs)) rest ∙ ap (λ xs. b ++ xs) e)

-- What a flush of the bytes xs has done. The socket was called once, with the bytes p of the first
-- slices that Peek shows, which are the oldest of xs; what it did not take of xs is kept.
abbrev pub Kept : {S : Type 0} → Writer S → Buffer → List ℕ → S → Buffer × Next × S → Type 0
Kept send out xs s (out', next, t) =
    (bs : List (List ℕ)) × (elastic.peek out (negsuc 0) ≡ some bs)
    × (p : List ℕ) × (p ≡ flatten (take iov_max bs))
    × ((rest : List ℕ) × (p ++ rest ≡ xs))
    × (t ≡ (send s p).2)
    × Stores out' (drop (send s p).0 xs)
    × Told (send s p).1 (if elastic.is_empty out' then watch_read else carry_on) carry_on next
    × ((next ≢ watch_read) ⊎ (drop (send s p).0 xs ≡ []))

module _ {S : Type 0} (send : Writer S) where
  -- The state after the write of the bytes p.
  after_error : Buffer → Error → S → Buffer × Next × S
  after_error out e t = on_error e (out, carry_on, t) (λ e. (out, close e, t))

  after_fine : Buffer → S → Buffer × Next × S
  after_fine out t = (out, (if elastic.is_empty out then watch_read else carry_on), t)

  abbrev chunk : List ℕ → List (List ℕ) → List ℕ
  chunk b bs = flatten (take iov_max (b ∷ bs))

  flush_fine :
      (out : Buffer) (b : List ℕ) (bs : List (List ℕ)) (s : S)
      → elastic.peek out (negsuc 0) ≡ some (b ∷ bs)
      → (send s (chunk b bs)).1 ≡ none
      → flush send out s
        ≡ some (
            after_fine
              (elastic.discard out (pos (send s (chunk b bs)).0)).2
              (send s (chunk b bs)).2)
  unfolding flush after_fine
  flush_fine out b bs s e f = ground (arith, e, f)

  flush_error :
      (out : Buffer) (b : List ℕ) (bs : List (List ℕ)) (s : S) (e : Error)
      → elastic.peek out (negsuc 0) ≡ some (b ∷ bs)
      → (send s (chunk b bs)).1 ≡ some e
      → flush send out s
        ≡ some (
            after_error
              (elastic.discard out (pos (send s (chunk b bs)).0)).2
              e
              (send s (chunk b bs)).2)
  unfolding flush after_error on_error
  flush_error out b bs s again f q = ground (arith, f, q)
  flush_error out b bs s is_empty f q = ground (arith, f, q)
  flush_error out b bs s eof f q = ground (arith, f, q)
  flush_error out b bs s short_write f q = ground (arith, f, q)
  flush_error out b bs s short_buffer f q = ground (arith, f, q)
  flush_error out b bs s negative_size f q = ground (arith, f, q)
  flush_error out b bs s unsupported_op f q = ground (arith, f, q)
  flush_error out b bs s engine_shutdown f q = ground (arith, f, q)
  flush_error out b bs s (other n) f q = ground (arith, f, q)

  error_next :
      (out : Buffer) (fine : Next) (e : Error) (t : S)
      → (n : Next) × (after_error out e t ≡ (out, n, t))
        × Told (some e) fine carry_on n
        × (n ≢ watch_read)
  unfolding after_error on_error
  error_next out fine again t = (carry_on, refl, Told-again refl, λ q. cc)
  error_next out fine is_empty t =
      (close is_empty, refl, Told-some is_empty (λ r. cc) refl, λ q. cc)
  error_next out fine eof t = (close eof, refl, Told-some eof (λ r. cc) refl, λ q. cc)
  error_next out fine short_write t =
      (close short_write, refl, Told-some short_write (λ r. cc) refl, λ q. cc)
  error_next out fine short_buffer t =
      (close short_buffer, refl, Told-some short_buffer (λ r. cc) refl, λ q. cc)
  error_next out fine negative_size t =
      (close negative_size, refl, Told-some negative_size (λ r. cc) refl, λ q. cc)
  error_next out fine unsupported_op t =
      (close unsupported_op, refl, Told-some unsupported_op (λ r. cc) refl, λ q. cc)
  error_next out fine engine_shutdown t =
      (close engine_shutdown, refl, Told-some engine_shutdown (λ r. cc) refl, λ q. cc)
  error_next out fine (other n) t =
      (close (other n), refl, Told-some (other n) (λ r. cc) refl, λ q. cc)

  abbrev drained_next : Buffer → Next
  drained_next out = if elastic.is_empty out then watch_read else carry_on

  after_fine-eq : (out : Buffer) (t : S) → some (after_fine out t) ≡ some (out, drained_next out, t)
  unfolding after_fine
  after_fine-eq out t = refl

  fine_next :
      (out : Buffer) (ys : List ℕ) → Stores out ys → (drained_next out ≢ watch_read) ⊎ (ys ≡ [])
  fine_next out ys st = elim (Bool-cases (elastic.is_empty out)) [
    | inl e ↦ inr (is_empty-Stores out st e)
    | inr e ↦ inl (λ q. absurd (carries (sym (ap (λ b. if b then watch_read else carry_on) e) ∙ q)))
  ]
    where
      carries : carry_on ≡ watch_read → ⊥
      carries q = cc

  flush_slices :
      {xs : List ℕ} (out : Buffer) (b : List ℕ) (bs : List (List ℕ)) (rest : List ℕ) (s : S)
      → Honest send
      → Stores out xs
      → elastic.peek out (negsuc 0) ≡ some (b ∷ bs)
      → flatten (b ∷ bs) ++ rest ≡ xs
      → (r : Buffer × Next × S) × (flush send out s ≡ some r) × Kept send out xs s r
  flush_slices {xs} out b bs rest s honest st eq same = elim (Option-cases (send s c).1) [
    | inl fine ↦ (
      (out', drained_next out', t),
      flush_fine out b bs s eq fine ∙ after_fine-eq out' t,
      (
        b ∷ bs,
        eq,
        c,
        refl,
        behind,
        refl,
        discarded_rest,
        Told-none fine,
        fine_next out' (drop m xs) discarded_rest,
      ),
    )
    | inr (e, failed) ↦
        let (n, shape, told, left) = error_next out' (drained_next out') e t in
        (
          (out', n, t),
          flush_error out b bs s e eq failed ∙ ap some shape,
          (
            b ∷ bs,
            eq,
            c,
            refl,
            behind,
            refl,
            discarded_rest,
            subst (λ err. Told err (drained_next out') carry_on n) (sym failed) told,
            inl left,
          ),
        )
  ]
    where
      c : List ℕ
      c = chunk b bs

      m : ℕ
      m = (send s c).0

      t : S
      t = (send s c).2

      out' : Buffer
      out' = (elastic.discard out (pos m)).2

      discarded_rest : Stores out' (drop m xs)
      discarded_rest = (discard-Stores out (pos m) st).1

      behind : (more : List ℕ) × (c ++ more ≡ xs)
      behind =
          let (left, e) = flatten-take iov_max (b ∷ bs) in
          (left ++ rest, sym (append_assoc c left rest) ∙ ap (λ zs. zs ++ rest) e ∙ same)

  -- A flush of a buffer that holds bytes calls the socket once, with the first slices that Peek shows,
  -- 1024 at most, which are the oldest bytes, and keeps exactly those that it did not take, whether or
  -- not the call failed. On EAGAIN it goes on, on any other error it closes the connection for it, and
  -- without one it goes on or, where the buffer says that it is empty, tells the poller to watch for
  -- bytes to read only, and then nothing is left. It does not panic. The socket takes at most what it
  -- is given.
  pub flush-Kept :
      {xs : List ℕ} (out : Buffer) (s : S)
      → Honest send
      → Stores out xs
      → 0 < length xs
      → (r : Buffer × Next × S) × (flush send out s ≡ some r) × Kept send out xs s r
  flush-Kept {xs} out s honest st h = shown (peek-Stores out (negsuc 0) st)
    where
      shown :
          ((bs : List (List ℕ)) × (elastic.peek out (negsuc 0) ≡ some bs)
            × (rest : List ℕ) × (flatten bs ++ rest ≡ xs)
            × (min 2147483647 (length xs) ≤ length (flatten bs)))
          → (r : Buffer × Next × S) × (flush send out s ≡ some r) × Kept send out xs s r
      shown ([], eq, rest, same, enough) = absurd (omega (arith, enough, h, ap length flatten-nil))
      shown (b ∷ bs, eq, rest, same, enough) = flush_slices out b bs rest s honest st eq same
