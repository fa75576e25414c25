-- ===== src/Codec/RoundTrip.antt =====
-- codec.go: what Encode has written, Decode gives back.
use wsgnet.Prelude.{
  ℕ, zero, suc, ◌+◌, ◌^◌, ◌≤◌, ◌<◌, ◌≡◌, ◌∷◌, ◌++◌, refl, Option, none, some, List, [], length,
  slice, take, drop, copy, tabulate, arith, ap, ap₂, sym, ◌∙◌, pos, append_assoc, length-append,
  slice_from, le→ltb, lt→leb, dec_lt, ◌>>=◌,
}
use wsgnet.Errors.{Error, short_buffer}
use wsgnet.Conn.Stream.{shown_short, shown_enough}
use wsgnet.Conn.Consuming.{discarding}
use wsgnet.Codec.{Source, ByteOrder, header, encode, get_frame_length, Decoded, peeked, decode}
use wsgnet.Codec.Header.{field_lem}

take_front : (xs ys : List ℕ) → take (length xs) (xs ++ ys) ≡ xs
take_front [] ys = refl
take_front (x ∷ xs) ys = ap (◌∷◌ x) (take_front xs ys)

drop_front : (xs ys : List ℕ) → drop (length xs) (xs ++ ys) ≡ ys
drop_front [] ys = refl
drop_front (x ∷ xs) ys = drop_front xs ys

copy_over : (n : ℕ) (xs : List ℕ) → n ≡ length xs → copy (tabulate n (λ _. 0)) xs ≡ xs
copy_over zero [] e = refl
copy_over zero (x ∷ xs) e = absurd (omega arith)
copy_over (suc n) [] e = absurd (omega arith)
copy_over (suc n) (x ∷ xs) e = ap (◌∷◌ x) (copy_over n xs (omega arith))

module _ {S : Type 0} (src : Source S) where
  peek_exact :
      (s : S) (k : ℕ) (front back : List ℕ)
      → src.IsGood s
      → src.bytes s ≡ front ++ back
      → k ≡ length front
      → 0 < k
      → src.peek s (pos k) ≡ some (front, none)
  peek_exact s zero front back v e h p = absurd (omega arith)
  peek_exact s (suc k) front back v e h p =
      src.peek_law s (pos (suc k)) v
      ∙ ap some (
          shown_enough (src.bytes s) (pos (suc k)) (suc k)
            (omega (arith, ap length e, length-append front back)) refl)
      ∙ ap (λ xs. some (take (suc k) xs, none)) e
      ∙ ap (λ n. some (take n (front ++ back), none)) h
      ∙ ap (λ xs. some (xs, none)) (take_front front back)

  peek_lacking :
      (s : S) (k : ℕ)
      → src.IsGood s
      → length (src.bytes s) < k
      → src.peek s (pos k) ≡ some ([], some short_buffer)
  peek_lacking s k v h = src.peek_law s (pos k) v ∙ ap some (shown_short (src.bytes s) (pos k) h)

  discard_exact :
      (s : S) (k : ℕ) (front back : List ℕ)
      → src.IsGood s
      → src.bytes s ≡ front ++ back
      → k ≡ length front
      → 0 < k
      → (s' : S) × (src.discard s (pos k) ≡ some (k, s')) × src.IsGood s' × (src.bytes s' ≡ back)
  discard_exact s zero front back v e h p = absurd (omega arith)
  discard_exact s (suc k) front back v e h p =
      let (s', eq, v', left) = src.discard_law s (pos (suc k)) v in
      (
        s',
        eq ∙ ap (λ n. some (n, s')) all,
        v',
        left
            ∙ ap (λ n. drop n (src.bytes s)) (all ∙ h)
            ∙ ap (drop (length front)) e
            ∙ drop_front front back,
      )
    where
      all : discarding (src.bytes s) (pos (suc k)) ≡ suc k
      all = ground (
        arith,
        le→ltb (length (src.bytes s)) (suc k)
            (omega (arith, ap length e, length-append front back)),
      )

  module _ (order : ByteOrder) (n : ℕ) where
    peeked_on :
        (s : S) (k : ℕ) (xs : List ℕ) (f : List ℕ → Option (Decoded S))
        → src.peek s (pos k) ≡ some (xs, none)
        → k ≤ length xs
        → peeked src order n s k f ≡ f xs
    unfolding peeked
    peeked_on s k xs f e h = ground (arith, e, le→ltb (length xs) k h)

    peeked_fails :
        (s : S) (k : ℕ) (xs : List ℕ) (err : Error) (f : List ℕ → Option (Decoded S))
        → src.peek s (pos k) ≡ some (xs, some err)
        → peeked src order n s k f ≡ some (none, some err, s)
    unfolding peeked
    peeked_fails s k xs err f e = ground (arith, e)

    -- What Decode does once the whole frame is shown.
    unfoldable finish : S → ℕ → List ℕ → Option (Decoded S)
    finish s frame bytes = do
      body ← slice bytes n (length bytes)
      (_, s') ← src.discard s (pos (frame + n))
      some (some (copy (tabulate frame (λ _. 0)) body), none, s')

    decode_on :
        (s : S) (field : List ℕ) (frame : ℕ)
        → src.peek s (pos n) ≡ some (field, none)
        → n ≤ length field
        → get_frame_length order n field ≡ some frame
        → 0 < frame + n
        → frame + n < 10485760
        → decode src order n s ≡ peeked src order n s (frame + n) (finish s frame)
    unfolding decode finish
    decode_on s field frame e h g p q =
        peeked_on s n field _ e h ∙ ground (arith, g, lt→leb 10485760 (frame + n) q)

    finish_lem :
        (s s' : S) (frame k : ℕ) (field buf : List ℕ)
        → length field ≡ n
        → frame ≡ length buf
        → src.discard s (pos (frame + n)) ≡ some (k, s')
        → finish s frame (field ++ buf) ≡ some (some buf, none, s')
    unfolding finish
    finish_lem s s' frame k field buf e h d = ground (
      arith,
      d,
      slice_from (field ++ buf) n,
      length-append field buf,
      copy_over frame buf h,
      ap (λ j. drop j (field ++ buf)) (sym e) ∙ drop_front field buf,
    )

encode-eq :
    (order : ByteOrder) (n : ℕ) (buf field out : List ℕ)
    → header order n (length buf) ≡ some field
    → encode order n buf ≡ some out
    → out ≡ field ++ buf
unfolding encode
encode-eq order n buf field out e f = ground (arith, e, f)

-- Where a connection begins with a frame that Encode has written, Decode takes exactly that frame
-- off and gives the message: for fields of one to four bytes, a message whose length fits the field,
-- and a frame below the limit of 10 MB.
pub decode-encode :
    {S : Type 0} (src : Source S) (order : ByteOrder) (n : ℕ) (buf out rest : List ℕ) (s : S)
    → 1 ≤ n
    → n ≤ 4
    → length buf < 256 ^ n
    → length buf + n < 10485760
    → encode order n buf ≡ some out
    → src.IsGood s
    → src.bytes s ≡ out ++ rest
    → (s' : S) × (decode src order n s ≡ some (some buf, none, s'))
      × src.IsGood s'
      × (src.bytes s' ≡ rest)
decode-encode src order n buf out rest s one four fits small enc v e =
    let (field, wrote, size, reads) = field_lem order n (length buf) one four fits in
    let frame : out ≡ field ++ buf = encode-eq order n buf field out wrote enc in
    let whole : src.bytes s ≡ (field ++ buf) ++ rest = e ∙ ap (λ xs. xs ++ rest) frame in
    let total : length buf + n ≡ length (field ++ buf) =
      omega (arith, size, length-append field buf) in
    let (s', off, v', left) =
      discard_exact src s (length buf + n) (field ++ buf) rest v whole total (omega arith) in
    (
      s',
      decode_on src order n s field (length buf)
            (peek_exact src s n field (buf ++ rest) v (whole ∙ append_assoc field buf rest)
              (sym size) (omega arith))
            (omega (arith, size)) reads (omega arith) small
          ∙ peeked_on src order n s (length buf + n) (field ++ buf)
              (finish src order n s (length buf))
              (peek_exact src s (length buf + n) (field ++ buf) rest v whole total (omega arith))
              (omega (arith, total))
          ∙ finish_lem src order n s s' (length buf) (length buf + n) field buf size refl off,
      v',
      left,
    )

cons_head : {a b : ℕ} {us vs : List ℕ} → a ∷ us ≡ b ∷ vs → a ≡ b
cons_head e = cc

cons_tail : {a b : ℕ} {us vs : List ℕ} → a ∷ us ≡ b ∷ vs → us ≡ vs
cons_tail e = cc

begins :
    (xs ys field buf : List ℕ)
    → xs ++ ys ≡ field ++ buf
    → length field ≤ length xs
    → xs ≡ field ++ drop (length field) xs
begins xs ys [] buf e h = refl
begins [] ys (x ∷ field) buf e h = absurd (omega arith)
begins (y ∷ xs) ys (x ∷ field) buf e h =
    ap₂ ◌∷◌ (cons_head e) (begins xs ys field buf (cons_tail e) (omega arith))

-- Where only a part of such a frame has come in, Decode fails with ErrShortBuffer and leaves the
-- connection as it is.
pub decode-waits :
    {S : Type 0} (src : Source S) (order : ByteOrder) (n : ℕ) (buf out missing : List ℕ) (s : S)
    → 1 ≤ n
    → n ≤ 4
    → length buf < 256 ^ n
    → length buf + n < 10485760
    → encode order n buf ≡ some out
    → src.IsGood s
    → src.bytes s ++ missing ≡ out
    → 0 < length missing
    → decode src order n s ≡ some (none, some short_buffer, s)
unfolding decode
decode-waits src order n buf out missing s one four fits small enc v e lacks =
    let (field, wrote, size, reads) = field_lem order n (length buf) one four fits in
    let frame : out ≡ field ++ buf = encode-eq order n buf field out wrote enc in
    let total : length (src.bytes s) + length missing ≡ n + length buf = omega (
      arith,
      size,
      length-append field buf,
      ap length (e ∙ frame),
      length-append (src.bytes s) missing,
    ) in
    elim (dec_lt (length (src.bytes s)) n) [
      | yes early ↦ peeked_fails src order n s n [] short_buffer _ (peek_lacking src s n v early)
      | no late ↦
          let begun : src.bytes s ≡ field ++ drop n (src.bytes s) =
            begins (src.bytes s) missing field buf (e ∙ frame) (omega (arith, size))
            ∙ ap (λ k. field ++ drop k (src.bytes s)) size in
          decode_on src order n s field (length buf)
            (peek_exact src s n field (drop n (src.bytes s)) v begun (sym size) (omega arith))
            (omega (arith, size)) reads (omega arith) small
          ∙ peeked_fails src order n s (length buf + n) [] short_buffer
              (finish src order n s (length buf))
              (peek_lacking src s (length buf + n) v (omega arith))
    ]
