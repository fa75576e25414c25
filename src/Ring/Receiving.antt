-- ===== src/Ring/Receiving.antt =====
-- What CopyFromSocket appends.
use wsgnet.Prelude.{
  ℕ, ◌+◌, ◌-◌, ◌/◌, ◌^◌, ◌≤◌, ◌<◌, ◌≡◌, ◌≢◌, refl, true, false, some, List, ◌++◌, length, take,
  drop, arith, slice_from, slice_to, slice-eq-some, length-take, length-drop, sym, ap, ◌∙◌, dec_lt,
  Bool-cases, ◌⊎◌, inl, inr,
}
use wsgnet.Io.{Reader, Fits}
use wsgnet.Ring.Defs.{Ring, buffered, available}
use wsgnet.Ring.Growing.{grow}
use wsgnet.Ring.Transfer.{Transferred}
use wsgnet.Ring.Socket.{filled, filled_first, filled_both, receive, copy_from_socket}
use wsgnet.Ring.Contents.{IsValid, contents}
use wsgnet.Ring.Removal.{contents_empty}
use wsgnet.Ring.Growth.{Grown, grow_lem}
use wsgnet.Ring.Filling.{
  Received, filled_lem, filled_both_lem, filled_first_lem, full_held, Grown-open,
}

module _ {S : Type 0} (mem : ℕ → ℕ → ℕ) (read : Reader S) where
  receive_lem :
      {b : Ring} (room : ℕ) (fill : List ℕ → Ring) (s : S)
      → IsValid (fill (read s room).0)
        × (contents (fill (read s room).0) ≡ contents b ++ (read s room).0)
      → Received read b s room (receive mem read room fill s)
  unfolding receive
  receive_lem {b} room fill s h = record {
    valid = h.0;
    count = refl;
    error = refl;
    state = refl;
    appended = h.1;
  }

  from_empty :
      (b : Ring) (s : S)
      → b.r ≡ b.w
      → b.is_empty ≡ true
      → copy_from_socket mem read b s
        ≡ some (receive mem read (length b.buf) (filled_first (record b { r = 0; w = 0 })) s)
  unfolding copy_from_socket
  from_empty b s p e = ground arith

  from_full :
      (b b' : Ring) (s : S)
      → b.r ≡ b.w
      → b.is_empty ≡ false
      → grow mem b (b.size + b.size / 2) ≡ some b'
      → b'.w ≤ length b'.buf
      → copy_from_socket mem read b s
        ≡ some (receive mem read (length (drop b'.w b'.buf)) (filled b' b'.w) s)
  unfolding copy_from_socket
  from_full b b' s p e g h = ground (arith, g, slice_from b'.buf b'.w h)

  from_gap :
      (b : Ring) (s : S)
      → b.w < b.r
      → b.r ≤ length b.buf
      → copy_from_socket mem read b s
        ≡ some (receive mem read (length (take (b.r - b.w) (drop b.w b.buf))) (filled b b.w) s)
  unfolding copy_from_socket
  from_gap b s p h = ground (arith, slice-eq-some b.buf b.w b.r)

  from_ends :
      (b : Ring) (s : S)
      → b.r < b.w
      → b.w ≤ length b.buf
      → copy_from_socket mem read b s
        ≡ some
            (receive mem read (length (drop b.w b.buf) + length (take b.r b.buf)) (filled_both b) s)
  unfolding copy_from_socket
  from_ends b s p h = ground (arith, slice_from b.buf b.w, slice_to b.buf b.r)

  -- What is promised of one call.
  Promised : Ring → S → Type 0
  Promised b s =
      (room : ℕ) × (out : Transferred S) × (copy_from_socket mem read b s ≡ some out)
      × ((b.size ≡ 0) ⊎ (0 < room))
      × Received read b s room out

  empty_Promised : {b : Ring} (s : S) → Fits read → IsValid b → b.is_empty ≡ true → Promised b s
  unfolding Promised
  empty_Promised {b} s fits v e = (
    length b.buf,
    _,
    from_empty b s (v.empty_meets e) e,
    ground (arith, v.held),
    receive_lem (length b.buf) (filled_first (record b { r = 0; w = 0 })) s
        (filled.0, filled.1 ∙ ap (λ xs. xs ++ chunk) (sym (contents_empty b e))),
  )
    where
      chunk : List ℕ
      chunk = (read s (length b.buf)).0

      filled :
          IsValid (filled_first (record b { r = 0; w = 0 }) chunk)
          × (contents (filled_first (record b { r = 0; w = 0 }) chunk) ≡ chunk)
      filled = filled_first_lem chunk v e (omega (arith, fits s (length b.buf), v.held))

  Grown-Promised :
      {b : Ring} (s : S) (b' : Ring)
      → Fits read
      → b.size < b.size + b.size / 2
      → buffered b ≡ b.size
      → b.is_empty ≡ false
      → b.r ≡ b.w
      → grow mem b (b.size + b.size / 2) ≡ some b'
      → Grown b (b.size + b.size / 2) b'
      → Promised b s
  unfolding Promised
  Grown-Promised {b} s b' fits h q e p eq g = (
    room,
    _,
    from_full b b' s p e eq (omega (arith, g.valid.held, g.valid.w_in)),
    inr (omega (arith, size_eq, g.end, g.larger, g.valid.w_in)),
    receive_lem room (filled b' b'.w) s (
        Grown-open (b.size + b.size / 2) (read s room).0 (omega arith) q g
          (omega (arith, fits s room, size_eq))),
  )
    where
      room : ℕ
      room = length (drop b'.w b'.buf)

      size_eq : room ≡ b'.size - b'.w
      size_eq = omega (arith, length-drop b'.w b'.buf, g.valid.held)

  full_Promised :
      {b : Ring} (s : S)
      → Fits read
      → IsValid b
      → b.size ≤ 2 ^ 61
      → b.size ≢ 1
      → b.is_empty ≡ false
      → b.r ≡ b.w
      → Promised b s
  full_Promised {b} s fits v h two e p =
      let (b', eq, g) =
        grow_lem mem (b.size + b.size / 2) v (omega arith)
          (omega (arith, full_held v e p, v.room e)) (omega arith) in
      Grown-Promised s b' fits (omega (arith, v.room e)) (full_held v e p) e p eq g

  gap_Promised :
      {b : Ring} (s : S) → Fits read → IsValid b → b.is_empty ≡ false → b.w < b.r → Promised b s
  unfolding Promised available
  gap_Promised {b} s fits v e p = (
    room,
    _,
    from_gap b s p (omega (arith, v.held, v.r_in)),
    inr (omega (arith, size_eq)),
    receive_lem room (filled b b.w) s (
        filled_lem (read s room).0 v e (ground (arith, size_eq, fits s room))
          (λ q. absurd (omega arith))),
  )
    where
      room : ℕ
      room = length (take (b.r - b.w) (drop b.w b.buf))

      size_eq : room ≡ b.r - b.w
      size_eq =
          omega
            (arith, length-take (b.r - b.w) (drop b.w b.buf), length-drop b.w b.buf, v.held, v.r_in)

  ends_Promised :
      {b : Ring} (s : S) → Fits read → IsValid b → b.is_empty ≡ false → b.r < b.w → Promised b s
  unfolding Promised
  ends_Promised {b} s fits v e p = (
    room,
    _,
    from_ends b s p (omega (arith, v.held, v.w_in)),
    inr (omega (arith, size_eq, v.w_in)),
    receive_lem room (filled_both b) s
        (filled_both_lem (read s room).0 v e p (omega (arith, size_eq, fits s room))),
  )
    where
      room : ℕ
      room = length (drop b.w b.buf) + length (take b.r b.buf)

      size_eq : room ≡ b.size - b.w + b.r
      size_eq = omega (arith, length-take b.r b.buf, length-drop b.w b.buf, v.held, v.r_in)

  -- CopyFromSocket makes one system call, which finds room for a byte at least unless the buffer has
  -- no memory yet, appends what it gave, and passes its error on. It does not panic while the size
  -- stays up to 2 ^ 61; the buffer has not the size 1.
  pub copy_from_socket_lem :
      {b : Ring} (s : S)
      → Fits read
      → IsValid b
      → b.size ≤ 2 ^ 61
      → b.size ≢ 1
      → (room : ℕ) × (out : Transferred S) × (copy_from_socket mem read b s ≡ some out)
        × ((b.size ≡ 0) ⊎ (0 < room))
        × Received read b s room out
  unfolding Promised
  copy_from_socket_lem {b} s fits v h two = elim (Bool-cases b.is_empty) [
    | inl e ↦ empty_Promised s fits v e
    | inr e ↦ elim (dec_lt b.w b.r) [
      | yes gap ↦ gap_Promised s fits v e gap
      | no not_gap ↦ elim (dec_lt b.r b.w) [
        | yes ends ↦ ends_Promised s fits v e ends
        | no not_ends ↦ full_Promised s fits v h two e (omega arith)
      ]
    ]
  ]
