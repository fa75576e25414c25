-- ===== src/Elastic/Storing.antt =====
-- elastic.Buffer as one queue of bytes: those of the ring buffer, then those of the list.
use wsgnet.Prelude.{
  ℕ, zero, suc, ◌+◌, ◌≤◌, ◌^◌, ◌≡◌, inl, inr, refl, Bool, true, false, ◌&&◌, some, List, [], ◌∷◌,
  ◌++◌, ltb, leb, length, take, drop, arith, ap, subst, sym, ◌∙◌, append-nil, append_assoc,
  length-append, length-take, Bool-cases, slice_to, slice_from,
}
use wsgnet.Ring.Defs.{Ring}
use wsgnet.LinkedList.Defs as linked
use wsgnet.LinkedList.Contents.{Holds, push_back-Holds, buffered-Holds, is_empty-Holds}
use wsgnet.Elastic.RingBuffer.{RingBuffer, ReadResult}
use wsgnet.Elastic.RingBuffer as ring
use wsgnet.Elastic.Buffer.{Buffer, listing, buffered, write_ring, write_both, write}
use wsgnet.Elastic.Held.{IsSound, IsPooled, held, length-held, size_of, write-held}

-- The buffer holds these bytes, in this order.
abbrev pub Stores : Buffer → List ℕ → Type 0
Stores mb xs =
    IsSound mb.ring_buffer
    × (ys : List ℕ) × Holds mb.list_buffer ys
    × (held mb.ring_buffer ++ ys ≡ xs)

-- Buffered counts the bytes that are held.
pub buffered-Stores : (mb : Buffer) {xs : List ℕ} → Stores mb xs → buffered mb ≡ length xs
unfolding buffered
buffered-Stores mb (v, ys, h, e) = omega (
  arith,
  length-held mb.ring_buffer v,
  buffered-Holds h,
  length-append (held mb.ring_buffer) ys,
  ap length e,
)

-- Bytes that go to the list come last.
pub list_push :
    (mb : Buffer) {xs : List ℕ} (p : List ℕ)
    → Stores mb xs
    → Stores (record mb { list_buffer = linked.push_back mb.list_buffer p }) (xs ++ p)
list_push mb {xs} p (v, ys, h, e) = (
  v,
  ys ++ p,
  push_back-Holds p h,
  sym (append_assoc (held mb.ring_buffer) ys p) ∙ ap (λ zs. zs ++ p) e,
)

write_ring-eq :
    (mem : ℕ → ℕ → ℕ) (pooled : Ring) (mb : Buffer) (p : List ℕ) (rb : RingBuffer)
    → ring.write mem pooled mb.ring_buffer p ≡ some (length p, rb)
    → write_ring mem pooled mb p ≡ some (length p, record mb { ring_buffer = rb })
unfolding write_ring
write_ring-eq mem pooled mb p rb e = ground (arith, e)

-- The list is not in use.
abbrev IsShort : Buffer → List ℕ → Type 0
IsShort mb xs = IsSound mb.ring_buffer × Holds mb.list_buffer [] × (held mb.ring_buffer ≡ xs)

-- Bytes that go to the ring buffer come last where the list is not in use.
write_ring_lem :
    (mem : ℕ → ℕ → ℕ) (pooled : Ring) (mb : Buffer) {xs : List ℕ} (p : List ℕ)
    → IsPooled pooled
    → IsShort mb xs
    → size_of pooled mb.ring_buffer + length p ≤ 2 ^ 62
    → (rb : RingBuffer) × (write_ring mem pooled mb p
        ≡ some (length p, record mb { ring_buffer = rb }))
      × IsShort (record mb { ring_buffer = rb }) (xs ++ p)
write_ring_lem mem pooled mb p pool (v, h, e) k =
    let (rb, eq, v', e') = write-held mem pooled mb.ring_buffer p pool v k in
    (rb, write_ring-eq mem pooled mb p rb eq, (v', h, e' ∙ ap (λ zs. zs ++ p) e))

IsShort-Stores : (mb : Buffer) {xs : List ℕ} → IsShort mb xs → Stores mb xs
IsShort-Stores mb (v, h, e) = (v, [], h, append-nil (held mb.ring_buffer) ∙ e)

not_listing : (mb : Buffer) {xs : List ℕ} → Stores mb xs → listing mb ≡ false → IsShort mb xs
unfolding listing
not_listing mb {xs} (v, ys, h, e) off = (
  v,
  subst (Holds mb.list_buffer) none_listed h,
  sym (append-nil (held mb.ring_buffer))
      ∙ ap (λ zs. held mb.ring_buffer ++ zs) (sym none_listed)
      ∙ e,
)
  where
    none_listed : ys ≡ []
    none_listed = is_empty-Holds h (ground arith)

write-listing :
    (mem : ℕ → ℕ → ℕ) (pooled : Ring) (mb : Buffer) (p : List ℕ)
    → listing mb ≡ true
    → write mem pooled mb p
      ≡ some (length p, record mb { list_buffer = linked.push_back mb.list_buffer p })
unfolding write
write-listing mem pooled mb p e = ground (arith, e)

-- The ring buffer has its full size, and the bytes do not fit.
overflows : Buffer → List ℕ → Bool
overflows mb p =
    leb mb.max_static_bytes (ring.memory_len mb.ring_buffer)
    && ltb (ring.available mb.ring_buffer) (length p)

write_whole :
    (mem : ℕ → ℕ → ℕ) (pooled : Ring) (mb : Buffer) (p : List ℕ)
    → listing mb ≡ false
    → overflows mb p ≡ false
    → write mem pooled mb p ≡ write_ring mem pooled mb p
unfolding write overflows
write_whole mem pooled mb p e f = ground (arith, e, f)

write_split :
    (mem : ℕ → ℕ → ℕ) (pooled : Ring) (mb : Buffer) (p : List ℕ) (mb' : Buffer)
    → listing mb ≡ false
    → overflows mb p ≡ true
    → write_both mem pooled mb (ring.available mb.ring_buffer) p ≡ some mb'
    → write mem pooled mb p ≡ some (length p, mb')
unfolding write overflows
write_split mem pooled mb p mb' e f g = ground (arith, e, f, g)

write_both-eq :
    (mem : ℕ → ℕ → ℕ) (pooled : Ring) (mb mb' : Buffer) (n k : ℕ) (p : List ℕ)
    → n ≤ length p
    → write_ring mem pooled mb (take n p) ≡ some (k, mb')
    → write_both mem pooled mb n p
      ≡ some (record mb' { list_buffer = linked.push_back mb'.list_buffer (drop n p) })
unfolding write_both
write_both-eq mem pooled mb mb' n k p h e = ground (arith, slice_to p n, slice_from p n, e)

pub take-drop-append : (n : ℕ) (p : List ℕ) → take n p ++ drop n p ≡ p
take-drop-append zero p = refl
take-drop-append (suc n) [] = refl
take-drop-append (suc n) (x ∷ p) = ap (◌∷◌ x) (take-drop-append n p)

write_both_lem :
    (mem : ℕ → ℕ → ℕ) (pooled : Ring) (mb : Buffer) {xs : List ℕ} (n : ℕ) (p : List ℕ)
    → IsPooled pooled
    → IsShort mb xs
    → n ≤ length p
    → size_of pooled mb.ring_buffer + length p ≤ 2 ^ 62
    → (mb' : Buffer) × (write_both mem pooled mb n p ≡ some mb') × Stores mb' (xs ++ p)
write_both_lem mem pooled mb {xs} n p pool short h k =
    let (rb, eq, short') =
      write_ring_lem mem pooled mb (take n p) pool short (omega (arith, length-take n p)) in
    let mb' : Buffer = record mb { ring_buffer = rb } in
    (
      record mb' { list_buffer = linked.push_back mb'.list_buffer (drop n p) },
      write_both-eq mem pooled mb mb' n (length (take n p)) p h eq,
      subst (Stores (record mb' { list_buffer = linked.push_back mb'.list_buffer (drop n p) }))
          (append_assoc xs (take n p) (drop n p) ∙ ap (λ zs. xs ++ zs) (take-drop-append n p))
          (list_push mb' (drop n p) (IsShort-Stores mb' short')),
    )

overflows-fits :
    (mb : Buffer) (p : List ℕ) → overflows mb p ≡ true → ring.available mb.ring_buffer ≤ length p
unfolding overflows
overflows-fits mb p e = ground (arith, e)

-- Write appends p behind all that is held, in the ring buffer, in the list or across both, and
-- returns its length; it does not panic while the sizes stay up to 2 ^ 62. The buffer from the pool
-- is well-formed and empty.
pub write-Stores :
    (mem : ℕ → ℕ → ℕ) (pooled : Ring) (mb : Buffer) {xs : List ℕ} (p : List ℕ)
    → IsPooled pooled
    → Stores mb xs
    → size_of pooled mb.ring_buffer + length p ≤ 2 ^ 62
    → (mb' : Buffer) × (write mem pooled mb p ≡ some (length p, mb')) × Stores mb' (xs ++ p)
write-Stores mem pooled mb {xs} p pool st k = elim (Bool-cases (listing mb)) [
  | inl on ↦ (_, write-listing mem pooled mb p on, list_push mb p st)
  | inr off ↦ elim (Bool-cases (overflows mb p)) [
    | inl over ↦
        let (mb', eq, st') =
          write_both_lem mem pooled mb (ring.available mb.ring_buffer) p pool
            (not_listing mb st off) (overflows-fits mb p over) k in
        (mb', write_split mem pooled mb p mb' off over eq, st')
    | inr fits ↦
        let (rb, eq, short) = write_ring_lem mem pooled mb p pool (not_listing mb st off) k in
        (
          record mb { ring_buffer = rb },
          write_whole mem pooled mb p off fits ∙ eq,
          IsShort-Stores (record mb { ring_buffer = rb }) short,
        )
  ]
]
