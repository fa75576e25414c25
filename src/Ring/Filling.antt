-- ===== src/Ring/Filling.antt =====
-- pkg/buffer/ring/ring_buffer_unix.go: what the bytes of one system call make of the buffer.
use wsgnet.Prelude.{
  ℕ, suc, ◌+◌, ◌-◌, ◌≤◌, ◌<◌, ◌≡◌, refl, true, false, List, [], ◌∷◌, ◌++◌, length, copy, copy_at,
  arith, take_all, drop_all, append-nil, sym, ap, subst, ◌∙◌,
}
use wsgnet.Io.{Reader}
use wsgnet.Ring.Defs.{Ring, buffered, available}
use wsgnet.Ring.Transfer.{Transferred}
use wsgnet.Ring.Socket.{filled, filled_first, filled_both}
use wsgnet.Ring.Contents.{IsValid, contents, length-contents, buffered-add-available}
use wsgnet.Ring.Removal.{mod_once, contents_empty}
use wsgnet.Ring.Growth.{Grown}
use wsgnet.Ring.Writing.{put, placed, put-IsValid, put-contents}

-- A copy of nothing.
copy-nil : (xs : List ℕ) → copy xs [] ≡ xs
copy-nil [] = refl
copy-nil (x ∷ xs) = refl

-- The system call found at most n bytes of room, and its bytes are appended.
pub record Received {S : Type 0} (read : Reader S) (b : Ring) (s : S) (room : ℕ)
    (out : Transferred S) : Type 0 where
  pub valid : IsValid out.2
  pub count : out.0 ≡ length (read s room).0
  pub error : out.1 ≡ (read s room).1
  pub state : out.3 ≡ (read s room).2
  pub appended : contents out.2 ≡ contents b ++ (read s room).0

-- The chunk lies in the room behind the write index, which goes on to the read index at most.
pub filled_lem :
    {b : Ring} (chunk : List ℕ)
    → IsValid b
    → b.is_empty ≡ false
    → length chunk ≤ available b
    → (b.r ≤ b.w → b.w + length chunk ≤ b.size)
    → IsValid (filled b b.w chunk) × (contents (filled b b.w chunk) ≡ contents b ++ chunk)
unfolding filled available
filled_lem {b} [] v e h k = (v, sym (append-nil (contents b)))
filled_lem {b} (x ∷ xs) v e h k = (
  subst IsValid same (put-IsValid (x ∷ xs) v (omega arith) h),
  ap contents (sym same) ∙ put-contents (x ∷ xs) v (omega arith) h,
)
  where
    same : put b (placed b (x ∷ xs)) ≡ filled b b.w (x ∷ xs)
    same = ground (arith, mod_once (b.w + suc (length xs)) b.size)

pub filled_both_lem :
    {b : Ring} (chunk : List ℕ)
    → IsValid b
    → b.is_empty ≡ false
    → b.r < b.w
    → length chunk ≤ b.size - b.w + b.r
    → IsValid (filled_both b chunk) × (contents (filled_both b chunk) ≡ contents b ++ chunk)
unfolding filled_both available
filled_both_lem {b} [] v e h k = (v, sym (append-nil (contents b)))
filled_both_lem {b} (x ∷ xs) v e h k = (
  subst IsValid same (put-IsValid (x ∷ xs) v (omega arith) room),
  ap contents (sym same) ∙ put-contents (x ∷ xs) v (omega arith) room,
)
  where
    room : suc (length xs) ≤ available b
    room = ground arith

    same : put b (placed b (x ∷ xs)) ≡ filled_both b (x ∷ xs)
    same = ground (
      arith,
      mod_once (b.w + suc (length xs)) b.size,
      mod_once (suc (length xs) - (b.size - b.w)) b.size,
      take_all (length b.buf - b.w) (x ∷ xs),
      drop_all (length b.buf - b.w) (x ∷ xs),
      copy-nil (copy_at b.w b.buf (x ∷ xs)),
    )

pub filled_first_lem :
    {b : Ring} (chunk : List ℕ)
    → IsValid b
    → b.is_empty ≡ true
    → length chunk ≤ b.size
    → IsValid (filled_first (record b { r = 0; w = 0 }) chunk)
      × (contents (filled_first (record b { r = 0; w = 0 }) chunk) ≡ chunk)
unfolding filled_first available
filled_first_lem {b} [] v e h = (ground arith, contents_empty (record b { r = 0; w = 0 }) e)
filled_first_lem {b} (x ∷ xs) v e h = (
  subst IsValid same (put-IsValid (x ∷ xs) valid (omega arith) room),
  ap contents (sym same)
      ∙ put-contents (x ∷ xs) valid (omega arith) room
      ∙ ap (λ ys. ys ++ (x ∷ xs)) (contents_empty b0 e),
)
  where
    b0 : Ring
    b0 = record b { r = 0; w = 0 }

    valid : IsValid b0
    valid = ground arith

    room : suc (length xs) ≤ available b0
    room = ground arith

    same : put b0 (placed b0 (x ∷ xs)) ≡ filled_first b0 (x ∷ xs)
    same = ground (arith, mod_once (0 + suc (length xs)) b.size)

pub full_held : {b : Ring} → IsValid b → b.is_empty ≡ false → b.r ≡ b.w → buffered b ≡ b.size
unfolding buffered
full_held v e p = ground arith

front_held : {b : Ring} → IsValid b → b.is_empty ≡ false → b.r ≡ 0 → 0 < b.w → buffered b ≡ b.w
unfolding buffered
front_held v e p h = ground arith

-- The buffer that grow leaves takes what comes behind its bytes.
pub Grown-open :
    {b b' : Ring} (c : ℕ) (chunk : List ℕ)
    → 0 < b.size
    → buffered b ≡ b.size
    → Grown b c b'
    → length chunk ≤ b'.size - b'.w
    → IsValid (filled b' b'.w chunk) × (contents (filled b' b'.w chunk) ≡ contents b ++ chunk)
Grown-open {b} {b'} c chunk p q g h = (done.0, done.1 ∙ ap (λ xs. xs ++ chunk) g.same)
  where
    holds : b'.is_empty ≡ false
    holds = ground (arith, g.start, g.end, g.valid.empty_meets)

    done : IsValid (filled b' b'.w chunk) × (contents (filled b' b'.w chunk) ≡ contents b' ++ chunk)
    done =
        filled_lem chunk g.valid holds
          (omega (
            arith,
            h,
            buffered-add-available g.valid,
            length-contents g.valid,
            front_held g.valid holds g.start (omega (arith, g.end)),
          ))
          (λ k. omega (arith, h, g.valid.w_in, g.start))
