-- ===== src/LinkedList/Draining.antt =====
-- What WriteTo and ReadFrom of linkedlist.Buffer move, and what a failing writer loses.
use wsgnet.Prelude.{
  ℕ, zero, suc, ◌+◌, ◌≤◌, ◌<◌, ◌≡◌, refl, none, some, List, [], ◌∷◌, ◌++◌, length, take, drop,
  arith, ap, subst, sym, ◌∙◌, append-nil, length-append, drop-append, drop_all, take-append,
  take_all, dec_lt,
}
use wsgnet.Errors.{Error, short_write}
use wsgnet.Io.{Writer, Honest, Accepts, concat, hand, hand-on, hand-short}
use wsgnet.LinkedList.Defs.{LinkedList, pop, put_back}
use wsgnet.LinkedList.Transfer.{Moved, write_loop, write_to}
use wsgnet.LinkedList.Shape.{Linked, joined, popped, pop_lem, pop_empty}
use wsgnet.LinkedList.Contents.{Holds, cut_lem, off_lem}

-- The bytes of the nodes.
abbrev pieces : (ℕ → List ℕ) → List ℕ → List (List ℕ)
pieces buf [] = []
pieces buf (i ∷ ids) = buf i ∷ pieces buf ids

concat-pieces : (buf : ℕ → List ℕ) (ids : List ℕ) → concat (pieces buf ids) ≡ joined buf ids
concat-pieces buf [] = refl
concat-pieces buf (i ∷ ids) = ap (λ xs. buf i ++ xs) (concat-pieces buf ids)

module _ {S : Type 0} (write : Writer S) where
  -- A writer that gives no error with the bytes of these calls, which it may cut short.
  NoError : Type 0
  NoError = (s : S) (p : List ℕ) → (write s p).1 ≡ none

  -- What a WriteTo has done with the bytes xs, which lie in pieces: the writer was handed the pieces in
  -- turn, it took the first m bytes, and the rest are left.
  abbrev pub Sent : List ℕ → List (List ℕ) → S → ℕ → Moved S → Type 0
  Sent xs ps s n out =
      (m : ℕ) × (out.0 ≡ n + m)
      × (m ≤ length xs)
      × Accepts write s (take m xs) out.3
      × Holds out.2 (drop m xs)
      × (hand write ps s ≡ (m, out.1, out.3))

  write_end :
      (fuel : ℕ) (l : LinkedList) (n : ℕ) (s : S)
      → Linked l []
      → write_loop write (suc fuel) l n s ≡ some (n, none, l, s)
  unfolding write_loop
  write_end fuel l n s k = ground (arith, pop_empty l k)

  -- One round, on the node i.
  write_fails :
      (fuel : ℕ) (l : LinkedList) (n i : ℕ) (s : S) (e : Error)
      → pop l ≡ (some i, popped l i)
      → (write s (l.buf i)).0 ≤ length (l.buf i)
      → (write s (l.buf i)).1 ≡ some e
      → write_loop write (suc fuel) l n s
        ≡ some (n + (write s (l.buf i)).0, some e, popped l i, (write s (l.buf i)).2)
  unfolding write_loop
  write_fails fuel l n i s e p h q = ground (arith, p, q)

  write_short :
      (fuel : ℕ) (l : LinkedList) (n i : ℕ) (s : S)
      → pop l ≡ (some i, popped l i)
      → (write s (l.buf i)).0 < length (l.buf i)
      → (write s (l.buf i)).1 ≡ none
      → write_loop write (suc fuel) l n s
        ≡ some (
          n + (write s (l.buf i)).0,
          some short_write,
          put_back (popped l i) i (write s (l.buf i)).0,
          (write s (l.buf i)).2,
        )
  unfolding write_loop
  write_short fuel l n i s p h q = ground (arith, p, q)

  write_on :
      (fuel : ℕ) (l : LinkedList) (n i : ℕ) (s : S)
      → pop l ≡ (some i, popped l i)
      → (write s (l.buf i)).0 ≡ length (l.buf i)
      → (write s (l.buf i)).1 ≡ none
      → write_loop write (suc fuel) l n s
        ≡ write_loop write fuel (popped l i) (n + (write s (l.buf i)).0) (write s (l.buf i)).2
  unfolding write_loop
  write_on fuel l n i s p h q = ground (arith, p, q)

  take-node : (m : ℕ) (xs ys : List ℕ) → m ≤ length xs → take m (xs ++ ys) ≡ take m xs
  take-node m xs ys h = ground (arith, take-append m xs ys, take_zero ys, append-nil (take m xs))
    where
      take_zero : (ys : List ℕ) → take 0 ys ≡ []
      take_zero ys = refl

  Accepts-one : (s : S) (p : List ℕ) → Accepts write s (take (write s p).0 p) (write s p).2
  Accepts-one s p =
      subst (λ xs. Accepts write s xs (write s p).2) (append-nil (take (write s p).0 p))
        (Accepts.more s p [] (write s p).2 (Accepts.done (write s p).2))

  -- The rest of the nodes, after the node i was written whole.
  Sent-on :
      (l : LinkedList) (i : ℕ) (ids : List ℕ) (s : S) (n : ℕ) (out : Moved S)
      → (write s (l.buf i)).0 ≡ length (l.buf i)
      → (write s (l.buf i)).1 ≡ none
      → Sent
          (joined l.buf ids)
          (pieces l.buf ids)
          (write s (l.buf i)).2
          (n + (write s (l.buf i)).0)
          out
      → Sent (joined l.buf (i ∷ ids)) (pieces l.buf (i ∷ ids)) s n out
  Sent-on l i ids s n out h fine (m, count, le, taken, holds, handed) = (
    c + m,
    omega (arith, count),
    omega (arith, le, length-append (l.buf i) rest),
    subst (λ xs. Accepts write s xs out.3) (sym both)
        (Accepts.more s (l.buf i) (take m rest) out.3 taken),
    subst (Holds out.2) left holds,
    hand-on write (l.buf i) (pieces l.buf ids) s fine (omega arith)
        ∙ ap (λ r. (c + r.0, r.1, r.2)) handed,
  )
    where
      c : ℕ
      c = (write s (l.buf i)).0

      rest : List ℕ
      rest = joined l.buf ids

      both : take (c + m) (l.buf i ++ rest) ≡ take c (l.buf i) ++ take m rest
      both = ground (
        arith,
        take-append (c + m) (l.buf i) rest,
        take_all (c + m) (l.buf i),
        take_all c (l.buf i),
      )

      left : drop m rest ≡ drop (c + m) (l.buf i ++ rest)
      left = ground (arith, drop-append (c + m) (l.buf i) rest, drop_all (c + m) (l.buf i))

  no_pieces : (s : S) → hand write [] s ≡ (0, none, s)
  unfolding hand
  no_pieces s = refl

  write_loop-Sent :
      (fuel : ℕ) (l : LinkedList) (n : ℕ) (s : S) (ids : List ℕ)
      → Honest write
      → NoError
      → Linked l ids
      → length ids < fuel
      → (out : Moved S) × (write_loop write fuel l n s ≡ some out)
        × Sent (joined l.buf ids) (pieces l.buf ids) s n out
  unfolding NoError
  write_loop-Sent zero l n s ids honest fine k h = absurd (omega arith)
  write_loop-Sent (suc fuel) l n s [] honest fine k h = (
    (n, none, l, s),
    write_end fuel l n s k,
    (0, omega arith, omega arith, Accepts.done s, ([], k, refl), no_pieces s),
  )
  write_loop-Sent (suc fuel) l n s (i ∷ ids) honest fine k h =
      elim (dec_lt (write s (l.buf i)).0 (length (l.buf i))) [
        | yes part ↦ (
          _,
          write_short fuel l n i s (pop_lem l i ids k).0 part (fine s (l.buf i)),
          (
            (write s (l.buf i)).0,
            refl,
            omega (arith, length-append (l.buf i) (joined l.buf ids)),
            subst (λ xs. Accepts write s xs (write s (l.buf i)).2)
                (sym (take-node (write s (l.buf i)).0 (l.buf i) (joined l.buf ids) (omega arith)))
                (Accepts-one s (l.buf i)),
            cut_lem l i (write s (l.buf i)).0 ids k (omega arith),
            hand-short write (l.buf i) (pieces l.buf ids) s (fine s (l.buf i)) part,
          ),
        )
        | no whole ↦
            let full : (write s (l.buf i)).0 ≡ length (l.buf i) =
              omega (arith, honest s (l.buf i)) in
            let (out, eq, sent) =
              write_loop-Sent fuel (popped l i) (n + (write s (l.buf i)).0) (write s (l.buf i)).2
                ids honest fine (pop_lem l i ids k).1 (omega arith) in
            (
              out,
              write_on fuel l n i s (pop_lem l i ids k).0 full (fine s (l.buf i)) ∙ eq,
              Sent-on l i ids s n out full (fine s (l.buf i)) sent,
            )
      ]

-- With a writer that gives no error, WriteTo hands it the bytes that are held, piece by piece from the
-- oldest on, until all are written or one piece is cut short, and returns the count of that and its
-- error, which is io.ErrShortWrite; it drops exactly the bytes that the writer took, and it does not
-- panic. The writer takes at most what it is given.
pub write_to-Sent :
    {S : Type 0} (write : Writer S) {l : LinkedList} {xs : List ℕ} (s : S)
    → Honest write
    → ((t : S) (p : List ℕ) → (write t p).1 ≡ none)
    → Holds l xs
    → (out : Moved S) × (write_to write l s ≡ some out)
      × (ps : List (List ℕ)) × (concat ps ≡ xs)
      × Sent write xs ps s 0 out
unfolding write_to NoError
write_to-Sent {S} write {l} {xs} s honest fine (ids, k, e) =
    let (out, eq, sent) =
      write_loop-Sent write (suc l.size) l 0 s ids honest fine k (omega (arith, k.size_eq)) in
    (
      out,
      eq,
      pieces l.buf ids,
      concat-pieces l.buf ids ∙ e,
      subst (λ ys. Sent write ys (pieces l.buf ids) s 0 out) e sent,
    )

-- With a writer that fails on the first node, the bytes of that node which it did not take are lost:
-- the node is off the list and is not put back.
pub write_to_drops :
    {S : Type 0} (write : Writer S) (l : LinkedList) (i : ℕ) (ids : List ℕ) (s : S) (e : Error)
    → Honest write
    → Linked l (i ∷ ids)
    → (write s (l.buf i)).1 ≡ some e
    → (l' : LinkedList) × (write_to write l s
        ≡ some ((write s (l.buf i)).0, some e, l', (write s (l.buf i)).2))
      × Holds l' (drop (length (l.buf i)) (joined l.buf (i ∷ ids)))
unfolding write_to
write_to_drops write l i ids s e honest k q = (
  popped l i,
  write_fails write l.size l 0 i s e (pop_lem l i ids k).0 (honest s (l.buf i)) q
      ∙ ap (λ n. some (n, some e, popped l i, (write s (l.buf i)).2)) (omega arith),
  (ids, (pop_lem l i ids k).1, sym (off_lem l i (length (l.buf i)) ids k refl)),
)
