-- ===== src/LinkedList/Contents.antt =====
-- The bytes that a linkedlist.Buffer holds, and what PushFront, PushBack and the counters make of
-- them.
use wsgnet.Prelude.{
  ℕ, ◌≤◌, ◌≡◌, refl, true, List, [], ◌∷◌, ◌++◌, length, drop, arith, ap, ap₂, subst, sym, ◌∙◌,
  append-nil, drop-append, drop_all,
}
use wsgnet.LinkedList.Defs.{
  LinkedList, update, new_node, push_front_node, push_back_node, push_front, push_back, put_back,
  buffered, is_empty, empty,
}
use wsgnet.LinkedList.Shape.{Linked, Avoids, update_self, joined, popped, pop_lem, joined-update}
use wsgnet.LinkedList.Pushing.{
  push_front-eq, push_back-eq, pushed_front-Linked, pushed_back-Linked, new_node_lem, joined-snoc,
}

-- The nodes hold these bytes, one behind the other.
abbrev pub Holds : LinkedList → List ℕ → Type 0
Holds l xs = (ids : List ℕ) × Linked l ids × (joined l.buf ids ≡ xs)

-- The count of bytes is the number of bytes held.
pub buffered-Holds : {l : LinkedList} {xs : List ℕ} → Holds l xs → buffered l ≡ length xs
unfolding buffered
buffered-Holds (ids, k, e) = k.bytes_eq ∙ ap length e

pub empty-Holds : Holds empty []
unfolding empty
empty-Holds = (
  [],
  record { chain = refl; last = refl; size_eq = refl; bytes_eq = refl; distinct = tt; below = tt },
  refl,
)

is_empty-nodes : (l : LinkedList) (ids : List ℕ) → Linked l ids → is_empty l ≡ true → ids ≡ []
unfolding is_empty
is_empty-nodes l [] k e = refl
is_empty-nodes l (i ∷ ids) k e = ground (arith, k.chain.0)

-- A buffer that says it is empty holds no bytes.
pub is_empty-Holds : {l : LinkedList} {xs : List ℕ} → Holds l xs → is_empty l ≡ true → xs ≡ []
is_empty-Holds {l} (ids, k, e) h = sym e ∙ ap (joined l.buf) (is_empty-nodes l ids k h)

-- A new node, linked behind the others.
abbrev pub with_back : LinkedList → List ℕ → LinkedList
with_back l p = let (b, l') = new_node l p in push_back_node l' b

pub with_back_lem :
    {l : LinkedList} {xs : List ℕ} (p : List ℕ) → Holds l xs → Holds (with_back l p) (xs ++ p)
with_back_lem {l} {xs} p (ids, k, e) =
    let (b, l') = new_node l p in
    let (k', f, buf_eq, same) = new_node_lem l p ids k in
    (
      ids ++ b ∷ [],
      subst (λ m. Linked m (ids ++ b ∷ [])) (sym (push_back-eq l' b))
          (pushed_back-Linked l' ids b k' f),
      ap (λ m. joined m.buf (ids ++ b ∷ [])) (push_back-eq l' b)
          ∙ joined-snoc l'.buf b ids
          ∙ ap₂ ◌++◌ (same ∙ e) buf_eq,
    )

-- A new node, linked before the others.
with_front : LinkedList → List ℕ → LinkedList
with_front l p = let (b, l') = new_node l p in push_front_node l' b

with_front_lem :
    {l : LinkedList} {xs : List ℕ} (p : List ℕ) → Holds l xs → Holds (with_front l p) (p ++ xs)
unfolding with_front
with_front_lem {l} {xs} p (ids, k, e) =
    let (b, l') = new_node l p in
    let (k', f, buf_eq, same) = new_node_lem l p ids k in
    (
      b ∷ ids,
      subst (λ m. Linked m (b ∷ ids)) (sym (push_front-eq l' b))
          (pushed_front-Linked l' ids b k' f),
      ap (λ m. joined m.buf (b ∷ ids)) (push_front-eq l' b) ∙ ap₂ ◌++◌ buf_eq (same ∙ e),
    )

push_back-cons : (l : LinkedList) (x : ℕ) (p : List ℕ) → push_back l (x ∷ p) ≡ with_back l (x ∷ p)
unfolding push_back
push_back-cons l x p = ground arith

push_front-cons :
    (l : LinkedList) (x : ℕ) (p : List ℕ) → push_front l (x ∷ p) ≡ with_front l (x ∷ p)
unfolding push_front with_front
push_front-cons l x p = ground arith

-- PushBack puts its bytes behind those that are held.
pub push_back-Holds :
    {l : LinkedList} {xs : List ℕ} (p : List ℕ) → Holds l xs → Holds (push_back l p) (xs ++ p)
unfolding push_back
push_back-Holds {l} {xs} [] (ids, k, e) = (ids, k, e ∙ sym (append-nil xs))
push_back-Holds {l} {xs} (x ∷ p) h =
    subst (λ m. Holds m (xs ++ x ∷ p)) (sym (push_back-cons l x p)) (with_back_lem (x ∷ p) h)

-- PushFront puts its bytes before those that are held.
pub push_front-Holds :
    {l : LinkedList} {xs : List ℕ} (p : List ℕ) → Holds l xs → Holds (push_front l p) (p ++ xs)
unfolding push_front
push_front-Holds {l} {xs} [] h = h
push_front-Holds {l} {xs} (x ∷ p) h =
    subst (λ m. Holds m ((x ∷ p) ++ xs)) (sym (push_front-cons l x p)) (with_front_lem (x ∷ p) h)

pub drop_zero : (xs : List ℕ) → drop 0 xs ≡ xs
drop_zero xs = refl

-- The first node, cut by m bytes and put back, or taken off whole.
pub cut_lem :
    (l : LinkedList) (i m : ℕ) (ids : List ℕ)
    → Linked l (i ∷ ids)
    → m ≤ length (l.buf i)
    → Holds (put_back (popped l i) i m) (drop m (joined l.buf (i ∷ ids)))
unfolding put_back
cut_lem l i m ids k h = (
  i ∷ ids,
  subst (λ n. Linked n (i ∷ ids)) (sym (push_front-eq cut i))
      (pushed_front-Linked cut ids i cut-Linked (record { made = k.below.0; apart = apart })),
  ap (λ n. joined n.buf (i ∷ ids)) (push_front-eq cut i)
      ∙ ap₂ ◌++◌ (update_self l.buf i (drop m (l.buf i))) same
      ∙ front,
)
  where
    cut : LinkedList
    cut = record (popped l i) { buf = update l.buf i (drop m (l.buf i)) }

    apart : Avoids i ids
    apart = k.distinct.0

    same : joined cut.buf ids ≡ joined l.buf ids
    same = joined-update l.buf i (drop m (l.buf i)) ids apart

    rest : Linked (popped l i) ids
    rest = (pop_lem l i ids k).1

    cut-Linked : Linked cut ids
    cut-Linked = record {
      chain = rest.chain;
      last = rest.last;
      size_eq = rest.size_eq;
      bytes_eq = rest.bytes_eq ∙ ap length (sym same);
      distinct = rest.distinct;
      below = rest.below;
    }

    front : drop m (l.buf i) ++ joined l.buf ids ≡ drop m (l.buf i ++ joined l.buf ids)
    front = ground (arith, drop-append m (l.buf i) (joined l.buf ids), drop_zero (joined l.buf ids))

-- The first node, taken off whole.
pub off_lem :
    (l : LinkedList) (i m : ℕ) (ids : List ℕ)
    → Linked l (i ∷ ids)
    → m ≡ length (l.buf i)
    → drop m (joined l.buf (i ∷ ids)) ≡ joined (popped l i).buf ids
off_lem l i m ids k h = ground (
  arith,
  drop-append m (l.buf i) (joined l.buf ids),
  drop_all m (l.buf i),
  drop_zero (joined l.buf ids),
)
