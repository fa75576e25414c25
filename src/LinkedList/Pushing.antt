-- ===== src/LinkedList/Pushing.antt =====
-- pkg/buffer/linkedlist: pushFront, pushBack and a new node, as changes of the shape.
use wsgnet.Prelude.{
  ℕ, suc, ◌+◌, ◌<◌, ◌≡◌, ◌≢◌, refl, Option, none, some, List, [], ◌∷◌, ◌++◌, length, arith, ap,
  subst, sym, ◌∙◌, append-nil, append_assoc, length-append,
}
use wsgnet.LinkedList.Defs.{LinkedList, update, new_node, push_front_node, push_back_node}
use wsgnet.LinkedList.Shape.{
  Chain, Avoids, Distinct, Below, last_of, joined, Linked, Avoids-Below, Below-mono, joined-update,
  update_self, Chain-update,
}

-- A node of the memory that the list does not link.
pub record Free (l : LinkedList) (ids : List ℕ) (b : ℕ) : Type 0 where
  pub made : b < l.fresh
  pub apart : Avoids b ids

-- The buffer after pushFront, whatever its head was.
abbrev pub pushed_front : LinkedList → ℕ → LinkedList
pushed_front l b = record l {
  next = update l.next b l.head;
  tail = elim l.head [ none ↦ some b | some _ ↦ l.tail ];
  head = some b;
  size = l.size + 1;
  bytes = l.bytes + length (l.buf b);
}

pub push_front-eq : (l : LinkedList) (b : ℕ) → push_front_node l b ≡ pushed_front l b
unfolding push_front_node
push_front-eq l b = ground arith

pushed_front-last :
    (l : LinkedList) (b : ℕ) (ids : List ℕ)
    → Linked l ids
    → (pushed_front l b).tail ≡ last_of (b ∷ ids)
pushed_front-last l b [] k = ground (arith, k.chain)
pushed_front-last l b (i ∷ ids) k = ground (arith, k.chain.0, k.last)

-- pushFront links a node before the others.
pub pushed_front-Linked :
    (l : LinkedList) (ids : List ℕ) (b : ℕ)
    → Linked l ids
    → Free l ids b
    → Linked (pushed_front l b) (b ∷ ids)
pushed_front-Linked l ids b k f = record {
  chain = (
    refl,
    subst (λ h. Chain (update l.next b l.head) h ids) (sym (update_self l.next b l.head))
        (Chain-update l.next b l.head l.head ids f.apart k.chain),
  );
  last = pushed_front-last l b ids k;
  size_eq = omega (arith, k.size_eq);
  bytes_eq = omega (arith, k.bytes_eq, length-append (l.buf b) (joined l.buf ids));
  distinct = (f.apart, k.distinct);
  below = (f.made, k.below);
}

-- The buffer after pushBack, whatever its tail was.
abbrev pub pushed_back : LinkedList → ℕ → LinkedList
pushed_back l b = record l {
  head = elim l.tail [ none ↦ some b | some _ ↦ l.head ];
  next = update (elim l.tail [ none ↦ l.next | some t ↦ update l.next t (some b) ]) b none;
  tail = some b;
  size = l.size + 1;
  bytes = l.bytes + length (l.buf b);
}

pub push_back-eq : (l : LinkedList) (b : ℕ) → push_back_node l b ≡ pushed_back l b
unfolding push_back_node
push_back-eq l b = ground arith

last_of-ne :
    (i : ℕ) (j : ℕ) (ids : List ℕ) (t : ℕ) → Avoids i (j ∷ ids) → last_of (j ∷ ids) ≡ some t → i ≢ t
last_of-ne i j [] t a e = λ q. a.0 (ground arith)
last_of-ne i j (j' ∷ ids) t a e = last_of-ne i j' ids t a.1 e

Avoids-snoc : (i b : ℕ) (ids : List ℕ) → Avoids i ids → i ≢ b → Avoids i (ids ++ b ∷ [])
Avoids-snoc i b [] a n = (n, tt)
Avoids-snoc i b (j ∷ ids) a n = (a.0, Avoids-snoc i b ids a.1 n)

Distinct-snoc : (b : ℕ) (ids : List ℕ) → Avoids b ids → Distinct ids → Distinct (ids ++ b ∷ [])
Distinct-snoc b [] a d = (tt, tt)
Distinct-snoc b (i ∷ ids) a d =
    (Avoids-snoc i b ids d.0 (λ q. a.0 (sym q)), Distinct-snoc b ids a.1 d.1)

Below-snoc : (n b : ℕ) (ids : List ℕ) → b < n → Below n ids → Below n (ids ++ b ∷ [])
Below-snoc n b [] h k = (h, tt)
Below-snoc n b (i ∷ ids) h k = (k.0, Below-snoc n b ids h k.1)

last_of_snoc : (b : ℕ) (ids : List ℕ) → last_of (ids ++ b ∷ []) ≡ some b
last_of_snoc b [] = refl
last_of_snoc b (i ∷ []) = refl
last_of_snoc b (i ∷ j ∷ ids) = last_of_snoc b (j ∷ ids)

pub joined-snoc :
    (buf : ℕ → List ℕ) (b : ℕ) (ids : List ℕ) → joined buf (ids ++ b ∷ []) ≡ joined buf ids ++ buf b
joined-snoc buf b [] = append-nil (buf b)
joined-snoc buf b (i ∷ ids) =
    ap (λ xs. buf i ++ xs) (joined-snoc buf b ids)
    ∙ sym (append_assoc (buf i) (joined buf ids) (buf b))

-- The chain with the node b behind the last node t.
Chain-snoc :
    (next : ℕ → Option ℕ) (b t : ℕ) (h : Option ℕ) (i : ℕ) (ids : List ℕ)
    → Avoids b (i ∷ ids)
    → Distinct (i ∷ ids)
    → last_of (i ∷ ids) ≡ some t
    → Chain next h (i ∷ ids)
    → Chain (update (update next t (some b)) b none) h (i ∷ ids ++ b ∷ [])
Chain-snoc next b t h i [] a d e c = (c.0, (ground (arith, a.0), ground (arith, a.0)))
Chain-snoc next b t h i (j ∷ ids) a d e c = (
  c.0,
  subst (λ k. Chain (update (update next t (some b)) b none) k (j ∷ ids ++ b ∷ []))
      (ground (arith, a.0, last_of-ne i j ids t d.0 e))
      (Chain-snoc next b t (next i) j ids a.1 d.1 e c.1),
)

last_of-ne-none : (i : ℕ) (ids : List ℕ) → last_of (i ∷ ids) ≢ none
last_of-ne-none i [] e = cc
last_of-ne-none i (j ∷ ids) e = last_of-ne-none j ids e

pushed_back-Chain_cons :
    (l : LinkedList) (o : Option ℕ) (i : ℕ) (ids : List ℕ) (b : ℕ)
    → o ≡ last_of (i ∷ ids)
    → Linked l (i ∷ ids)
    → Free l (i ∷ ids) b
    → Chain
        (update (elim o [ none ↦ l.next | some t ↦ update l.next t (some b) ]) b none)
        (elim o [ none ↦ some b | some _ ↦ l.head ])
        (i ∷ ids ++ b ∷ [])
pushed_back-Chain_cons l none i ids b e k f = absurd (last_of-ne-none i ids (sym e))
pushed_back-Chain_cons l (some t) i ids b e k f =
    Chain-snoc l.next b t l.head i ids f.apart k.distinct (sym e) k.chain

pushed_back-Chain :
    (l : LinkedList) (ids : List ℕ) (b : ℕ)
    → Linked l ids
    → Free l ids b
    → Chain (pushed_back l b).next (pushed_back l b).head (ids ++ b ∷ [])
pushed_back-Chain l [] b k f = ground (arith, k.last)
pushed_back-Chain l (i ∷ ids) b k f = pushed_back-Chain_cons l l.tail i ids b k.last k f

length-snoc : (b : ℕ) (ids : List ℕ) → length (ids ++ b ∷ []) ≡ length ids + 1
length-snoc b ids = omega (arith, length-append ids (b ∷ []))

-- pushBack links a node behind the others.
pub pushed_back-Linked :
    (l : LinkedList) (ids : List ℕ) (b : ℕ)
    → Linked l ids
    → Free l ids b
    → Linked (pushed_back l b) (ids ++ b ∷ [])
pushed_back-Linked l ids b k f = record {
  chain = pushed_back-Chain l ids b k f;
  last = sym (last_of_snoc b ids);
  size_eq = omega (arith, k.size_eq, length-snoc b ids);
  bytes_eq = omega (
    arith,
    k.bytes_eq,
    ap length (joined-snoc l.buf b ids),
    length-append (joined l.buf ids) (l.buf b),
  );
  distinct = Distinct-snoc b ids f.apart k.distinct;
  below = Below-snoc l.fresh b ids f.made k.below;
}

-- A node that is made is not linked, and holds its bytes.
pub new_node_lem :
    (l : LinkedList) (p : List ℕ) (ids : List ℕ)
    → Linked l ids
    → let (b, l') = new_node l p in
      Linked l' ids × Free l' ids b × (l'.buf b ≡ p) × (joined l'.buf ids ≡ joined l.buf ids)
unfolding new_node
new_node_lem l p ids k = (
  record {
    chain = Chain-update l.next l.fresh none l.head ids apart k.chain;
    last = k.last;
    size_eq = k.size_eq;
    bytes_eq = k.bytes_eq ∙ ap length (sym same);
    distinct = k.distinct;
    below = Below-mono l.fresh (suc l.fresh) ids (omega arith) k.below;
  },
  record { made = omega arith; apart = apart },
  update_self l.buf l.fresh p,
  same,
)
  where
    apart : Avoids l.fresh ids
    apart = Avoids-Below l.fresh ids k.below

    same : joined (update l.buf l.fresh p) ids ≡ joined l.buf ids
    same = joined-update l.buf l.fresh p ids apart
