-- ===== src/LinkedList/Shape.antt =====
-- The shape of a linkedlist.Buffer: which nodes it links, in which order, and what pop, pushFront
-- and pushBack make of it.
use wsgnet.Prelude.{
  ℕ, ◌-◌, ◌≤◌, ◌<◌, ◌≡◌, ◌≢◌, refl, Option, none, some, List, [], ◌∷◌, ◌++◌, length, arith, subst,
  sym, length-append,
}
use wsgnet.LinkedList.Defs.{LinkedList, update, pop}

-- The nodes from h on are those of the list, one after the other, and then there is none.
abbrev pub Chain : (ℕ → Option ℕ) → Option ℕ → List ℕ → Type 0
Chain next h [] = h ≡ none
Chain next h (i ∷ ids) = (h ≡ some i) × Chain next (next i) ids

abbrev pub Avoids : ℕ → List ℕ → Type 0
Avoids i [] = Unit {0}
Avoids i (j ∷ ids) = (i ≢ j) × Avoids i ids

abbrev pub Distinct : List ℕ → Type 0
Distinct [] = Unit {0}
Distinct (i ∷ ids) = Avoids i ids × Distinct ids

-- Every node of the list is below the next one to be made.
abbrev pub Below : ℕ → List ℕ → Type 0
Below n [] = Unit {0}
Below n (i ∷ ids) = (i < n) × Below n ids

abbrev pub last_of : List ℕ → Option ℕ
last_of [] = none
last_of (i ∷ []) = some i
last_of (i ∷ j ∷ ids) = last_of (j ∷ ids)

-- The bytes of the nodes, one behind the other.
abbrev pub joined : (ℕ → List ℕ) → List ℕ → List ℕ
joined buf [] = []
joined buf (i ∷ ids) = buf i ++ joined buf ids

pub record Linked (l : LinkedList) (ids : List ℕ) : Type 0 where
  pub chain : Chain l.next l.head ids
  pub last : l.tail ≡ last_of ids
  pub size_eq : l.size ≡ length ids
  pub bytes_eq : l.bytes ≡ length (joined l.buf ids)
  pub distinct : Distinct ids
  pub below : Below l.fresh ids

pub Avoids-Below : (n : ℕ) (ids : List ℕ) → Below n ids → Avoids n ids
Avoids-Below n [] b = tt
Avoids-Below n (i ∷ ids) b = ((λ e. absurd (omega (arith, b.0, e))), Avoids-Below n ids b.1)

pub Below-mono : (m n : ℕ) (ids : List ℕ) → m ≤ n → Below m ids → Below n ids
Below-mono m n [] h b = tt
Below-mono m n (i ∷ ids) h b = (omega (arith, b.0), Below-mono m n ids h b.1)

pub joined-update :
    (buf : ℕ → List ℕ) (i : ℕ) (p : List ℕ) (ids : List ℕ)
    → Avoids i ids
    → joined (update buf i p) ids ≡ joined buf ids
joined-update buf i p [] a = refl
joined-update buf i p (j ∷ ids) a = ground (arith, joined-update buf i p ids a.1, a.0)

update-ne : {A : Type 0} (f : ℕ → A) (i : ℕ) (a : A) (j : ℕ) → i ≢ j → update f i a j ≡ f j
update-ne f i a j h = ground arith

pub update_self : {A : Type 0} (f : ℕ → A) (i : ℕ) (a : A) → update f i a i ≡ a
update_self f i a = ground arith

pub Chain-update :
    (next : ℕ → Option ℕ) (i : ℕ) (o : Option ℕ) (h : Option ℕ) (ids : List ℕ)
    → Avoids i ids
    → Chain next h ids
    → Chain (update next i o) h ids
Chain-update next i o h [] a c = c
Chain-update next i o h (j ∷ ids) a c = (
  c.0,
  subst (λ k. Chain (update next i o) k ids) (sym (update-ne next i o j a.0))
      (Chain-update next i o (next j) ids a.1 c.1),
)

-- The buffer after pop has taken the node i off.
abbrev pub popped : LinkedList → ℕ → LinkedList
popped l i = record l {
  head = l.next i;
  tail = elim (l.next i) [ none ↦ none | some _ ↦ l.tail ];
  next = update l.next i none;
  size = l.size - 1;
  bytes = l.bytes - length (l.buf i);
}

pop-eq : (l : LinkedList) (i : ℕ) → l.head ≡ some i → pop l ≡ (some i, popped l i)
unfolding pop
pop-eq l i h = ground arith

popped-last :
    (l : LinkedList) (i : ℕ) (ids : List ℕ)
    → Chain l.next (l.next i) ids
    → l.tail ≡ last_of (i ∷ ids)
    → (popped l i).tail ≡ last_of ids
popped-last l i [] c t = ground arith
popped-last l i (j ∷ ids) c t = ground arith

popped-Linked :
    (l : LinkedList) (i : ℕ) (ids : List ℕ) → Linked l (i ∷ ids) → Linked (popped l i) ids
popped-Linked l i ids k = record {
  chain = Chain-update l.next i none (l.next i) ids k.distinct.0 k.chain.1;
  last = popped-last l i ids k.chain.1 k.last;
  size_eq = omega (arith, k.size_eq);
  bytes_eq = omega (arith, k.bytes_eq, length-append (l.buf i) (joined l.buf ids));
  distinct = k.distinct.1;
  below = k.below.1;
}

-- pop takes the first node off, and leaves the bytes of every node as they are.
pub pop_lem :
    (l : LinkedList) (i : ℕ) (ids : List ℕ)
    → Linked l (i ∷ ids)
    → (pop l ≡ (some i, popped l i)) × Linked (popped l i) ids
pop_lem l i ids k = (pop-eq l i k.chain.0, popped-Linked l i ids k)

-- pop finds no node in an empty list, and changes nothing.
pub pop_empty : (l : LinkedList) → Linked l [] → pop l ≡ (none, l)
unfolding pop
pop_empty l k = ground (arith, k.chain)
