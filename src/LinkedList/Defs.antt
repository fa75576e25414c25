-- ===== src/LinkedList/Defs.antt =====
-- pkg/buffer/linkedlist/linked_list_buffer.go: the state of linkedlist.Buffer with the nodes that it
-- points to, and the operations on the list. A node is a number; `next` and `buf` are the fields of
-- the nodes in memory. A loop over the list runs on fuel.
use wsgnet.Prelude.{
  ℕ, zero, suc, ◌+◌, ◌-◌, ◌==◌, Bool, true, false, Option, none, some, List, [], ◌∷◌, ltb, leb,
  if◌then◌else◌, length, drop, copy_at, min, ℤ, pos_part, non_positive,
}

-- The field `bs`, the scratch slice that Peek returns, is not part of the state: it is written
-- before it is read.
pub record LinkedList : Type 0 where
  pub next : ℕ → Option ℕ
  pub buf : ℕ → List ℕ
  pub fresh : ℕ
  pub head : Option ℕ
  pub tail : Option ℕ
  pub size : ℕ
  pub bytes : ℕ

unfoldable pub empty : LinkedList
empty = record {
  next = λ _. none;
  buf = λ _. [];
  fresh = 0;
  head = none;
  tail = none;
  size = 0;
  bytes = 0;
}

-- A write to the field of one node.
abbrev pub update : {A : Type 0} → (ℕ → A) → ℕ → A → ℕ → A
update f i a j = if i == j then a else f j

-- `&node{buf: p}`
unfoldable pub new_node : LinkedList → List ℕ → ℕ × LinkedList
new_node l p = (
  l.fresh,
  record l { next = update l.next l.fresh none; buf = update l.buf l.fresh p; fresh = suc l.fresh },
)

unfoldable pub pop : LinkedList → Option ℕ × LinkedList
pop l = elim l.head [
  | none ↦ (none, l)
  | some b ↦ (
    some b,
    record l {
      head = l.next b;
      tail = elim (l.next b) [ none ↦ none | some _ ↦ l.tail ];
      next = update l.next b none;
      size = l.size - 1;
      bytes = l.bytes - length (l.buf b);
    },
  )
]

unfoldable pub push_front_node : LinkedList → ℕ → LinkedList
push_front_node l b = elim l.head [
  | none ↦ record l {
    next = update l.next b none;
    tail = some b;
    head = some b;
    size = l.size + 1;
    bytes = l.bytes + length (l.buf b);
  }
  | some h ↦ record l {
    next = update l.next b (some h);
    head = some b;
    size = l.size + 1;
    bytes = l.bytes + length (l.buf b);
  }
]

unfoldable pub push_back_node : LinkedList → ℕ → LinkedList
push_back_node l b = elim l.tail [
  | none ↦ record l {
    head = some b;
    next = update l.next b none;
    tail = some b;
    size = l.size + 1;
    bytes = l.bytes + length (l.buf b);
  }
  | some t ↦ record l {
    next = update (update l.next t (some b)) b none;
    tail = some b;
    size = l.size + 1;
    bytes = l.bytes + length (l.buf b);
  }
]

-- PushFront and PushBack copy their bytes into a slice of the pool.
unfoldable pub push_front : LinkedList → List ℕ → LinkedList
push_front l p = if length p == 0 then l else let (b, l') = new_node l p in push_front_node l' b

unfoldable pub push_back : LinkedList → List ℕ → LinkedList
push_back l p = if length p == 0 then l else let (b, l') = new_node l p in push_back_node l' b

-- `b.buf = b.buf[m:]; llb.pushFront(b)`
unfoldable pub put_back : LinkedList → ℕ → ℕ → LinkedList
put_back l b m = push_front_node (record l { buf = update l.buf b (drop m (l.buf b)) }) b

-- The loop of Read on fuel: the slice p, of which n bytes are filled.
unfoldable pub read_loop : ℕ → LinkedList → List ℕ → ℕ → List ℕ × ℕ × LinkedList
read_loop zero l p n = (p, n, l)
read_loop (suc fuel) l p n =
    let (o, l1) = pop l in
    elim o [
      | none ↦ (p, n, l1)
      | some b ↦
          let m = min (length p - n) (length (l1.buf b)) in
          let p' = copy_at n p (l1.buf b) in
          let l2 = if ltb m (length (l1.buf b)) then put_back l1 b m else l1 in
          elim (n + m == length p) [ true ↦ (p', n + m, l2) | false ↦ read_loop fuel l2 p' (n + m) ]
    ]

-- Each round takes a node off or ends, so the number of nodes is fuel enough.
unfoldable pub read : LinkedList → List ℕ → List ℕ × ℕ × LinkedList
read l p = if length p == 0 then (p, 0, l) else read_loop (suc l.size) l p 0

-- The loop of Discard on fuel, with what was discarded so far.
unfoldable pub discard_loop : ℕ → LinkedList → ℕ → ℕ → ℕ × LinkedList
discard_loop zero l n discarded = (discarded, l)
discard_loop (suc fuel) l n discarded =
    let (o, l1) = pop l in
    elim (n == 0) [
      | true ↦ (discarded, l)
      | false ↦ elim o [
        | none ↦ (discarded, l1)
        | some b ↦ elim (ltb n (length (l1.buf b))) [
          | true ↦ (discarded + n, put_back l1 b n)
          | false ↦ discard_loop fuel l1 (n - length (l1.buf b)) (discarded + length (l1.buf b))
        ]
      ]
    ]

unfoldable pub discard : LinkedList → ℤ → ℕ × LinkedList
discard l n = if non_positive n then (0, l) else discard_loop (suc l.size) l (pos_part n) 0

abbrev pub max_int32 : ℕ
max_int32 = 2147483647

-- `if maxBytes <= 0 { maxBytes = math.MaxInt32 }`
abbrev pub peek_bound : ℤ → ℕ
peek_bound n = if non_positive n then max_int32 else pos_part n

-- The loop of Peek over the nodes from `iter` on, with `cum` bytes before them.
unfoldable pub peek_loop : ℕ → LinkedList → Option ℕ → ℕ → ℕ → List (List ℕ)
peek_loop zero l iter max cum = []
peek_loop (suc fuel) l none max cum = []
peek_loop (suc fuel) l (some b) max cum =
    let rest = peek_loop fuel l (l.next b) max (cum + length (l.buf b)) in
    l.buf b ∷ (if leb max (cum + length (l.buf b)) then [] else rest)

unfoldable pub peek : LinkedList → ℤ → List (List ℕ)
peek l n = peek_loop (suc l.size) l l.head (peek_bound n) 0

-- The slices that PeekWithBytes puts in front, then what the list adds.
unfoldable pub peek_front : ℕ → List (List ℕ) → ℕ → (ℕ → List (List ℕ)) → List (List ℕ)
peek_front max [] cum continue = continue cum
peek_front max (b ∷ bs) cum continue =
    let rest = peek_front max bs (cum + length b) continue in
    let skipped = peek_front max bs cum continue in
    if ltb 0 (length b) then b ∷ (if leb max (cum + length b) then [] else rest) else skipped

unfoldable pub peek_with_bytes : LinkedList → ℤ → List (List ℕ) → List (List ℕ)
peek_with_bytes l n bs =
    peek_front (peek_bound n) bs 0 (λ cum. peek_loop (suc l.size) l l.head (peek_bound n) cum)

unfoldable pub node_count : LinkedList → ℕ
node_count l = l.size

unfoldable pub buffered : LinkedList → ℕ
buffered l = l.bytes

unfoldable pub is_empty : LinkedList → Bool
is_empty l = elim l.head [ none ↦ true | some _ ↦ false ]

-- The loop of Reset pops every node.
unfoldable pub pop_all : ℕ → LinkedList → LinkedList
pop_all zero l = l
pop_all (suc fuel) l = let (o, l1) = pop l in elim o [ none ↦ l1 | some _ ↦ pop_all fuel l1 ]

unfoldable pub reset : LinkedList → LinkedList
reset l = record (pop_all (suc l.size) l) { head = none; tail = none; size = 0; bytes = 0 }
