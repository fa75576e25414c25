-- ===== src/Elastic/Buffer.antt =====
-- pkg/buffer/elastic/elastic_ring_list_buffer.go: a ring buffer up to a size, and a linked list for
-- what comes behind it.
use wsgnet.Prelude.{
  ℕ, ◌+◌, ◌-◌, Bool, not, ◌&&◌, ◌||◌, ◌⊎◌, inl, inr, Option, none, some, List, [], ◌∷◌, ◌++◌, ltb,
  leb, ◌==◌, if◌then◌else◌, length, slice, take, drop, ℤ, pos, pos_part, non_positive, ◌>>=◌,
}
use wsgnet.Errors.{Error, negative_size}
use wsgnet.Io.{Reader, Writer}
use wsgnet.Ring.Defs.{Ring}
use wsgnet.Elastic.RingBuffer.{RingBuffer}
use wsgnet.Elastic.RingBuffer as ring
use wsgnet.LinkedList.Defs.{LinkedList, peek_bound}
use wsgnet.LinkedList.Defs as linked
use wsgnet.LinkedList.Transfer as moving

pub record Buffer : Type 0 where
  pub max_static_bytes : ℕ
  pub ring_buffer : RingBuffer
  pub list_buffer : LinkedList

-- A buffer, or the error ErrNegativeSize.
unfoldable pub new : ℤ → Error ⊎ Buffer
new max =
    if non_positive max
    then inl negative_size
    else inr
        (record { max_static_bytes = pos_part max; ring_buffer = none; list_buffer = linked.empty })

unfoldable pub read : Buffer → List ℕ → Option (List ℕ × ℕ × Option Error × Buffer)
read mb p = do
  (p1, n, err, rb) ← ring.read mb.ring_buffer p
  if n == length p
      then some (p1, n, err, record mb { ring_buffer = rb })
      else let (p2, m, lb) = linked.read mb.list_buffer (drop n p1) in
        some (take n p1 ++ p2, n + m, none, record mb { ring_buffer = rb; list_buffer = lb })

unfoldable pub peek : Buffer → ℤ → Option (List (List ℕ))
peek mb n = do
  (head, tail) ← ring.peek mb.ring_buffer (pos (peek_bound n))
  some (
      if leb (peek_bound n) (ring.buffered mb.ring_buffer)
      then head ∷ tail ∷ []
      else linked.peek_with_bytes mb.list_buffer (pos (peek_bound n)) (head ∷ tail ∷ []))

unfoldable pub discard : Buffer → ℤ → ℕ × Option Error × Buffer
discard mb n =
    let (discarded, err, rb) = ring.discard mb.ring_buffer n in
    if leb (pos_part n) discarded
    then (discarded, err, record mb { ring_buffer = rb })
    else let (m, lb) = linked.discard mb.list_buffer (pos (pos_part n - discarded)) in
      (discarded + m, none, record mb { ring_buffer = rb; list_buffer = lb })

-- The bytes go to the list where it is in use, or the ring buffer holds all that it is to hold.
unfoldable pub listing : Buffer → Bool
listing mb =
    not (linked.is_empty mb.list_buffer) || leb mb.max_static_bytes (ring.buffered mb.ring_buffer)

unfoldable pub buffered : Buffer → ℕ
buffered mb = ring.buffered mb.ring_buffer + linked.buffered mb.list_buffer

unfoldable pub is_empty : Buffer → Bool
is_empty mb = ring.is_drained mb.ring_buffer && linked.is_empty mb.list_buffer

unfoldable pub reset : Buffer → ℤ → Buffer
reset mb max = record {
  max_static_bytes = if non_positive max then mb.max_static_bytes else pos_part max;
  ring_buffer = ring.reset mb.ring_buffer;
  list_buffer = linked.reset mb.list_buffer;
}

unfoldable pub release : Buffer → Buffer
release mb = record mb { ring_buffer = none; list_buffer = linked.reset mb.list_buffer }

-- Where the ring buffer gives an error the list is left alone.
unfoldable pub write_to :
    {S : Type 0} → Writer S → Buffer → S → Option (ℕ × Option Error × Buffer × S)
write_to write mb s = do
  (n, err, rb, s1) ← ring.write_to write mb.ring_buffer s
  elim err [
    | some e ↦ some (n, some e, record mb { ring_buffer = rb }, s1)
    | none ↦ do
      (m, err2, lb, s2) ← moving.write_to write mb.list_buffer s1
      some (n + m, err2, record mb { ring_buffer = rb; list_buffer = lb }, s2)
  ]

-- The slices that Writev hands to the list.
unfoldable pub push_all : LinkedList → List (List ℕ) → LinkedList
push_all l [] = l
push_all l (b ∷ bs) = push_all (linked.push_back l b) bs

-- `n += len(b)` over the slices.
unfoldable pub total : List (List ℕ) → ℕ
total [] = 0
total (b ∷ bs) = length b + total bs

module _ (mem : ℕ → ℕ → ℕ) (pooled : Ring) where
  -- A write to the ring buffer.
  unfoldable pub write_ring : Buffer → List ℕ → Option (ℕ × Buffer)
  write_ring mb p = do
    (n, rb) ← ring.write mem pooled mb.ring_buffer p
    some (n, record mb { ring_buffer = rb })

  -- A write of the first n bytes to the ring buffer, and of the others to the list.
  unfoldable pub write_both : Buffer → ℕ → List ℕ → Option Buffer
  write_both mb n p = do
    front ← slice p 0 n
    (_, mb') ← write_ring mb front
    back ← slice p n (length p)
    some (record mb' { list_buffer = linked.push_back mb'.list_buffer back })

  unfoldable pub write : Buffer → List ℕ → Option (ℕ × Buffer)
  unfolding write_ring write_both listing
  write mb p =
      if listing mb
      then some (length p, record mb { list_buffer = linked.push_back mb.list_buffer p })
      else if leb mb.max_static_bytes (ring.memory_len mb.ring_buffer)
          && ltb (ring.available mb.ring_buffer) (length p)
      then (do mb' ← write_both mb (ring.available mb.ring_buffer) p; some (length p, mb'))
      else write_ring mb p

  -- The first loop of Writev with the second behind it: `writable` bytes may go to the ring buffer.
  unfoldable pub writev_loop : Buffer → List (List ℕ) → ℕ → Option Buffer
  writev_loop mb [] writable = some mb
  writev_loop mb (b ∷ bs) writable =
      if ltb writable (length b)
      then (do
        mb' ← write_both mb writable b
        some (record mb' { list_buffer = push_all mb'.list_buffer bs }))
      else (do (n, mb') ← write_ring mb b; writev_loop mb' bs (writable - n))

  unfoldable pub writev : Buffer → List (List ℕ) → Option (ℕ × Buffer)
  unfolding listing
  writev mb bs =
      if listing mb
      then some (total bs, record mb { list_buffer = push_all mb.list_buffer bs })
      else (do
        mb' ← writev_loop mb bs (
            if ltb (ring.memory_len mb.ring_buffer) mb.max_static_bytes
            then mb.max_static_bytes - ring.buffered mb.ring_buffer
            else ring.available mb.ring_buffer)
        some (total bs, mb'))

  unfoldable pub read_from :
      {S : Type 0} → Reader S → ℕ → Buffer → S → Option (ℕ × Option Error × Buffer × S)
  unfolding listing
  read_from read fuel mb s =
      if listing mb
      then (do
        (n, err, lb, s') ← moving.read_from read fuel mb.list_buffer 0 s
        some (n, err, record mb { list_buffer = lb }, s'))
      else (do
        (n, err, rb, s') ← ring.read_from mem pooled read fuel mb.ring_buffer s
        some (n, err, record mb { ring_buffer = rb }, s'))
