-- ===== src/Elastic/Held.antt =====
-- What an elastic ring buffer holds, and what its operations give and leave.
use wsgnet.Prelude.{
  ℕ, zero, suc, ◌+◌, ◌≤◌, ◌<◌, ◌^◌, ◌≡◌, ◌⊎◌, inl, inr, refl, true, false, Option, none, some, List,
  [], ◌∷◌, ◌++◌, length, take, drop, copy, min, arith, ap, subst, sym, ◌∙◌, append-nil, drop-nil,
  take-nil, Bool-cases, ℤ, pos, pos_part,
}
use wsgnet.Errors.{Error, is_empty}
use wsgnet.Ring.Defs.{Ring}
use wsgnet.Ring.Reading as reading
use wsgnet.Ring.Growing as growing
use wsgnet.Ring.Contents.{IsValid, contents, length-contents}
use wsgnet.Ring.Removal.{joined, reset-IsValid, peek-contents, discard_lem, contents_empty}
use wsgnet.Ring.Delivery.{buffered_pos, read_lem, read-idle}
use wsgnet.Ring.Writing.{write_lem}
use wsgnet.Elastic.RingBuffer.{
  RingBuffer, ReadResult, done, peek, discard, read, write, buffered, is_drained, instance_of,
  reset,
}

-- A buffer that is there is well-formed.
abbrev pub IsSound : RingBuffer → Type 0
IsSound none = Unit {0}
IsSound (some b) = IsValid b

unfoldable pub held : RingBuffer → List ℕ
held none = []
held (some b) = contents b

-- What a pool gives: a well-formed buffer that holds nothing.
abbrev pub IsPooled : Ring → Type 0
IsPooled b = IsValid b × (contents b ≡ [])

pub length-held : (b : RingBuffer) → IsSound b → length (held b) ≡ buffered b
unfolding held buffered
length-held none v = refl
length-held (some b) v = length-contents v

done-none : (b : Ring) → b.is_empty ≡ true → done b ≡ none
unfolding done
done-none b e = ground arith

done-some : (b : Ring) → b.is_empty ≡ false → done b ≡ some b
unfolding done
done-some b e = ground arith

-- Giving a drained buffer back changes nothing of what is held.
done_lem : {b : Ring} → IsValid b → IsSound (done b) × (held (done b) ≡ contents b)
unfolding held
done_lem {b} v = elim (Bool-cases b.is_empty) [
  | inl e ↦
      subst (λ d. IsSound d × (held d ≡ contents b)) (sym (done-none b e))
        (tt, sym (contents_empty b e))
  | inr e ↦ subst (λ d. IsSound d × (held d ≡ contents b)) (sym (done-some b e)) (v, refl)
]

pub copy-nothing : (p : List ℕ) → copy p [] ≡ p
copy-nothing [] = refl
copy-nothing (x ∷ p) = refl

-- What Read gives of the bytes xs.
pub record Reads (xs p : List ℕ) (out : ReadResult) : Type 0 where
  pub copied : out.0 ≡ copy p xs
  pub count : out.1 ≡ min (length p) (length xs)
  pub sound : IsSound out.3
  pub rest : held out.3 ≡ drop (length p) xs

read-none : (p : List ℕ) → read none p ≡ some (p, 0, some is_empty, none)
unfolding read
read-none p = refl

read-some :
    (b b' : Ring) (p p' : List ℕ) (n : ℕ) (err : Option Error)
    → reading.read b p ≡ some (p', n, err, b')
    → read (some b) p ≡ some (p', n, err, done b')
unfolding read
read-some b b' p p' n err e = ground (arith, e)

read_nothing :
    (b : RingBuffer) (p : List ℕ) (err : Option Error)
    → IsSound b
    → (length p ≡ 0) ⊎ (held b ≡ [])
    → Reads (held b) p (p, 0, err, b)
read_nothing b [] err v h = record { copied = refl; count = omega arith; sound = v; rest = refl }
read_nothing b (x ∷ p) err v (inl h) = absurd (omega arith)
read_nothing b (x ∷ p) err v (inr h) = record {
  copied = sym (ap (copy (x ∷ p)) h ∙ copy-nothing (x ∷ p));
  count = omega (arith, ap length h);
  sound = v;
  rest = h ∙ sym (ap (drop (suc (length p))) h);
}

after_done :
    {xs : List ℕ} (b' : Ring) (p p' : List ℕ) (n : ℕ) (err : Option Error)
    → Reads xs p (p', n, err, some b')
    → Reads xs p (p', n, err, done b')
unfolding held
after_done b' p p' n err r = record {
  copied = r.copied;
  count = r.count;
  sound = (done_lem r.sound).0;
  rest = (done_lem r.sound).1 ∙ r.rest;
}

-- Read copies the oldest bytes into p as far as both go, returns their number, and drops them; it
-- does not panic.
pub read-Reads :
    (b : RingBuffer) (p : List ℕ)
    → IsSound b
    → (out : ReadResult) × (read b p ≡ some out) × Reads (held b) p out
unfolding held
read-Reads none p v =
    ((p, 0, some is_empty, none), read-none p, read_nothing none p (some is_empty) tt (inr refl))
read-Reads (some b) [] v = (
  ([], 0, none, done b),
  read-some b b [] [] 0 none ((read-idle []).0 refl),
  after_done b [] [] 0 none (read_nothing (some b) [] none v (inl refl)),
)
read-Reads (some b) (x ∷ p) v = elim (Bool-cases b.is_empty) [
  | inl e ↦ (
    (x ∷ p, 0, some is_empty, done b),
    read-some b b (x ∷ p) (x ∷ p) 0 (some is_empty) ((read-idle (x ∷ p)).1 (omega arith) e),
    after_done b (x ∷ p) (x ∷ p) 0 (some is_empty)
        (read_nothing (some b) (x ∷ p) (some is_empty) v (inr (contents_empty b e))),
  )
  | inr e ↦
      let ((p', n, err, b'), eq, d) = read_lem (x ∷ p) v e (omega arith) in
      (
        (p', n, err, done b'),
        read-some b b' (x ∷ p) p' n err eq,
        after_done b' (x ∷ p) p' n err (record {
          copied = d.copied;
          count = omega (arith, d.count);
          sound = d.valid;
          rest = d.rest;
        }),
      )
]

-- Discard takes the first n bytes off, or all where fewer are held; it returns how many.
pub discard-Reads :
    (b : RingBuffer) (n : ℤ)
    → IsSound b
    → let (count, err, b') = discard b n in
      (count ≡ min (pos_part n) (length (held b)))
      × IsSound b'
      × (held b' ≡ drop (pos_part n) (held b))
unfolding discard held
discard-Reads none n v = (omega arith, tt, sym (drop-nil (pos_part n)))
discard-Reads (some b) n v =
    let (valid, count, rest) = discard_lem n v in
    (count, (done_lem valid).0, (done_lem valid).1 ∙ rest)

-- The size of the memory that a write finds.
unfoldable pub size_of : Ring → RingBuffer → ℕ
size_of pooled none = pooled.size
size_of pooled (some b) = b.size

instance_lem :
    (mem : ℕ → ℕ → ℕ) (pooled : Ring) (b : RingBuffer)
    → IsPooled pooled
    → IsSound b
    → IsValid (instance_of mem pooled b)
      × (contents (instance_of mem pooled b) ≡ held b)
      × ((instance_of mem pooled b).size ≡ size_of pooled b)
unfolding instance_of held size_of
instance_lem mem pooled none pool v = (pool.0, pool.1, refl)
instance_lem mem pooled (some b) pool v = (v, refl, refl)

write_step :
    (mem : ℕ → ℕ → ℕ) (pooled : Ring) (b : RingBuffer) (p : List ℕ) (b' : Ring)
    → 0 < length p
    → growing.write mem (instance_of mem pooled b) p ≡ some (length p, b')
    → write mem pooled b p ≡ some (length p, some b')
unfolding write
write_step mem pooled b p b' h e = ground (arith, e)

write_none :
    (mem : ℕ → ℕ → ℕ) (pooled : Ring) (b : RingBuffer) → write mem pooled b [] ≡ some (0, b)
unfolding write
write_none mem pooled b = refl

-- Write appends p and returns its length; it does not panic while the sizes stay up to 2 ^ 62.
pub write-held :
    (mem : ℕ → ℕ → ℕ) (pooled : Ring) (b : RingBuffer) (p : List ℕ)
    → IsPooled pooled
    → IsSound b
    → size_of pooled b + length p ≤ 2 ^ 62
    → (b' : RingBuffer) × (write mem pooled b p ≡ some (length p, b'))
      × IsSound b'
      × (held b' ≡ held b ++ p)
unfolding held
write-held mem pooled b [] pool v h = (b, write_none mem pooled b, v, sym (append-nil (held b)))
write-held mem pooled b (x ∷ p) pool v h =
    let (valid, same, size_eq) = instance_lem mem pooled b pool v in
    let (b', eq, valid', appended) = write_lem mem (x ∷ p) valid (omega (arith, size_eq)) in
    (
      some b',
      write_step mem pooled b (x ∷ p) b' (omega arith) eq,
      valid',
      appended ∙ ap (λ xs. xs ++ x ∷ p) same,
    )

-- The two slices of Peek are the first n bytes that are held, for a positive n.
pub peek-held :
    (b : RingBuffer) (n : ℕ)
    → IsSound b
    → 0 < n
    → (head : List ℕ) × (tail : List ℕ) × (peek b (pos n) ≡ some (head, tail))
      × (head ++ tail ≡ take n (held b))
unfolding peek held
peek-held none n v h = ([], [], refl, sym (take-nil n))
peek-held (some b) zero v h = absurd (omega arith)
peek-held (some b) (suc n) v h =
    shown (reading.peek b (pos (suc n))) (peek-contents (pos (suc n)) v)
  where
    shown :
        (o : Option (List ℕ × List ℕ))
        → joined o ≡ some (take (suc n) (contents b))
        → (head : List ℕ) × (tail : List ℕ) × (o ≡ some (head, tail))
          × (head ++ tail ≡ take (suc n) (contents b))
    shown none e = cc
    shown (some (head, tail)) e = (head, tail, refl, cc)

pub drained-held : (b : RingBuffer) → is_drained b ≡ true → held b ≡ []
unfolding is_drained held
drained-held none e = refl
drained-held (some b) e = contents_empty b e

pub buffered_pos-held : (b : RingBuffer) → IsSound b → is_drained b ≡ false → 0 < buffered b
unfolding is_drained buffered
buffered_pos-held none v e = cc
buffered_pos-held (some b) v e = buffered_pos v e

pub reset-held : (b : RingBuffer) → IsSound b → IsSound (reset b) × (held (reset b) ≡ [])
unfolding reset held
reset-held none v = (tt, refl)
reset-held (some b) v = reset-IsValid v

pub held-nil : held none ≡ []
unfolding held
held-nil = refl
