-- ===== src/Ring/Growth.antt =====
-- What grow leaves: a larger buffer with the same bytes, from its start.
use wsgnet.Prelude.{
  ℕ, ◌-◌, ◌^◌, ◌≤◌, ◌<◌, ◌≡◌, refl, ap, Bool, true, false, Option, some, List, [], ◌∷◌, ltb,
  if◌then◌else◌, length, take, drop, copy, tabulate, arith, length-tabulate, length-copy,
  Bool-cases, inl, inr, ◌∙◌,
}
use wsgnet.Errors.{Error, is_empty}
use wsgnet.Ring.Defs.{Ring, buffered}
use wsgnet.Ring.Reading.{read}
use wsgnet.Ring.Growing.{grown_cap, grow}
use wsgnet.Ring.Contents.{IsValid, contents, length-contents}
use wsgnet.Ring.Delivery.{read_lem, read-idle, buffered_pos}
use wsgnet.Ring.Capacity.{grown_cap-le}

pub take-copy {ℓ} :
    {A : Type ℓ} (p xs : List A) → length xs ≤ length p → take (length xs) (copy p xs) ≡ xs
take-copy [] [] h = refl
take-copy [] (x ∷ xs) h = absurd (omega arith)
take-copy (y ∷ p) [] h = refl
take-copy (y ∷ p) (x ∷ xs) h = ap (◌∷◌ x) (take-copy p xs (omega arith))

contents_front : (b : Ring) → b.is_empty ≡ false → b.r ≡ 0 → 0 < b.w → contents b ≡ take b.w b.buf
unfolding contents
contents_front b e h p = ground (arith, drop_front b h, sub_front b h)
  where
    drop_front : (b : Ring) → b.r ≡ 0 → drop b.r b.buf ≡ b.buf
    drop_front b h = ap (λ k. drop k b.buf) h

    sub_front : (b : Ring) → b.r ≡ 0 → b.w - b.r ≡ b.w
    sub_front b h = omega arith

-- What grow promises for a capacity c.
pub record Grown (b : Ring) (c : ℕ) (b' : Ring) : Type 0 where
  pub valid : IsValid b'
  pub same : contents b' ≡ contents b
  pub larger : c ≤ b'.size
  pub start : b'.r ≡ 0
  pub end : b'.w ≡ buffered b

-- The buffer over new memory: what was read lies at its start.
abbrev regrown : Ring → ℕ → List ℕ → Bool → Ring
regrown b m buf empty = record {
  buf = buf;
  size = m;
  r = 0;
  w = buffered b;
  is_empty = if ltb 0 (buffered b) then false else empty;
}

regrown-Grown_empty :
    {b : Ring} (c m : ℕ) (buf : List ℕ) (empty : Bool)
    → empty ≡ true
    → b.is_empty ≡ true
    → IsValid b
    → length buf ≡ m
    → 0 < m
    → c ≤ m
    → Grown b c (regrown b m buf empty)
unfolding contents buffered
regrown-Grown_empty {b} c m buf empty e' e v h p q = record {
  valid = ground arith;
  same = ground arith;
  larger = q;
  start = refl;
  end = refl;
}

regrown-Grown_held :
    {b : Ring} (c m : ℕ) (mem buf : List ℕ) (empty : Bool)
    → buf ≡ copy mem (contents b)
    → b.is_empty ≡ false
    → IsValid b
    → length mem ≡ m
    → buffered b < c
    → c ≤ m
    → Grown b c (regrown b m buf empty)
regrown-Grown_held {b} c m mem buf empty c_eq e v h p q = record {
  valid = ground (arith, length-copy mem (contents b), buffered_pos v e);
  same = same_bytes;
  larger = q;
  start = refl;
  end = refl;
}
  where
    same_bytes : contents (regrown b m buf empty) ≡ contents b
    same_bytes = ground (
      arith,
      contents_front (regrown b m buf empty),
      buffered_pos v e,
      length-contents v,
      take-copy mem (contents b),
    )

module _ (mem : ℕ → ℕ → ℕ) where
  grow-eq :
      (b b' : Ring) (c m n : ℕ) (buf : List ℕ) (err : Option Error)
      → grown_cap b.size c ≡ some m
      → read b (tabulate m (mem m)) ≡ some (buf, n, err, b')
      → grow mem b c ≡ some (regrown b m buf b'.is_empty)
  unfolding grow
  grow-eq b b' c m n buf err g e = ground arith

  -- Grow to a capacity m of more than is held keeps the bytes, and does not panic.
  pub grow_to :
      {b : Ring} (c m : ℕ)
      → IsValid b
      → grown_cap b.size c ≡ some m
      → buffered b < m
      → (b' : Ring) × (grow mem b c ≡ some b') × Grown b m b'
  grow_to {b} c m v g p = elim (Bool-cases b.is_empty) [
    | inl e ↦ (
      regrown b m memory b.is_empty,
      grow-eq b b c m 0 memory (some is_empty) g ((read-idle memory).1 room e),
      regrown-Grown_empty m m memory b.is_empty e e v size_eq (omega arith) (omega arith),
    )
    | inr e ↦
        let (out, eq, d) = read_lem memory v e room in
        (
          regrown b m out.0 out.3.is_empty,
          grow-eq b out.3 c m out.1 out.0 out.2 g eq,
          regrown-Grown_held m m memory out.0 out.3.is_empty d.copied e v size_eq p (omega arith),
        )
  ]
    where
      memory : List ℕ
      memory = tabulate m (mem m)

      size_eq : length memory ≡ m
      size_eq = length-tabulate m (mem m)

      room : 0 < length memory
      room = omega (arith, size_eq)

  -- Whatever the capacity m, the write index is what was held, and the memory has the size m.
  pub grow_indices :
      {b : Ring} (c m : ℕ)
      → IsValid b
      → b.is_empty ≡ false
      → grown_cap b.size c ≡ some m
      → 0 < m
      → (b' : Ring) × (grow mem b c ≡ some b') × (b'.w ≡ buffered b) × (length b'.buf ≡ m)
  grow_indices {b} c m v e g p =
      let memory : List ℕ = tabulate m (mem m) in
      let (out, eq, d) = read_lem memory v e (omega (arith, length-tabulate m (mem m))) in
      (
        regrown b m out.0 out.3.is_empty,
        grow-eq b out.3 c m out.1 out.0 out.2 g eq,
        refl,
        ap length d.copied ∙ length-copy memory (contents b) ∙ length-tabulate m (mem m),
      )

  -- Grow gives a buffer of at least the capacity that is asked for, with the same bytes from its
  -- start, and does not panic, if that capacity is not below the size, is more than is held, and is at
  -- most 2 ^ 62.
  pub grow_lem :
      {b : Ring} (c : ℕ)
      → IsValid b
      → b.size ≤ c
      → buffered b < c
      → c ≤ 2 ^ 62
      → (b' : Ring) × (grow mem b c ≡ some b') × Grown b c b'
  grow_lem {b} c v h p k =
      let (m, cap, le) = grown_cap-le b.size c h k in
      let (b', eq, g) = grow_to c m v cap (omega arith) in
      (
        b',
        eq,
        record {
          valid = g.valid;
          same = g.same;
          larger = omega (arith, g.larger);
          start = g.start;
          end = g.end;
        },
      )
