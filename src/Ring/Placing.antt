-- ===== src/Ring/Placing.antt =====
-- The copies of Write: the bytes go behind those that are held, round the end if need be.
use wsgnet.Prelude.{
  ℕ, ◌+◌, ◌-◌, ◌≤◌, ◌≡◌, List, ◌++◌, length, take, drop, copy_at, list_ext, get_elem?_beyond, arith,
  length-copy_at, length-take, length-drop, elements, lengths, copy, ap, ap₂, ◌∙◌, append_assoc,
  take-append-drop, get_elem?-copy,
}
use wsgnet.Ring.Growth.{take-copy}

module _ (buf p : List ℕ) (r w : ℕ) where
  -- Bytes from r up to w, and p behind them, short of the end.
  pub straight_within :
      r ≤ w
      → w + length p ≤ length buf
      → take (w + length p - r) (drop r (copy_at w buf p)) ≡ take (w - r) (drop r buf) ++ p
  straight_within h k = list_ext _ _ λ i.
      simp (elements, lengths)
        (ground (arith, get_elem?_beyond p (r + i - w), get_elem?_beyond p (i - (w - r))))

  -- The same, where p reaches the end exactly.
  pub straight_to_end :
      r ≤ w → w + length p ≡ length buf → drop r (copy_at w buf p) ≡ take (w - r) (drop r buf) ++ p
  straight_to_end h k = list_ext _ _ λ i.
      simp (elements, lengths)
        (ground (arith, get_elem?_beyond p (i - (w - r)), get_elem?_beyond buf (r + i)))

-- A copy to the start leaves what lies behind it.
drop-copy_before : (xs ys : List ℕ) (r : ℕ) → length ys ≤ r → drop r (copy xs ys) ≡ drop r xs
drop-copy_before xs ys r h = list_ext _ _ λ i. simp (elements, get_elem?-copy) (ground arith)

module _ (buf p : List ℕ) (r w : ℕ) where
  -- The same, where p goes on at the start of the buffer.
  pub straight_round :
      r ≤ w
      → w ≤ length buf
      → length buf ≤ w + length p
      → length p ≤ length buf - w + r
      → let c = length buf - w in
        let buf' = copy_at 0 (copy_at w buf (take c p)) (drop c p) in
        drop r buf' ++ take (length p - c) buf' ≡ take (w - r) (drop r buf) ++ p
  straight_round h k l m =
      ap₂ ◌++◌
        (drop-copy_before (copy_at w buf front) back r (omega (arith, length-drop c p))
          ∙ straight_to_end buf front r w h (omega (arith, length-take c p)))
        (rw (← length-drop c p) (
          take-copy (copy_at w buf front) back
            (omega (arith, length-drop c p, length-copy_at w buf front))))
      ∙ append_assoc (take (w - r) (drop r buf)) front back
      ∙ ap (◌++◌ (take (w - r) (drop r buf))) (take-append-drop c p)
    where
      c : ℕ
      c = length buf - w

      front : List ℕ
      front = take c p

      back : List ℕ
      back = drop c p

  -- Bytes from r round the end up to w, and p behind them.
  pub round_within :
      w + length p ≤ r
      → r ≤ length buf
      → drop r (copy_at w buf p) ++ take (w + length p) (copy_at w buf p)
        ≡ (drop r buf ++ take w buf) ++ p
  round_within h k =
      list_ext _ _ λ i.
        simp (elements, lengths) (ground (arith, get_elem?_beyond p (i - (length buf - r + w))))
