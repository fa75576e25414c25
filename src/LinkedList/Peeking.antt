-- ===== src/LinkedList/Peeking.antt =====
-- What Peek and PeekWithBytes of linkedlist.Buffer show.
use wsgnet.Prelude.{
  ℕ, zero, suc, ◌+◌, ◌-◌, ◌≤◌, ◌<◌, ◌≡◌, refl, Option, none, some, List, [], ◌∷◌, ◌++◌, length, min,
  arith, ap, subst, sym, ◌∙◌, append_assoc, length-append, dec_lt, dec_le, le→leb, lt→leb, lt→ltb,
  ℤ, pos, negsuc,
}
use wsgnet.LinkedList.Defs.{LinkedList, peek_loop, peek_front, peek, peek_with_bytes, peek_bound}
use wsgnet.LinkedList.Shape.{Chain, joined}
use wsgnet.LinkedList.Contents.{Holds}

-- The slices, one behind the other.
unfoldable pub flatten : List (List ℕ) → List ℕ
flatten [] = []
flatten (b ∷ bs) = b ++ flatten bs

-- What is shown is a beginning of what is there, of k bytes at least where there are as many.
abbrev pub Shows : List ℕ → List ℕ → ℕ → Type 0
Shows got all k = (rest : List ℕ) × (got ++ rest ≡ all) × (min k (length all) ≤ length got)

-- The slice reaches the bound.
Shows-last : (b all : List ℕ) (k : ℕ) → k ≤ length b → Shows (b ++ []) (b ++ all) k
Shows-last b all k h =
    (all, append_assoc b [] all, omega (arith, length-append b [], length-append b all))

-- The slice does not, and the rest follows.
Shows-more :
    (b got all : List ℕ) (k j : ℕ)
    → k ≤ length b + j
    → Shows got all j
    → Shows (b ++ got) (b ++ all) k
Shows-more b got all k j h (rest, same, enough) = (
  rest,
  append_assoc b got rest ∙ ap (◌++◌ b) same,
  omega (arith, length-append b got, length-append b all),
)

peek_end : (fuel : ℕ) (l : LinkedList) (max cum : ℕ) → peek_loop (suc fuel) l none max cum ≡ []
unfolding peek_loop
peek_end fuel l max cum = refl

peek_last :
    (fuel : ℕ) (l : LinkedList) (b max cum : ℕ)
    → max ≤ cum + length (l.buf b)
    → flatten (peek_loop (suc fuel) l (some b) max cum) ≡ l.buf b ++ []
unfolding peek_loop flatten
peek_last fuel l b max cum h = ground (arith, le→leb max (cum + length (l.buf b)) h)

peek_more :
    (fuel : ℕ) (l : LinkedList) (b max cum : ℕ)
    → cum + length (l.buf b) < max
    → flatten (peek_loop (suc fuel) l (some b) max cum)
      ≡ l.buf b ++ flatten (peek_loop fuel l (l.next b) max (cum + length (l.buf b)))
unfolding peek_loop flatten
peek_more fuel l b max cum h = ground (arith, lt→leb max (cum + length (l.buf b)) h)

pub flatten-nil : flatten [] ≡ []
unfolding flatten
flatten-nil = refl

peek_loop-Shows :
    (fuel : ℕ) (l : LinkedList) (iter : Option ℕ) (ids : List ℕ) (max cum : ℕ)
    → Chain l.next iter ids
    → length ids < fuel
    → Shows (flatten (peek_loop fuel l iter max cum)) (joined l.buf ids) (max - cum)
peek_loop-Shows zero l iter ids max cum c h = absurd (omega arith)
peek_loop-Shows (suc fuel) l iter [] max cum c h =
    subst (λ o. Shows (flatten (peek_loop (suc fuel) l o max cum)) [] (max - cum)) (sym c)
      (subst (λ got. Shows got [] (max - cum))
        (sym (ap flatten (peek_end fuel l max cum) ∙ flatten-nil)) ([], refl, omega arith))
peek_loop-Shows (suc fuel) l iter (b ∷ ids) max cum (here, c) h =
    subst (λ o. Shows (flatten (peek_loop (suc fuel) l o max cum)) all (max - cum)) (sym here)
      (elim (dec_le max (cum + length (l.buf b))) [
        | yes last ↦
            subst (λ got. Shows got all (max - cum)) (sym (peek_last fuel l b max cum last))
              (Shows-last (l.buf b) (joined l.buf ids) (max - cum) (omega arith))
        | no more ↦
            subst (λ got. Shows got all (max - cum))
              (sym (peek_more fuel l b max cum (omega arith)))
              (Shows-more (l.buf b) _ (joined l.buf ids) (max - cum)
                (max - (cum + length (l.buf b))) (omega arith)
                (peek_loop-Shows fuel l (l.next b) ids max (cum + length (l.buf b)) c
                  (omega arith)))
      ])
  where
    all : List ℕ
    all = joined l.buf (b ∷ ids)

list-Shows :
    {l : LinkedList} {xs : List ℕ} (max cum : ℕ)
    → Holds l xs
    → Shows (flatten (peek_loop (suc l.size) l l.head max cum)) xs (max - cum)
list-Shows {l} max cum (ids, k, e) =
    subst (λ ys. Shows (flatten (peek_loop (suc l.size) l l.head max cum)) ys (max - cum)) e
      (peek_loop-Shows (suc l.size) l l.head ids max cum k.chain (omega (arith, k.size_eq)))

-- Peek shows, in order, a beginning of the bytes that are held: up to the end of the node in which
-- the bound is reached, and all of them where the bound is not reached.
pub peek_lem :
    {l : LinkedList} {xs : List ℕ} (n : ℤ)
    → Holds l xs
    → (rest : List ℕ) × (flatten (peek l n) ++ rest ≡ xs)
      × (min (peek_bound n) (length xs) ≤ length (flatten (peek l n)))
unfolding peek
peek_lem {l} {xs} n h =
    subst (Shows (flatten (peek_loop (suc l.size) l l.head (peek_bound n) 0)) xs) (omega arith)
      (list-Shows (peek_bound n) 0 h)

front_skip :
    (max : ℕ) (b : List ℕ) (bs : List (List ℕ)) (cum : ℕ) (f : ℕ → List (List ℕ))
    → length b ≡ 0
    → flatten (peek_front max (b ∷ bs) cum f) ≡ b ++ flatten (peek_front max bs (cum + length b) f)
unfolding peek_front
front_skip max [] bs cum f h = ap (λ c. flatten (peek_front max bs c f)) (omega arith)
front_skip max (x ∷ b) bs cum f h = absurd (omega arith)

front_last :
    (max : ℕ) (b : List ℕ) (bs : List (List ℕ)) (cum : ℕ) (f : ℕ → List (List ℕ))
    → 0 < length b
    → max ≤ cum + length b
    → flatten (peek_front max (b ∷ bs) cum f) ≡ b ++ []
unfolding peek_front flatten
front_last max b bs cum f h q = ground (arith, lt→ltb 0 (length b) h, le→leb max (cum + length b) q)

front_more :
    (max : ℕ) (b : List ℕ) (bs : List (List ℕ)) (cum : ℕ) (f : ℕ → List (List ℕ))
    → 0 < length b
    → cum + length b < max
    → flatten (peek_front max (b ∷ bs) cum f) ≡ b ++ flatten (peek_front max bs (cum + length b) f)
unfolding peek_front flatten
front_more max b bs cum f h q = ground (arith, lt→ltb 0 (length b) h, lt→leb max (cum + length b) q)

front_on :
    (max : ℕ) (b : List ℕ) (bs : List (List ℕ)) (cum : ℕ) (f : ℕ → List (List ℕ))
    → cum + length b < max
    → flatten (peek_front max (b ∷ bs) cum f) ≡ b ++ flatten (peek_front max bs (cum + length b) f)
front_on max b bs cum f h = elim (dec_lt 0 (length b)) [
  | no none_here ↦ front_skip max b bs cum f (omega arith)
  | yes some_here ↦ front_more max b bs cum f some_here h
]

front_end :
    (max cum : ℕ) (f : ℕ → List (List ℕ)) → flatten (peek_front max [] cum f) ≡ flatten (f cum)
unfolding peek_front
front_end max cum f = refl

front-Shows :
    (max : ℕ) (bs : List (List ℕ)) (cum : ℕ) (f : ℕ → List (List ℕ)) (xs : List ℕ)
    → cum < max
    → ((c : ℕ) → Shows (flatten (f c)) xs (max - c))
    → Shows (flatten (peek_front max bs cum f)) (flatten bs ++ xs) (max - cum)
unfolding flatten
front-Shows max [] cum f xs h later =
    subst (λ got. Shows got xs (max - cum)) (sym (front_end max cum f)) (later cum)
front-Shows max (b ∷ bs) cum f xs h later =
    subst (λ all. Shows (flatten (peek_front max (b ∷ bs) cum f)) all (max - cum))
      (sym (append_assoc b (flatten bs) xs))
      (elim (dec_le max (cum + length b)) [
        | yes last ↦
            subst (λ got. Shows got (b ++ (flatten bs ++ xs)) (max - cum))
              (sym (front_last max b bs cum f (omega arith) last))
              (Shows-last b (flatten bs ++ xs) (max - cum) (omega arith))
        | no more ↦
            subst (λ got. Shows got (b ++ (flatten bs ++ xs)) (max - cum))
              (sym (front_on max b bs cum f (omega arith)))
              (Shows-more b _ (flatten bs ++ xs) (max - cum) (max - (cum + length b)) (omega arith)
                (front-Shows max bs (cum + length b) f xs (omega arith) later))
      ])

pub peek_bound_pos : (n : ℤ) → 0 < peek_bound n
peek_bound_pos (pos zero) = omega arith
peek_bound_pos (pos (suc n)) = omega arith
peek_bound_pos (negsuc n) = omega arith

-- PeekWithBytes shows, in order, a beginning of the slices that it is given with the bytes that are
-- held behind them: all of it where the bound is not reached.
pub peek_with_bytes_lem :
    {l : LinkedList} {xs : List ℕ} (n : ℤ) (bs : List (List ℕ))
    → Holds l xs
    → (rest : List ℕ) × (flatten (peek_with_bytes l n bs) ++ rest ≡ flatten bs ++ xs)
      × (min (peek_bound n) (length (flatten bs ++ xs)) ≤ length (flatten (peek_with_bytes l n bs)))
unfolding peek_with_bytes
peek_with_bytes_lem {l} {xs} n bs h =
    subst (Shows (flatten (peek_with_bytes l n bs)) (flatten bs ++ xs)) (omega arith)
      (front-Shows (peek_bound n) bs 0 _ xs (peek_bound_pos n) (λ c. list-Shows (peek_bound n) c h))
