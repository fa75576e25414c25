-- ===== src/Ring/Draining.antt =====
-- What WriteTo hands to the writer, and what it leaves in the buffer.
use wsgnet.Prelude.{
  ℕ, zero, suc, ◌+◌, ◌%◌, ◌≤◌, ◌<◌, ◌≡◌, ◌≢◌, refl, true, false, Option, none, some, List, [], ◌++◌,
  length, take, drop, arith, length-drop, append-nil, sym, ap, ap₂, drop-drop, take_add, ◌∙◌, subst,
  subst₂, slice, ◌⊎◌, inl, inr, ◌∷◌, Option-cases, dec_lt, Bool-cases,
}
use wsgnet.Errors.{Error, short_write}
use wsgnet.Io.{Writer, Honest, Accepts, concat, hand, hand-fails, hand-short, hand-on}
use wsgnet.Ring.Defs.{Ring, buffered}
use wsgnet.Ring.Reading.{reset_if_drained}
use wsgnet.Ring.Transfer.{Transferred, write_result, write_straight, write_back}
use wsgnet.Ring.Contents.{IsValid, contents, length-contents}
use wsgnet.Ring.Removal.{advance, mod_once, contents_empty}
use wsgnet.Ring.Delivery.{drained_lem}

reset_if_drained-ne : (b : Ring) → b.r ≢ b.w → reset_if_drained b ≡ b
unfolding reset_if_drained
reset_if_drained-ne b h = ground arith

-- The buffer that is left when n bytes have been taken off, which may be none.
settled_lem :
    {b : Ring} (n : ℕ)
    → IsValid b
    → b.is_empty ≡ false
    → (b.r ≡ b.w → 0 < n)
    → n ≤ buffered b
    → IsValid (reset_if_drained (advance b n))
      × (contents (reset_if_drained (advance b n)) ≡ drop n (contents b))
settled_lem {b} zero v e away h = (rw unmoved v, ap contents unmoved)
  where
    same : advance b 0 ≡ b
    same = ap (λ k. record b { r = k }) (ground (arith, mod_once (b.r + 0) b.size, v.room))

    unmoved : reset_if_drained (advance b 0) ≡ b
    unmoved = ap reset_if_drained same ∙ reset_if_drained-ne b (λ q. absurd (omega (arith, away q)))
settled_lem {b} (suc n) v e away h = drained_lem (suc n) v e (omega arith) h

pub fails_or : {P : Type 0} (err : Option Error) → (err ≡ none → P) → (err ≢ none) ⊎ P
fails_or none f = inr (f refl)
fails_or (some e) f = inl (λ q. cc)

no_bytes-empty : {b : Ring} → IsValid b → length (contents b) ≡ 0 → b.is_empty ≡ true
unfolding buffered
no_bytes-empty {b} v e = ground (arith, e, length-contents v, v.room, v.r_in, v.w_in)

module _ {S : Type 0} (write : Writer S) where
  -- The count, the error and the writer are those of handing over the bytes in pieces.
  abbrev pub Handed : List ℕ → S → Transferred S → Type 0
  Handed xs s out =
      (ps : List (List ℕ)) × (concat ps ≡ xs) × (hand write ps s ≡ (out.0, out.1, out.3))

  -- What a WriteTo has done: the writer was handed what is held, in pieces one after the other; it
  -- took the first bytes, and the buffer holds the rest; no error is returned only where all is gone.
  pub record Drained (b : Ring) (s : S) (out : Transferred S) : Type 0 where
    pub valid : IsValid out.2
    pub count : out.0 ≤ length (contents b)
    pub rest : contents out.2 ≡ drop out.0 (contents b)
    pub taken : Accepts write s (take out.0 (contents b)) out.3
    pub finished : (out.1 ≢ none) ⊎ (contents out.2 ≡ [])
    pub handed : Handed (contents b) s out

  result-fine :
      (n : ℕ) (err : Option Error) (b : Ring) (s : S)
      → (write_result write n err b s).1 ≡ none
      → b.is_empty ≡ true
  unfolding write_result
  result-fine n none b s h = ground arith
  result-fine n (some e) b s h = cc

  pub result-parts :
      (n : ℕ) (err : Option Error) (b : Ring) (s : S)
      → let out = write_result write n err b s in (out.0 ≡ n) × (out.2 ≡ b) × (out.3 ≡ s)
  unfolding write_result
  result-parts n none b s = (refl, refl, refl)
  result-parts n (some e) b s = (refl, refl, refl)

  pub Accepts-one : (s : S) (p : List ℕ) → Accepts write s (take (write s p).0 p) (write s p).2
  Accepts-one s p =
      subst (λ xs. Accepts write s xs (write s p).2) (append-nil (take (write s p).0 p))
        (Accepts.more s p [] (write s p).2 (Accepts.done (write s p).2))

  abbrev triple : ℕ → Option Error → S → ℕ × Option Error × S
  triple n err s = (n, err, s)

  result-add :
      (c m : ℕ) (err : Option Error) (b : Ring) (s : S)
      → let rest = write_result write m err b s in
        let all = write_result write (c + m) err b s in
        triple (c + rest.0) rest.1 rest.3 ≡ triple all.0 all.1 all.3
  unfolding write_result
  result-add c m none b s = refl
  result-add c m (some e) b s = refl

  -- The error of handing over one piece.
  record OfOne (p : List ℕ) (m : ℕ) (err given : Option Error) : Type 0 where
    failed : (e : Error) → err ≡ some e → given ≡ some e
    cut : err ≡ none → m < length p → given ≡ some short_write
    whole : err ≡ none → length p ≤ m → given ≡ none

  hand_one :
      (s : S) (p : List ℕ) (given : Option Error)
      → OfOne p (write s p).0 (write s p).1 given
      → hand write (p ∷ []) s ≡ ((write s p).0, given, (write s p).2)
  unfolding hand
  hand_one s p given o = elim (Option-cases (write s p).1) [
    | inr (e, q) ↦
        hand-fails write p [] s e q
        ∙ ap (λ g. ((write s p).0, g, (write s p).2)) (sym (o.failed e q))
    | inl q ↦ elim (dec_lt (write s p).0 (length p)) [
      | yes part ↦
          hand-short write p [] s q part
          ∙ ap (λ g. ((write s p).0, g, (write s p).2)) (sym (o.cut q part))
      | no all ↦
          hand-on write p [] s q (omega arith)
          ∙ ap₂ (λ n g. (n, g, (write s p).2)) {x = (write s p).0 + 0} {y = (write s p).0}
              (omega arith) (sym (o.whole q (omega arith)))
    ]
  ]

  straight-result :
      {held : List ℕ} (m : ℕ) (b : Ring) (t : S)
      → IsValid b
      → contents b ≡ drop m held
      → (err : Option Error) → OfOne held m err (write_result write m err b t).1
  unfolding write_result
  straight-result {held} m b t v e none = record {
    failed = λ e q. absurd cc;
    cut = λ q h. elim (Bool-cases b.is_empty) [
      | inl empty ↦
          absurd
            (omega (arith, ap length (contents_empty b empty), ap length e, length-drop m held))
      | inr some_left ↦ ground (arith, some_left)
    ];
    whole =
        λ q h. ground (arith, no_bytes-empty v (omega (arith, ap length e, length-drop m held)));
  }
  straight-result {held} m b t v e (some err) = record {
    failed = λ e q. q;
    cut = λ q h. absurd cc;
    whole = λ q h. absurd cc;
  }

  -- One write of all that is held.
  pub straight-Drained :
      {b : Ring} (s : S)
      → IsValid b
      → b.is_empty ≡ false
      → Honest write
      → (b.r ≡ b.w → 0 < (write s (contents b)).0)
      → let (m, err, t) = write s (contents b) in
        Drained b s (write_result write m err (reset_if_drained (advance b m)) t)
  straight-Drained {b} s v e honest away = record {
    valid = subst IsValid (sym parts.1) left.0;
    count = omega (arith, parts.0, honest s held);
    rest = ap contents parts.1 ∙ left.1 ∙ ap (λ n. drop n held) (sym parts.0);
    taken =
        subst₂ (λ n t. Accepts write s (take n held) t) (sym parts.0) (sym parts.2)
          (Accepts-one s held);
    finished = fails_or _ (λ q. ap contents parts.1 ∙ contents_empty b' (result-fine m err b' t q));
    handed = (
      held ∷ [],
      append-nil held,
      hand_one s held _ (straight-result m b' t left.0 left.1 err) ∙ same,
    );
  }
    where
      held : List ℕ
      held = contents b

      m : ℕ
      m = (write s held).0

      err : Option Error
      err = (write s held).1

      t : S
      t = (write s held).2

      b' : Ring
      b' = reset_if_drained (advance b m)

      parts : let out = write_result write m err b' t in (out.0 ≡ m) × (out.2 ≡ b') × (out.3 ≡ t)
      parts = result-parts m err b' t

      same : let out = write_result write m err b' t in triple m out.1 t ≡ triple out.0 out.1 out.3
      same = ap₂ (λ n u. triple n (write_result write m err b' t).1 u) (sym parts.0) (sym parts.2)

      left : IsValid b' × (contents b' ≡ drop m held)
      left = settled_lem m v e away (omega (arith, honest s held, length-contents v))

  pub straight-eq :
      (b : Ring) (n : ℕ) (s : S) (next : ℕ → ℕ)
      → slice b.buf b.r (b.r + n) ≡ some (contents b)
      → n ≡ length (contents b)
      → Honest write
      → ((m : ℕ) → m ≤ n → next m ≡ (b.r + m) % b.size)
      → let (m, err, t) = write s (contents b) in
        write_straight write b n s next
        ≡ some (write_result write m err (reset_if_drained (advance b m)) t)
  unfolding write_straight
  straight-eq b n s next found size honest step =
      ground (arith, found, honest s (contents b), step (write s (contents b)).0)

  -- The second write of data that goes round: all that is held lies at the start.
  pub back-eq :
      (b : Ring) (c1 c2 : ℕ) (s : S)
      → slice b.buf 0 c2 ≡ some (contents b)
      → c2 ≡ length (contents b)
      → Honest write
      → b.r ≡ 0
      → let (m, err, t) = write s (contents b) in
        m < b.size
        → write_back write b c1 c2 s
          ≡ some (write_result write (c1 + m) err (reset_if_drained (advance b m)) t)
  unfolding write_back
  back-eq b c1 c2 s found size honest zero_r h =
      ground (arith, found, honest s (contents b), mod_once (b.r + (write s (contents b)).0) b.size)

  -- A transfer of the rest after a first write that took c bytes.
  pub Drained-after :
      {b rest : Ring} {s t : S} (c m : ℕ) (err : Option Error) (b' : Ring) (u : S) (p : List ℕ)
      → c ≤ length (contents b)
      → contents rest ≡ drop c (contents b)
      → ((ys : List ℕ) → Accepts write t ys u → Accepts write s (take c (contents b) ++ ys) u)
      → p ++ contents rest ≡ contents b
      → ((ps : List (List ℕ))
          → let h = hand write ps t in hand write (p ∷ ps) s ≡ (c + h.0, h.1, h.2))
      → Drained rest t (write_result write m err b' u)
      → Drained b s (write_result write (c + m) err b' u)
  Drained-after {b} {rest} {s} {t} c m err b' u p h same join parted on d = record {
    valid = subst IsValid (there.1 ∙ sym here.1) d.valid;
    count = omega (arith, here.0, there.0, d.count, ap length same, length-drop c (contents b));
    rest =
        ap contents (here.1 ∙ sym there.1)
        ∙ d.rest
        ∙ ap₂ drop there.0 same
        ∙ drop-drop m c (contents b)
        ∙ ap (λ n. drop n (contents b)) (sym here.0);
    taken =
        subst₂ (λ xs v. Accepts write s xs v)
          (sym (
            ap (λ n. take n (contents b)) here.0
            ∙ take_add c m (contents b)
            ∙ ap (λ xs. take c (contents b) ++ take m xs) (sym same)))
          (sym here.2)
          (join (take m (contents rest))
            (subst₂ (λ n v. Accepts write t (take n (contents rest)) v) there.0 there.2 d.taken));
    finished =
        fails_or _ (λ q. ap contents here.1 ∙ contents_empty b' (result-fine (c + m) err b' u q));
    handed =
        let (ps, flat, ran) = d.handed in
        (
          p ∷ ps,
          ap (λ xs. p ++ xs) flat ∙ parted,
          on ps ∙ ap (λ r. (c + r.0, r.1, r.2)) ran ∙ added_up,
        );
  }
    where
      here :
          let out = write_result write (c + m) err b' u in
          (out.0 ≡ c + m) × (out.2 ≡ b') × (out.3 ≡ u)
      here = result-parts (c + m) err b' u

      there : let out = write_result write m err b' u in (out.0 ≡ m) × (out.2 ≡ b') × (out.3 ≡ u)
      there = result-parts m err b' u

      added_up :
          let rest = write_result write m err b' u in
          let all = write_result write (c + m) err b' u in
          triple (c + rest.0) rest.1 rest.3 ≡ triple all.0 all.1 all.3
      added_up = result-add c m err b' u
