-- ===== src/Ring/DeliveringByte.antt =====
-- pkg/buffer/ring/ring_buffer.go: what ReadByte gives and leaves.
use wsgnet.Prelude.{
  ℕ, ◌+◌, ◌-◌, ◌≡◌, sym, ap, get_elem?_within, cons_of_first, get_elem?-take, get_elem?-drop,
  get_elem?-append, ◌∙◌, true, false, none, some, ◌∷◌, take, drop, get_elem?, arith, length-drop,
}
use wsgnet.Errors.{is_empty}
use wsgnet.Ring.Defs.{Ring}
use wsgnet.Ring.Reading.{reset_if_drained, read_byte}
use wsgnet.Ring.Contents.{IsValid, contents}
use wsgnet.Ring.Removal.{mod_once, advance}
use wsgnet.Ring.Delivery.{drained_lem, buffered_pos}

read_byte-eq :
    {b : Ring} (c : ℕ)
    → IsValid b
    → b.is_empty ≡ false
    → get_elem? b.buf b.r ≡ some c
    → read_byte b ≡ some (c, none, reset_if_drained (advance b 1))
unfolding read_byte
read_byte-eq {b} c v e g = ground (arith, mod_once (b.r + 1) b.size)

first-contents :
    {b : Ring} → IsValid b → b.is_empty ≡ false → get_elem? (contents b) 0 ≡ get_elem? b.buf b.r
unfolding contents
first-contents {b} v e = ground (
  arith,
  get_elem?-take (b.w - b.r) (drop b.r b.buf) 0,
  get_elem?-drop b.r b.buf 0,
  get_elem?-append (drop b.r b.buf) (take b.w b.buf) 0,
  length-drop b.r b.buf,
)

-- ReadByte takes the oldest byte off a buffer that is not empty, and does not panic.
pub read_byte_lem :
    {b : Ring}
    → IsValid b
    → b.is_empty ≡ false
    → (c : ℕ) × (b' : Ring) × (read_byte b ≡ some (c, none, b'))
      × IsValid b'
      × (contents b ≡ c ∷ contents b')
read_byte_lem {b} v e = (
  c,
  reset_if_drained (advance b 1),
  read_byte-eq c v e found.1,
  left.0,
  cons_of_first (contents b) c (first-contents v e ∙ found.1) ∙ ap (◌∷◌ c) (sym left.1),
)
  where
    found : (c : ℕ) × (get_elem? b.buf b.r ≡ some c)
    found = get_elem?_within b.buf b.r (omega (arith, v.room e))

    c : ℕ
    c = found.0

    left :
        IsValid (reset_if_drained (advance b 1))
        × (contents (reset_if_drained (advance b 1)) ≡ drop 1 (contents b))
    left = drained_lem 1 v e (omega arith) (buffered_pos v e)

-- On a buffer that is empty ReadByte gives ErrIsEmpty and changes nothing.
pub read_byte_empty : (b : Ring) → b.is_empty ≡ true → read_byte b ≡ some (0, some is_empty, b)
unfolding read_byte
read_byte_empty b e = ground arith
