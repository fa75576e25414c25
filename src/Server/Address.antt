-- ===== src/Server/Address.antt =====
-- gnet.go: what parseProtoAddr makes of an address.
use wsgnet.Prelude.{
  ℕ, ◌≡◌, refl, ap, ap₂, ◌∙◌, Bool, true, false, ◌||◌, List, [], ◌∷◌, ◌++◌, map, if◌then◌else◌,
  arith, Bool-cases, inl, inr,
}
use wsgnet.Server.{is_sep, sep, has_sep, before, after, drop3, tcp, split_address, parse_proto_addr}

-- A text that does not start with "://" does not do so with "://" behind it.
no_early :
    (a : ℕ) (s rest : List ℕ) → is_sep (a ∷ s) ≡ false → is_sep (a ∷ (s ++ (sep ++ rest))) ≡ false
no_early a [] rest e = ground arith
no_early a (b ∷ []) rest e = ground arith
no_early a (b ∷ c ∷ s) rest e = e

parts :
    (a : ℕ) (s : List ℕ) → has_sep (a ∷ s) ≡ false → (is_sep (a ∷ s) ≡ false) × (has_sep s ≡ false)
parts a s e = elim (Bool-cases (is_sep (a ∷ s))) [
  | inl f ↦ absurd (ground (arith, f))
  | inr f ↦ (f, ground (arith, f))
]

before-none : (s : List ℕ) → has_sep s ≡ false → before s ≡ s
before-none [] e = refl
before-none (a ∷ s) e =
    let (f, g) = parts a s e in
    ap (λ b. if b then [] else a ∷ before s) f ∙ ap (◌∷◌ a) (before-none s g)

-- Before the first "://" there is none in the text in front of it.
before-sep : (s rest : List ℕ) → has_sep s ≡ false → before (s ++ (sep ++ rest)) ≡ s
before-sep [] rest e = refl
before-sep (a ∷ s) rest e =
    let (f, g) = parts a s e in
    ap (λ b. if b then [] else a ∷ before (s ++ (sep ++ rest))) (no_early a s rest f)
    ∙ ap (◌∷◌ a) (before-sep s rest g)

after-sep : (s rest : List ℕ) → has_sep s ≡ false → after (s ++ (sep ++ rest)) ≡ rest
after-sep [] rest e = refl
after-sep (a ∷ s) rest e =
    let (f, g) = parts a s e in
    ap (λ b. if b then drop3 (a ∷ (s ++ (sep ++ rest))) else after (s ++ (sep ++ rest)))
      (no_early a s rest f)
    ∙ after-sep s rest g

has_sep-append : (s rest : List ℕ) → has_sep (s ++ (sep ++ rest)) ≡ true
has_sep-append [] rest = refl
has_sep-append (a ∷ s) rest =
    ap (λ b. is_sep (a ∷ (s ++ (sep ++ rest))) || b) (has_sep-append s rest)
    ∙ any_or (is_sep (a ∷ (s ++ (sep ++ rest))))
  where
    any_or : (b : Bool) → (b || true) ≡ true
    any_or true = refl
    any_or false = refl

map-append : (f : ℕ → ℕ) (s t : List ℕ) → map f (s ++ t) ≡ map f s ++ map f t
map-append f [] t = refl
map-append f (a ∷ s) t = ap (◌∷◌ (f a)) (map-append f s t)

parse-joined :
    (address : List ℕ) (s t : List ℕ)
    → address ≡ s ++ (sep ++ t)
    → has_sep s ≡ false
    → has_sep t ≡ false
    → split_address address ≡ (s, t)
parse-joined address s t same e f =
    ap split_address same
    ∙ ap
        (λ b. both (
          if b
          then (before (s ++ (sep ++ t)), before (after (s ++ (sep ++ t))))
          else (tcp, s ++ (sep ++ t))))
        (has_sep-append s t)
    ∙ ap₂ pair (before-sep s t e) (ap before (after-sep s t e) ∙ before-none t f)
  where
    both : List ℕ × List ℕ → List ℕ × List ℕ
    both r = r

    pair : List ℕ → List ℕ → List ℕ × List ℕ
    pair x y = (x, y)

alone : (t : List ℕ) → has_sep t ≡ false → split_address t ≡ (tcp, t)
alone t f = ground (arith, f)

-- A network and an address whose texts in lower case do not contain "://", with "://" between them,
-- are taken apart again, in lower case; an address alone is one of "tcp". The lower case of a colon and
-- of a slash is the character itself.
pub parse_proto_addr-sep :
    (lower : ℕ → ℕ)
    → lower 58 ≡ 58
    → lower 47 ≡ 47
    → (network addr : List ℕ) → has_sep (map lower network) ≡ false
    → has_sep (map lower addr) ≡ false
    → (parse_proto_addr lower (network ++ (sep ++ addr)) ≡ (map lower network, map lower addr))
      × (parse_proto_addr lower addr ≡ (tcp, map lower addr))
unfolding parse_proto_addr
parse_proto_addr-sep lower colon slash network addr e f = (
  parse-joined (map lower (network ++ (sep ++ addr))) (map lower network) (map lower addr)
      (map-append lower network (sep ++ addr)
        ∙ ap (λ t. map lower network ++ t)
            (map-append lower sep addr ∙ ap (λ t. t ++ map lower addr) same_sep))
      e f,
  alone (map lower addr) f,
)
  where
    same_sep : map lower sep ≡ sep
    same_sep = ap₂ (λ a b. a ∷ b ∷ b ∷ []) colon slash
