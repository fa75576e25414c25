-- ===== src/Conn/Vectored.antt =====
-- connection.go: conn.writev, conn.Flush and OutboundBuffered. One writev is one write of the bytes
-- of its slices.
use wsgnet.Prelude.{
  ℕ, ◌-◌, ◌≤◌, ◌<◌, ◌≡◌, true, false, not, Option, none, some, List, [], ◌∷◌, ◌++◌, ltb,
  if◌then◌else◌, length, drop, arith, ap, ◌∙◌, dec_lt, lt→ltb, le→ltb, ◌>>=◌, drop-append, drop_all,
  length-append,
}
use wsgnet.Io.{Writer}
use wsgnet.Ring.Defs.{Ring}
use wsgnet.LinkedList.Peeking.{flatten}
use wsgnet.Elastic.Buffer.{Buffer, total}
use wsgnet.Elastic.Taking.{drop_within}
use wsgnet.Elastic.Buffer as elastic
use wsgnet.Conn.Outbound.{Next, carry_on, watch_both, close, on_error, flush}

-- The slices from the first on that was not sent whole, which is cut: the loop over the slices, for
-- fewer bytes sent than there are.
unfoldable pub unsent : List (List ℕ) → ℕ → List (List ℕ)
unsent [] sent = []
unsent (b ∷ bs) sent =
    let rest = unsent bs (sent - length b) in if ltb sent (length b) then drop sent b ∷ bs else rest

unfoldable pub outbound_buffered : Buffer → ℕ
outbound_buffered out = elastic.buffered out

module _ {S : Type 0} (mem : ℕ → ℕ → ℕ) (pooled : Ring) (send : Writer S) where
  unfoldable pub writev : Buffer → List (List ℕ) → S → Option (Buffer × Next × S)
  unfolding unsent
  writev out bs s =
      let (sent, err, s') = send s (flatten bs) in
      elim (not (elastic.is_empty out)) [
        | true ↦ do (_, out') ← elastic.writev mem pooled out bs; some (out', carry_on, s)
        | false ↦ elim err [
          | some e ↦
              on_error e
                (do (_, out') ← elastic.writev mem pooled out bs; some (out', watch_both, s'))
                (λ e. some (out, close e, s'))
          | none ↦
              if ltb sent (total bs)
              then (do
                (_, out') ← elastic.writev mem pooled out (unsent bs sent)
                some (out', watch_both, s'))
              else some (out, carry_on, s')
        ]
      ]

-- conn.Flush
unfoldable pub flush_if_any : {S : Type 0} → Writer S → Buffer → S → Option (Buffer × Next × S)
flush_if_any send out s = if elastic.is_empty out then some (out, carry_on, s) else flush send out s

drop_past : (n : ℕ) (b rest : List ℕ) → length b ≤ n → drop (n - length b) rest ≡ drop n (b ++ rest)
drop_past n b rest h = ground (arith, drop-append n b rest, drop_all n b)

unsent-cut :
    (b : List ℕ) (bs : List (List ℕ)) (sent : ℕ)
    → sent < length b
    → unsent (b ∷ bs) sent ≡ drop sent b ∷ bs
unfolding unsent
unsent-cut b bs sent h = ground (arith, lt→ltb sent (length b) h)

unsent-past :
    (b : List ℕ) (bs : List (List ℕ)) (sent : ℕ)
    → length b ≤ sent
    → unsent (b ∷ bs) sent ≡ unsent bs (sent - length b)
unfolding unsent
unsent-past b bs sent h = ground (arith, le→ltb sent (length b) h)

-- The slices that writev keeps after a short call are exactly the bytes that were not sent, in
-- order.
pub unsent_lem :
    (bs : List (List ℕ)) (sent : ℕ)
    → sent < length (flatten bs)
    → flatten (unsent bs sent) ≡ drop sent (flatten bs)
unfolding flatten
unsent_lem [] sent h = absurd (omega arith)
unsent_lem (b ∷ bs) sent h = elim (dec_lt sent (length b)) [
  | yes cut ↦ ap flatten (unsent-cut b bs sent cut) ∙ drop_within sent b (flatten bs) (omega arith)
  | no past ↦
      ap flatten (unsent-past b bs sent (omega arith))
      ∙ unsent_lem bs (sent - length b) (omega (arith, length-append b (flatten bs)))
      ∙ drop_past sent b (flatten bs) (omega arith)
]
