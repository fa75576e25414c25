-- ===== src/Codec/Tests.antt =====
-- Runs of the codec at concrete inputs, and its theorems applied to them.
use wsgnet.Prelude.{ℕ, ◌≡◌, refl, none, some, List, [], ◌∷◌, ◌++◌, arith}
use wsgnet.Errors.{short_buffer}
use wsgnet.Elastic.Held.{held}
use wsgnet.Conn.Inbound.{Inbound}
use wsgnet.Conn.Stream.{stream}
use wsgnet.Codec.{big_endian, header, encode, decode, write_uint24}
use wsgnet.Codec.RoundTrip.{decode-encode, decode-waits}
use wsgnet.Codec.Connection.{inbound_source}

-- A connection whose ring buffer is not in use.
abbrev holding : List ℕ → Inbound
holding xs = record { inbound_buffer = none; buffer = xs }

three_bytes : encode big_endian 3 (7 ∷ 8 ∷ []) ≡ some (0 ∷ 0 ∷ 2 ∷ 7 ∷ 8 ∷ [])
unfolding encode header write_uint24
three_bytes = refl

holding-stream : (xs : List ℕ) → stream (holding xs) ≡ xs
unfolding held
holding-stream xs = refl

decode-encode_example :
    (c : Inbound) × (decode inbound_source big_endian 3 (holding (0 ∷ 0 ∷ 2 ∷ 7 ∷ 8 ∷ 9 ∷ []))
      ≡ some (some (7 ∷ 8 ∷ []), none, c))
    × inbound_source.IsGood c
    × (stream c ≡ 9 ∷ [])
decode-encode_example =
    decode-encode inbound_source big_endian 3 (7 ∷ 8 ∷ []) (0 ∷ 0 ∷ 2 ∷ 7 ∷ 8 ∷ []) (9 ∷ [])
      (holding (0 ∷ 0 ∷ 2 ∷ 7 ∷ 8 ∷ 9 ∷ [])) (omega arith) (omega arith) (omega arith) (omega arith)
      three_bytes tt (holding-stream (0 ∷ 0 ∷ 2 ∷ 7 ∷ 8 ∷ 9 ∷ []))

partial : stream (holding (0 ∷ 0 ∷ 2 ∷ 7 ∷ [])) ++ 8 ∷ [] ≡ 0 ∷ 0 ∷ 2 ∷ 7 ∷ 8 ∷ []
unfolding held
partial = refl

decode-waits_example :
    decode inbound_source big_endian 3 (holding (0 ∷ 0 ∷ 2 ∷ 7 ∷ []))
    ≡ some (none, some short_buffer, holding (0 ∷ 0 ∷ 2 ∷ 7 ∷ []))
decode-waits_example =
    decode-waits inbound_source big_endian 3 (7 ∷ 8 ∷ []) (0 ∷ 0 ∷ 2 ∷ 7 ∷ 8 ∷ []) (8 ∷ [])
      (holding (0 ∷ 0 ∷ 2 ∷ 7 ∷ [])) (omega arith) (omega arith) (omega arith) (omega arith)
      three_bytes tt partial (omega arith)
