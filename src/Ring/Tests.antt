-- ===== src/Ring/Tests.antt =====
-- Runs of the buffer at concrete inputs, and its theorems applied to them.
use wsgnet.Prelude.{
  ℕ, ◌+◌, ◌<◌, ◌≡◌, refl, false, none, some, List, [], ◌∷◌, ◌++◌, length, take, drop, arith,
  length-take, length-tabulate, min, ◌⊎◌,
}
use wsgnet.Errors.{again}
use wsgnet.Io.{Reader, Writer, Honest, Fits}
use wsgnet.Ring.Defs.{Ring, zeros, available, buffered}
use wsgnet.Ring.Reading.{read, ReadResult}
use wsgnet.Ring.Growing.{grow, write, write_byte}
use wsgnet.Ring.Transfer.{write_to, Transferred}
use wsgnet.Ring.Socket.{copy_from_socket}
use wsgnet.Ring.Contents.{IsValid, contents}
use wsgnet.Ring.Delivery.{Delivers, read_lem}
use wsgnet.Ring.Growth.{Grown, grow_lem}
use wsgnet.Ring.Writing.{write_lem}
use wsgnet.Ring.WritingByte.{write_byte_panics}
use wsgnet.Ring.Draining.{Drained}
use wsgnet.Ring.DrainingAll.{write_to_lem, write_to_loses}
use wsgnet.Ring.Filling.{Received}
use wsgnet.Ring.Receiving.{copy_from_socket_lem}

-- Memory from the pool is not zeroed.
abbrev junk : ℕ → ℕ → ℕ
junk n i = n + i

-- Four bytes, of which the two that are held go round the end.
abbrev wrapped : Ring
wrapped = record { buf = 11 ∷ 12 ∷ 13 ∷ 14 ∷ []; size = 4; r = 3; w = 1; is_empty = false }

wrapped-IsValid : IsValid wrapped
wrapped-IsValid = record {
  held = refl;
  r_in = omega arith;
  w_in = omega arith;
  empty_meets = λ e. cc;
  room = λ _. omega arith;
}

wrapped-contents : contents wrapped ≡ 14 ∷ 11 ∷ []
unfolding contents
wrapped-contents = refl

-- A full buffer of the size n.
abbrev full : ℕ → Ring
full n = record { buf = zeros n; size = n; r = 0; w = 0; is_empty = false }

full-IsValid : (n : ℕ) → 0 < n → IsValid (full n)
full-IsValid n h = record {
  held = length-tabulate n (λ _. 0);
  r_in = omega arith;
  w_in = omega arith;
  empty_meets = λ e. cc;
  room = λ _. h;
}

-- A writer that takes all, one that takes two bytes of each slice, and one that takes nothing.
abbrev takes_all : Writer (List ℕ)
takes_all s p = (length p, none, s ++ p)

abbrev takes_two : Writer (List ℕ)
takes_two s p = (min 2 (length p), none, s ++ take 2 p)

abbrev refuses : Writer (List ℕ)
refuses s p = (0, some again, s)

takes_two-Honest : Honest takes_two
takes_two-Honest s p = omega arith

refuses-Honest : Honest refuses
refuses-Honest s p = omega arith

-- A socket that holds bytes.
abbrev gives : Reader (List ℕ)
gives s n = (take n s, none, drop n s)

gives-Fits : Fits gives
gives-Fits s n = omega (arith, length-take n s)

read_lem_example :
    (out : ReadResult) × (read wrapped (0 ∷ 0 ∷ 0 ∷ []) ≡ some out)
    × Delivers wrapped (0 ∷ 0 ∷ 0 ∷ []) out
read_lem_example = read_lem (0 ∷ 0 ∷ 0 ∷ []) wrapped-IsValid refl (omega arith)

wrapped_below : buffered wrapped < 5
unfolding buffered
wrapped_below = omega arith

grow_lem_example : (b' : Ring) × (grow junk wrapped 5 ≡ some b') × Grown wrapped 5 b'
grow_lem_example = grow_lem junk 5 wrapped-IsValid (omega arith) wrapped_below (omega arith)

write_lem_example :
    (b' : Ring) × (write junk wrapped (21 ∷ 22 ∷ 23 ∷ []) ≡ some (3, b'))
    × IsValid b'
    × (contents b' ≡ contents wrapped ++ 21 ∷ 22 ∷ 23 ∷ [])
write_lem_example = write_lem junk (21 ∷ 22 ∷ 23 ∷ []) wrapped-IsValid (omega arith)

full_has_no_room : (n : ℕ) → available (full n) ≡ 0
unfolding available
full_has_no_room n = refl

write_byte_panics_example : write_byte junk (full 4096) 21 ≡ none
write_byte_panics_example =
    write_byte_panics junk 21 (full-IsValid 4096 (omega arith)) (full_has_no_room 4096)
      (omega arith) (omega arith)

write_to_lem_example :
    (out : Transferred (List ℕ)) × (write_to takes_two wrapped [] ≡ some out)
    × Drained takes_two wrapped [] out
write_to_lem_example =
    write_to_lem takes_two [] takes_two-Honest wrapped-IsValid refl (λ e. absurd (omega (arith, e)))

write_to_loses_example :
    (out : Transferred (List ℕ)) × (write_to refuses (full 8) [] ≡ some out)
    × (out.0 ≡ 0)
    × (out.1 ≡ some again)
    × (contents out.2 ≡ [])
write_to_loses_example =
    write_to_loses refuses [] refuses-Honest (full-IsValid 8 (omega arith)) refl refl refl refl

copy_from_socket_lem_example :
    (room : ℕ) × (out : Transferred (List ℕ)) × (copy_from_socket junk gives wrapped
        (31 ∷ 32 ∷ 33 ∷ [])
      ≡ some out)
    × ((wrapped.size ≡ 0) ⊎ (0 < room))
    × Received gives wrapped (31 ∷ 32 ∷ 33 ∷ []) room out
copy_from_socket_lem_example =
    copy_from_socket_lem junk gives (31 ∷ 32 ∷ 33 ∷ []) gives-Fits wrapped-IsValid (omega arith)
      (λ e. absurd (omega (arith, e)))
