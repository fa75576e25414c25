-- ===== src/LinkedList/Tests.antt =====
-- Runs of the list at concrete inputs, and its theorems applied to them.
use wsgnet.Prelude.{
  ℕ, ◌≡◌, ◌==◌, refl, none, some, List, [], ◌∷◌, ◌++◌, length, take, copy, arith, pos, min,
  if◌then◌else◌,
}
use wsgnet.Errors.{again}
use wsgnet.Io.{concat, Writer, Honest}
use wsgnet.LinkedList.Defs.{LinkedList, read, discard}
use wsgnet.LinkedList.Transfer.{Moved, write_to}
use wsgnet.LinkedList.Shape.{Linked}
use wsgnet.LinkedList.Contents.{Holds}
use wsgnet.LinkedList.Reading.{read-Holds}
use wsgnet.LinkedList.Discarding.{discard-Holds}
use wsgnet.LinkedList.Draining.{Sent, write_to-Sent, write_to_drops}

-- Two nodes, of two bytes and of one.
abbrev two_nodes : LinkedList
two_nodes = record {
  next = λ i. if i == 0 then some 1 else none;
  buf = λ i. if i == 0 then 1 ∷ 2 ∷ [] else 3 ∷ [];
  fresh = 2;
  head = some 0;
  tail = some 1;
  size = 2;
  bytes = 3;
}

two_nodes-Linked : Linked two_nodes (0 ∷ 1 ∷ [])
two_nodes-Linked = record {
  chain = (refl, (refl, refl));
  last = refl;
  size_eq = refl;
  bytes_eq = refl;
  distinct = (((λ e. absurd (omega (arith, e))), tt), (tt, tt));
  below = (omega arith, (omega arith, tt));
}

two_nodes-Holds : Holds two_nodes (1 ∷ 2 ∷ 3 ∷ [])
two_nodes-Holds = (0 ∷ 1 ∷ [], two_nodes-Linked, refl)

abbrev takes_two : Writer (List ℕ)
takes_two s p = (min 2 (length p), none, s ++ take 2 p)

takes_two-Honest : Honest takes_two
takes_two-Honest s p = omega arith

abbrev fails : Writer (List ℕ)
fails s p = (min 1 (length p), some again, s ++ take 1 p)

fails-Honest : Honest fails
fails-Honest s p = omega arith

read-Holds_example :
    ((read two_nodes (0 ∷ 0 ∷ [])).0 ≡ copy (0 ∷ 0 ∷ []) (1 ∷ 2 ∷ 3 ∷ []))
    × ((read two_nodes (0 ∷ 0 ∷ [])).1 ≡ 2)
    × Holds (read two_nodes (0 ∷ 0 ∷ [])).2 (3 ∷ [])
read-Holds_example = read-Holds (0 ∷ 0 ∷ []) two_nodes-Holds

discard-Holds_example :
    ((discard two_nodes (pos 1)).0 ≡ 1) × Holds (discard two_nodes (pos 1)).1 (2 ∷ 3 ∷ [])
discard-Holds_example = discard-Holds (pos 1) two_nodes-Holds

write_to-Sent_example :
    (out : Moved (List ℕ)) × (write_to takes_two two_nodes [] ≡ some out)
    × (ps : List (List ℕ)) × (concat ps ≡ 1 ∷ 2 ∷ 3 ∷ [])
    × Sent takes_two (1 ∷ 2 ∷ 3 ∷ []) ps [] 0 out
write_to-Sent_example = write_to-Sent takes_two [] takes_two-Honest (λ t p. refl) two_nodes-Holds

write_to_drops_example :
    (l' : LinkedList) × (write_to fails two_nodes [] ≡ some (1, some again, l', 1 ∷ []))
    × Holds l' (3 ∷ [])
write_to_drops_example =
    write_to_drops fails two_nodes 0 (1 ∷ []) [] again fails-Honest two_nodes-Linked refl
