-- ===== src/LinkedList/Transfer.antt =====
-- pkg/buffer/linkedlist/linked_list_buffer.go: ReadFrom and WriteTo.
use wsgnet.Prelude.{ℕ, zero, suc, ◌+◌, Option, none, some, ltb, length, true, false}
use wsgnet.Errors.{Error, short_write}
use wsgnet.Io.{Reader, Writer}
use wsgnet.Ring.Transfer.{without_eof}
use wsgnet.LinkedList.Defs.{LinkedList, new_node, pop, push_back_node, put_back}

abbrev pub min_read : ℕ
min_read = 512

-- The count, the error and the states of a transfer.
abbrev pub Moved : Type 0 → Type 0
Moved S = ℕ × Option Error × LinkedList × S

-- ReadFrom on fuel, from the count n on: `none` says that the fuel ran out.
unfoldable pub read_from : {S : Type 0} → Reader S → ℕ → LinkedList → ℕ → S → Option (Moved S)
read_from read zero l n s = none
read_from read (suc fuel) l n s =
    let (chunk, err, s') = read s min_read in
    elim err [
      | some e ↦ some (n + length chunk, without_eof e, l, s')
      | none ↦
          let (b, l') = new_node l chunk in
          read_from read fuel (push_back_node l' b) (n + length chunk) s'
    ]

-- WriteTo on fuel, from the count n on: `none` is the panic of a count beyond the slice.
unfoldable pub write_loop : {S : Type 0} → Writer S → ℕ → LinkedList → ℕ → S → Option (Moved S)
write_loop write zero l n s = some (n, none, l, s)
write_loop write (suc fuel) l n s =
    let (o, l1) = pop l in
    elim o [
      | none ↦ some (n, none, l1, s)
      | some b ↦
          let (m, err, s') = write s (l1.buf b) in
          elim (ltb (length (l1.buf b)) m) [
            | true ↦ none
            | false ↦ elim err [
              | some e ↦ some (n + m, some e, l1, s')
              | none ↦ elim (ltb m (length (l1.buf b))) [
                | true ↦ some (n + m, some short_write, put_back l1 b m, s')
                | false ↦ write_loop write fuel l1 (n + m) s'
              ]
            ]
          ]
    ]

unfoldable pub write_to : {S : Type 0} → Writer S → LinkedList → S → Option (Moved S)
write_to write l s = write_loop write (suc l.size) l 0 s
