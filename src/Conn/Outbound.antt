-- ===== src/Conn/Outbound.antt =====
-- connection.go and eventloop.go: the outbound side of a connection. The socket is a writer. Where
-- the code goes on to change what the poller watches, or to close the connection, that call is the
-- last thing it does, and is named in the result instead of made: `Next` below.
use wsgnet.Prelude.{
  ℕ, true, false, Option, none, some, List, [], ◌∷◌, ltb, if◌then◌else◌, length, slice, take, pos,
  negsuc, ◌>>=◌, not,
}
use wsgnet.Errors.{
  Error, is_empty, eof, short_write, short_buffer, negative_size, unsupported_op, engine_shutdown,
  again, other,
}
use wsgnet.Io.{Writer}
use wsgnet.Ring.Defs.{Ring}
use wsgnet.LinkedList.Peeking.{flatten}
use wsgnet.Elastic.Buffer.{Buffer}
use wsgnet.Elastic.Buffer as elastic

-- What is left to do after the buffer and the socket have been dealt with: nothing, to watch for
-- room to write too, to watch for bytes to read only, or to close for an error.
pub data Next : Type 0 where
  carry_on watch_both watch_read : Next
  fail close : Error → Next

-- `err == unix.EAGAIN`
unfoldable pub on_error : {A : Type 0} → Error → A → (Error → A) → A
on_error again a f = a
on_error is_empty a f = f is_empty
on_error eof a f = f eof
on_error short_write a f = f short_write
on_error short_buffer a f = f short_buffer
on_error negative_size a f = f negative_size
on_error unsupported_op a f = f unsupported_op
on_error engine_shutdown a f = f engine_shutdown
on_error (other n) a f = f (other n)

abbrev pub iov_max : ℕ
iov_max = 1024

module _ {S : Type 0} (mem : ℕ → ℕ → ℕ) (pooled : Ring) (send : Writer S) where
  -- conn.write: the buffer, what is left to do, and the socket. A count of -1 goes with `close`, and
  -- the length of the slice with the others.
  unfoldable pub write : Buffer → List ℕ → S → Option (Buffer × Next × S)
  write out p s =
      let (sent, err, s') = send s p in
      elim (not (elastic.is_empty out)) [
        | true ↦ do (_, out') ← elastic.write mem pooled out p; some (out', carry_on, s)
        | false ↦ elim err [
          | some e ↦
              on_error e
                (do (_, out') ← elastic.write mem pooled out p; some (out', watch_both, s'))
                (λ e. some (out, close e, s'))
          | none ↦
              if ltb sent (length p)
              then (do
                rest ← slice p sent (length p)
                (_, out') ← elastic.write mem pooled out rest
                some (out', watch_both, s'))
              else some (out, carry_on, s')
        ]
      ]

  -- conn.open: the greeting that OnOpen returns.
  unfoldable pub open_with : Buffer → List ℕ → S → Option (Buffer × Next × S)
  open_with out p s =
      let (sent, err, s') = send s p in
      elim err [
        | some e ↦
            on_error e (do (_, out') ← elastic.write mem pooled out p; some (out', carry_on, s'))
              (λ e. some (out, fail e, s'))
        | none ↦
            if ltb sent (length p)
            then (do
              rest ← slice p sent (length p)
              (_, out') ← elastic.write mem pooled out rest
              some (out', carry_on, s'))
            else some (out, carry_on, s')
      ]

module _ {S : Type 0} (send : Writer S) where
  -- One writev of at most `iov_max` slices is one write of their bytes. Of an empty list of slices
  -- the code would take the first, a panic.
  unfoldable pub send_slices : List (List ℕ) → S → Option (ℕ × Option Error × S)
  send_slices [] s = none
  send_slices (b ∷ bs) s = some (send s (flatten (take iov_max (b ∷ bs))))

  -- eventloop.write: what is shown of the buffer is written, and what the socket took discarded.
  unfoldable pub flush : Buffer → S → Option (Buffer × Next × S)
  unfolding send_slices
  flush out s = do
    iov ← elastic.peek out (negsuc 0)
    (n, err, s') ← send_slices iov s
    let (_, _, out') = elastic.discard out (pos n)
    elim err [
      | some e ↦ on_error e (some (out', carry_on, s')) (λ e. some (out', close e, s'))
      | none ↦ some (out', (if elastic.is_empty out' then watch_read else carry_on), s')
    ]
