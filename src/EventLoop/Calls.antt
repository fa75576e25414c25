-- ===== src/EventLoop/Calls.antt =====
-- connection.go: the methods of a connection that the application calls in a callback, on the state
-- of the event loop.
use wsgnet.Prelude.{ℕ, Option, none, some, List, if◌then◌else◌, length, ℤ, pos, negsuc, ◌>>=◌}
use wsgnet.Errors.{Error, unsupported_op}
use wsgnet.Elastic.Buffer.{Buffer}
use wsgnet.LinkedList.Peeking.{flatten}
use wsgnet.Conn.Inbound as inbound
use wsgnet.Conn.Inbound.{Inbound}
use wsgnet.Conn.Outbound.{Next, carry_on, watch_both, watch_read, fail, close, write, flush}
use wsgnet.Conn.Vectored.{writev, flush_if_any}
use wsgnet.EventLoop.{
  Loop, Env, Settings, Talk, finish, call_write, call_writev, call_flush, call_next, call_peek,
  call_discard, turn_to, set_conn,
}
use wsgnet.EventLoop.Closing.{close_conn}

-- The connection c with its inbound side, or its outbound buffer, changed.
abbrev pub set_inbound : {W App : Type 0} → Loop W App → ℕ → Inbound → Loop W App
set_inbound st c i = set_conn st c (record (st.conns c) { inbound = i })

abbrev pub set_outbound : {W App : Type 0} → Loop W App → ℕ → Buffer → W → Loop W App
set_outbound st c out w =
    set_conn (record st { world = w }) c (record (st.conns c) { outbound_buffer = out })

-- A count of -1 goes with an error on which the connection is closed.
abbrev pub count : Next → ℕ → ℤ
count (close e) n = negsuc 0
count _ n = pos n

module _ {W App : Type 0} (env : Env W App) (cfg : Settings) (c : ℕ) where
  -- What conn.write, conn.writev, conn.open and eventloop.write do last. A call to the poller with
  -- the attachment gone is a panic.
  unfoldable pub perform : Next → Loop W App → Option (Option Error × Loop W App)
  perform carry_on st = some (none, st)
  perform watch_both st =
      if (st.conns c).attached
      then (let (e, w) = env.mod_read_write (st.conns c).fd st.world in
          some (e, record st { world = w }))
      else none
  perform watch_read st =
      if (st.conns c).attached
      then (let (_, w) = env.mod_read (st.conns c).fd st.world in
          some (none, record st { world = w }))
      else none
  perform (fail e) st = some (some e, st)
  perform (close e) st = close_conn env cfg st c (some e)

  unfoldable pub conn_write : Loop W App → List ℕ → Option ((ℤ × Option Error) × Loop W App)
  unfolding perform
  conn_write st p = do
    let k = st.conns c
    (out, next, w) ← write env.mem env.pooled (env.send k.fd) k.outbound_buffer p st.world
    (err, st') ← perform next (set_outbound st c out w)
    some ((count next (length p), err), st')

  -- sendTo
  unfoldable pub send_to : Loop W App → List ℕ → (ℤ × Option Error) × Loop W App
  send_to st p =
      let (_, err, w) = env.send (st.conns c).fd st.world p in
      (
        elim err [ some e ↦ (negsuc 0, some e) | none ↦ (pos (length p), none) ],
        record st { world = w },
      )

  -- Write
  unfoldable pub write_any : Loop W App → List ℕ → Option ((ℤ × Option Error) × Loop W App)
  write_any st p = if (st.conns c).is_datagram then some (send_to st p) else conn_write st p

  -- Writev
  unfoldable pub writev_any : Loop W App → List (List ℕ) → Option ((ℤ × Option Error) × Loop W App)
  unfolding perform
  writev_any st bs =
      if (st.conns c).is_datagram then some ((negsuc 0, some unsupported_op), st) else do
        let k = st.conns c
        (out, next, w) ← writev env.mem env.pooled (env.send k.fd) k.outbound_buffer bs st.world
        (err, st') ← perform next (set_outbound st c out w)
        some ((count next (length (flatten bs)), err), st')

  -- eventloop.write, and Flush: the outbound buffer of a UDP connection is nil.
  unfoldable pub loop_write : Loop W App → Option (Option Error × Loop W App)
  unfolding perform
  loop_write st = do
    (out, next, w) ← flush (env.send (st.conns c).fd) (st.conns c).outbound_buffer st.world
    perform next (set_outbound st c out w)

  unfoldable pub flush_any : Loop W App → Option (Option Error × Loop W App)
  unfolding perform
  flush_any st = if (st.conns c).is_datagram then none else do
    (out, next, w) ← flush_if_any (env.send (st.conns c).fd) (st.conns c).outbound_buffer st.world
    perform next (set_outbound st c out w)

module _ {W App : Type 0} (env : Env W App) (cfg : Settings) where
  -- A callback for the connection c, to its end.
  unfoldable pub run : {R : Type 0} → ℕ → Talk R → Loop W App → Option (R × Loop W App)
  unfolding write_any writev_any flush_any
  run c (finish r) st = some (r, st)
  run c (call_write p f) st = do (r, st1) ← write_any env cfg c st p; run c (f r) st1
  run c (call_writev bs f) st = do (r, st1) ← writev_any env cfg c st bs; run c (f r) st1
  run c (call_flush f) st = do (r, st1) ← flush_any env cfg c st; run c (f r) st1
  run c (call_next n f) st = do
    (shown, err, i) ← inbound.next (st.conns c).inbound n
    run c (f (shown, err)) (set_inbound st c i)
  run c (call_peek n f) st = do
    (shown, err) ← inbound.peek (st.conns c).inbound n
    run c (f (shown, err)) st
  run c (call_discard n f) st = do
    (m, i) ← inbound.discard (st.conns c).inbound n
    run c (f m) (set_inbound st c i)
  run c (turn_to d t) st = run d t st
