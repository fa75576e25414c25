-- ===== src/EventLoop/Calling.antt =====
-- connection.go: the methods that the application calls keep the map, the connections and their
-- count in agreement, in any order.
use wsgnet.Prelude.{ℕ, refl, Option, some, List, if-elim, ℤ, ◌>>=◌, length}
use wsgnet.Errors.{Error}
use wsgnet.Elastic.Buffer.{Buffer}
use wsgnet.Conn.Inbound as inbound
use wsgnet.Conn.Outbound.{Next, carry_on, watch_both, watch_read, fail, close}
use wsgnet.EventLoop.{
  Loop, Env, Settings, Talk, finish, call_write, call_writev, call_flush, call_next, call_peek,
  call_discard, turn_to,
}
use wsgnet.EventLoop.Calls.{
  count, set_outbound, perform, conn_write, send_to, write_any, writev_any, loop_write, flush_any,
  run,
}
use wsgnet.EventLoop.Consistent.{IsConsistent, Same-IsConsistent, set_conn-Same}
use wsgnet.EventLoop.Keeping.{
  bind-After, any-After, Good, keeps_world, keeps_inbound, close_conn-Good,
}

module _ {W App : Type 0} (env : Env W App) (cfg : Settings) (c : ℕ) where
  keeps_outbound :
      {st : Loop W App} (out : Buffer) (w : W)
      → IsConsistent st
      → IsConsistent (set_outbound st c out w)
  keeps_outbound {st} out w h =
      Same-IsConsistent (set_conn-Same _ c _ refl refl (λ _. refl)) (keeps_world w h)

  pub perform-Good :
      (next : Next) {st : Loop W App} → IsConsistent st → Good (perform env cfg c next st)
  unfolding perform
  perform-Good carry_on h = h
  perform-Good watch_both {st} h =
      if-elim (st.conns c).attached Good (λ _. keeps_world _ h) (λ _. tt)
  perform-Good watch_read {st} h =
      if-elim (st.conns c).attached Good (λ _. keeps_world _ h) (λ _. tt)
  perform-Good (fail e) h = h
  perform-Good (close e) h = close_conn-Good env cfg c (some e) h

  -- What conn.write and the like leave is put back, and the last call made.
  pub performed-Good :
      {st : Loop W App} (o : Option (Buffer × Next × W))
      → IsConsistent st
      → Good (do (out, next, w) ← o; perform env cfg c next (set_outbound st c out w))
  performed-Good o h =
      bind-After (λ _. Unit {0}) (λ r. IsConsistent r.1) o _ (any-After o)
        (λ (out, next, w) _. perform-Good next (keeps_outbound out w h))

  counted-Good :
      {st : Loop W App} (o : Option (Buffer × Next × W)) (n : ℕ)
      → IsConsistent st
      → Good {R = ℤ × Option Error} (do
        (out, next, w) ← o
        (err, st') ← perform env cfg c next (set_outbound st c out w)
        some ((count next n, err), st'))
  counted-Good o n h =
      bind-After (λ _. Unit {0}) (λ r. IsConsistent r.1) o _ (any-After o)
        (λ (out, next, w) _.
          bind-After (λ r. IsConsistent r.1) (λ r. IsConsistent r.1) _ _
            (perform-Good next (keeps_outbound out w h)) (λ _ k. k))

  pub conn_write-Good :
      {st : Loop W App} (p : List ℕ) → IsConsistent st → Good (conn_write env cfg c st p)
  unfolding conn_write
  conn_write-Good p h = counted-Good _ (length p) h

  send_to-Good :
      {st : Loop W App} (p : List ℕ) → IsConsistent st → IsConsistent (send_to env cfg c st p).1
  unfolding send_to
  send_to-Good p h = keeps_world _ h

  write_any-Good :
      {st : Loop W App} (p : List ℕ) → IsConsistent st → Good (write_any env cfg c st p)
  unfolding write_any
  write_any-Good {st} p h =
      if-elim (st.conns c).is_datagram Good (λ _. send_to-Good p h) (λ _. conn_write-Good p h)

  pub writev_any-Good :
      {st : Loop W App} (bs : List (List ℕ)) → IsConsistent st → Good (writev_any env cfg c st bs)
  unfolding writev_any
  writev_any-Good {st} bs h =
      if-elim (st.conns c).is_datagram Good (λ _. h) (λ _. counted-Good _ _ h)

  pub loop_write-Good : {st : Loop W App} → IsConsistent st → Good (loop_write env cfg c st)
  unfolding loop_write
  loop_write-Good h = performed-Good _ h

  flush_any-Good : {st : Loop W App} → IsConsistent st → Good (flush_any env cfg c st)
  unfolding flush_any
  flush_any-Good {st} h = if-elim (st.conns c).is_datagram Good (λ _. tt) (λ _. performed-Good _ h)

module _ {W App : Type 0} (env : Env W App) (cfg : Settings) where
  -- Whatever the application does in a callback.
  pub run-Good :
      {R : Type 0} (c : ℕ) (t : Talk R) {st : Loop W App}
      → IsConsistent st
      → Good (run env cfg c t st)
  unfolding run
  run-Good c (finish r) h = h
  run-Good c (call_write p f) h =
      bind-After (λ r. IsConsistent r.1) (λ r. IsConsistent r.1) _ _ (write_any-Good env cfg c p h)
        (λ (r, st1) k. run-Good c (f r) k)
  run-Good c (call_writev bs f) h =
      bind-After (λ r. IsConsistent r.1) (λ r. IsConsistent r.1) _ _
        (writev_any-Good env cfg c bs h) (λ (r, st1) k. run-Good c (f r) k)
  run-Good c (call_flush f) h =
      bind-After (λ r. IsConsistent r.1) (λ r. IsConsistent r.1) _ _ (flush_any-Good env cfg c h)
        (λ (r, st1) k. run-Good c (f r) k)
  run-Good c (call_next n f) {st} h =
      bind-After (λ _. Unit {0}) (λ r. IsConsistent r.1) _ _
        (any-After (inbound.next (st.conns c).inbound n))
        (λ (shown, err, i) _. run-Good c (f (shown, err)) (keeps_inbound c i h))
  run-Good c (call_peek n f) {st} h =
      bind-After (λ _. Unit {0}) (λ r. IsConsistent r.1) _ _
        (any-After (inbound.peek (st.conns c).inbound n))
        (λ (shown, err) _. run-Good c (f (shown, err)) h)
  run-Good c (call_discard n f) {st} h =
      bind-After (λ _. Unit {0}) (λ r. IsConsistent r.1) _ _
        (any-After (inbound.discard (st.conns c).inbound n))
        (λ (m, i) _. run-Good c (f m) (keeps_inbound c i h))
  run-Good c (turn_to d t) h = run-Good d t h
