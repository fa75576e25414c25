-- ===== src/EventLoop/Handling.antt =====
-- eventloop.go and connection.go: every handler keeps the map, the connections and their count in
-- agreement.
use wsgnet.Prelude.{
  ℕ, ◌<◌, ◌≡◌, refl, sym, true, false, not, Option, none, some, List, [], ◌∷◌, ◌==◌, ◌&&◌, if-elim,
  length, bit_and,
}
use wsgnet.Errors.{
  Error, again, is_empty, eof, short_write, short_buffer, negative_size, unsupported_op,
  engine_shutdown, other,
}
use wsgnet.Elastic.Buffer.{Buffer}
use wsgnet.Elastic.RingBuffer as ring
use wsgnet.Elastic.Buffer as elastic
use wsgnet.Conn.Outbound.{on_error}
use wsgnet.EventLoop.{
  Loop, Env, Settings, Action, keep, shutdown, Talk, lookup, insert, set_conn, add_conn,
}
use wsgnet.EventLoop.Closing.{release_tcp, release_udp}
use wsgnet.EventLoop.Consistent.{IsConsistent, Same-IsConsistent, set_conn-Same, added, made_new}
use wsgnet.EventLoop.Keeping.{
  After, bind-After, any-After, Good, keeps_rest, keeps_world, keeps_app, keeps_inbound,
  close_conn-Good,
}
use wsgnet.EventLoop.Calling.{
  performed-Good, conn_write-Good, writev_any-Good, loop_write-Good, run-Good,
}
use wsgnet.EventLoop.Handlers.{
  Handled, checked, is_current, received, received_from, register_udp, register_tcp, call_back,
  wake_task, close_task, Filter, filter_sock, filter_write, filter_read, filter_other,
  handle_action, greet, watch_written, open_conn, register, after_traffic, read_packet, read, wake,
  handle_events, handle_filter, async_write, async_writev, new_udp_conn, read_datagram, read_udp,
  close_all, close_all_sockets, in_events, out_events,
}

-- An error that is not EAGAIN goes the other way.
pub on_error-elim :
    {A : Type 0} (P : A → Type 0) (e : Error) {a : A} {f : Error → A}
    → P a
    → ((e : Error) → P (f e))
    → P (on_error e a f)
unfolding on_error
on_error-elim P again x k = x
on_error-elim P is_empty x k = k is_empty
on_error-elim P eof x k = k eof
on_error-elim P short_write x k = k short_write
on_error-elim P short_buffer x k = k short_buffer
on_error-elim P negative_size x k = k negative_size
on_error-elim P unsupported_op x k = k unsupported_op
on_error-elim P engine_shutdown x k = k engine_shutdown
on_error-elim P (other n) x k = k (other n)

module _ {W App : Type 0} (env : Env W App) (cfg : Settings) where
  checked-Good :
      (f : Loop W App → Handled W App)
      → ((st : Loop W App) → IsConsistent st → Good (f st))
      → (r : Option Error × Loop W App) → IsConsistent r.1
      → Good (checked f r)
  checked-Good f h (none, st) k = h st k
  checked-Good f h (some e, st) k = k

  handle_action-Good :
      {st : Loop W App} (c : ℕ) (action : Action)
      → IsConsistent st
      → Good (handle_action env cfg st c action)
  unfolding handle_action
  handle_action-Good c keep h = h
  handle_action-Good c Action.close h = close_conn-Good env cfg c none h
  handle_action-Good c shutdown h = h

  greet-Good :
      {st : Loop W App} (c : ℕ) (out : Option (List ℕ))
      → IsConsistent st
      → Good (greet env cfg st c out)
  unfolding greet
  greet-Good c none h = h
  greet-Good c (some p) h = performed-Good env cfg c _ h

  watch_written-Good :
      {st : Loop W App} (c : ℕ) (action : Action)
      → IsConsistent st
      → Good (watch_written env cfg st c action)
  unfolding watch_written
  watch_written-Good {st} c action h =
      if-elim (elastic.is_empty (st.conns c).outbound_buffer) Good
        (λ _. handle_action-Good c action h)
        (λ _.
          if-elim (not (st.conns c).attached) Good (λ _. tt)
            (λ _. checked-Good _ (λ st k. handle_action-Good c action k) _ (keeps_world _ h)))

  pub open_conn-Good :
      (st : Loop W App) (c : ℕ)
      → IsConsistent (add_conn (set_conn st c (record (st.conns c) { opened = true })) 1)
      → Good (open_conn env cfg st c)
  unfolding open_conn
  open_conn-Good st c h =
      bind-After (λ r. IsConsistent r.1) (λ r. IsConsistent r.1) _ _
        (run-Good env cfg c (env.on_open _ c) h)
        (λ ((out, action, app), st2) k.
          bind-After (λ r. IsConsistent r.1) (λ r. IsConsistent r.1) _ _
            (greet-Good c out (keeps_app app k))
            (λ greeted k. checked-Good _ (λ st k. watch_written-Good c action k) greeted k))

  register_udp-Good :
      {st : Loop W App} (c : ℕ) (e : Option Error)
      → (st.conns c).opened ≡ false
      → IsConsistent st
      → Good (register_udp env cfg st c e)
  unfolding register_udp release_udp
  register_udp-Good {st} c (some e) shut h =
      Same-IsConsistent (set_conn-Same _ c _ refl refl (λ o. absurd cc)) (keeps_world _ h)
  register_udp-Good {st} c none shut h =
      keeps_rest {st = set_conn st c (record (st.conns c) { attached = true })} _ _ _
        (Same-IsConsistent (set_conn-Same st c _ refl refl (λ _. refl)) h)

  register_tcp-Good :
      {st : Loop W App} (c : ℕ) (e : Option Error)
      → (st.conns c).opened ≡ false
      → (st.conns c).is_udp ≡ false
      → lookup st.connections (st.conns c).fd ≡ none
      → c < st.fresh
      → IsConsistent st
      → Good (register_tcp env cfg st c e)
  unfolding register_tcp release_tcp
  register_tcp-Good {st} c (some e) shut tcp absent old h =
      Same-IsConsistent (set_conn-Same _ c _ refl (sym shut) (λ o. absurd cc)) (keeps_world _ h)
  register_tcp-Good {st} c none shut tcp absent old h =
      open_conn-Good (record st { connections = insert st.connections (st.conns c).fd c }) c
        (added st c tcp absent old h)

  after_traffic-Good :
      {st : Loop W App} (c : ℕ) (action : Action)
      → IsConsistent st
      → Good (after_traffic env cfg st c action)
  unfolding after_traffic
  after_traffic-Good {st} c keep h =
      bind-After (λ _. Unit {0}) (λ r. IsConsistent r.1) _ _
        (any-After (
          ring.write env.mem env.pooled (st.conns c).inbound.inbound_buffer
            (st.conns c).inbound.buffer))
        (λ (n, rb) _. keeps_inbound c _ h)
  after_traffic-Good c Action.close h = close_conn-Good env cfg c none h
  after_traffic-Good c shutdown h = h

  read_packet-Good :
      {st : Loop W App} (c : ℕ) (p : List ℕ) → IsConsistent st → Good (read_packet env cfg st c p)
  unfolding read_packet
  read_packet-Good {st} c p h =
      bind-After (λ r. IsConsistent r.1) (λ r. IsConsistent r.1) _ _
        (run-Good env cfg c (env.on_traffic _ c) (keeps_inbound c _ h))
        (λ ((action, app), st2) k. after_traffic-Good c action (keeps_app app k))

  received-Good :
      {st : Loop W App} (c : ℕ) (p : List ℕ) (err : Option Error)
      → IsConsistent st
      → Good (received env cfg st c p err)
  unfolding received
  received-Good {st} c p (some e) h =
      on_error-elim Good e h (λ e. close_conn-Good env cfg c (some e) h)
  received-Good {st} c p none h =
      if-elim (length p == 0) Good (λ _. close_conn-Good env cfg c _ h)
        (λ _. read_packet-Good c p h)

  read-Good : {st : Loop W App} (c : ℕ) → IsConsistent st → Good (read env cfg st c)
  unfolding read
  read-Good {st} c h =
      let (p, err, w) = env.recv (st.conns c).fd st.world cfg.buffer_size in
      received-Good c p err (keeps_world w h)

  wake-Good : {st : Loop W App} (c : ℕ) → IsConsistent st → Good (wake env cfg st c)
  unfolding wake
  wake-Good {st} c h =
      if-elim (not (is_current (lookup st.connections (st.conns c).fd) c)) Good (λ _. h)
        (λ _.
          bind-After (λ r. IsConsistent r.1) (λ r. IsConsistent r.1) _ _
            (run-Good env cfg c (env.on_traffic st.app c) h)
            (λ ((action, app), st1) k. handle_action-Good c action (keeps_app app k)))

  pub handle_events-Good :
      {st : Loop W App} (c ev : ℕ) → IsConsistent st → Good (handle_events env cfg st c ev)
  unfolding handle_events
  handle_events-Good {st} c ev h =
      bind-After (λ r. IsConsistent r.1) (λ r. IsConsistent r.1) _ _
        (if-elim
          (not (bit_and ev out_events == 0) && not (elastic.is_empty (st.conns c).outbound_buffer))
          Good (λ _. loop_write-Good env cfg c h) (λ _. h))
        (λ written k.
          checked-Good _
            (λ st k. if-elim (bit_and ev in_events == 0) Good (λ _. k) (λ _. read-Good c k)) written
            k)

  pub handle_filter-Good :
      {st : Loop W App} (c : ℕ) (f : Filter) → IsConsistent st → Good (handle_filter env cfg st c f)
  unfolding handle_filter
  handle_filter-Good c filter_sock h = close_conn-Good env cfg c _ h
  handle_filter-Good {st} c filter_write h =
      if-elim (elastic.is_empty (st.conns c).outbound_buffer) Good (λ _. h)
        (λ _. loop_write-Good env cfg c h)
  handle_filter-Good c filter_read h = read-Good c h
  handle_filter-Good c filter_other h = h

  call_back-Good :
      {st : Loop W App} (c : ℕ) (f : Option (App → Talk App)) (err : Option Error)
      → IsConsistent st
      → Good (call_back env cfg c f err st)
  unfolding call_back
  call_back-Good c none err h = h
  call_back-Good {st} c (some f) err h =
      bind-After (λ r. IsConsistent r.1) (λ r. IsConsistent r.1) _ _
        (run-Good env cfg c (f st.app) h) (λ (app, st1) k. keeps_app app k)

  pub async_write-Good :
      {st : Loop W App} (c : ℕ) (p : List ℕ) (f : Option (App → Talk App))
      → IsConsistent st
      → Good (async_write env cfg st c p f)
  unfolding async_write
  async_write-Good {st} c p f h =
      if-elim (not (st.conns c).opened) Good (λ _. h)
        (λ _.
          bind-After (λ r. IsConsistent r.1) (λ r. IsConsistent r.1) _ _
            (conn_write-Good env cfg c p h) (λ ((n, err), st1) k. call_back-Good c f err k))

  pub async_writev-Good :
      {st : Loop W App} (c : ℕ) (bs : List (List ℕ)) (f : Option (App → Talk App))
      → IsConsistent st
      → Good (async_writev env cfg st c bs f)
  unfolding async_writev
  async_writev-Good {st} c bs f h =
      if-elim (not (st.conns c).opened) Good (λ _. h)
        (λ _.
          bind-After (λ r. IsConsistent r.1) (λ r. IsConsistent r.1) _ _
            (writev_any-Good env cfg c bs h) (λ ((n, err), st1) k. call_back-Good c f err k))

  pub wake_task-Good :
      {st : Loop W App} (c : ℕ) (f : Option (App → Talk App))
      → IsConsistent st
      → Good (wake_task env cfg st c f)
  unfolding wake_task
  wake_task-Good c f h =
      bind-After (λ r. IsConsistent r.1) (λ r. IsConsistent r.1) _ _ (wake-Good c h)
        (λ (err, st1) k. call_back-Good c f err k)

  pub close_task-Good :
      {st : Loop W App} (c : ℕ) (f : Option (App → Talk App))
      → IsConsistent st
      → Good (close_task env cfg st c f)
  unfolding close_task
  close_task-Good c f h =
      bind-After (λ r. IsConsistent r.1) (λ r. IsConsistent r.1) _ _
        (close_conn-Good env cfg c none h) (λ (err, st1) k. call_back-Good c f err k)

  read_datagram-Good :
      {st : Loop W App} (c : ℕ) (p : List ℕ) → IsConsistent st → Good (read_datagram env cfg st c p)
  unfolding read_datagram release_udp
  read_datagram-Good {st} c p h =
      bind-After (λ r. IsConsistent r.1) (λ r. IsConsistent r.1) _ _
        (run-Good env cfg c (env.on_traffic _ c) (keeps_inbound c _ h))
        (λ ((action, app), st2) k.
          if-elim (st2.conns c).has_peer IsConsistent
            (λ _.
              Same-IsConsistent
                (set_conn-Same _ c _ refl refl (λ o. sym (k.stream _ c (k.listed c o))))
                (keeps_app app k))
            (λ _. keeps_app app k))

  received_from-Good :
      {st : Loop W App} (fd : ℕ) (p : List ℕ) (err : Option Error)
      → IsConsistent st
      → Good (received_from env cfg st fd p err)
  unfolding received_from new_udp_conn
  received_from-Good {st} fd p (some e) h = on_error-elim Good e h (λ e. h)
  received_from-Good {st} fd p none h =
      if-elim (fd == cfg.ln_fd) Good (λ _. read_datagram-Good st.fresh p (made_new st _ refl h))
        (λ _.
          bind-After (λ _. Unit {0}) (λ r. IsConsistent r.1) _ _
            (any-After (lookup st.udp_sockets fd)) (λ c _. read_datagram-Good c p h))

  pub read_udp-Good : {st : Loop W App} (fd : ℕ) → IsConsistent st → Good (read_udp env cfg st fd)
  unfolding read_udp
  read_udp-Good {st} fd h =
      let (p, err, w) = env.recv fd st.world cfg.buffer_size in
      received_from-Good fd p err (keeps_world w h)

  close_all-Good :
      (m : List (ℕ × ℕ)) {st : Loop W App}
      → IsConsistent st
      → After IsConsistent (close_all env cfg m st)
  unfolding close_all
  close_all-Good [] h = h
  close_all-Good ((fd, c) ∷ m) h =
      bind-After (λ r. IsConsistent r.1) IsConsistent _ _ (close_conn-Good env cfg c none h)
        (λ (err, st1) k. close_all-Good m k)

  pub close_all_sockets-Good :
      {st : Loop W App} → IsConsistent st → After IsConsistent (close_all_sockets env cfg st)
  unfolding close_all_sockets
  close_all_sockets-Good {st} h =
      bind-After IsConsistent IsConsistent _ _ (close_all-Good st.connections h)
        (λ st1 k. close_all-Good st1.udp_sockets k)

  pub register-Good :
      (st : Loop W App) (c : ℕ)
      → (st.conns c).opened ≡ false
      → ((st.conns c).attached ≡ true
          → ((st.conns c).is_udp ≡ false) × (lookup st.connections (st.conns c).fd ≡ none))
      → c < st.fresh
      → IsConsistent st
      → Good (register env cfg st c)
  unfolding register
  register-Good st c shut tcp old h =
      if-elim (st.conns c).attached Good
        (λ a. register_tcp-Good c _ shut (tcp a).0 (tcp a).1 old (keeps_world _ h))
        (λ _. register_udp-Good c _ shut (keeps_world _ h))
