-- ===== src/EventLoop/Handlers.antt =====
-- eventloop.go and connection.go: the handlers of an event loop.
use wsgnet.Prelude.{
  ℕ, Bool, true, false, not, Option, none, some, List, [], ◌∷◌, ◌==◌, ◌&&◌, ◌+◌, ◌⊎◌, inl, inr,
  if◌then◌else◌, length, suc, ◌>>=◌, bit_and,
}
use wsgnet.Errors.{Error, engine_shutdown, other}
use wsgnet.Elastic.Buffer.{Buffer}
use wsgnet.Elastic.Buffer as elastic
use wsgnet.Elastic.RingBuffer as ring
use wsgnet.LinkedList.Defs as linked
use wsgnet.Conn.Outbound.{open_with, on_error}
use wsgnet.EventLoop.{
  Loop, Env, Settings, Action, keep, close, shutdown, on_shutdown, Talk, lookup, insert, set_conn,
  add_conn,
}
use wsgnet.EventLoop.Closing.{close_conn, release_tcp, release_udp}
use wsgnet.EventLoop.Calls.{
  set_inbound, set_outbound, perform, conn_write, writev_any, loop_write, run,
}

-- unix.ECONNRESET
abbrev pub conn_reset : Error
conn_reset = other 104

-- The events of epoll: EPOLLIN, EPOLLPRI, EPOLLOUT, EPOLLERR, EPOLLHUP and EPOLLRDHUP.
abbrev pub err_events : ℕ
err_events = 0x8 + 0x10 + 0x2000

abbrev pub out_events : ℕ
out_events = err_events + 0x4

abbrev pub in_events : ℕ
in_events = err_events + 0x1 + 0x2

-- The filters of kqueue on which a connection is handled: the socket's end, room to write, bytes to
-- read.
pub data Filter : Type 0 where
  filter_sock filter_write filter_read filter_other : Filter

-- Whether a map gives the connection itself.
abbrev pub is_current : Option ℕ → ℕ → Bool
is_current none c = false
is_current (some d) c = d == c

-- `c.outboundBuffer, _ = …`, of which a nil buffer is `none`.
abbrev pub buffer_of : Error ⊎ Buffer → Option Buffer
buffer_of (inl e) = none
buffer_of (inr out) = some out

-- What a handler gives: its error, and the loop; `none` is a panic.
abbrev pub Handled : (W App : Type 0) → Type 0
Handled W App = Option (Option Error × Loop W App)

-- `if err := …; err != nil { return err }`, and on.
abbrev pub checked :
    {W App : Type 0} → (Loop W App → Handled W App) → Option Error × Loop W App → Handled W App
checked f (none, st) = f st
checked f (some e, st) = some (some e, st)

module _ {W App : Type 0} (env : Env W App) (cfg : Settings) where
  unfoldable pub handle_action : Loop W App → ℕ → Action → Handled W App
  handle_action st c keep = some (none, st)
  handle_action st c close = close_conn env cfg st c none
  handle_action st c shutdown = some (some engine_shutdown, st)

  -- The bytes that OnOpen returns.
  unfoldable pub greet : Loop W App → ℕ → Option (List ℕ) → Handled W App
  greet st c none = some (none, st)
  greet st c (some p) = do
    let k = st.conns c
    (out, next, w) ← open_with env.mem env.pooled (env.send k.fd) k.outbound_buffer p st.world
    perform env cfg c next (set_outbound st c out w)

  -- The poller is asked to watch for room to write, and the action carried out.
  unfoldable pub watch_written : Loop W App → ℕ → Action → Handled W App
  unfolding handle_action
  watch_written st c action =
      if elastic.is_empty (st.conns c).outbound_buffer
      then handle_action st c action
      else if not (st.conns c).attached
      then none
      else (let (e, w) = env.add_write (st.conns c).fd st.world in
          checked (λ st. handle_action st c action) (e, record st { world = w }))

  unfoldable pub open_conn : Loop W App → ℕ → Handled W App
  unfolding greet watch_written add_conn
  open_conn st c = do
    let st1 = add_conn (set_conn st c (record (st.conns c) { opened = true })) 1
    ((out, action, app), st2) ← run env cfg c (env.on_open st1.app c) st1
    greeted ← greet (record st2 { app = app }) c out
    checked (λ st. watch_written st c action) greeted

  -- What follows AddRead, for a UDP socket and for a TCP connection.
  unfoldable pub register_udp : Loop W App → ℕ → Option Error → Handled W App
  unfolding release_udp
  register_udp st c (some e) =
      let k = st.conns c in
      some
        (some e, set_conn (record st { world = (env.close_fd k.fd st.world).1 }) c (release_udp k))
  register_udp st c none =
      let k = st.conns c in
      some (
        none,
        record (set_conn st c (record k { attached = true })) {
          udp_sockets = insert st.udp_sockets k.fd c;
        },
      )

  unfoldable pub register_tcp : Loop W App → ℕ → Option Error → Handled W App
  unfolding open_conn release_tcp
  register_tcp st c (some e) =
      let k = st.conns c in
      some
        (some e, set_conn (record st { world = (env.close_fd k.fd st.world).1 }) c (release_tcp k))
  register_tcp st c none =
      open_conn (record st { connections = insert st.connections (st.conns c).fd c }) c

  unfoldable pub register : Loop W App → ℕ → Handled W App
  unfolding register_udp register_tcp
  register st c =
      let k = st.conns c in
      let (e, w) = env.add_read k.fd st.world in
      if k.attached
      then register_tcp (record st { world = w }) c e
      else register_udp (record st { world = w }) c e

  -- The rest of read, once OnTraffic has returned: the bytes that are left are kept.
  unfoldable pub after_traffic : Loop W App → ℕ → Action → Handled W App
  after_traffic st c close = close_conn env cfg st c none
  after_traffic st c shutdown = some (some engine_shutdown, st)
  after_traffic st c keep = do
    let i = (st.conns c).inbound
    (_, rb) ← ring.write env.mem env.pooled i.inbound_buffer i.buffer
    some (none, set_inbound st c (record i { inbound_buffer = rb }))

  unfoldable pub read_packet : Loop W App → ℕ → List ℕ → Handled W App
  unfolding after_traffic
  read_packet st c p = do
    let st1 = set_inbound st c (record ((st.conns c).inbound) { buffer = p })
    ((action, app), st2) ← run env cfg c (env.on_traffic st1.app c) st1
    after_traffic (record st2 { app = app }) c action

  -- What unix.Read gives: a failure, the end of the stream, or a packet.
  unfoldable pub received : Loop W App → ℕ → List ℕ → Option Error → Handled W App
  unfolding read_packet
  received st c p (some e) = on_error e (some (none, st)) (λ e. close_conn env cfg st c (some e))
  received st c p none =
      if length p == 0 then close_conn env cfg st c (some conn_reset) else read_packet st c p

  unfoldable pub read : Loop W App → ℕ → Handled W App
  unfolding received
  read st c =
      let (p, err, w) = env.recv (st.conns c).fd st.world cfg.buffer_size in
      received (record st { world = w }) c p err

  -- A wake of a connection that is no longer the one of its descriptor is ignored.
  unfoldable pub wake : Loop W App → ℕ → Handled W App
  unfolding handle_action
  wake st c =
      if not (is_current (lookup st.connections (st.conns c).fd) c) then some (none, st) else do
        ((action, app), st1) ← run env cfg c (env.on_traffic st.app c) st
        handle_action (record st1 { app = app }) c action

  -- handleEvents on Linux, and on the systems with kqueue.
  unfoldable pub handle_events : Loop W App → ℕ → ℕ → Handled W App
  unfolding read
  handle_events st c ev = do
    written ←
        (if not (bit_and ev out_events == 0) && not (elastic.is_empty (st.conns c).outbound_buffer)
          then loop_write env cfg c st
          else some (none, st))
    checked (λ st. if bit_and ev in_events == 0 then some (none, st) else read st c) written

  unfoldable pub handle_filter : Loop W App → ℕ → Filter → Handled W App
  unfolding read
  handle_filter st c filter_sock = close_conn env cfg st c (some conn_reset)
  handle_filter st c filter_write =
      if elastic.is_empty (st.conns c).outbound_buffer
      then some (none, st)
      else loop_write env cfg c st
  handle_filter st c filter_read = read st c
  handle_filter st c filter_other = some (none, st)

  -- The callback of an asynchronous call, of which only the effects count.
  unfoldable pub call_back : ℕ → Option (App → Talk App) → Option Error → Loop W App → Handled W App
  call_back c none err st = some (err, st)
  call_back c (some f) err st = do
    (app, st1) ← run env cfg c (f st.app) st
    some (err, record st1 { app = app })

  -- asyncWrite and asyncWritev
  unfoldable pub async_write : Loop W App → ℕ → List ℕ → Option (App → Talk App) → Handled W App
  unfolding call_back
  async_write st c p callback =
      if not (st.conns c).opened
      then some (none, st)
      else do ((_, err), st1) ← conn_write env cfg c st p; call_back c callback err st1

  unfoldable pub async_writev :
      Loop W App → ℕ → List (List ℕ) → Option (App → Talk App) → Handled W App
  unfolding call_back
  async_writev st c bs callback =
      if not (st.conns c).opened
      then some (none, st)
      else do ((_, err), st1) ← writev_any env cfg c st bs; call_back c callback err st1

  -- The tasks that Wake and CloseWithCallback put into the poller's queue.
  unfoldable pub wake_task : Loop W App → ℕ → Option (App → Talk App) → Handled W App
  unfolding wake call_back
  wake_task st c callback = do (err, st1) ← wake st c; call_back c callback err st1

  unfoldable pub close_task : Loop W App → ℕ → Option (App → Talk App) → Handled W App
  unfolding call_back
  close_task st c callback = do
    (err, st1) ← close_conn env cfg st c none
    call_back c callback err st1

  -- newTCPConn at the next pointer. Where elastic.New gives an error the buffer is nil, and the first
  -- use of the connection a panic.
  unfoldable pub new_tcp_conn : Loop W App → ℕ → Option (ℕ × Loop W App)
  new_tcp_conn st fd = do
    out ← buffer_of (elastic.new cfg.write_buffer_cap)
    some (
      st.fresh,
      set_conn (record st { fresh = suc st.fresh }) st.fresh
          (record {
            fd = fd;
            is_udp = false;
            is_datagram = false;
            has_peer = true;
            opened = false;
            attached = true;
            inbound = record { inbound_buffer = none; buffer = [] };
            outbound_buffer = out;
          }),
    )

  -- newUDPConn
  unfoldable pub new_udp_conn : Loop W App → ℕ → Bool → ℕ × Loop W App
  new_udp_conn st fd connected = (
    st.fresh,
    set_conn (record st { fresh = suc st.fresh }) st.fresh
        (record {
          fd = fd;
          is_udp = true;
          is_datagram = true;
          has_peer = not connected;
          opened = false;
          attached = false;
          inbound = record { inbound_buffer = none; buffer = [] };
          outbound_buffer = record {
            max_static_bytes = 0;
            ring_buffer = none;
            list_buffer = linked.empty;
          };
        }),
  )

  -- The rest of readUDP, for the connection c.
  unfoldable pub read_datagram : Loop W App → ℕ → List ℕ → Handled W App
  unfolding release_udp
  read_datagram st c p = do
    let st1 = set_inbound st c (record ((st.conns c).inbound) { buffer = p })
    ((action, app), st2) ← run env cfg c (env.on_traffic st1.app c) st1
    let k = st2.conns c
    let st3 =
        if k.has_peer
        then set_conn (record st2 { app = app }) c (release_udp k)
        else record st2 { app = app }
    some (on_shutdown action (some engine_shutdown) none, st3)

  -- readUDP: a packet at the listener is a connection of its own; a descriptor that is not in the map
  -- is a nil pointer.
  unfoldable pub received_from : Loop W App → ℕ → List ℕ → Option Error → Handled W App
  unfolding read_datagram new_udp_conn
  received_from st fd p (some e) =
      on_error e (some (none, st)) (λ e. some (some (env.describe (e ∷ [])), st))
  received_from st fd p none =
      if fd == cfg.ln_fd
      then (let (c, st1) = new_udp_conn st fd false in read_datagram st1 c p)
      else (do c ← lookup st.udp_sockets fd; read_datagram st c p)

  unfoldable pub read_udp : Loop W App → ℕ → Handled W App
  unfolding received_from
  read_udp st fd =
      let (p, err, w) = env.recv fd st.world cfg.buffer_size in
      received_from (record st { world = w }) fd p err

  -- closeAllSockets, in the order of the two lists.
  unfoldable pub close_all : List (ℕ × ℕ) → Loop W App → Option (Loop W App)
  close_all [] st = some st
  close_all ((_, c) ∷ m) st = do (_, st1) ← close_conn env cfg st c none; close_all m st1

  unfoldable pub close_all_sockets : Loop W App → Option (Loop W App)
  unfolding close_all
  close_all_sockets st = do st1 ← close_all st.connections st; close_all st1.udp_sockets st1
