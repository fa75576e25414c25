-- ===== src/EventLoop/Steps.antt =====
-- eventloop.go and connection.go: an event loop as a step relation. One step is one call that the
-- loop's goroutine makes: for an event of the poller, a task of its queue, or a connection that the
-- acceptor or the client hands it.
use wsgnet.Prelude.{ℕ, ◌<◌, ◌≡◌, Bool, ◌⊎◌, inr, true, false, Option, none, some, List, []}
use wsgnet.Errors.{Error}
use wsgnet.LinkedList.Defs as linked
use wsgnet.EventLoop.{Conn, Loop, Env, Settings, Talk, lookup}
use wsgnet.EventLoop.Accepting.{engine_accept, accept}
use wsgnet.EventLoop.Handlers.{
  wake_task, close_task, Filter, register, handle_events, handle_filter, async_write, async_writev,
  new_tcp_conn, new_udp_conn, read_udp, close_all_sockets,
}

-- A connection's memory before it is used.
abbrev pub blank : Conn
blank = record {
  fd = 0;
  is_udp = false;
  is_datagram = false;
  has_peer = false;
  opened = false;
  attached = false;
  inbound = record { inbound_buffer = none; buffer = [] };
  outbound_buffer = record { max_static_bytes = 0; ring_buffer = none; list_buffer = linked.empty };
}

-- A loop that has not run.
abbrev pub empty_loop : {W App : Type 0} → W → App → Loop W App
empty_loop w app = record {
  conn_count = 0;
  udp_sockets = [];
  connections = [];
  conns = λ _. blank;
  fresh = 0;
  world = w;
  app = app;
}

module _ {W App : Type 0} (env : Env W App) (cfg : Settings) where
  pub data Step (st : Loop W App) : Loop W App → Type 0 where
    -- newTCPConn and register in one go, for a descriptor that no connection has.
    accepted :
        (fd c : ℕ) {err : Option Error} (st1 : Loop W App) {st' : Loop W App}
        → lookup st.connections fd ≡ none
        → new_tcp_conn env cfg st fd ≡ some (c, st1)
        → register env cfg st1 c ≡ some (err, st')
        → Step st st'
    -- engine.accept, and later the task that it queues: what else the loop does in between has not
    -- opened the connection.
    handed_over :
        (answer : Error ⊎ ℕ) (nonblock trigger : Option Error) {err : Option Error}
        {queued : Option ℕ} {st' : Loop W App}
        → engine_accept env cfg st answer nonblock trigger ≡ some (err, queued, st')
        → Step st st'
    registered :
        (c : ℕ) {err : Option Error} {st' : Loop W App}
        → ((st.conns c).opened ≡ false) × ((st.conns c).is_udp ≡ false) × (c < st.fresh)
        → lookup st.connections (st.conns c).fd ≡ none
        → register env cfg st c ≡ some (err, st')
        → Step st st'
    -- eventloop.accept, at a listener of the loop's own.
    accepting :
        (udp : Bool) (fd : ℕ) (answer : Error ⊎ ℕ) (nonblock : Option Error) {err : Option Error}
        {st' : Loop W App}
        → ((nfd : ℕ) → answer ≡ inr nfd → lookup st.connections nfd ≡ none)
        → accept env cfg st udp fd answer nonblock ≡ some (err, st')
        → Step st st'
    -- newUDPConn and register, for a socket of a client.
    dialed :
        (fd : ℕ) {err : Option Error} {st' : Loop W App}
        → register env cfg (new_udp_conn env cfg st fd true).1 (new_udp_conn env cfg st fd true).0
          ≡ some (err, st')
        → Step st st'
    -- An event of epoll, one of kqueue, and a packet at a UDP socket.
    ready :
        (c ev : ℕ) {err : Option Error} {st' : Loop W App}
        → handle_events env cfg st c ev ≡ some (err, st')
        → Step st st'
    filtered :
        (c : ℕ) (f : Filter) {err : Option Error} {st' : Loop W App}
        → handle_filter env cfg st c f ≡ some (err, st')
        → Step st st'
    packet :
        (fd : ℕ) {err : Option Error} {st' : Loop W App}
        → read_udp env cfg st fd ≡ some (err, st')
        → Step st st'
    -- The tasks of Wake, AsyncWrite, AsyncWritev and CloseWithCallback, which Close is without one.
    woken :
        (c : ℕ) (f : Option (App → Talk App)) {err : Option Error} {st' : Loop W App}
        → wake_task env cfg st c f ≡ some (err, st')
        → Step st st'
    written :
        (c : ℕ) (p : List ℕ) (f : Option (App → Talk App)) {err : Option Error} {st' : Loop W App}
        → async_write env cfg st c p f ≡ some (err, st')
        → Step st st'
    written_all :
        (c : ℕ) (bs : List (List ℕ)) (f : Option (App → Talk App)) {err : Option Error}
        {st' : Loop W App}
        → async_writev env cfg st c bs f ≡ some (err, st')
        → Step st st'
    closed :
        (c : ℕ) (f : Option (App → Talk App)) {err : Option Error} {st' : Loop W App}
        → close_task env cfg st c f ≡ some (err, st')
        → Step st st'
    -- The end of the loop.
    stopped : {st' : Loop W App} → close_all_sockets env cfg st ≡ some st' → Step st st'

  pub data Reach (s0 : Loop W App) : Loop W App → Type 0 where
    start : Reach s0 s0
    later : {st st' : Loop W App} → Reach s0 st → Step st st' → Reach s0 st'
