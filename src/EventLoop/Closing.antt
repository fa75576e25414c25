-- ===== src/EventLoop/Closing.antt =====
-- eventloop.go and connection.go: closeConn, with releaseTCP and releaseUDP.
use wsgnet.Prelude.{
  ℕ, zero, suc, ◌-◌, ◌^◌, true, false, not, Option, none, some, List, [], ◌∷◌, ◌==◌, if◌then◌else◌,
  pos, ◌>>=◌, take,
}
use wsgnet.Errors.{Error, engine_shutdown}
use wsgnet.Elastic.Buffer.{Buffer}
use wsgnet.Elastic.Buffer as elastic
use wsgnet.LinkedList.Peeking.{flatten}
use wsgnet.Conn.Outbound.{iov_max}
use wsgnet.EventLoop.{Conn, Loop, Env, Settings, on_shutdown, delete, set_conn, add_conn}

-- releaseTCP. What it puts back into pools, the memory of addresses and the poll attachment, does
-- not show in the connection.
unfoldable pub release_tcp : Conn → Conn
release_tcp k = record k {
  is_udp = false;
  has_peer = false;
  opened = false;
  attached = false;
  inbound = record { inbound_buffer = none; buffer = [] };
  outbound_buffer = elastic.release k.outbound_buffer;
}

unfoldable pub release_udp : Conn → Conn
release_udp k = record k {
  is_udp = false;
  attached = false;
  inbound = record k.inbound { buffer = [] };
}

-- The errors of the poller and of the descriptor, put together.
unfoldable pub close_error : (List Error → Error) → Option Error → Option Error → Option Error
close_error describe none none = none
close_error describe (some a) none = some (describe (a ∷ []))
close_error describe none (some b) = some (describe (b ∷ []))
close_error describe (some a) (some b) = some (describe (a ∷ b ∷ []))

module _ {W App : Type 0} (env : Env W App) where
  -- The loop that sends what is left in the outbound buffer: at most as many rounds as the fuel says.
  unfoldable pub send_residue : ℕ → ℕ → Buffer → W → Option (Buffer × W)
  send_residue zero fd out w = if elastic.is_empty out then some (out, w) else none
  send_residue (suc fuel) fd out w = elim (elastic.is_empty out) [
    | true ↦ some (out, w)
    | false ↦ do
      iov ← elastic.peek out (pos 0)
      let (n, err, w') = env.send fd w (flatten (take iov_max iov))
      elim err [
        | some e ↦ some (out, w')
        | none ↦ send_residue fuel fd (elastic.discard out (pos n)).2 w'
      ]
  ]

  -- OnClose, which calls no method of the connection here, and what its action makes of the error.
  unfoldable pub tell_closed :
      Loop W App → ℕ → Option Error → Option Error → Option Error × Loop W App
  tell_closed st c err rerr =
      let (action, app) = env.on_close st.app c err in
      on_shutdown action (some engine_shutdown, record st { app = app })
        (rerr, record st { app = app })

  unfoldable pub close_udp : Settings → Loop W App → ℕ → Option Error → Option Error × Loop W App
  unfolding release_udp
  close_udp cfg st c err =
      let k = st.conns c in
      let (e0, w0) = env.delete_fd k.fd st.world in
      let (e1, w1) = env.close_fd k.fd w0 in
      let own = not (k.fd == cfg.ln_fd) in
      let (action, app) = env.on_close st.app c err in
      let st1 = record st {
        udp_sockets = if own then delete st.udp_sockets k.fd else st.udp_sockets;
        world = if own then w1 else w0;
        app = app;
      } in
      on_shutdown action (some engine_shutdown, st1)
        ((if own then e1 else e0), set_conn st1 c (release_udp k))

  unfoldable pub close_tcp : ℕ → Loop W App → ℕ → Option Error → Option (Option Error × Loop W App)
  unfolding send_residue tell_closed release_tcp close_error add_conn
  close_tcp fuel st c err = do
    let k = st.conns c
    (out, w) ← send_residue fuel k.fd k.outbound_buffer st.world
    let (e0, w0) = env.delete_fd k.fd w
    let (e1, w1) = env.close_fd k.fd w0
    let st1 =
        add_conn (record st { connections = delete st.connections k.fd; world = w1 }) (2 ^ 32 - 1)
    let (rerr, st2) = tell_closed st1 c err (close_error env.describe e0 e1)
    some (rerr, set_conn st2 c (release_tcp (record k { outbound_buffer = out })))

  -- closeConn. As many rounds are given as there are bytes to send; `none` says that they did not do.
  unfoldable pub close_conn :
      Settings → Loop W App → ℕ → Option Error → Option (Option Error × Loop W App)
  unfolding close_udp close_tcp
  close_conn cfg st c err =
      let k = st.conns c in
      if k.is_udp
      then some (close_udp cfg st c err)
      else if not k.opened
      then some (none, st)
      else close_tcp (elastic.buffered k.outbound_buffer) st c err
