-- ===== src/EventLoop/Accepting.antt =====
-- acceptor.go: what an event loop with a listener of its own, and what the acceptor of the other
-- loops does with a connection that comes in.
use mathlib.Core.Option.{some-injective}
use wsgnet.Prelude.{
  ℕ, ◌<◌, ◌≡◌, refl, ap, ap₂, subst, sym, ◌∙◌, Bool, false, Option, none, some, ◌⊎◌, inl, inr,
  if-elim, if◌then◌else◌, ◌>>=◌, arith,
}
use wsgnet.Errors.{Error, other}
use wsgnet.Elastic.Buffer as elastic
use wsgnet.Conn.Outbound.{on_error}
use wsgnet.EventLoop.{Conn, Loop, Env, Settings, lookup, insert, set_conn}
use wsgnet.EventLoop.Consistent.{IsConsistent, made_new, added, Same-IsConsistent, set_conn-Same}
use wsgnet.EventLoop.Keeping.{After, bind-After, any-After, Good, keeps_world}
use wsgnet.EventLoop.Closing.{release_tcp}
use wsgnet.EventLoop.Handlers.{Handled, buffer_of, new_tcp_conn, open_conn, read_udp}
use wsgnet.EventLoop.Handling.{on_error-elim, open_conn-Good, read_udp-Good}

-- errors.ErrAcceptSocket, apart from the numbers of the system's errors.
abbrev pub accept_socket : Error
accept_socket = other 65536

module _ {W App : Type 0} (env : Env W App) (cfg : Settings) where
  -- The connection is made: its descriptor is watched, and it is opened. On an error of AddRead it is
  -- left as it is.
  unfoldable joined : Loop W App → ℕ → Option Error → Handled W App
  joined st c (some e) = some (some e, st)
  joined st c none =
      open_conn env cfg (record st { connections = insert st.connections (st.conns c).fd c }) c

  -- What unix.Accept and unix.SetNonblock give. An error is passed on without the name of the call.
  unfoldable taken : Loop W App → Error ⊎ ℕ → Option Error → Handled W App
  unfolding joined
  taken st (inl e) nonblock = on_error e (some (none, st)) (λ e. some (some e, st))
  taken st (inr nfd) (some e) = some (some e, st)
  taken st (inr nfd) none = do
    (c, st1) ← new_tcp_conn env cfg st nfd
    let (e, w) = env.add_read (st1.conns c).fd st1.world
    joined (record st1 { world = w }) c e

  -- `udp`: the listener is one of UDP.
  unfoldable pub accept : Loop W App → Bool → ℕ → Error ⊎ ℕ → Option Error → Handled W App
  unfolding taken
  accept st udp fd answer nonblock =
      if udp then read_udp env cfg st fd else taken st answer nonblock

  -- newTCPConn and UrgentTrigger, which queues the task of register or fails.
  unfoldable handed : Loop W App → ℕ → Option Error → Option (Option Error × Option ℕ × Loop W App)
  unfolding release_tcp
  handed st nfd trigger = do
    (c, st1) ← new_tcp_conn env cfg st nfd
    elim trigger [
      | none ↦ some (none, some c, st1)
      | some e ↦
          let w = (env.close_fd nfd st1.world).1 in
          some (none, none, set_conn (record st1 { world = w }) c (release_tcp (st1.conns c)))
    ]

  -- engine.accept, once the balancer has chosen the loop; besides the error, the connection of which
  -- the task is queued.
  unfoldable pub engine_accept :
      Loop W App
      → Error ⊎ ℕ
      → Option Error
      → Option Error
      → Option (Option Error × Option ℕ × Loop W App)
  unfolding handed
  engine_accept st (inl e) nonblock trigger =
      on_error e (some (none, none, st)) (λ _. some (some accept_socket, none, st))
  engine_accept st (inr nfd) (some e) trigger = some (some e, none, st)
  engine_accept st (inr nfd) none trigger = handed st nfd trigger

  pub set_conn-here : (st : Loop W App) (c : ℕ) (k : Conn) → (set_conn st c k).conns c ≡ k
  set_conn-here st c k = ground arith

  -- What newTCPConn gives.
  pub record Made (st : Loop W App) (fd : ℕ) (c : ℕ) (st1 : Loop W App) : Type 0 where
    pub consistent : IsConsistent st1
    pub shut : (st1.conns c).opened ≡ false
    pub tcp : (st1.conns c).is_udp ≡ false
    pub same_fd : (st1.conns c).fd ≡ fd
    pub old : c < st1.fresh
    pub connections : st1.connections ≡ st.connections

  pub new_tcp_conn-Made :
      (st : Loop W App) (fd : ℕ)
      → IsConsistent st
      → After (λ r. Made st fd r.0 r.1) (new_tcp_conn env cfg st fd)
  unfolding new_tcp_conn
  new_tcp_conn-Made st fd h =
      bind-After (λ _. Unit {0}) (λ r. Made st fd r.0 r.1) _ _
        (any-After (buffer_of (elastic.new cfg.write_buffer_cap)))
        (λ out _. record {
          consistent = made_new st _ refl h;
          shut = ap (λ k. k.opened) (set_conn-here st st.fresh _);
          tcp = ap (λ k. k.is_udp) (set_conn-here st st.fresh _);
          same_fd = ap (λ k. k.fd) (set_conn-here st st.fresh _);
          old = omega arith;
          connections = refl;
        })

  joined-Good :
      (st : Loop W App) (fd c : ℕ) (st1 : Loop W App) (w : W) (e : Option Error)
      → lookup st.connections fd ≡ none
      → Made st fd c st1
      → Good (joined (record st1 { world = w }) c e)
  unfolding joined
  joined-Good st fd c st1 w (some e) absent m = keeps_world _ m.consistent
  joined-Good st fd c st1 w none absent m =
      open_conn-Good env cfg
        (record st1 { connections = insert st1.connections (st1.conns c).fd c; world = w }) c
        (added (record st1 { world = w }) c m.tcp (ap₂ lookup m.connections m.same_fd ∙ absent)
          m.old (keeps_world _ m.consistent))

  taken-Good :
      (st : Loop W App) (answer : Error ⊎ ℕ) (nonblock : Option Error)
      → ((nfd : ℕ) → answer ≡ inr nfd → lookup st.connections nfd ≡ none)
      → IsConsistent st
      → Good (taken st answer nonblock)
  unfolding taken
  taken-Good st (inl e) nonblock absent h = on_error-elim Good e h (λ _. h)
  taken-Good st (inr nfd) (some e) absent h = h
  taken-Good st (inr nfd) none absent h =
      bind-After (λ r. Made st nfd r.0 r.1) (λ r. IsConsistent r.1) _ _ (new_tcp_conn-Made st nfd h)
        (λ (c, st1) m. joined-Good st nfd c st1 _ _ (absent nfd refl) m)

  pub accept-Good :
      {st : Loop W App} (udp : Bool) (fd : ℕ) (answer : Error ⊎ ℕ) (nonblock : Option Error)
      → ((nfd : ℕ) → answer ≡ inr nfd → lookup st.connections nfd ≡ none)
      → IsConsistent st
      → Good (accept st udp fd answer nonblock)
  unfolding accept
  accept-Good {st} udp fd answer nonblock absent h =
      if-elim udp Good (λ _. read_udp-Good env cfg fd h)
        (λ _. taken-Good st answer nonblock absent h)

  -- What is queued is a connection that register takes.
  unfoldable pub Queued : Option Error × Option ℕ × Loop W App → Type 0
  Queued (err, queued, st) =
      IsConsistent st
      × ((c : ℕ)
          → queued ≡ some c
          → ((st.conns c).opened ≡ false) × ((st.conns c).is_udp ≡ false) × (c < st.fresh))

  nothing-Queued : {st : Loop W App} (err : Option Error) → IsConsistent st → Queued (err, none, st)
  unfolding Queued
  nothing-Queued err h = (h, λ c e. absurd cc)

  handed-Queued :
      (st : Loop W App) (nfd : ℕ) (trigger : Option Error)
      → IsConsistent st
      → After Queued (handed st nfd trigger)
  unfolding handed Queued
  handed-Queued st nfd none h =
      bind-After (λ r. Made st nfd r.0 r.1) Queued _ _ (new_tcp_conn-Made st nfd h)
        (λ (c, st1) m. (
          m.consistent,
          λ d e.
              subst
                (λ d.
                  ((st1.conns d).opened ≡ false) × ((st1.conns d).is_udp ≡ false) × (d < st1.fresh))
                (some-injective c d e) (m.shut, m.tcp, m.old),
        ))
  handed-Queued st nfd (some e) h =
      bind-After (λ r. Made st nfd r.0 r.1) Queued _ _ (new_tcp_conn-Made st nfd h)
        (λ (c, st1) m. nothing-Queued none (
          Same-IsConsistent (set_conn-Same _ c _ refl (sym m.shut) (λ o. absurd cc))
            (keeps_world _ m.consistent)))

  pub engine_accept-Queued :
      (st : Loop W App) (answer : Error ⊎ ℕ) (nonblock trigger : Option Error)
      → IsConsistent st
      → After Queued (engine_accept st answer nonblock trigger)
  unfolding engine_accept
  engine_accept-Queued st (inl e) nonblock trigger h =
      on_error-elim (After Queued) e (nothing-Queued none h)
        (λ _. nothing-Queued (some accept_socket) h)
  engine_accept-Queued st (inr nfd) (some e) trigger h = nothing-Queued (some e) h
  engine_accept-Queued st (inr nfd) none trigger h = handed-Queued st nfd trigger h
