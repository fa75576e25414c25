-- ===== src/EventLoop/Keeping.antt =====
-- eventloop.go and connection.go: every call and handler keeps the map, the connections and their
-- count in agreement.
use wsgnet.Prelude.{ℕ, ◌≡◌, refl, sym, true, not, Option, none, some, if-elim, ◌>>=◌, arith}
use wsgnet.Errors.{Error}
use wsgnet.Elastic.Buffer as elastic
use wsgnet.Conn.Inbound as inbound
use wsgnet.EventLoop.{
  ConnMap, Loop, Env, Settings, Action, keep, shutdown, on_shutdown, set_conn, add_conn,
}
use wsgnet.EventLoop.Closing.{
  release_tcp, release_udp, send_residue, tell_closed, close_udp, close_tcp, close_conn,
}
use wsgnet.EventLoop.Calls.{set_inbound}
use wsgnet.EventLoop.Consistent.{IsConsistent, Same, Same-IsConsistent, set_conn-Same, removed}

-- P holds of the result, if the code does not panic.
abbrev pub After : {A : Type 0} → (A → Type 0) → Option A → Type 0
After P none = Unit
After P (some a) = P a

pub bind-After :
    {A B : Type 0} (P : A → Type 0) (Q : B → Type 0) (o : Option A) (f : A → Option B)
    → After P o
    → ((a : A) → P a → After Q (f a))
    → After Q (o >>= f)
bind-After P Q none f h k = tt
bind-After P Q (some a) f h k = k a h

pub any-After : {A : Type 0} (o : Option A) → After (λ _. Unit {0}) o
any-After none = tt
any-After (some a) = tt

pub on_shutdown-elim :
    {A : Type 0} (P : A → Type 0) (action : Action) {a b : A}
    → P a
    → P b
    → P (on_shutdown action a b)
on_shutdown-elim P shutdown x y = x
on_shutdown-elim P keep x y = y
on_shutdown-elim P Action.close x y = y

module _ {W App : Type 0} where
  -- The loop that comes with the result is consistent.
  abbrev pub Good : {R : Type 0} → Option (R × Loop W App) → Type 0
  Good = After (λ r. IsConsistent r.1)

  pub Same-refl : (st : Loop W App) → Same st st
  Same-refl st = record {
    connections = refl;
    conn_count = refl;
    fresh = refl;
    fd = λ c. refl;
    opened = λ c. refl;
    is_udp = λ c e. refl;
  }

  pub keeps_rest :
      {st : Loop W App} (u : ConnMap) (w : W) (app : App)
      → IsConsistent st
      → IsConsistent (record st { udp_sockets = u; world = w; app = app })
  keeps_rest {st} u w app h =
      Same-IsConsistent
        (record {
          connections = refl;
          conn_count = refl;
          fresh = refl;
          fd = λ c. refl;
          opened = λ c. refl;
          is_udp = λ c e. refl;
        })
        h

  pub keeps_world :
      {st : Loop W App} (w : W) → IsConsistent st → IsConsistent (record st { world = w })
  keeps_world {st} w h = keeps_rest st.udp_sockets w st.app h

  pub keeps_app :
      {st : Loop W App} (app : App) → IsConsistent st → IsConsistent (record st { app = app })
  keeps_app {st} app h = keeps_rest st.udp_sockets st.world app h

  pub keeps_inbound :
      {st : Loop W App} (c : ℕ) (i : inbound.Inbound)
      → IsConsistent st
      → IsConsistent (set_inbound st c i)
  keeps_inbound {st} c i h = Same-IsConsistent (set_conn-Same st c _ refl refl (λ _. refl)) h

module _ {W App : Type 0} (env : Env W App) where
  close_udp-Good :
      (cfg : Settings) {st : Loop W App} (c : ℕ) (err : Option Error)
      → (st.conns c).is_udp ≡ true
      → IsConsistent st
      → IsConsistent (close_udp env cfg st c err).1
  unfolding close_udp release_udp
  close_udp-Good cfg {st} c err udp h =
      on_shutdown-elim {A = Option Error × Loop W App} (λ r. IsConsistent r.1)
        (env.on_close st.app c err).0 (keeps_rest _ _ _ h)
        (Same-IsConsistent (set_conn-Same _ c _ refl refl (λ o. sym (h.stream _ c (h.listed c o))))
          (keeps_rest _ _ _ h))

  close_tcp-Good :
      (fuel : ℕ) {st : Loop W App} (c : ℕ) (err : Option Error)
      → (st.conns c).opened ≡ true
      → IsConsistent st
      → Good (close_tcp env fuel st c err)
  unfolding close_tcp tell_closed release_tcp add_conn
  close_tcp-Good fuel {st} c err o h =
      bind-After (λ _. Unit {0}) (λ r. IsConsistent r.1)
        (send_residue env fuel (st.conns c).fd (st.conns c).outbound_buffer st.world) _
        (any-After (send_residue env fuel (st.conns c).fd (st.conns c).outbound_buffer st.world))
        (λ (out, w) _.
          on_shutdown-elim {A = Option Error × Loop W App}
            (λ r.
              IsConsistent
                (set_conn r.1 c (release_tcp (record (st.conns c) { outbound_buffer = out }))))
            (env.on_close st.app c err).0
            (removed (record st { world = _; app = _ }) c _ o refl (keeps_rest _ _ _ h))
            (removed (record st { world = _; app = _ }) c _ o refl (keeps_rest _ _ _ h)))

  pub close_conn-Good :
      (cfg : Settings) {st : Loop W App} (c : ℕ) (err : Option Error)
      → IsConsistent st
      → Good (close_conn env cfg st c err)
  unfolding close_conn
  close_conn-Good cfg {st} c err h =
      if-elim (st.conns c).is_udp Good (λ e. close_udp-Good cfg c err e h)
        (λ _.
          if-elim (not (st.conns c).opened) Good (λ _. h)
            (λ o.
              close_tcp-Good (elastic.buffered (st.conns c).outbound_buffer) c err
                (ground (arith, o)) h))
