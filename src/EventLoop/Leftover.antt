-- ===== src/EventLoop/Leftover.antt =====
-- eventloop.go: the bytes of a packet that the application leaves.
use wsgnet.Prelude.{ℕ, ◌+◌, ◌≤◌, ◌^◌, ◌≡◌, ap, ap₂, ◌∙◌, none, some, List, ◌++◌, length, arith}
use wsgnet.Elastic.RingBuffer as ring
use wsgnet.Elastic.RingBuffer.{RingBuffer}
use wsgnet.Elastic.Held.{IsSound, IsPooled, held, size_of, write-held}
use wsgnet.Conn.Inbound.{Inbound}
use wsgnet.Conn.Stream.{stream}
use wsgnet.EventLoop.{Loop, Env, Settings, finish, keep}
use wsgnet.EventLoop.Calls.{set_inbound, run}
use wsgnet.EventLoop.Handlers.{read_packet, after_traffic}

module _ {W App : Type 0} (env : Env W App) (cfg : Settings) where
  kept_behind :
      (st : Loop W App) (c n : ℕ) (rb : RingBuffer)
      → ring.write env.mem env.pooled
          (st.conns c).inbound.inbound_buffer
          (st.conns c).inbound.buffer
        ≡ some (n, rb)
      → after_traffic env cfg st c keep
        ≡ some (none, set_inbound st c (record (st.conns c).inbound { inbound_buffer = rb }))
  unfolding after_traffic
  kept_behind st c n rb e = ground (arith, e)

  inbound-here :
      (st : Loop W App) (c : ℕ) (i : Inbound) → ((set_inbound st c i).conns c).inbound ≡ i
  inbound-here st c i = ground arith

  packet_kept :
      (st : Loop W App) (c : ℕ) (p : List ℕ) (app : App)
      → env.on_traffic st.app c ≡ finish (keep, app)
      → read_packet env cfg st c p
        ≡ after_traffic env cfg
            (record (set_inbound st c (record (st.conns c).inbound { buffer = p })) { app = app })
            c
            keep
  unfolding read_packet run
  packet_kept st c p app quiet = ground (arith, quiet)

  -- Where OnTraffic takes nothing of a packet and asks for nothing, read puts the packet behind the
  -- bytes of the ring buffer and also leaves it in `buffer`: the next OnTraffic that no packet comes
  -- before, such as that of a wake, is shown it twice. The pool gives well-formed empty buffers, and
  -- the sizes stay up to 2 ^ 62.
  pub read_packet_doubles :
      (st : Loop W App) (c : ℕ) (p : List ℕ) (app : App)
      → env.on_traffic st.app c ≡ finish (keep, app)
      → IsPooled env.pooled
      → IsSound (st.conns c).inbound.inbound_buffer
      → size_of env.pooled (st.conns c).inbound.inbound_buffer + length p ≤ 2 ^ 62
      → (st' : Loop W App) × (read_packet env cfg st c p ≡ some (none, st'))
        × (stream (st'.conns c).inbound ≡ (held (st.conns c).inbound.inbound_buffer ++ p) ++ p)
  read_packet_doubles st c p app quiet pool sound small =
      let (rb, eq, sound', grown) =
        write-held env.mem env.pooled (st.conns c).inbound.inbound_buffer p pool sound small in
      let st1 : Loop W App =
        record (set_inbound st c (record (st.conns c).inbound { buffer = p })) { app = app } in
      let here : (st1.conns c).inbound ≡ record (st.conns c).inbound { buffer = p } =
        inbound-here st c (record (st.conns c).inbound { buffer = p }) in
      let final : Loop W App =
        set_inbound st1 c (record (st1.conns c).inbound { inbound_buffer = rb }) in
      (
        final,
        packet_kept st c p app quiet
            ∙ kept_behind st1 c (length p) rb
                (ap (λ i. ring.write env.mem env.pooled i.inbound_buffer i.buffer) here ∙ eq),
        ap stream (inbound-here st1 c (record (st1.conns c).inbound { inbound_buffer = rb }))
            ∙ ap₂ (λ xs ys. xs ++ ys) grown (ap (λ i. i.buffer) here),
      )
