-- ===== src/EventLoop/Tests.antt =====
-- eventloop.go: an event loop at concrete events.
use wsgnet.Prelude.{ℕ, ◌≡◌, refl, true, Option, none, some, [], ◌∷◌, ◌++◌, length, pos, arith}
use wsgnet.Errors.{other, eof}
use wsgnet.Ring.Defs.{Ring, zeros}
use wsgnet.Ring.Contents.{contents}
use wsgnet.Elastic.Buffer as elastic
use wsgnet.Elastic.Held.{IsPooled, held, size_of}
use wsgnet.Conn.Stream.{stream}
use wsgnet.EventLoop.{Loop, Env, Settings, finish, keep}
use wsgnet.EventLoop.Handlers.{Handled, register, new_tcp_conn, read_packet}
use wsgnet.EventLoop.Steps.{empty_loop}
use wsgnet.Io.{Reader}
use wsgnet.LinkedList.Defs as linked
use wsgnet.LinkedList.Transfer.{read_from}
use wsgnet.Ring.Transfer.{without_eof}
use wsgnet.LinkedList.Contents.{with_back, with_back_lem, empty-Holds}
use wsgnet.Elastic.Buffer.{Buffer}
use wsgnet.Elastic.Storing.{Stores}
use wsgnet.EventLoop.Closing.{send_residue}
use wsgnet.EventLoop.Residue.{residue_stuck}
use wsgnet.EventLoop.Leftover.{read_packet_doubles}

abbrev pooled : Ring
pooled = record { buf = zeros 64; size = 64; r = 0; w = 0; is_empty = true }

pooled-IsPooled : IsPooled pooled
unfolding contents
pooled-IsPooled = (
  record {
    held = refl;
    r_in = omega arith;
    w_in = omega arith;
    empty_meets = λ _. refl;
    room = λ e. cc;
  },
  refl,
)

-- System calls that do all they are asked for, and an application that does nothing.
abbrev quiet : Env (Unit {0}) (Unit {0})
quiet = record {
  mem = λ n i. 0;
  pooled = pooled;
  send = λ fd w p. (length p, none, w);
  recv = λ fd w n. (1 ∷ 2 ∷ [], none, w);
  close_fd = λ fd w. (none, w);
  add_read = λ fd w. (none, w);
  add_write = λ fd w. (none, w);
  mod_read = λ fd w. (none, w);
  mod_read_write = λ fd w. (none, w);
  delete_fd = λ fd w. (none, w);
  describe = λ es. other 1;
  on_open = λ app c. finish (none, keep, app);
  on_traffic = λ app c. finish (keep, app);
  on_close = λ app c err. (keep, app);
}

abbrev cfg : Settings
cfg = record { ln_fd = 3; buffer_size = 65536; write_buffer_cap = pos 65536 }

abbrev loop_of : Handled (Unit {0}) (Unit {0}) → Loop (Unit {0}) (Unit {0})
loop_of none = empty_loop tt tt
loop_of (some (err, st)) = st

abbrev made_of : Option (ℕ × Loop (Unit {0}) (Unit {0})) → Loop (Unit {0}) (Unit {0})
made_of none = empty_loop tt tt
made_of (some (c, st)) = st

abbrev made : Loop (Unit {0}) (Unit {0})
made = made_of (new_tcp_conn quiet cfg (empty_loop tt tt) 5)

-- A connection with the descriptor 5 has been accepted.
abbrev one : Loop (Unit {0}) (Unit {0})
one = loop_of (register quiet cfg made 0)

read_packet_doubles_example :
    (st' : Loop (Unit {0}) (Unit {0})) × (read_packet quiet cfg (empty_loop tt tt) 0 (1 ∷ 2 ∷ [])
      ≡ some (none, st'))
    × (stream (st'.conns 0).inbound ≡ ([] ++ (1 ∷ 2 ∷ [])) ++ (1 ∷ 2 ∷ []))
unfolding held size_of
read_packet_doubles_example =
    read_packet_doubles quiet cfg (empty_loop tt tt) 0 (1 ∷ 2 ∷ []) tt refl pooled-IsPooled tt
      (omega arith)

-- A reader that gives no bytes, and then the end.
abbrev slow : Reader (Option (Unit {0}))
slow none n = ([], none, some tt)
slow (some s) n = ([], some eof, some s)

-- ReadFrom from it leaves a node without bytes.
reads_nothing :
    read_from slow 2 linked.empty 0 none ≡ some (0, none, with_back linked.empty [], some tt)
unfolding read_from linked.empty linked.new_node linked.push_back_node without_eof
reads_nothing = refl

abbrev no_bytes_left : Buffer
no_bytes_left = record {
  max_static_bytes = 1024;
  ring_buffer = none;
  list_buffer = with_back linked.empty [];
}

no_bytes_left-Stores : Stores no_bytes_left []
unfolding held
no_bytes_left-Stores = (tt, [], with_back_lem [] empty-Holds, refl)

residue_stuck_example : send_residue quiet 1000 5 no_bytes_left tt ≡ none
unfolding linked.is_empty linked.empty linked.new_node linked.push_back_node
residue_stuck_example =
    residue_stuck quiet 1000 5 no_bytes_left tt no_bytes_left-Stores refl (λ w. (tt, refl))
