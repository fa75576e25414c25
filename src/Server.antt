-- ===== src/Server.antt =====
-- gnet.go, listener.go and engine.go: what Run makes of the address and of the options before it
-- serves.
use wsgnet.Prelude.{
  ℕ, ◌+◌, ◌*◌, ◌≤◌, Bool, true, false, ◌&&◌, ◌||◌, ◌⊎◌, inl, inr, Option, none, some, List, [], ◌∷◌,
  ◌++◌, map, ltb, leb, ◌==◌, if◌then◌else◌, ℤ, pos, pos_part, non_positive, ◌>>=◌,
}
use wsgnet.Toolkit.{ceil_to_power_of_two}
use wsgnet.Options.{Options}
pub mod Address
pub mod Buffers
mod Tests

-- "://" at the start of a text.
abbrev pub is_sep : List ℕ → Bool
is_sep [] = false
is_sep (a ∷ []) = false
is_sep (a ∷ b ∷ []) = false
is_sep (a ∷ b ∷ c ∷ s) = (a == 58) && ((b == 47) && (c == 47))

abbrev pub sep : List ℕ
sep = 58 ∷ 47 ∷ 47 ∷ []

-- strings.Contains(s, "://")
abbrev pub has_sep : List ℕ → Bool
has_sep [] = false
has_sep (a ∷ s) = is_sep (a ∷ s) || has_sep s

-- The first two texts of strings.Split(s, "://").
abbrev pub before : List ℕ → List ℕ
before [] = []
before (a ∷ s) = let rest = before s in if is_sep (a ∷ s) then [] else a ∷ rest

abbrev pub drop3 : List ℕ → List ℕ
drop3 [] = []
drop3 (a ∷ []) = []
drop3 (a ∷ b ∷ []) = []
drop3 (a ∷ b ∷ c ∷ s) = s

abbrev pub after : List ℕ → List ℕ
after [] = []
after (a ∷ s) = let rest = after s in if is_sep (a ∷ s) then drop3 (a ∷ s) else rest

-- "tcp", "tcp4", "tcp6", "udp", "udp4", "udp6" and "unix"
abbrev pub tcp : List ℕ
tcp = 116 ∷ 99 ∷ 112 ∷ []

abbrev pub udp : List ℕ
udp = 117 ∷ 100 ∷ 112 ∷ []

abbrev pub unix : List ℕ
unix = 117 ∷ 110 ∷ 105 ∷ 120 ∷ []

abbrev pub same_text : List ℕ → List ℕ → Bool
same_text [] [] = true
same_text (a ∷ s) (b ∷ t) = (a == b) && same_text s t
same_text _ _ = false

abbrev pub has_prefix : List ℕ → List ℕ → Bool
has_prefix s [] = true
has_prefix (a ∷ s) (b ∷ t) = (a == b) && has_prefix s t
has_prefix [] (b ∷ t) = false

-- The network and the address of a text in lower case.
abbrev pub split_address : List ℕ → List ℕ × List ℕ
split_address address =
    if has_sep address then (before address, before (after address)) else (tcp, address)

-- A text is the list of its code points. `lower` is unicode.ToLower, which strings.ToLower applies to
-- each.
unfoldable pub parse_proto_addr : (ℕ → ℕ) → List ℕ → List ℕ × List ℕ
parse_proto_addr lower addr = split_address (map lower addr)

-- `case "tcp", "tcp4", "tcp6"` and the like, for a network that Run allows, and what `network` is set
-- to; `none` is ErrUnsupportedProtocol.
unfoldable pub normalize : List ℕ → Option (List ℕ)
normalize network =
    if same_text network tcp
      || (same_text network (tcp ++ (52 ∷ [])) || same_text network (tcp ++ (54 ∷ [])))
    then some tcp
    else if same_text network udp
        || (same_text network (udp ++ (52 ∷ [])) || same_text network (udp ++ (54 ∷ [])))
    then some udp
    else if same_text network unix
    then some unix
    else none

pub data SocketOption : Type 0 where
  reuse_port reuse_addr no_delay : SocketOption
  recv_buffer send_buffer : ℕ → SocketOption

-- initListener
unfoldable pub socket_options : List ℕ → Options → List SocketOption
socket_options network opts =
    (if opts.reuse_port || has_prefix network udp then reuse_port ∷ [] else [])
    ++ (if opts.reuse_addr then reuse_addr ∷ [] else [])
    ++ (if opts.tcp_no_delay && has_prefix network tcp then no_delay ∷ [] else [])
    ++ (if non_positive opts.socket_recv_buffer
        then []
        else recv_buffer (pos_part opts.socket_recv_buffer) ∷ [])
    ++ (if non_positive opts.socket_send_buffer
        then []
        else send_buffer (pos_part opts.socket_send_buffer) ∷ [])

abbrev pub max_stream_buffer_cap : ℕ
max_stream_buffer_cap = 64 * 1024

-- ring.DefaultBufferSize
abbrev pub default_buffer_size : ℕ
default_buffer_size = 1024

-- The switch on ReadBufferCap and on WriteBufferCap; `none` is the panic of CeilToPowerOfTwo.
unfoldable pub buffer_cap : ℤ → Option ℕ
buffer_cap cap =
    if non_positive cap
    then some max_stream_buffer_cap
    else if leb (pos_part cap) default_buffer_size
    then some default_buffer_size
    else ceil_to_power_of_two (pos_part cap)

-- `false` is ErrTooManyEventLoopThreads.
unfoldable pub threads_allowed : Options → Bool
threads_allowed opts =
    if opts.lock_os_thread && ltb 10000 (pos_part opts.num_event_loop) then false else true

-- The logger that Run has made is for options without one.
unfoldable pub default_logger : ℕ → Options → Options
default_logger logger opts = record opts {
  logger = elim opts.logger [ some l ↦ some l | none ↦ some logger ];
}

-- What Run makes of the options, with the logger that it has made; where it fails to open the file of
-- the logger it has returned before.
unfoldable pub configure : ℕ → Options → Option (Bool × Options)
unfolding buffer_cap threads_allowed default_logger
configure logger opts =
    let named = default_logger logger opts in
    if threads_allowed named
    then (do
      r ← buffer_cap named.read_buffer_cap
      w ← buffer_cap named.write_buffer_cap
      some (true, record named { read_buffer_cap = pos r; write_buffer_cap = pos w }))
    else some (false, named)

-- The number of event loops that serve starts, for a number of processors; and whether start gives
-- each a listener of its own.
unfoldable pub num_event_loops : ℕ → Options → ℕ
num_event_loops cpus opts =
    if non_positive opts.num_event_loop
    then (if opts.multicore then cpus else 1)
    else pos_part opts.num_event_loop

unfoldable pub own_listeners : List ℕ → Options → Bool
own_listeners network opts = opts.reuse_port || same_text network udp
