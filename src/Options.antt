-- ===== src/Options.antt =====
-- options.go: the options of an engine, and the functions that set them.
use wsgnet.Prelude.{ℕ, Bool, true, false, Option, none, List, [], ◌∷◌, ℤ, pos}

-- A duration is its number of nanoseconds, a text the list of its bytes, a logger a number. `lb` is 0
-- for RoundRobin, 1 for LeastConnections and 2 for SourceAddrHash; `tcp_no_delay` is false for
-- TCPDelay.
pub record Options : Type 0 where
  pub multicore : Bool
  pub num_event_loop : ℤ
  pub lb : ℕ
  pub reuse_addr : Bool
  pub reuse_port : Bool
  pub read_buffer_cap : ℤ
  pub write_buffer_cap : ℤ
  pub lock_os_thread : Bool
  pub ticker : Bool
  pub tcp_keep_alive : ℤ
  pub tcp_no_delay : Bool
  pub socket_recv_buffer : ℤ
  pub socket_send_buffer : ℤ
  pub log_path : List ℕ
  pub log_level : ℤ
  pub logger : Option ℕ

abbrev pub Setting : Type 0
Setting = Options → Options

-- `new(Options)`
abbrev pub no_options : Options
no_options = record {
  multicore = false;
  num_event_loop = pos 0;
  lb = 0;
  reuse_addr = false;
  reuse_port = false;
  read_buffer_cap = pos 0;
  write_buffer_cap = pos 0;
  lock_os_thread = false;
  ticker = false;
  tcp_keep_alive = pos 0;
  tcp_no_delay = true;
  socket_recv_buffer = pos 0;
  socket_send_buffer = pos 0;
  log_path = [];
  log_level = pos 0;
  logger = none;
}

-- The loop of loadOptions, on options that are there, and loadOptions.
unfoldable pub apply_all : List Setting → Options → Options
apply_all [] opts = opts
apply_all (f ∷ fs) opts = apply_all fs (f opts)

unfoldable pub load_options : List Setting → Options
unfolding apply_all
load_options fs = apply_all fs no_options

-- WithOptions, and one function for each field.
unfoldable pub with_options : Options → Setting
with_options options opts = options

unfoldable pub with_multicore : Bool → Setting
with_multicore x opts = record opts { multicore = x }

unfoldable pub with_num_event_loop : ℤ → Setting
with_num_event_loop x opts = record opts { num_event_loop = x }

unfoldable pub with_load_balancing : ℕ → Setting
with_load_balancing x opts = record opts { lb = x }

unfoldable pub with_reuse_addr : Bool → Setting
with_reuse_addr x opts = record opts { reuse_addr = x }

unfoldable pub with_reuse_port : Bool → Setting
with_reuse_port x opts = record opts { reuse_port = x }

unfoldable pub with_read_buffer_cap : ℤ → Setting
with_read_buffer_cap x opts = record opts { read_buffer_cap = x }

unfoldable pub with_write_buffer_cap : ℤ → Setting
with_write_buffer_cap x opts = record opts { write_buffer_cap = x }

unfoldable pub with_lock_os_thread : Bool → Setting
with_lock_os_thread x opts = record opts { lock_os_thread = x }

unfoldable pub with_ticker : Bool → Setting
with_ticker x opts = record opts { ticker = x }

unfoldable pub with_tcp_keep_alive : ℤ → Setting
with_tcp_keep_alive x opts = record opts { tcp_keep_alive = x }

unfoldable pub with_tcp_no_delay : Bool → Setting
with_tcp_no_delay x opts = record opts { tcp_no_delay = x }

unfoldable pub with_socket_recv_buffer : ℤ → Setting
with_socket_recv_buffer x opts = record opts { socket_recv_buffer = x }

unfoldable pub with_socket_send_buffer : ℤ → Setting
with_socket_send_buffer x opts = record opts { socket_send_buffer = x }

unfoldable pub with_log_path : List ℕ → Setting
with_log_path x opts = record opts { log_path = x }

unfoldable pub with_log_level : ℤ → Setting
with_log_level x opts = record opts { log_level = x }

unfoldable pub with_logger : Option ℕ → Setting
with_logger x opts = record opts { logger = x }
