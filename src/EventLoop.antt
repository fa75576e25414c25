-- ===== src/EventLoop.antt =====
-- eventloop.go and connection.go: the state of an event loop, and the code that it is given: the
-- system calls, the poller and the application, each a function of the model's arguments.
use wsgnet.Prelude.{
  ℕ, ◌+◌, ◌%◌, ◌^◌, Bool, true, false, Option, none, some, List, [], ◌∷◌, ◌==◌, if◌then◌else◌, ℤ,
}
use wsgnet.Errors.{Error, engine_shutdown}
use wsgnet.Io.{Reader, Writer}
use wsgnet.Ring.Defs.{Ring}
use wsgnet.Elastic.Buffer.{Buffer}
use wsgnet.Conn.Inbound.{Inbound}
pub mod Closing
pub mod Calls
pub mod Handlers
pub mod Consistent
pub mod Keeping
pub mod Calling
pub mod Handling
pub mod Accepting
pub mod Steps
pub mod Leftover
pub mod Residue
mod Tests

-- A connection. `is_udp`: its local address is there and is one of UDP.
pub record Conn : Type 0 where
  pub fd : ℕ
  pub is_udp : Bool
  pub is_datagram : Bool
  pub has_peer : Bool
  pub opened : Bool
  pub attached : Bool
  pub inbound : Inbound
  pub outbound_buffer : Buffer

-- A map from descriptors to connections, each a number that stands for the pointer.
abbrev pub ConnMap : Type 0
ConnMap = List (ℕ × ℕ)

abbrev pub lookup : ConnMap → ℕ → Option ℕ
lookup [] fd = none
lookup ((k, c) ∷ m) fd = if k == fd then some c else lookup m fd

-- `delete(m, fd)` and `m[fd] = c`
abbrev pub delete : ConnMap → ℕ → ConnMap
delete [] fd = []
delete ((k, c) ∷ m) fd = let rest = delete m fd in if k == fd then rest else (k, c) ∷ rest

abbrev pub insert : ConnMap → ℕ → ℕ → ConnMap
insert m fd c = (fd, c) ∷ delete m fd

-- The event loop, the connections in memory, and the world W that system calls change. `conn_count`
-- is an int32, as its bit pattern. `fresh` is the next pointer.
pub record Loop (W App : Type 0) : Type 0 where
  pub conn_count : ℕ
  pub udp_sockets : ConnMap
  pub connections : ConnMap
  pub conns : ℕ → Conn
  pub fresh : ℕ
  pub world : W
  pub app : App

pub data Action : Type 0 where
  keep close shutdown : Action

-- `if action == Shutdown`
abbrev pub on_shutdown : {A : Type 0} → Action → A → A → A
on_shutdown shutdown a b = a
on_shutdown keep a b = b
on_shutdown close a b = b

-- What the application does in one callback: it calls methods of the connection, each time going on
-- with what they return, or turns to another connection of the loop, and at last returns R.
pub data Talk (R : Type 0) : Type 0 where
  finish : R → Talk R
  call_write : List ℕ → (ℤ × Option Error → Talk R) → Talk R
  call_writev : List (List ℕ) → (ℤ × Option Error → Talk R) → Talk R
  call_flush : (Option Error → Talk R) → Talk R
  call_next : ℤ → (List ℕ × Option Error → Talk R) → Talk R
  call_peek : ℤ → (List ℕ × Option Error → Talk R) → Talk R
  call_discard : ℤ → (ℕ → Talk R) → Talk R
  turn_to : ℕ → Talk R → Talk R

-- The code that is not the repository's. A poller and a descriptor may give an error with each call;
-- `describe` is the text that fmt.Errorf makes of the errors; `pooled` and `mem` are the buffer of
-- the pool and the memory of a new one.
pub record Env (W App : Type 0) : Type 0 where
  pub mem : ℕ → ℕ → ℕ
  pub pooled : Ring
  pub send : ℕ → Writer W
  pub recv : ℕ → Reader W
  pub close_fd : ℕ → W → Option Error × W
  pub add_read : ℕ → W → Option Error × W
  pub add_write : ℕ → W → Option Error × W
  pub mod_read : ℕ → W → Option Error × W
  pub mod_read_write : ℕ → W → Option Error × W
  pub delete_fd : ℕ → W → Option Error × W
  pub describe : List Error → Error
  pub on_open : App → ℕ → Talk (Option (List ℕ) × Action × App)
  pub on_traffic : App → ℕ → Talk (Action × App)
  pub on_close : App → ℕ → Option Error → Action × App

-- The listener's descriptor, and the size of the packet buffer.
pub record Settings : Type 0 where
  pub ln_fd : ℕ
  pub buffer_size : ℕ
  pub write_buffer_cap : ℤ

-- The fields of the loop that one call changes.
abbrev pub set_conn : {W App : Type 0} → Loop W App → ℕ → Conn → Loop W App
set_conn st c k = record st { conns = λ i. if i == c then k else st.conns i }

unfoldable pub add_conn : {W App : Type 0} → Loop W App → ℕ → Loop W App
add_conn st delta = record st { conn_count = (st.conn_count + delta) % 2 ^ 32 }
