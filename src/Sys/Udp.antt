-- ===== src/Sys/Udp.antt =====
-- The state of a UDP socket: src/sys/udp.rs. Its mutexes are taken one at a time and never held
-- across an await, so that each operation is one step. A host socket is its number.
pub mod Log
pub mod Bind
mod Tests
use edge_libos.Fd.Objects.{SockAddr}
use edge_libos.Errno.{eacces, eaddrinuse, eaddrnotavail, eio, to_ret}
use edge_libos.Base.Result.{Result, err, ok}
use edge_libos.Base.{
  Bool, List, Option, [], drop, false, if◌then◌else◌, inl, inr, leb, length, none, not, some, true,
  ℕ, ℤ, ◌&&◌, ◌++◌, ◌==◌, ◌∷◌, ◌⊎◌,
}

-- `Datagram`.
pub record Datagram : Type 0 where
  pub bytes : List ℕ
  pub addr : SockAddr

-- `Family`.
pub data Family : Type 0 where
  family_v4 family_v6 : Family

-- `RECV_QUEUE_CAP`.
abbrev pub recv_queue_cap : ℕ
recv_queue_cap = 4096

-- `UdpSocketState`, without the handle of the pump task and the `Notify`s.
pub record UdpSocketState : Type 0 where
  pub socket : Option ℕ
  pub recv_queue : List Datagram
  pub bound_addr : Option SockAddr
  pub peer_addr : Option SockAddr
  pub family : Family
  pub ipv6_v6only : Bool
  pub so_reuseaddr : Bool
  pub shutdown_flags : ℕ
  pub pump_cancel : Bool

-- `UdpSocketState::new`.
unfoldable pub new_state : Family → (ipv6_v6only so_reuseaddr : Bool) → UdpSocketState
new_state family ipv6_v6only so_reuseaddr = record {
  socket = none;
  recv_queue = [];
  bound_addr = none;
  peer_addr = none;
  family = family;
  ipv6_v6only = ipv6_v6only;
  so_reuseaddr = so_reuseaddr;
  shutdown_flags = 0;
  pump_cancel = false;
}

-- `has_pending`.
abbrev pub has_pending : UdpSocketState → Bool
has_pending s = not (length s.recv_queue == 0)

-- `try_dequeue`.
abbrev pub pop_front : UdpSocketState → List Datagram → UdpSocketState × Option Datagram
pop_front s [] = (s, none)
pop_front s (d ∷ ds) = (record s { recv_queue = ds }, some d)

unfoldable pub try_dequeue : UdpSocketState → UdpSocketState × Option Datagram
try_dequeue s = pop_front s s.recv_queue

-- `enqueue`: whether the queue was empty.
unfoldable pub enqueue : UdpSocketState → List ℕ → SockAddr → UdpSocketState × Bool
enqueue s bytes addr =
    let queue =
      if leb recv_queue_cap (length s.recv_queue) then drop 1 s.recv_queue else s.recv_queue in
    (
      record s { recv_queue = queue ++ record { bytes = bytes; addr = addr } ∷ [] },
      length s.recv_queue == 0,
    )

-- `request_pump_cancel`, and `drop`.
unfoldable pub request_pump_cancel : UdpSocketState → UdpSocketState
request_pump_cancel s = record s { pump_cancel = true }

-- What the host says when a socket is made and bound.
pub data BindError : Type 0 where
  addr_in_use addr_not_available bind_denied bind_other : BindError

-- The host's sockets: making one for a family (and, if asked, one that shares its address and
-- takes only IPv6), binding it, making it ready for use, and its address.
pub record UdpHost : Type 0 where
  pub create : Family → (reuse v6only : Bool) → BindError ⊎ ℕ
  pub bind : ℕ → SockAddr → Option BindError
  pub prepare : ℕ → Bool
  pub local_addr_of : ℕ → Option SockAddr

abbrev pub create_error : BindError → ℤ
create_error bind_denied = to_ret eacces
create_error _ = to_ret eio

abbrev pub bind_error : BindError → ℤ
bind_error addr_in_use = to_ret eaddrinuse
bind_error addr_not_available = to_ret eaddrnotavail
bind_error bind_denied = to_ret eacces
bind_error bind_other = to_ret eio

-- The address of a host socket, where the host knows it.
abbrev pub addr_or_eio : Option SockAddr → Result SockAddr
addr_or_eio (some a) = ok a
addr_or_eio none = err (to_ret eio)

abbrev pub install_socket : UdpSocketState → ℕ → Result SockAddr → UdpSocketState × Result SockAddr
install_socket s sock (ok a) = (record s { socket = some sock; bound_addr = some a }, ok a)
install_socket s sock (err e) = (s, err e)

abbrev pub after_bind :
    UdpHost → UdpSocketState → ℕ → Option BindError → UdpSocketState × Result SockAddr
after_bind h s sock (some e) = (s, err (bind_error e))
after_bind h s sock none =
    if h.prepare sock
    then install_socket s sock (addr_or_eio (h.local_addr_of sock))
    else (s, err (to_ret eio))

abbrev pub bind_new :
    UdpHost → UdpSocketState → SockAddr → BindError ⊎ ℕ → UdpSocketState × Result SockAddr
bind_new h s requested (inl e) = (s, err (create_error e))
bind_new h s requested (inr sock) = after_bind h s sock (h.bind sock requested)

abbrev pub is_v6 : Family → Bool
is_v6 family_v4 = false
is_v6 family_v6 = true

-- `ensure_bound`.
abbrev pub ensure_socket :
    UdpHost → UdpSocketState → SockAddr → Option ℕ → UdpSocketState × Result SockAddr
ensure_socket h s requested (some sock) = (s, addr_or_eio (h.local_addr_of sock))
ensure_socket h s requested none =
    bind_new h s requested (h.create s.family s.so_reuseaddr (is_v6 s.family && s.ipv6_v6only))

unfoldable pub ensure_bound : UdpHost → UdpSocketState → SockAddr → UdpSocketState × Result SockAddr
ensure_bound h s requested = ensure_socket h s requested s.socket

-- `local_addr`.
abbrev pub local_addr : UdpSocketState → Option SockAddr
local_addr s = s.bound_addr
