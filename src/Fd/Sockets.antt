-- ===== src/Fd/Sockets.antt =====
-- The constructors and the snapshot of `SocketInner` of src/fd.rs.
use edge_libos.Fd.Objects.{SockAddr, SocketInner, SocketKind, UnixSockInner, v4, v6}
use edge_libos.Base.{Bool, List, Option, [], false, if◌then◌else◌, is_some, none, some, true, ℕ}

-- `SocketInner::new`.
unfoldable pub new_socket : SocketKind → Bool → SocketInner
new_socket kind nonblock = record {
  kind = kind;
  nonblock = nonblock;
  bound = none;
  listen_backlog = none;
  so_reuseaddr = false;
  so_keepalive = false;
  tcp_nodelay = false;
  listener = none;
  stream = none;
  peer_addr = none;
  last_error = 0;
  shutdown_flags = 0;
  is_acceptor = false;
  peek_buf = [];
  unix = none;
  family_unix = false;
  inherited = false;
  family_v6 = false;
  ipv6_v6only = false;
}

-- `UnixSockInner::new`.
abbrev pub new_unix_inner : UnixSockInner
new_unix_inner = record { path = none; listener = none; stream = none; peer_addr = none }

-- `SocketInner::new_unix`.
unfoldable pub new_unix : SocketKind → Bool → SocketInner
unfolding new_socket
new_unix kind nonblock = record (new_socket kind nonblock) {
  unix = some new_unix_inner;
  family_unix = true;
}

-- `SocketInner::from_accepted`.
unfoldable pub from_accepted : ℕ → SocketKind → Bool → SocketInner
unfolding new_socket
from_accepted conn kind nonblock = record (new_socket kind nonblock) { stream = some conn }

-- `SocketInner::from_tcp_listener`. The `nonblock` that it is given goes to `new`.
unfoldable pub from_tcp_listener : ℕ → SockAddr → (so_reuseaddr nonblock : Bool) → SocketInner
unfolding new_socket
from_tcp_listener listener bound so_reuseaddr nonblock =
    record (new_socket SocketKind.stream nonblock) {
      listener = some listener;
      bound = some bound;
      listen_backlog = some 0;
      so_reuseaddr = so_reuseaddr;
      is_acceptor = true;
    }

-- `SocketInner::from_inherited_listener`.
unfoldable pub from_inherited_listener : ℕ → SockAddr → SocketInner
unfolding new_socket
from_inherited_listener listener bound = record (new_socket SocketKind.stream false) {
  listener = some listener;
  bound = some bound;
  listen_backlog = some 0;
  so_reuseaddr = true;
  is_acceptor = true;
  inherited = true;
}

-- `SocketInner::from_unix_listener`.
unfoldable pub from_unix_listener : ℕ → List ℕ → Bool → SocketInner
unfolding new_unix new_socket
from_unix_listener listener path nonblock = record (new_unix SocketKind.stream nonblock) {
  bound = some (SockAddr.unix path);
  listen_backlog = some 0;
  is_acceptor = true;
  unix = some (record new_unix_inner { path = some path; listener = some listener });
}

-- `SocketInner::family`: AF_UNIX, AF_INET and AF_INET6 are 1, 2 and 10.
abbrev pub family_of : Option SockAddr → ℕ
family_of none = 2
family_of (some (v4 port addr)) = 2
family_of (some (v6 port addr)) = 10
family_of (some (SockAddr.unix path)) = 1

unfoldable pub family : SocketInner → ℕ
family s = if s.family_unix then 1 else family_of s.bound

-- `UnixSockSnapshot` and `SocketSnapshot`.
pub record UnixSockSnapshot : Type 0 where
  pub path : Option (List ℕ)
  pub peer_addr_present : Bool

pub record SocketSnapshot : Type 0 where
  pub sock_kind : SocketKind
  pub nonblock : Bool
  pub bound : Option SockAddr
  pub listen_backlog : Option ℕ
  pub so_reuseaddr : Bool
  pub so_keepalive : Bool
  pub tcp_nodelay : Bool
  pub peer_addr_present : Bool
  pub last_error : ℕ
  pub shutdown_flags : ℕ
  pub is_acceptor : Bool
  pub peek_buf : List ℕ
  pub family_unix : Bool
  pub unix_inner : Option UnixSockSnapshot
  pub inherited : Bool

abbrev pub unix_snapshot : Option UnixSockInner → Option UnixSockSnapshot
unix_snapshot none = none
unix_snapshot (some u) = some (record { path = u.path; peer_addr_present = is_some u.peer_addr })

-- `SocketInner::snapshot`.
unfoldable pub socket_snapshot : SocketInner → SocketSnapshot
socket_snapshot s = record {
  sock_kind = s.kind;
  nonblock = s.nonblock;
  bound = s.bound;
  listen_backlog = s.listen_backlog;
  so_reuseaddr = s.so_reuseaddr;
  so_keepalive = s.so_keepalive;
  tcp_nodelay = s.tcp_nodelay;
  peer_addr_present = is_some s.peer_addr;
  last_error = s.last_error;
  shutdown_flags = s.shutdown_flags;
  is_acceptor = s.is_acceptor;
  peek_buf = s.peek_buf;
  family_unix = s.family_unix;
  unix_inner = unix_snapshot s.unix;
  inherited = s.inherited;
}
