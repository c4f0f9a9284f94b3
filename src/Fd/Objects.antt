-- ===== src/Fd/Objects.antt =====
-- The resources of src/fd.rs. What an `Arc` shares is an object of a store, and the resource holds
-- its number: two descriptors share state if they hold the same number.
use edge_libos.Paths.{PathBuf}
use edge_libos.Base.{Bool, List, Option, is_some, ℕ, ◌&&◌}

-- `buf`, `closed` and `nonblock` of a pipe: `make_pipe` gives both ends the same three cells.
pub record Pipe : Type 0 where
  pub buf : List ℕ
  pub closed : Bool
  pub nonblock : Bool

pub data SockAddr : Type 0 where
  v4 : (port : ℕ) (addr : List ℕ) → SockAddr
  v6 : (port : ℕ) (addr : List ℕ) → SockAddr
  unix : (path : List ℕ) → SockAddr

pub data SocketKind : Type 0 where
  stream datagram : SocketKind

-- `UnixSockInner`. A host socket is its number.
pub record UnixSockInner : Type 0 where
  pub path : Option (List ℕ)
  pub listener : Option ℕ
  pub stream : Option ℕ
  pub peer_addr : Option (List ℕ)

-- `SocketInner`, without its `Notify`s and its UDP state.
pub record SocketInner : Type 0 where
  pub kind : SocketKind
  pub nonblock : Bool
  pub bound : Option SockAddr
  pub listen_backlog : Option ℕ
  pub so_reuseaddr : Bool
  pub so_keepalive : Bool
  pub tcp_nodelay : Bool
  pub listener : Option ℕ
  pub stream : Option ℕ
  pub peer_addr : Option SockAddr
  pub last_error : ℕ
  pub shutdown_flags : ℕ
  pub is_acceptor : Bool
  pub peek_buf : List ℕ
  pub unix : Option UnixSockInner
  pub family_unix : Bool
  pub inherited : Bool
  pub family_v6 : Bool
  pub ipv6_v6only : Bool

-- `SocketInner::is_listening`.
pub is_listening : SocketInner → Bool
is_listening s = is_some s.bound && is_some s.listen_backlog

-- `FilePos`. `inner` is the state of the host's file object, as a number that the host assigns.
pub record FilePos : Type 0 where
  pub inner : ℕ
  pub pos : ℕ
  pub path : Option PathBuf
  pub is_dir : Bool
  pub dir_cache : Option (List ℕ)

-- Which `Notify` an epoll entry waits on.
pub data Wake : Type 0 where
  read_of : ℕ → Wake
  write_of : ℕ → Wake
  placeholder : Wake
  cancel : Wake

pub record EpollEntry : Type 0 where
  pub fd : ℕ
  pub events : ℕ
  pub user_data : ℕ
  pub wake : Wake

pub record EpollInner : Type 0 where
  pub entries : List (ℕ × EpollEntry)
  pub self_event_fd : Option ℕ

pub record EventFdInner : Type 0 where
  pub counter : ℕ
  pub nonblock : Bool

pub data Resource : Type 0 where
  stdin : ℕ → Resource
  stdout : ℕ → Resource
  stderr : ℕ → Resource
  file : ℕ → Resource
  pipe_read : ℕ → Resource
  pipe_write : ℕ → Resource
  socket : ℕ → Resource
  epoll : EpollInner → Resource
  event_fd : EventFdInner → Resource
