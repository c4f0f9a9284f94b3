-- ===== src/Snapshot/Freeze.antt =====
-- The snapshot of a kernel: its records, the snapshots of the resources, and build_kernel_snapshot.
use edge_libos.Snapshot.Fields.{
  ClockStateSnapshot, SignalStateSnapshot, VfsSnapshot, from_clock, from_signals, from_vfs,
}
use edge_libos.Snapshot.Pages.{
  MemoryPageSnapshot, SnapshotError, is_zero_page, module_hash_mismatch,
}
use edge_libos.Mm.Allocator.{LinearAllocatorSnapshot, snapshot}
use edge_libos.Kernel.{FutexEntry, Kernel}
use edge_libos.Fd.Sockets.{SocketSnapshot, socket_snapshot}
use edge_libos.Fd.Objects.{
  EpollEntry, EpollInner, EventFdInner, FilePos, Pipe, Resource, SockAddr, SocketInner, v4,
}
use edge_libos.Paths.{PathBuf, eq_bytes}
use edge_libos.Map.{get}
use edge_libos.Base.{
  Bool, List, Option, [], if◌then◌else◌, leb, none, replicate, some, zero, ℕ, ◌%◌, ◌^◌, ◌∷◌,
}

-- `ResourceKind`.
pub data ResourceKind : Type 0 where
  stdin_kind stdout_kind stderr_kind pipe_read_kind pipe_write_kind : ResourceKind
  file_kind socket_kind epoll_kind event_fd_kind : ResourceKind

-- `PipeSnapshot`, `FileSnapshot`, `EpollEntrySnapshot`, `EpollSnapshot` and `EventFdSnapshot`.
pub record PipeSnapshot : Type 0 where
  pub buf : List ℕ
  pub closed : Bool
  pub nonblock : Bool

pub record FileSnapshot : Type 0 where
  pub path : Option PathBuf
  pub pos : ℕ
  pub is_dir : Bool
  pub dir_cache : Option (List ℕ)

pub record EpollEntrySnapshot : Type 0 where
  pub fd : ℕ
  pub events : ℕ
  pub user_data : ℕ

pub record EpollSnapshot : Type 0 where
  pub entries : List EpollEntrySnapshot
  pub self_event_fd : Option ℕ

pub record EventFdSnapshot : Type 0 where
  pub counter : ℕ
  pub nonblock : Bool

-- `ResourceBody` and `ResourceSnapshot`.
pub record ResourceBody : Type 0 where
  pub pipe : Option PipeSnapshot
  pub file : Option FileSnapshot
  pub socket : Option SocketSnapshot
  pub epoll : Option EpollSnapshot
  pub eventfd : Option EventFdSnapshot

pub record ResourceSnapshot : Type 0 where
  pub kind : ResourceKind
  pub body : ResourceBody

abbrev pub empty_body : ResourceBody
empty_body = record { pipe = none; file = none; socket = none; epoll = none; eventfd = none }

-- `from_pipe`, `from_file`, `from_socket`, `from_epoll` and `from_eventfd`. What a resource's number
-- leads to is in the store; a body without it does not occur.
abbrev pub pipe_snapshot : Pipe → PipeSnapshot
pipe_snapshot x = record { buf = x.buf; closed = x.closed; nonblock = x.nonblock }

abbrev pub from_pipe : ResourceKind → Option Pipe → ResourceSnapshot
from_pipe kind none = record { kind = kind; body = empty_body }
from_pipe kind (some x) = record {
  kind = kind;
  body = record empty_body { pipe = some (pipe_snapshot x) };
}

abbrev pub file_snapshot : FilePos → FileSnapshot
file_snapshot fp = record {
  path = fp.path;
  pos = fp.pos;
  is_dir = fp.is_dir;
  dir_cache = fp.dir_cache;
}

abbrev pub from_file : Option FilePos → ResourceSnapshot
from_file none = record { kind = file_kind; body = empty_body }
from_file (some fp) = record {
  kind = file_kind;
  body = record empty_body { file = some (file_snapshot fp) };
}

-- The port that the host gave a listener takes the place of port 0.
abbrev pub with_port : Option ℕ → Option SockAddr → Option SockAddr
with_port (some actual) (some (v4 zero addr)) = some (v4 actual addr)
with_port _ bound = bound

abbrev pub from_socket : (ℕ → Option ℕ) → Option SocketInner → ResourceSnapshot
from_socket port_of none = record { kind = socket_kind; body = empty_body }
from_socket port_of (some s) =
    let snap = socket_snapshot s in
    let actual : Option ℕ = elim s.listener [ none ↦ none | some l ↦ port_of l ] in
    record {
      kind = socket_kind;
      body = record empty_body {
        socket = some (record snap { bound = with_port actual snap.bound });
      };
    }

-- Epoll entries in the order of their descriptors.
abbrev pub insert_entry : EpollEntrySnapshot → List EpollEntrySnapshot → List EpollEntrySnapshot
insert_entry e [] = e ∷ []
insert_entry e (f ∷ fs) =
    let rest = insert_entry e fs in if leb e.fd f.fd then e ∷ f ∷ fs else f ∷ rest

abbrev pub sorted_entries : List (ℕ × EpollEntry) → List EpollEntrySnapshot
sorted_entries [] = []
sorted_entries ((fd, e) ∷ es) =
    insert_entry (record { fd = e.fd; events = e.events; user_data = e.user_data })
      (sorted_entries es)

abbrev pub from_epoll : EpollInner → ResourceSnapshot
from_epoll e = record {
  kind = epoll_kind;
  body = record empty_body {
    epoll = some (record { entries = sorted_entries e.entries; self_event_fd = e.self_event_fd });
  };
}

abbrev pub from_eventfd : EventFdInner → ResourceSnapshot
from_eventfd e = record {
  kind = event_fd_kind;
  body = record empty_body {
    eventfd = some (record { counter = e.counter; nonblock = e.nonblock });
  };
}

-- The arm of `build_kernel_snapshot` for a resource. `port_of` is the port of a host listener.
unfoldable pub resource_snapshot : (ℕ → Option ℕ) → Kernel → Resource → ResourceSnapshot
resource_snapshot port_of k (Resource.stdin p) = from_pipe stdin_kind (get p k.pipes)
resource_snapshot port_of k (Resource.stdout p) = from_pipe stdout_kind (get p k.pipes)
resource_snapshot port_of k (Resource.stderr p) = from_pipe stderr_kind (get p k.pipes)
resource_snapshot port_of k (Resource.pipe_read p) = from_pipe pipe_read_kind (get p k.pipes)
resource_snapshot port_of k (Resource.pipe_write p) = from_pipe pipe_write_kind (get p k.pipes)
resource_snapshot port_of k (Resource.file f) = from_file (get f k.files)
resource_snapshot port_of k (Resource.socket s) = from_socket port_of (get s k.sockets)
resource_snapshot port_of k (Resource.epoll e) = from_epoll e
resource_snapshot port_of k (Resource.event_fd e) = from_eventfd e

-- `FdEntrySnapshot` and `FdSnapshot`.
pub record FdEntrySnapshot : Type 0 where
  pub fd : ℕ
  pub kind : ResourceSnapshot

pub record FdSnapshot : Type 0 where
  pub entries : List FdEntrySnapshot
  pub next_fd : ℕ
  pub cloexec : List ℕ

-- `sort_by_key` on the descriptors, and `sort` of numbers.
abbrev pub insert_fd_entry : FdEntrySnapshot → List FdEntrySnapshot → List FdEntrySnapshot
insert_fd_entry e [] = e ∷ []
insert_fd_entry e (f ∷ fs) =
    let rest = insert_fd_entry e fs in if leb e.fd f.fd then e ∷ f ∷ fs else f ∷ rest

abbrev pub sort_fd_entries : List FdEntrySnapshot → List FdEntrySnapshot
sort_fd_entries [] = []
sort_fd_entries (e ∷ es) = insert_fd_entry e (sort_fd_entries es)

abbrev pub insert_number : ℕ → List ℕ → List ℕ
insert_number n [] = n ∷ []
insert_number n (m ∷ ms) = let rest = insert_number n ms in if leb n m then n ∷ m ∷ ms else m ∷ rest

abbrev pub sort_numbers : List ℕ → List ℕ
sort_numbers [] = []
sort_numbers (n ∷ ns) = insert_number n (sort_numbers ns)

abbrev pub fd_entries : (ℕ → Option ℕ) → Kernel → List (ℕ × Resource) → List FdEntrySnapshot
fd_entries port_of k [] = []
fd_entries port_of k ((fd, r) ∷ t) =
    record { fd = fd; kind = resource_snapshot port_of k r } ∷ fd_entries port_of k t

-- `FutexAddrSnapshot`, and `FutexTable::snapshot`.
abbrev pub insert_addr : ℕ × ℕ → List (ℕ × ℕ) → List (ℕ × ℕ)
insert_addr e [] = e ∷ []
insert_addr (a, w) ((b, v) ∷ fs) =
    let rest = insert_addr (a, w) fs in if leb a b then (a, w) ∷ (b, v) ∷ fs else (b, v) ∷ rest

unfoldable pub futex_snapshot : List (ℕ × FutexEntry) → List (ℕ × ℕ)
futex_snapshot [] = []
futex_snapshot ((addr, e) ∷ es) = insert_addr (addr, e.waiters % 2 ^ 32) (futex_snapshot es)

-- `KernelSnapshot`.
pub record KernelSnapshot : Type 0 where
  pub format_version : ℕ
  pub pages : List MemoryPageSnapshot
  pub fds : FdSnapshot
  pub mm : LinearAllocatorSnapshot
  pub vfs : VfsSnapshot
  pub signals : SignalStateSnapshot
  pub exit_code : Option ℕ
  pub comm : List ℕ
  pub futex_table : List (ℕ × ℕ)
  pub cpu_ns : ℕ
  pub brk : ℕ
  pub args : List (List ℕ)
  pub env : List (List ℕ × List ℕ)
  pub rng_seed : List ℕ
  pub clock : ClockStateSnapshot
  pub module_sha256 : List ℕ

-- `SNAPSHOT_FORMAT_VERSION`.
abbrev pub format_version_supported : ℕ
format_version_supported = 1

-- `build_kernel_snapshot`.
unfoldable pub build_kernel_snapshot :
    (ℕ → Option ℕ) → Kernel → List MemoryPageSnapshot → KernelSnapshot
build_kernel_snapshot port_of k pages = record {
  format_version = format_version_supported;
  pages = pages;
  fds = record {
    entries = sort_fd_entries (fd_entries port_of k k.fds.table);
    next_fd = k.fds.next_fd;
    cloexec = sort_numbers k.fds.cloexec;
  };
  mm = snapshot k.mm;
  vfs = from_vfs k.vfs;
  signals = from_signals k.signals;
  exit_code = k.exit_code;
  comm = k.comm;
  futex_table = futex_snapshot k.process_state.futex_table;
  cpu_ns = k.cpu_ns;
  brk = k.brk;
  args = k.args;
  env = k.env;
  rng_seed = k.rng_seed;
  clock = from_clock k.boot_monotonic_ns;
  module_sha256 = replicate 32 0;
}

-- `verify_module_hash`: a hash of zeros is not checked. `sha256` is the digest.
unfoldable pub verify_module_hash :
    (List ℕ → List ℕ) → KernelSnapshot → (wasm_bytes : List ℕ) → Option SnapshotError
verify_module_hash sha256 snap wasm_bytes =
    if is_zero_page snap.module_sha256
    then none
    else if eq_bytes (sha256 wasm_bytes) snap.module_sha256
    then none
    else some module_hash_mismatch
