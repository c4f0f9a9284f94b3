-- ===== src/Snapshot/State.antt =====
-- The restore of a kernel from a snapshot: apply_snapshot_kernel_state and its parts. The random
-- generator is made from the seed and is no field of its own.
pub mod Scalars
pub mod Copies
use edge_libos.Snapshot.Freeze.{
  EpollEntrySnapshot, EpollSnapshot, EventFdSnapshot, FdEntrySnapshot, FileSnapshot, KernelSnapshot,
  PipeSnapshot, ResourceBody, ResourceKind, ResourceSnapshot, epoll_kind, event_fd_kind, file_kind,
  format_version_supported, pipe_read_kind, pipe_write_kind, socket_kind, sort_fd_entries,
  stderr_kind, stdin_kind, stdout_kind,
}
use edge_libos.Snapshot.Fields.{rebuilt_signals, rebuilt_vfs}
use edge_libos.Snapshot.Pages.{
  SnapshotError, abstract_unix_namespace, accepted_stream_on_listener, format_version_mismatch,
  io_error, missing_path, unknown_resource, unsupported,
}
use edge_libos.Mm.Allocator.{brk, replace_from_snapshot}
use edge_libos.Kernel.{FutexEntry, Kernel}
use edge_libos.Fd.Table.{FdTable}
use edge_libos.Fd.Sockets.{SocketSnapshot, UnixSockSnapshot, from_tcp_listener, from_unix_listener}
use edge_libos.Fd.Objects.{EpollEntry, Resource, SockAddr, SocketInner, Wake, v4}
use edge_libos.Paths.{PathBuf, body}
use edge_libos.Map.{insert}
use edge_libos.Base.Result.{Result}
use edge_libos.Base.{
  Bool, List, Option, [], false, if◌then◌else◌, length, none, pos, some, true, ℕ, ◌&&◌, ◌+◌, ◌==◌,
  ◌∷◌,
}
use edge_libos.Fd.Table

-- What the host does for a restore: opening a file for reading and writing at a position, saying
-- whether a path is there and is a socket, and binding listeners.
pub record RestoreHost : Type 0 where
  pub reopen : PathBuf → ℕ → Option ℕ
  pub socket_at : List ℕ → Option Bool
  pub bind_unix : List ℕ → Option ℕ
  pub bind_tcp : ℕ → List ℕ → (reuse : Bool) → Option ℕ

-- A rebuilt resource stands in the store under the next number.
pub data Rebuilt : Type 0 where
  rebuilt : Kernel → Resource → Rebuilt
  failed : SnapshotError → Rebuilt

abbrev pub rebuild_pipe : Kernel → (ℕ → Resource) → Option PipeSnapshot → Rebuilt
rebuild_pipe k end none = failed unknown_resource
rebuild_pipe k end (some snap) =
    rebuilt
      (record k {
        pipes =
            insert k.next_object
              (record { buf = snap.buf; closed = snap.closed; nonblock = snap.nonblock }) k.pipes;
        next_object = k.next_object + 1;
      })
      (end k.next_object)

abbrev pub rebuild_opened : Kernel → FileSnapshot → PathBuf → Option ℕ → Rebuilt
rebuild_opened k snap path none = failed io_error
rebuild_opened k snap path (some inner) =
    rebuilt
      (record k {
        files =
            insert k.next_object
              (record {
                inner = inner;
                pos = snap.pos;
                path = some path;
                is_dir = false;
                dir_cache = snap.dir_cache;
              })
              k.files;
        next_object = k.next_object + 1;
      })
      (Resource.file k.next_object)

abbrev pub rebuild_path : RestoreHost → Kernel → FileSnapshot → Option PathBuf → Rebuilt
rebuild_path h k snap none = failed missing_path
rebuild_path h k snap (some path) = rebuild_opened k snap path (h.reopen path snap.pos)

abbrev pub rebuild_file : RestoreHost → Kernel → Option FileSnapshot → Rebuilt
rebuild_file h k none = failed unknown_resource
rebuild_file h k (some snap) =
    if snap.is_dir then failed unsupported else rebuild_path h k snap snap.path

abbrev pub add_socket : Kernel → Option SocketInner → Rebuilt
add_socket k none = failed io_error
add_socket k (some s) =
    rebuilt
      (record k { sockets = insert k.next_object s k.sockets; next_object = k.next_object + 1 })
      (Resource.socket k.next_object)

-- A listener at a Unix path: abstract names are refused, and what is there must be a socket.
abbrev pub unix_listener : RestoreHost → SocketSnapshot → List ℕ → Option SocketInner
unix_listener h snap path = elim (h.bind_unix path) [
  | none ↦ none
  | some l ↦ some (from_unix_listener l path snap.nonblock)
]

abbrev pub rebuild_unix_at : RestoreHost → Kernel → SocketSnapshot → List ℕ → Option Bool → Rebuilt
rebuild_unix_at h k snap path (some false) = failed io_error
rebuild_unix_at h k snap path _ = add_socket k (unix_listener h snap path)

abbrev pub rebuild_unix : RestoreHost → Kernel → SocketSnapshot → Option (List ℕ) → Rebuilt
rebuild_unix h k snap none = failed abstract_unix_namespace
rebuild_unix h k snap (some []) = rebuild_unix_at h k snap [] (h.socket_at [])
rebuild_unix h k snap (some (c ∷ cs)) =
    if c == 0
    then failed abstract_unix_namespace
    else rebuild_unix_at h k snap (c ∷ cs) (h.socket_at (c ∷ cs))

abbrev pub tcp_listener :
    RestoreHost → SocketSnapshot → (port : ℕ) → (addr : List ℕ) → Option SocketInner
tcp_listener h snap port addr = elim (h.bind_tcp port addr snap.so_reuseaddr) [
  | none ↦ none
  | some l ↦ some (from_tcp_listener l (v4 port addr) snap.so_reuseaddr snap.nonblock)
]

abbrev pub rebuild_tcp : RestoreHost → Kernel → SocketSnapshot → Option SockAddr → Rebuilt
rebuild_tcp h k snap (some (v4 port addr)) = add_socket k (tcp_listener h snap port addr)
rebuild_tcp h k snap _ = failed unsupported

abbrev pub unix_path : Option UnixSockSnapshot → Option (List ℕ)
unix_path none = none
unix_path (some u) = u.path

abbrev pub rebuild_socket : RestoreHost → Kernel → Option SocketSnapshot → Rebuilt
rebuild_socket h k none = failed unknown_resource
rebuild_socket h k (some snap) =
    if snap.is_acceptor && snap.peer_addr_present
    then failed accepted_stream_on_listener
    else if snap.family_unix
    then rebuild_unix h k snap (unix_path snap.unix_inner)
    else if snap.is_acceptor
    then rebuild_tcp h k snap snap.bound
    else failed unsupported

abbrev pub epoll_entries : List EpollEntrySnapshot → List (ℕ × EpollEntry)
epoll_entries [] = []
epoll_entries (e ∷ es) =
    insert e.fd
      (record { fd = e.fd; events = e.events; user_data = e.user_data; wake = Wake.placeholder })
      (epoll_entries es)

abbrev pub rebuild_epoll : Kernel → Option EpollSnapshot → Rebuilt
rebuild_epoll k none = failed unknown_resource
rebuild_epoll k (some snap) = rebuilt k (
    Resource.epoll
      (record { entries = epoll_entries snap.entries; self_event_fd = snap.self_event_fd }))

abbrev pub rebuild_eventfd : Kernel → Option EventFdSnapshot → Rebuilt
rebuild_eventfd k none = failed unknown_resource
rebuild_eventfd k (some snap) =
    rebuilt k (Resource.event_fd (record { counter = snap.counter; nonblock = snap.nonblock }))

-- The `match` on the kind of an entry.
unfoldable pub rebuild_resource : RestoreHost → Kernel → ResourceKind → ResourceBody → Rebuilt
rebuild_resource h k stdin_kind body = rebuild_pipe k Resource.stdin body.pipe
rebuild_resource h k stdout_kind body = rebuild_pipe k Resource.stdout body.pipe
rebuild_resource h k stderr_kind body = rebuild_pipe k Resource.stderr body.pipe
rebuild_resource h k pipe_read_kind body = rebuild_pipe k Resource.pipe_read body.pipe
rebuild_resource h k pipe_write_kind body = rebuild_pipe k Resource.pipe_write body.pipe
rebuild_resource h k file_kind body = rebuild_file h k body.file
rebuild_resource h k socket_kind body = rebuild_socket h k body.socket
rebuild_resource h k epoll_kind body = rebuild_epoll k body.epoll
rebuild_resource h k event_fd_kind body = rebuild_eventfd k body.eventfd

-- An inherited listener is left for `apply_snapshot_inherited_listeners`.
abbrev pub inherited_socket : Option SocketSnapshot → Bool
inherited_socket none = false
inherited_socket (some s) = s.inherited

abbrev pub is_inherited : ResourceSnapshot → Bool
is_inherited r = elim r.kind [ socket_kind ↦ inherited_socket r.body.socket | _ ↦ false ]

-- The insertion under the entry's number: the state, and what went wrong.
abbrev pub inserted : Kernel → FdTable × Result ℕ → Kernel × Option SnapshotError
inserted k (t, Result.ok fd) = (record k { fds = t }, none)
inserted k (t, Result.err e) = (k, some io_error)

abbrev pub place_rebuilt : Kernel → ℕ → Rebuilt → Kernel × Option SnapshotError
place_rebuilt k fd (failed e) = (k, some e)
place_rebuilt k fd (rebuilt n r) = inserted n (Table.insert_at n.fds fd r)

abbrev pub go_on :
    Kernel × Option SnapshotError → Kernel × Option SnapshotError → Kernel × Option SnapshotError
go_on (k, some e) rest = (k, some e)
go_on (k, none) rest = rest

-- The loop over the sorted entries: it stops at the first error.
unfoldable pub rebuild_entries :
    RestoreHost → Kernel → List FdEntrySnapshot → Kernel × Option SnapshotError
rebuild_entries h k [] = (k, none)
rebuild_entries h k (e ∷ es) =
    let skip = rebuild_entries h k es in
    let placed = place_rebuilt k e.fd (rebuild_resource h k e.kind.kind e.kind.body) in
    let rest = rebuild_entries h placed.0 es in
    if is_inherited e.kind then skip else go_on placed rest

abbrev pub set_all_cloexec : FdTable → List ℕ → FdTable
set_all_cloexec t [] = t
set_all_cloexec t (fd ∷ fds) = set_all_cloexec (Table.set_cloexec t fd true) fds

-- `FutexTable::rebuild_from_snapshot`: fresh `Notify`s from number `next` on.
unfoldable pub rebuild_from_snapshot :
    (next : ℕ) → List (ℕ × ℕ) → List (ℕ × FutexEntry) → List (ℕ × FutexEntry)
rebuild_from_snapshot next [] t = t
rebuild_from_snapshot next ((addr, w) ∷ fs) t =
    rebuild_from_snapshot (next + 1) fs (insert addr (record { notify = next; waiters = w }) t)

-- The fields that are replaced before the descriptors.
abbrev pub apply_scalars : KernelSnapshot → Kernel → Kernel
apply_scalars snap k = record k {
  comm = snap.comm;
  exit_code = snap.exit_code;
  vfs = rebuilt_vfs snap.vfs;
  signals = rebuilt_signals snap.signals;
  mm = replace_from_snapshot k.mm snap.mm;
  process_state = record k.process_state {
    futex_table = rebuild_from_snapshot k.next_object snap.futex_table [];
  };
  next_object = k.next_object + length snap.futex_table;
  cpu_ns = snap.cpu_ns;
  brk = snap.brk;
  args = snap.args;
  env = snap.env;
  rng_seed = snap.rng_seed;
  boot_monotonic_ns = snap.clock.boot_monotonic_ns;
  fds = Table.empty;
}

abbrev pub finish_apply :
    KernelSnapshot → Kernel × Option SnapshotError → Kernel × Option SnapshotError
finish_apply snap (k, some e) = (k, some e)
finish_apply snap (k, none) = (
  record k { fds = record (set_all_cloexec k.fds snap.fds.cloexec) { next_fd = snap.fds.next_fd } },
  none,
)

-- `apply_snapshot_kernel_state`.
unfoldable pub apply_snapshot_kernel_state :
    RestoreHost → KernelSnapshot → Kernel → Kernel × Option SnapshotError
apply_snapshot_kernel_state h snap k =
    if snap.format_version == format_version_supported
    then finish_apply snap
        (rebuild_entries h (apply_scalars snap k) (sort_fd_entries snap.fds.entries))
    else (k, some format_version_mismatch)
