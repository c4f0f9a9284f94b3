-- ===== src/Snapshot/State/Scalars.antt =====
-- What a restore replaces before the descriptors, and that rebuilding them leaves it alone.
use edge_libos.Snapshot.Freeze.{
  EpollSnapshot, EventFdSnapshot, FdEntrySnapshot, FileSnapshot, PipeSnapshot, ResourceBody,
  ResourceKind, build_kernel_snapshot, epoll_kind, event_fd_kind, file_kind, pipe_read_kind,
  pipe_write_kind, socket_kind, sort_fd_entries, stderr_kind, stdin_kind, stdout_kind,
}
use edge_libos.Sys.Process.Reap.{IsMap}
use edge_libos.Mm.Allocator.{replace_from_snapshot, snapshot}
use edge_libos.Snapshot.Fields.Actions.{get-rebuilt_signals}
use edge_libos.Snapshot.Fields.{from_signals, from_vfs, rebuilt_signals, rebuilt_vfs}
use edge_libos.Map.{get}
use edge_libos.Snapshot.State.{
  Rebuilt, RestoreHost, add_socket, apply_scalars, apply_snapshot_kernel_state, failed,
  finish_apply, go_on, inserted, is_inherited, place_rebuilt, rebuild_entries, rebuild_epoll,
  rebuild_eventfd, rebuild_file, rebuild_opened, rebuild_path, rebuild_pipe, rebuild_resource,
  rebuild_socket, rebuild_tcp, rebuild_unix, rebuild_unix_at, rebuilt, tcp_listener, unix_listener,
  unix_path,
}
use edge_libos.Snapshot.Pages.{MemoryPageSnapshot, SnapshotError}
use edge_libos.Kernel.{Kernel}
use edge_libos.Fd.Table.{FdTable}
use edge_libos.Fd.Sockets.{SocketSnapshot}
use edge_libos.Fd.Objects.{FilePos, Pipe, Resource, SockAddr, SocketInner, v4, v6}
use edge_libos.Paths.{PathBuf, body}
use edge_libos.Base.Result.{Result}
use edge_libos.Base.{
  Bool, List, Option, [], ap, false, if-cases, none, refl, some, true, ℕ, ◌&&◌, ◌+◌, ◌==◌, ◌∙◌, ◌∷◌,
  ◌≡◌,
}
use edge_libos.Fd.Table

-- The fields that rebuilding descriptors does not touch.
pub record Keeps (k n : Kernel) : Type 0 where
  pub same_memory : n.memory ≡ k.memory
  pub same_mm : n.mm ≡ k.mm
  pub same_vfs : n.vfs ≡ k.vfs
  pub same_signals : n.signals ≡ k.signals
  pub same_exit_code : n.exit_code ≡ k.exit_code
  pub same_comm : n.comm ≡ k.comm
  pub same_cpu_ns : n.cpu_ns ≡ k.cpu_ns
  pub same_brk : n.brk ≡ k.brk
  pub same_args : n.args ≡ k.args
  pub same_env : n.env ≡ k.env
  pub same_rng_seed : n.rng_seed ≡ k.rng_seed
  pub same_boot_monotonic_ns : n.boot_monotonic_ns ≡ k.boot_monotonic_ns
  pub same_processes : n.process_state ≡ k.process_state

Keeps-self : (k : Kernel) → Keeps k k
Keeps-self k = record {
  same_memory = refl;
  same_mm = refl;
  same_vfs = refl;
  same_signals = refl;
  same_exit_code = refl;
  same_comm = refl;
  same_cpu_ns = refl;
  same_brk = refl;
  same_args = refl;
  same_env = refl;
  same_rng_seed = refl;
  same_boot_monotonic_ns = refl;
  same_processes = refl;
}

Keeps-on : (k m n : Kernel) → Keeps k m → Keeps m n → Keeps k n
Keeps-on k m n a b = record {
  same_memory = b.same_memory ∙ a.same_memory;
  same_mm = b.same_mm ∙ a.same_mm;
  same_vfs = b.same_vfs ∙ a.same_vfs;
  same_signals = b.same_signals ∙ a.same_signals;
  same_exit_code = b.same_exit_code ∙ a.same_exit_code;
  same_comm = b.same_comm ∙ a.same_comm;
  same_cpu_ns = b.same_cpu_ns ∙ a.same_cpu_ns;
  same_brk = b.same_brk ∙ a.same_brk;
  same_args = b.same_args ∙ a.same_args;
  same_env = b.same_env ∙ a.same_env;
  same_rng_seed = b.same_rng_seed ∙ a.same_rng_seed;
  same_boot_monotonic_ns = b.same_boot_monotonic_ns ∙ a.same_boot_monotonic_ns;
  same_processes = b.same_processes ∙ a.same_processes;
}

RebuiltKeeps : Kernel → Rebuilt → Type 0
RebuiltKeeps k (rebuilt n r) = Keeps k n
RebuiltKeeps k (failed e) = Unit

module _ (h : RestoreHost) (k : Kernel) where
  new_objects :
      (pipes : List (ℕ × Pipe)) (files : List (ℕ × FilePos)) (sockets : List (ℕ × SocketInner))
      (next : ℕ)
      → Keeps k (record k { pipes = pipes; files = files; sockets = sockets; next_object = next })
  new_objects pipes files sockets next = record {
    same_memory = refl;
    same_mm = refl;
    same_vfs = refl;
    same_signals = refl;
    same_exit_code = refl;
    same_comm = refl;
    same_cpu_ns = refl;
    same_brk = refl;
    same_args = refl;
    same_env = refl;
    same_rng_seed = refl;
    same_boot_monotonic_ns = refl;
    same_processes = refl;
  }

  pipe_keeps :
      (end : ℕ → Resource) (o : Option PipeSnapshot) → RebuiltKeeps k (rebuild_pipe k end o)
  unfolding RebuiltKeeps
  pipe_keeps end none = tt
  pipe_keeps end (some snap) = new_objects _ k.files k.sockets (k.next_object + 1)

  file_keeps : (o : Option FileSnapshot) → RebuiltKeeps k (rebuild_file h k o)
  unfolding RebuiltKeeps
  file_keeps none = tt
  file_keeps (some snap) =
      if-cases (RebuiltKeeps k) snap.is_dir _ _ (λ e. tt) (λ e. at_path snap.path)
    where
      opened : (path : PathBuf) (o : Option ℕ) → RebuiltKeeps k (rebuild_opened k snap path o)
      opened path none = tt
      opened path (some inner) = new_objects k.pipes _ k.sockets (k.next_object + 1)

      at_path : (o : Option PathBuf) → RebuiltKeeps k (rebuild_path h k snap o)
      at_path none = tt
      at_path (some path) = opened path (h.reopen path snap.pos)

  added : (o : Option SocketInner) → RebuiltKeeps k (add_socket k o)
  unfolding RebuiltKeeps
  added none = tt
  added (some s) = new_objects k.pipes k.files _ (k.next_object + 1)

  unix_keeps :
      (snap : SocketSnapshot) (o : Option (List ℕ)) → RebuiltKeeps k (rebuild_unix h k snap o)
  unfolding RebuiltKeeps
  unix_keeps snap none = tt
  unix_keeps snap (some []) = at [] (h.socket_at [])
    where
      at : (path : List ℕ) (o : Option Bool) → RebuiltKeeps k (rebuild_unix_at h k snap path o)
      at path none = added (unix_listener h snap path)
      at path (some true) = added (unix_listener h snap path)
      at path (some false) = tt
  unix_keeps snap (some (c ∷ cs)) =
      if-cases (RebuiltKeeps k) (c == 0) _ _ (λ e. tt) (λ e. at (c ∷ cs) (h.socket_at (c ∷ cs)))
    where
      at : (path : List ℕ) (o : Option Bool) → RebuiltKeeps k (rebuild_unix_at h k snap path o)
      at path none = added (unix_listener h snap path)
      at path (some true) = added (unix_listener h snap path)
      at path (some false) = tt

  tcp_keeps :
      (snap : SocketSnapshot) (o : Option SockAddr) → RebuiltKeeps k (rebuild_tcp h k snap o)
  unfolding RebuiltKeeps
  tcp_keeps snap none = tt
  tcp_keeps snap (some (v4 port addr)) = added (tcp_listener h snap port addr)
  tcp_keeps snap (some (v6 port addr)) = tt
  tcp_keeps snap (some (SockAddr.unix path)) = tt

  socket_keeps : (o : Option SocketSnapshot) → RebuiltKeeps k (rebuild_socket h k o)
  unfolding RebuiltKeeps
  socket_keeps none = tt
  socket_keeps (some snap) =
      if-cases (RebuiltKeeps k) (snap.is_acceptor && snap.peer_addr_present) _ _ (λ e. tt)
        (λ e.
          if-cases (RebuiltKeeps k) snap.family_unix _ _
            (λ f. unix_keeps snap (unix_path snap.unix_inner))
            (λ f.
              if-cases (RebuiltKeeps k) snap.is_acceptor _ _ (λ g. tcp_keeps snap snap.bound)
                (λ g. tt)))

  epoll_keeps : (o : Option EpollSnapshot) → RebuiltKeeps k (rebuild_epoll k o)
  unfolding RebuiltKeeps
  epoll_keeps none = tt
  epoll_keeps (some snap) = Keeps-self k

  eventfd_keeps : (o : Option EventFdSnapshot) → RebuiltKeeps k (rebuild_eventfd k o)
  unfolding RebuiltKeeps
  eventfd_keeps none = tt
  eventfd_keeps (some snap) = Keeps-self k

  rebuild_resource-Keeps :
      (kind : ResourceKind) (body : ResourceBody) → RebuiltKeeps k (rebuild_resource h k kind body)
  unfolding rebuild_resource
  rebuild_resource-Keeps stdin_kind body = pipe_keeps Resource.stdin body.pipe
  rebuild_resource-Keeps stdout_kind body = pipe_keeps Resource.stdout body.pipe
  rebuild_resource-Keeps stderr_kind body = pipe_keeps Resource.stderr body.pipe
  rebuild_resource-Keeps pipe_read_kind body = pipe_keeps Resource.pipe_read body.pipe
  rebuild_resource-Keeps pipe_write_kind body = pipe_keeps Resource.pipe_write body.pipe
  rebuild_resource-Keeps file_kind body = file_keeps body.file
  rebuild_resource-Keeps socket_kind body = socket_keeps body.socket
  rebuild_resource-Keeps epoll_kind body = epoll_keeps body.epoll
  rebuild_resource-Keeps event_fd_kind body = eventfd_keeps body.eventfd

  place_rebuilt-Keeps : (fd : ℕ) (r : Rebuilt) → RebuiltKeeps k r → Keeps k (place_rebuilt k fd r).0
  unfolding RebuiltKeeps
  place_rebuilt-Keeps fd (failed e) x = Keeps-self k
  place_rebuilt-Keeps fd (rebuilt n r) x = put n (Table.insert_at n.fds fd r) x
    where
      put : (n : Kernel) (t : FdTable × Result ℕ) → Keeps k n → Keeps k (inserted n t).0
      put n (t, Result.ok fd) x = record {
        same_memory = x.same_memory;
        same_mm = x.same_mm;
        same_vfs = x.same_vfs;
        same_signals = x.same_signals;
        same_exit_code = x.same_exit_code;
        same_comm = x.same_comm;
        same_cpu_ns = x.same_cpu_ns;
        same_brk = x.same_brk;
        same_args = x.same_args;
        same_env = x.same_env;
        same_rng_seed = x.same_rng_seed;
        same_boot_monotonic_ns = x.same_boot_monotonic_ns;
        same_processes = x.same_processes;
      }
      put n (t, Result.err e) x = x

rebuild_entries-Keeps :
    (h : RestoreHost) (k : Kernel) (es : List FdEntrySnapshot) → Keeps k (rebuild_entries h k es).0
unfolding rebuild_entries
rebuild_entries-Keeps h k [] = Keeps-self k
rebuild_entries-Keeps h k (e ∷ es) =
    if-cases (λ (r : Kernel × Option SnapshotError). Keeps k r.0) (is_inherited e.kind) _ _
      (λ x. rebuild_entries-Keeps h k es)
      (λ x.
        on (place_rebuilt k e.fd (rebuild_resource h k e.kind.kind e.kind.body))
          (place_rebuilt-Keeps h k e.fd (rebuild_resource h k e.kind.kind e.kind.body)
            (rebuild_resource-Keeps h k e.kind.kind e.kind.body))
          (λ n. rebuild_entries-Keeps h n es))
  where
    on :
        (placed : Kernel × Option SnapshotError)
        → Keeps k placed.0
        → ((n : Kernel) → Keeps n (rebuild_entries h n es).0)
        → Keeps k (go_on placed (rebuild_entries h placed.0 es)).0
    on (n, some e) x ih = x
    on (n, none) x ih = Keeps-on k n (rebuild_entries h n es).0 x (ih n)

-- What a restore gives of the frozen kernel `k`, besides memory and descriptors.
pub record Restores (k n : Kernel) : Type 0 where
  pub mm : n.mm ≡ k.mm
  pub vfs : n.vfs ≡ k.vfs
  pub actions : (sig : ℕ) → get sig n.signals.actions ≡ get sig k.signals.actions
  pub mask : n.signals.mask ≡ k.signals.mask
  pub alt_stack : n.signals.alt_stack ≡ k.signals.alt_stack
  pub exit_code : n.exit_code ≡ k.exit_code
  pub comm : n.comm ≡ k.comm
  pub cpu_ns : n.cpu_ns ≡ k.cpu_ns
  pub brk : n.brk ≡ k.brk
  pub args : n.args ≡ k.args
  pub env : n.env ≡ k.env
  pub rng_seed : n.rng_seed ≡ k.rng_seed
  pub boot_monotonic_ns : n.boot_monotonic_ns ≡ k.boot_monotonic_ns

-- Restoring the snapshot of a kernel into any other gives it the allocator and the file system's
-- state of the first, for each signal the action that it had, if no signal has two, the signal mask
-- and the alternate stack, the exit code, the name, the processor time, the break, the arguments, the
-- environment, the seed and the start of the clock, whether or not all descriptors could be rebuilt;
-- and it leaves the memory of the other alone.
pub apply_snapshot_kernel_state-Restores :
    (h : RestoreHost) (port_of : ℕ → Option ℕ) (k j : Kernel) (pages : List MemoryPageSnapshot)
    → IsMap k.signals.actions
    → Restores k (apply_snapshot_kernel_state h (build_kernel_snapshot port_of k pages) j).0
      × ((apply_snapshot_kernel_state h (build_kernel_snapshot port_of k pages) j).0.memory
          ≡ j.memory)
unfolding apply_snapshot_kernel_state build_kernel_snapshot snapshot replace_from_snapshot from_vfs
    rebuilt_vfs from_signals rebuilt_signals
apply_snapshot_kernel_state-Restores h port_of k j pages unique =
    let snap = build_kernel_snapshot port_of k pages in
    finished (rebuild_entries h (apply_scalars snap j) (sort_fd_entries snap.fds.entries))
      (rebuild_entries-Keeps h (apply_scalars snap j) (sort_fd_entries snap.fds.entries))
  where
    finished :
        (r : Kernel × Option SnapshotError)
        → Keeps (apply_scalars (build_kernel_snapshot port_of k pages) j) r.0
        → Restores k (finish_apply (build_kernel_snapshot port_of k pages) r).0
          × ((finish_apply (build_kernel_snapshot port_of k pages) r).0.memory ≡ j.memory)
    finished (n, some e) x = (
      record {
        mm = x.same_mm;
        vfs = x.same_vfs;
        actions = λ sig.
            ap (λ s. get sig s.actions) x.same_signals ∙ get-rebuilt_signals k.signals sig unique;
        mask = ap (λ s. s.mask) x.same_signals;
        alt_stack = ap (λ s. s.alt_stack) x.same_signals;
        exit_code = x.same_exit_code;
        comm = x.same_comm;
        cpu_ns = x.same_cpu_ns;
        brk = x.same_brk;
        args = x.same_args;
        env = x.same_env;
        rng_seed = x.same_rng_seed;
        boot_monotonic_ns = x.same_boot_monotonic_ns;
      },
      x.same_memory,
    )
    finished (n, none) x = (
      record {
        mm = x.same_mm;
        vfs = x.same_vfs;
        actions = λ sig.
            ap (λ s. get sig s.actions) x.same_signals ∙ get-rebuilt_signals k.signals sig unique;
        mask = ap (λ s. s.mask) x.same_signals;
        alt_stack = ap (λ s. s.alt_stack) x.same_signals;
        exit_code = x.same_exit_code;
        comm = x.same_comm;
        cpu_ns = x.same_cpu_ns;
        brk = x.same_brk;
        args = x.same_args;
        env = x.same_env;
        rng_seed = x.same_rng_seed;
        boot_monotonic_ns = x.same_boot_monotonic_ns;
      },
      x.same_memory,
    )
