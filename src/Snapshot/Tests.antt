-- ===== src/Snapshot/Tests.antt =====
-- A snapshot at concrete inputs.
use edge_libos.Snapshot.Freeze.{KernelSnapshot, build_kernel_snapshot}
use edge_libos.Kernel.{Kernel, SigAction}
use edge_libos.Fd.Objects.{Pipe, Resource}
use edge_libos.Tests.Memory.{a_kernel}
use edge_libos.Snapshot.State.Copies.{Apart, rebuild_resource-Apart}
use edge_libos.Snapshot.State.Scalars.{Restores, apply_snapshot_kernel_state-Restores}
use edge_libos.Snapshot.State.{RestoreHost, apply_snapshot_kernel_state}
use edge_libos.Mem.{Memory}
use edge_libos.Base.{[], false, if◌then◌else◌, ltb, none, refl, ◌∷◌, ◌≡◌}

-- Two pages, of which the first is 0, and one page into which they do not fit.
abbrev two_pages : Memory
two_pages = record { size = 131072; byte = λ q. if ltb q 65536 then 0 else 7 }

abbrev one_page : Memory
one_page = record { size = 65536; byte = λ q. 3 }

abbrev no_host : RestoreHost
no_host = record {
  reopen = λ p q. none;
  socket_at = λ p. none;
  bind_unix = λ p. none;
  bind_tcp = λ p q r. none;
}

abbrev an_action : SigAction
an_action = record { handler = 1; flags = 0; restorer = 0; mask = 0 }

-- A kernel with two signal actions and a pipe, of which descriptors 3 and 4 are the ends.
abbrev piped : Kernel
piped = record a_kernel {
  cpu_ns = 7;
  signals = record { actions = (10, an_action) ∷ (2, an_action) ∷ []; mask = 5; alt_stack = none };
  pipes = (1, record { buf = 9 ∷ []; closed = false; nonblock = false }) ∷ [];
  fds = record {
    table = (3, Resource.pipe_read 1) ∷ (4, Resource.pipe_write 1) ∷ [];
    next_fd = 5;
    cloexec = [];
  };
}

abbrev frozen : KernelSnapshot
frozen = build_kernel_snapshot (λ l. none) piped []

apply_snapshot_kernel_state-Restores_example :
    Restores piped (apply_snapshot_kernel_state no_host frozen a_kernel).0
    × ((apply_snapshot_kernel_state no_host frozen a_kernel).0.memory ≡ a_kernel.memory)
apply_snapshot_kernel_state-Restores_example =
    apply_snapshot_kernel_state-Restores no_host (λ l. none) piped a_kernel [] (refl, (refl, tt))

abbrev nine : Pipe
nine = record { buf = 9 ∷ []; closed = false; nonblock = false }

rebuild_resource-Apart_example : Apart no_host (λ l. none) piped a_kernel 1 nine (5 ∷ [])
rebuild_resource-Apart_example =
    rebuild_resource-Apart no_host (λ l. none) piped a_kernel 1 nine (5 ∷ []) refl
