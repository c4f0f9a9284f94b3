-- ===== src/Kernel.antt =====
-- The state that a system call works on: `Kernel` and `ProcessState` of src/kernel.rs. The store
-- of shared objects (pipes, open files, sockets) stands beside the table that refers to them.
use edge_libos.Vfs.{Vfs}
use edge_libos.Base.{Bool, List, Option, ℕ}
use edge_libos.Mem.{MemoryKind}
use edge_libos.Fd.Objects.{FilePos, Pipe, SocketInner}
use edge_libos.Fd.Table.{FdTable}
use edge_libos.Mm.Allocator.{LinearAllocator}

pub record SigAction : Type 0 where
  pub handler : ℕ
  pub flags : ℕ
  pub restorer : ℕ
  pub mask : ℕ

pub record SignalState : Type 0 where
  pub actions : List (ℕ × SigAction)
  pub mask : ℕ
  pub alt_stack : Option (List ℕ)

-- A `Notify` is an object of its own: its number.
pub record FutexEntry : Type 0 where
  pub notify : ℕ
  pub waiters : ℕ

pub record ChildExitStatus : Type 0 where
  pub exit_code : ℕ
  pub exited : Bool

-- Process numbers and exit codes are patterns of an i32.
pub record ProcessState : Type 0 where
  pub next_pid : ℕ
  pub children : List (ℕ × ChildExitStatus)
  pub futex_table : List (ℕ × FutexEntry)
  pub signals_pending : List ℕ
  pub tgid_registry : List ℕ
  pub tgid : ℕ

pub record Kernel : Type 0 where
  pub memory : Option MemoryKind
  pub fds : FdTable
  pub mm : LinearAllocator
  pub signals : SignalState
  pub exit_code : Option ℕ
  pub comm : List ℕ
  pub tid : ℕ
  pub tgid : ℕ
  pub process_state : ProcessState
  pub cpu_ns : ℕ
  pub brk : ℕ
  pub args : List (List ℕ)
  pub env : List (List ℕ × List ℕ)
  -- The generator is made from it.
  pub rng_seed : List ℕ
  -- Of `ClockState`.
  pub boot_monotonic_ns : ℕ
  pub vfs : Vfs
  pub pipes : List (ℕ × Pipe)
  pub files : List (ℕ × FilePos)
  pub sockets : List (ℕ × SocketInner)
  -- The number of the next object: pipe, file, socket or `Notify`.
  pub next_object : ℕ
