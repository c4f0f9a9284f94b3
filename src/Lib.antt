-- ===== src/Lib.antt =====
-- edge-libos runs WebAssembly guests against a Linux system call interface of its own. This library
-- models the kernel below that interface: the memory it manages for a guest, the descriptor table,
-- and the handlers that change this state.
--
-- How the program is put together. The dispatcher (src/dispatch.rs, not modelled) passes the six
-- i64 arguments of a system call to a handler in src/sys. A handler reads and writes the state of
-- the guest (`Kernel`, src/kernel.rs) and the linear memory, the latter only through the checked
-- ranges of src/mem.rs, and returns an i64: a result, or a negated error number.
--
-- Which file models which part:
--   Errno          src/errno.rs
--   Map            the hash maps and sets that the kernel state consists of
--   Mem            src/mem.rs: guest_slice, guest_slice_mut, guest_str
--   Mm/Arena       src/mm/arena.rs: alloc, free, contains
--   Mm/Allocator   src/mm/mod.rs: mmap, munmap, grow_in_place, brk, snapshot and its restore
--   Fd             src/fd.rs: the resources, FdTable, and the constructors of sockets
--   Kernel         src/kernel.rs: Kernel, ProcessState and the records in them
--   Paths          paths of std::path on Unix: their components, join and text
--   Utf8           String::from_utf8_lossy of the standard library
--   Vfs            src/vfs.rs: resolve_path, chdir, chroot; Vfs/Stat and Vfs/Dirent what stat and
--                  a listing encode; Vfs/Host what the code asks the host's file system
--   Sys/PathResolve
--                  src/sys/path.rs
--   Sys/Memory     src/sys/memory.rs: mmap, munmap, mprotect, madvise, brk, mremap
--   Sys/Dup, Sys/Fcntl, Sys/File, Sys/Vectors
--                  src/sys/file.rs: close, dup, dup2, dup3, pipe, pipe2; fcntl; read, write, lseek;
--                  readv, writev
--   Sys/PathCalls  src/sys/file.rs: mkdir, rmdir, unlink, rename, link, symlink, truncate,
--                  utimensat, chmod and their `at` forms
--   Sys/FileStat   src/sys/file.rs: stat, lstat, fstat, newfstatat; Extended statx
--   Sys/Dirs       src/sys/file.rs: openat, getdents64, getcwd, chdir, chroot, faccessat2,
--                  readlinkat; src/vfs.rs: open
--   Sys/OpenFile   src/sys/file.rs: ftruncate, fchmod
--   Sys/Guest      answers that are copied into guest memory
--   Sys/EventFd    src/sys/eventfd.rs
--   Sys/Futex      src/sys/futex.rs
--   Sys/Signal     src/sys/signal.rs
--   Sys/Process, Sys/Credentials
--                  src/sys/process.rs: exit, clone, fork, wait4; kill, tgkill, prctl, affinity
--   Sys/Epoll      src/sys/epoll.rs: create, ctl, wait
--   Sys/Poll       src/sys/poll.rs: poll
--   Sys/Identity, Sys/Time, Sys/Udp
--                  src/sys/identity.rs, src/sys/time.rs, src/sys/udp.rs
--   Sys/Ioctl      src/sys/ioctl.rs, src/sys/random.rs
--   Sys/Resolver, Sys/Addrinfo
--                  src/sys/resolver.rs: resolve and its cache; filtering and marshalling
--   Meter          src/meter.rs
--   Snapshot/Pages src/snapshot.rs: collect_pages, apply_snapshot_to_memory
--   Snapshot/Fields
--                  src/snapshot.rs: the conversions of the fields with a snapshot type of their own
--   Snapshot/Freeze, Snapshot/State
--                  src/snapshot.rs: build_kernel_snapshot; apply_snapshot_kernel_state;
--                  src/sys/futex.rs: the snapshot of the waiters
-- The names are those of the program; a helper has a name of its own where the source has a block
-- or a match arm. The modules below these hold the proofs, Tests and the Tests modules the runs.
--
-- How the code is rendered. Handlers are functions from the state to the state and the result.
-- Unsigned machine integers are natural numbers below their bound, with the wrap-around written out;
-- signed ones are the library's own integers or, for i32 fields, bit patterns. What an `Arc` shares
-- is an object in a store of the kernel, and the resources hold its number, so that aliasing of
-- descriptors is visible. A handler that awaits is cut at the await: the part before ends in a value
-- that says on what it waits, and the parts after are functions of their own; a step relation puts
-- the parts of several tasks in sequence. A `Notify` carries no state of its own beyond its number.
--
-- Bounds. `insert_at_least` searches with as much fuel as there are entries, since each round passes
-- one; `read` of a file has one round more than bytes were asked for, since each round but the last
-- adds a byte; from_utf8_lossy takes a byte or more in each round and has as much fuel as bytes. No
-- other function needs fuel.
--
-- Parameters: the growth of a linear memory (wasmtime), with named laws (that a memory stays below 4 GiB
-- is assumed where a theorem says so, and not documented); the host's file system and
-- its file objects, clocks, random numbers and sockets; the socket handlers where read and write pass
-- a call on; the lookup of names; UTF-8 validity; the digest of a module.
--
-- Not modelled: the socket handlers, the dispatcher, the command line and the host driver, the
-- configuration of the resolver, and the wire format of a snapshot, which postcard and serde derive.
-- Of the modelled files: epoll_pwait, ppoll, select, and inherited listeners.
-- Shared linear memory is refused by the accessors that the modelled handlers use, as in the code.
-- Adding two guest addresses does not overflow a 64-bit word, since both come from an i64 that is not
-- negative.
pub mod Base
pub mod Errno
pub mod Map
pub mod Mem
pub mod Fd
pub mod Mm
pub mod Paths
pub mod Utf8
pub mod Vfs
pub mod Kernel
pub mod Meter
pub mod Snapshot
pub mod Sys
pub mod Tests
