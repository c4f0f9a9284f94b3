-- ===== src/Sys/Fcntl.antt =====
-- src/sys/file.rs: fcntl and set_nonblock.
pub mod Flags
use edge_libos.Base.Result.{err, ok}
use edge_libos.Base.{
  Bool, as_u32, bit_and, bit_or, false, if◌then◌else◌, is_zero, leb, none, not, pos, some, try_u32,
  ℕ, ℤ, ◌==◌, ◌^◌, ◌||◌,
}
use edge_libos.Mem.Bytes.{to_le}
use edge_libos.Mem.{copy_to, guest_slice_mut}
use edge_libos.Map.{get, insert}
use edge_libos.Errno.{ebadf, einval, to_ret}
use edge_libos.Fd.Table.{get_cloexec, get_fd, insert_at_least, set_cloexec}
use edge_libos.Fd.Objects.{Resource}
use edge_libos.Kernel.{Kernel}
use edge_libos.Sys.Dup.{cloned_of, o_nonblock}

-- The access mode that `F_GETFL` reports.
abbrev pub o_rdonly : ℕ
o_rdonly = 0

abbrev pub o_wronly : ℕ
o_wronly = 1

abbrev pub o_rdwr : ℕ
o_rdwr = 2

pub pipe_nonblock : Kernel → ℕ → Bool
pipe_nonblock k p = elim (get p k.pipes) [ some x ↦ x.nonblock | none ↦ false ]

pub socket_nonblock : Kernel → ℕ → Bool
socket_nonblock k s = elim (get s k.sockets) [ some x ↦ x.nonblock | none ↦ false ]

-- `fl |= O_NONBLOCK`.
abbrev pub with_nonblock : ℕ → Bool → ℕ
with_nonblock mode on = if on then bit_or mode o_nonblock else mode

pub status_flags : Kernel → Resource → ℕ
unfolding pipe_nonblock socket_nonblock
status_flags k (Resource.stdin p) = with_nonblock o_rdonly (pipe_nonblock k p)
status_flags k (Resource.pipe_read p) = with_nonblock o_rdonly (pipe_nonblock k p)
status_flags k (Resource.stdout p) = with_nonblock o_wronly (pipe_nonblock k p)
status_flags k (Resource.stderr p) = with_nonblock o_wronly (pipe_nonblock k p)
status_flags k (Resource.pipe_write p) = with_nonblock o_wronly (pipe_nonblock k p)
status_flags k (Resource.file f) = o_rdwr
status_flags k (Resource.socket s) = with_nonblock o_rdwr (socket_nonblock k s)
status_flags k (Resource.epoll e) = o_rdwr
status_flags k (Resource.event_fd e) = o_rdwr

pub set_pipe_nonblock : Kernel → ℕ → Bool → Kernel
set_pipe_nonblock k p on = elim (get p k.pipes) [
  | some x ↦ record k { pipes = insert p (record x { nonblock = on }) k.pipes }
  | none ↦ k
]

pub set_socket_nonblock : Kernel → ℕ → Bool → Kernel
set_socket_nonblock k s on = elim (get s k.sockets) [
  | some x ↦ record k { sockets = insert s (record x { nonblock = on }) k.sockets }
  | none ↦ k
]

pub set_nonblock : Kernel → Resource → Bool → Kernel
unfolding set_pipe_nonblock set_socket_nonblock
set_nonblock k (Resource.stdin p) on = set_pipe_nonblock k p on
set_nonblock k (Resource.pipe_read p) on = set_pipe_nonblock k p on
set_nonblock k (Resource.stdout p) on = set_pipe_nonblock k p on
set_nonblock k (Resource.stderr p) on = set_pipe_nonblock k p on
set_nonblock k (Resource.pipe_write p) on = set_pipe_nonblock k p on
set_nonblock k (Resource.socket s) on = set_socket_nonblock k s on
set_nonblock k (Resource.file f) on = k
set_nonblock k (Resource.epoll e) on = k
set_nonblock k (Resource.event_fd e) on = k

pub getfl : Kernel → ℕ → Kernel × ℤ
unfolding status_flags
getfl k fd = elim (get_fd k.fds fd) [ ok r ↦ (k, pos (status_flags k r)) | err e ↦ (k, e) ]

pub setfl : Kernel → ℕ → ℤ → Kernel × ℤ
unfolding set_nonblock
setfl k fd arg = elim (get_fd k.fds fd) [
  | ok r ↦ (set_nonblock k r (not (bit_and (as_u32 arg) o_nonblock == 0)), pos 0)
  | err e ↦ (k, e)
]

-- A pointer that is out of bounds is passed over.
pub getfd : Kernel → ℕ → ℤ → Kernel × ℤ
getfd k fd arg =
    let on = if get_cloexec k.fds fd then 1 else 0 in
    if is_zero arg then (k, pos on) else elim (guest_slice_mut k.memory arg (pos 4)) [
      | ok p ↦ (record k { memory = copy_to k.memory p (to_le 4 on) }, pos on)
      | err e ↦ (k, pos on)
    ]

pub setfd : Kernel → ℕ → ℤ → Kernel × ℤ
setfd k fd arg =
    (record k { fds = set_cloexec k.fds fd (not (bit_and (as_u32 arg) 1 == 0)) }, pos 0)

-- `(arg as i32) < 0` looks at the low 32 bits; `arg as u32` keeps them.
pub dupfd : Kernel → ℕ → ℤ → Bool → Kernel × ℤ
dupfd k fd arg want_cloexec =
    if leb (2 ^ 31) (as_u32 arg) then (k, to_ret einval) else elim (cloned_of k.fds fd) [
      | ok r ↦
          let (t, new_fd) = insert_at_least k.fds (as_u32 arg) r in
          (record k { fds = set_cloexec t new_fd want_cloexec }, pos new_fd)
      | err e ↦ (k, e)
    ]

pub fcntl_checked : Kernel → ℕ → ℕ → ℤ → Kernel × ℤ
unfolding getfl setfl getfd setfd dupfd
fcntl_checked k fd cmd arg =
    if cmd == 3
    then getfl k fd
    else if cmd == 4
    then setfl k fd arg
    else if cmd == 1
    then getfd k fd arg
    else if cmd == 2
    then setfd k fd arg
    else if (cmd == 0) || (cmd == 1030)
    then dupfd k fd arg (cmd == 1030)
    else (k, to_ret einval)

pub fcntl : Kernel → (fd cmd arg : ℤ) → Kernel × ℤ
unfolding fcntl_checked
fcntl k fd cmd arg = elim (try_u32 fd) [
  | none ↦ (k, to_ret ebadf)
  | some f ↦ fcntl_checked k f (as_u32 cmd) arg
]
