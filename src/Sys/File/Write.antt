-- ===== src/Sys/File/Write.antt =====
-- src/sys/file.rs: write and lseek.
use edge_libos.Fd.Table.{get_fd, set_fd}
use edge_libos.Map.{get, insert}
use edge_libos.Base.Result.{err, ok}
use edge_libos.Mem.Bytes.{from_le}
use edge_libos.Mem.{guest_slice}
use edge_libos.Errno.{ebadf, einval, eio, espipe, to_ret}
use edge_libos.Fd.Objects.{EventFdInner, FilePos, Resource}
use edge_libos.Kernel.{Kernel}
use edge_libos.Sys.EventFd.{eventfd_write, require_u64_buf}
use edge_libos.Sys.File.{HostFile, SocketOp}
use edge_libos.Base.{
  List, Option, if◌then◌else◌, is_zero, length, negsuc, none, pos, some, suc, take, try_u32, zero,
  ℕ, ℤ, ◌&&◌, ◌++◌, ◌+◌, ◌-◌, ◌==◌,
}

unfoldable pub write_pipe : Kernel → ℕ → List ℕ → Kernel × ℤ
write_pipe k p bytes = elim (get p k.pipes) [
  | none ↦ (k, to_ret ebadf)
  | some x ↦ (
    record k { pipes = insert p (record x { buf = x.buf ++ bytes }) k.pipes },
    pos (length bytes),
  )
]

pub write_file : HostFile → Kernel → ℕ → List ℕ → Kernel × ℤ
write_file h k f bytes = elim (get f k.files) [
  | none ↦ (k, to_ret ebadf)
  | some fp ↦
      let (inner, r) = h.write_bytes fp.inner bytes in
      elim r [
        | none ↦ (record k { files = insert f (record fp { inner = inner }) k.files }, to_ret eio)
        | some n ↦ (
          record k { files = insert f (record fp { inner = inner; pos = fp.pos + n }) k.files },
          pos n,
        )
      ]
]

pub write_event_fd : Kernel → ℕ → EventFdInner → List ℕ → Kernel × ℤ
write_event_fd k fd e bytes = elim (require_u64_buf (pos (length bytes))) [
  | err x ↦ (k, x)
  | ok _ ↦
      let added = (eventfd_write e (from_le (take 8 bytes))).0 in
      (record k { fds = set_fd k.fds fd (Resource.event_fd added) }, pos 8)
]

unfoldable pub write_resource :
    HostFile → SocketOp → Kernel → (fd : ℕ) → List ℕ → Resource → Kernel × ℤ
unfolding write_pipe write_file write_event_fd
write_resource h send k fd bytes (Resource.stdout p) = write_pipe k p bytes
write_resource h send k fd bytes (Resource.stderr p) = write_pipe k p bytes
write_resource h send k fd bytes (Resource.pipe_write p) = write_pipe k p bytes
write_resource h send k fd bytes (Resource.file f) = write_file h k f bytes
write_resource h send k fd bytes (Resource.event_fd e) = write_event_fd k fd e bytes
write_resource h send k fd bytes (Resource.socket s) = send k s
write_resource h send k fd bytes (Resource.stdin p) = (k, to_ret ebadf)
write_resource h send k fd bytes (Resource.pipe_read p) = (k, to_ret ebadf)
write_resource h send k fd bytes (Resource.epoll e) = (k, to_ret ebadf)

unfoldable pub write_checked : HostFile → SocketOp → Kernel → ℕ → List ℕ → Kernel × ℤ
unfolding write_resource
write_checked h send k fd bytes =
    if length bytes == 0
    then (k, pos 0)
    else elim (get_fd k.fds fd) [ err e ↦ (k, e) | ok r ↦ write_resource h send k fd bytes r ]

-- `write(fd, buf, len)`.
unfoldable pub write : HostFile → SocketOp → Kernel → (fd buf len : ℤ) → Kernel × ℤ
unfolding write_checked
write h send k fd buf len = elim (try_u32 fd) [
  | none ↦ (k, to_ret ebadf)
  | some f ↦ elim (guest_slice k.memory buf len) [
    | err e ↦ (k, e)
    | ok bytes ↦ write_checked h send k f bytes
  ]
]

-- `.max(0) as u64`.
abbrev pub clamp : ℤ → ℕ
clamp (pos n) = n
clamp (negsuc n) = 0

-- `(len + offset).max(0)`.
abbrev pub from_end : ℕ → ℤ → ℕ
from_end len (pos n) = len + n
from_end len (negsuc n) = len - (n + 1)

abbrev pub len_or_zero : Option ℕ → ℕ
len_or_zero (some n) = n
len_or_zero none = 0

-- The seek for a whence of 0, 1 or 2; `none` for another whence.
pub seek_whence : HostFile → ℕ → (offset whence : ℤ) → Option (ℕ × Option ℕ)
seek_whence h inner offset (pos zero) = some (h.seek_start inner (clamp offset))
seek_whence h inner offset (pos (suc zero)) = some (h.seek_current inner offset)
seek_whence h inner offset (pos (suc (suc zero))) =
    some (h.seek_start inner (from_end (len_or_zero (h.metadata_len inner)) offset))
seek_whence h inner offset (pos (suc (suc (suc n)))) = none
seek_whence h inner offset (negsuc n) = none

pub lseek_dir : Kernel → ℕ → FilePos → (offset whence : ℤ) → Kernel × ℤ
lseek_dir k f fp offset whence =
    if is_zero whence && is_zero offset
    then (record k { files = insert f (record fp { pos = 0 }) k.files }, pos 0)
    else (k, to_ret espipe)

pub lseek_file : HostFile → Kernel → ℕ → FilePos → (offset whence : ℤ) → Kernel × ℤ
unfolding seek_whence
lseek_file h k f fp offset whence = elim (seek_whence h fp.inner offset whence) [
  | none ↦ (k, to_ret einval)
  | some (inner, none) ↦
      (record k { files = insert f (record fp { inner = inner }) k.files }, to_ret einval)
  | some (inner, some p) ↦
      (record k { files = insert f (record fp { inner = inner; pos = p }) k.files }, pos p)
]

pub lseek_resource : HostFile → Kernel → Resource → (offset whence : ℤ) → Kernel × ℤ
unfolding lseek_dir lseek_file
lseek_resource h k (Resource.file f) offset whence = elim (get f k.files) [
  | none ↦ (k, to_ret ebadf)
  | some fp ↦
      if fp.is_dir then lseek_dir k f fp offset whence else lseek_file h k f fp offset whence
]
lseek_resource h k (Resource.stdin p) offset whence = (k, to_ret espipe)
lseek_resource h k (Resource.stdout p) offset whence = (k, to_ret espipe)
lseek_resource h k (Resource.stderr p) offset whence = (k, to_ret espipe)
lseek_resource h k (Resource.pipe_read p) offset whence = (k, to_ret espipe)
lseek_resource h k (Resource.pipe_write p) offset whence = (k, to_ret espipe)
lseek_resource h k (Resource.socket s) offset whence = (k, to_ret espipe)
lseek_resource h k (Resource.epoll e) offset whence = (k, to_ret espipe)
lseek_resource h k (Resource.event_fd e) offset whence = (k, to_ret espipe)

-- `lseek(fd, offset, whence)`.
pub lseek : HostFile → Kernel → (fd offset whence : ℤ) → Kernel × ℤ
unfolding lseek_resource
lseek h k fd offset whence = elim (try_u32 fd) [
  | none ↦ (k, to_ret ebadf)
  | some f ↦ elim (get_fd k.fds f) [ err e ↦ (k, e) | ok r ↦ lseek_resource h k r offset whence ]
]
