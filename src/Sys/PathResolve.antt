-- ===== src/Sys/PathResolve.antt =====
-- Where a directory number and a path lead: src/sys/path.rs.
pub mod Inside
pub mod Cwd
use edge_libos.Utf8.{from_utf8_lossy}
use edge_libos.Kernel.{Kernel}
use edge_libos.Fd.Table.{get_fd}
use edge_libos.Fd.Objects.{FilePos, Resource}
use edge_libos.Vfs.{at_fdcwd, resolve_path}
use edge_libos.Paths.{PathBuf, components, has_root, join, to_string}
use edge_libos.Errno.{eacces, ebadf, enosys, enotdir, to_ret}
use edge_libos.Map.{get}
use edge_libos.Base.Result.{Result, and_then, err, ok}
use edge_libos.Base.{
  List, Option, [], as_u32, eq_ℤ, if◌then◌else◌, is_neg, none, some, ℕ, ℤ, ◌||◌, ◌∷◌,
}

-- What the directory number's descriptor is bound to. A descriptor whose file is not in the store
-- does not occur.
abbrev pub recorded : Option PathBuf → Result PathBuf
recorded none = err (to_ret eacces)
recorded (some p) = ok p

abbrev pub dir_of : Option FilePos → Result PathBuf
dir_of none = err (to_ret ebadf)
dir_of (some fp) = if fp.is_dir then recorded fp.path else err (to_ret enotdir)

unfoldable pub dir_path : Kernel → Result Resource → Result PathBuf
dir_path k (ok (Resource.file f)) = dir_of (get f k.files)
dir_path k (ok (Resource.stdin p)) = err (to_ret enotdir)
dir_path k (ok (Resource.stdout p)) = err (to_ret enotdir)
dir_path k (ok (Resource.stderr p)) = err (to_ret enotdir)
dir_path k (ok (Resource.pipe_read p)) = err (to_ret enotdir)
dir_path k (ok (Resource.pipe_write p)) = err (to_ret enotdir)
dir_path k (ok (Resource.socket s)) = err (to_ret enotdir)
dir_path k (ok (Resource.epoll e)) = err (to_ret enotdir)
dir_path k (ok (Resource.event_fd e)) = err (to_ret enotdir)
dir_path k (err e) = err (to_ret ebadf)

-- `resolve_via_cwd_or_root`.
abbrev pub resolve_via_cwd_or_root : Kernel → ℤ → List ℕ → Result PathBuf
resolve_via_cwd_or_root k dirfd path = resolve_path k.vfs dirfd path

abbrev pub join_path : PathBuf → List ℕ → PathBuf
join_path dir [] = dir
join_path dir (c ∷ cs) = join dir (components (c ∷ cs))

-- `resolve_via_dirfd`.
unfoldable pub resolve_via_dirfd : Kernel → ℕ → List ℕ → Result PathBuf
resolve_via_dirfd k fd path =
    and_then (dir_path k (get_fd k.fds fd))
      (λ dir. resolve_path k.vfs at_fdcwd (from_utf8_lossy (to_string (join_path dir path))))

-- `resolve`.
unfoldable pub resolve : Kernel → ℤ → List ℕ → Result PathBuf
resolve k dirfd path =
    if has_root path || eq_ℤ dirfd at_fdcwd
    then resolve_via_cwd_or_root k dirfd path
    else if is_neg dirfd
    then err (to_ret enosys)
    else resolve_via_dirfd k (as_u32 dirfd) path
