-- ===== src/Sys/FileStat.antt =====
-- The stat handlers of src/sys/file.rs: fstat, newfstatat, stat, lstat and statx.
pub mod Extended
use edge_libos.Sys.Guest.{copy_out}
use edge_libos.Sys.FileStat.Extended.{encode_statx, from_stat}
use edge_libos.Sys.PathCalls.{guest_path, not_empty}
use edge_libos.Sys.PathResolve.{resolve}
use edge_libos.Vfs.Stat.{Stat, encode, from_metadata}
use edge_libos.Vfs.Host.{ErrorKind, Host, Metadata, map_err}
use edge_libos.Vfs.{at_fdcwd}
use edge_libos.Paths.{PathBuf}
use edge_libos.Kernel.{Kernel}
use edge_libos.Fd.Table.{get_fd}
use edge_libos.Fd.Objects.{Resource}
use edge_libos.Mem.{guest_slice_mut}
use edge_libos.Map.{get}
use edge_libos.Errno.{eacces, ebadf, einval, to_ret}
use edge_libos.Base.Result.{Result, and_then, err, map_ok, ok}
use edge_libos.Base.{
  Bool, List, as_u32, bit_and, if◌then◌else◌, inl, inr, length, none, not, pos, some, try_u32, ℕ, ℤ,
  ◌&&◌, ◌-◌, ◌==◌, ◌^◌, ◌⊎◌,
}

-- `synth_char`: a character device, for descriptors that are not files.
abbrev pub synth_char : Stat
synth_char = record {
  dev = 0;
  ino = 0;
  nlink = 1;
  mode = 8630;
  uid = 1000;
  gid = 1000;
  rdev = 0;
  size = 0;
  blksize = 4096;
  blocks = 0;
  atime = 0;
  atime_nsec = 0;
  mtime = 0;
  mtime_nsec = 0;
  ctime = 0;
  ctime_nsec = 0;
}

-- `Stat::write_to_guest`, and the end of a stat handler.
abbrev pub write_stat : Kernel → (statbuf_ptr : ℤ) → Result Stat → Kernel × ℤ
write_stat k statbuf_ptr (ok s) = copy_out k statbuf_ptr (encode s)
write_stat k statbuf_ptr (err e) = (k, e)

-- The metadata of an open file, by the number of its host object.
abbrev pub file_meta : Host → ℕ → Kernel → ℕ → ErrorKind ⊎ Metadata
file_meta h w k f = elim (get f k.files) [
  | none ↦ inl ErrorKind.other
  | some fp ↦ h.file_metadata w fp.inner
]

-- What a descriptor that is no file, and a file whose metadata the host gives or refuses, look like.
abbrev pub stat_or : ℤ ⊎ Stat → ErrorKind ⊎ Metadata → Result Stat
stat_or d (inr meta) = ok (from_metadata meta)
stat_or (inl e) (inl x) = err e
stat_or (inr s) (inl x) = ok s

abbrev pub stat_fd : Host → ℕ → Kernel → ℤ ⊎ Stat → Result Resource → Result Stat
stat_fd h w k d (ok (Resource.file f)) = stat_or d (file_meta h w k f)
stat_fd h w k d (ok (Resource.stdin p)) = ok synth_char
stat_fd h w k d (ok (Resource.stdout p)) = ok synth_char
stat_fd h w k d (ok (Resource.stderr p)) = ok synth_char
stat_fd h w k d (ok (Resource.pipe_read p)) = ok synth_char
stat_fd h w k d (ok (Resource.pipe_write p)) = ok synth_char
stat_fd h w k d (ok (Resource.socket s)) = ok synth_char
stat_fd h w k d (ok (Resource.epoll e)) = ok synth_char
stat_fd h w k d (ok (Resource.event_fd e)) = ok synth_char
stat_fd h w k d (err e) = err e

-- A descriptor argument.
abbrev pub fd_arg : ℤ → Result ℕ
fd_arg fd = elim (try_u32 fd) [ none ↦ err (to_ret ebadf) | some f ↦ ok f ]

-- `fstat`.
unfoldable pub fstat : Host → ℕ → Kernel → (fd statbuf_ptr : ℤ) → Kernel × ℤ
fstat h w k fd statbuf_ptr =
    write_stat k statbuf_ptr
      (and_then (fd_arg fd) (λ f. stat_fd h w k (inr synth_char) (get_fd k.fds f)))

-- `Vfs::stat`: the metadata of the path itself.
abbrev pub stat_path : Host → ℕ → PathBuf → Result Stat
stat_path h w abs = map_ok from_metadata (map_err ((h.files w).symlink_metadata abs))

-- The path branch of `newfstatat` and `statx`.
abbrev pub stat_at : Host → ℕ → Kernel → (dirfd : ℤ) → List ℕ → Result Stat
stat_at h w k dirfd path =
    and_then (not_empty path) (λ s. and_then (resolve k dirfd s) (stat_path h w))

-- `AT_EMPTY_PATH` is 4096.
abbrev pub names_fd : (flags : ℕ) → List ℕ → Bool
names_fd flags path = not (bit_and flags 4096 == 0) && (length path == 0)

module _ (is_utf8 : List ℕ → Bool) (h : Host) (w : ℕ) where
  -- `newfstatat`.
  abbrev pub stat_named : Kernel → (dirfd statbuf_ptr : ℤ) → (flags : ℕ) → List ℕ → Kernel × ℤ
  stat_named k dirfd statbuf_ptr flags path =
      if names_fd flags path
      then fstat h w k dirfd statbuf_ptr
      else write_stat k statbuf_ptr (stat_at h w k dirfd path)

  unfoldable pub newfstatat : Kernel → (dirfd path_ptr statbuf_ptr flags : ℤ) → Kernel × ℤ
  newfstatat k dirfd path_ptr statbuf_ptr flags = elim (guest_path is_utf8 k path_ptr) [
    | err e ↦ (k, e)
    | ok path ↦ stat_named k dirfd statbuf_ptr (as_u32 flags) path
  ]

  -- `stat` and `lstat`: the same but for the flag AT_SYMLINK_NOFOLLOW, which `newfstatat` ignores.
  abbrev pub stat : Kernel → (path_ptr statbuf_ptr : ℤ) → Kernel × ℤ
  stat k path_ptr statbuf_ptr = newfstatat k at_fdcwd path_ptr statbuf_ptr (pos 0)

  abbrev pub lstat : Kernel → (path_ptr statbuf_ptr : ℤ) → Kernel × ℤ
  lstat k path_ptr statbuf_ptr = newfstatat k at_fdcwd path_ptr statbuf_ptr (pos 256)

  -- `statx`: AT_EMPTY_PATH, AT_NO_AUTOMOUNT and AT_SYMLINK_NOFOLLOW are 4096, 2048 and 256. A file
  -- whose metadata the host refuses is EACCES here.
  abbrev pub statx_named : Kernel → (dirfd : ℤ) → (flags : ℕ) → List ℕ → Result Stat
  statx_named k dirfd flags path =
      if names_fd flags path
      then and_then (fd_arg dirfd) (λ f. stat_fd h w k (inl (to_ret eacces)) (get_fd k.fds f))
      else stat_at h w k dirfd path

  abbrev pub write_statx : Kernel → (buf_ptr : ℤ) → Result Stat → Kernel × ℤ
  write_statx k buf_ptr (ok s) = copy_out k buf_ptr (encode_statx (from_stat s))
  write_statx k buf_ptr (err e) = (k, e)

  abbrev pub statx_checked :
      Kernel → (dirfd path_ptr buf_ptr : ℤ) → (flags : ℕ) → Result ℕ → Kernel × ℤ
  statx_checked k dirfd path_ptr buf_ptr flags (err e) = (k, e)
  statx_checked k dirfd path_ptr buf_ptr flags (ok p) =
      write_statx k buf_ptr (and_then (guest_path is_utf8 k path_ptr) (statx_named k dirfd flags))

  unfoldable pub statx : Kernel → (dirfd path_ptr flags buf_ptr : ℤ) → Kernel × ℤ
  statx k dirfd path_ptr flags buf_ptr =
      if not (bit_and (as_u32 flags) (2 ^ 32 - 1 - 6400) == 0)
      then (k, to_ret einval)
      else statx_checked k dirfd path_ptr buf_ptr (as_u32 flags)
          (guest_slice_mut k.memory buf_ptr (pos 256))
