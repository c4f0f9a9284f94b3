-- ===== src/Sys/Dirs.antt =====
-- The handlers of src/sys/file.rs on directories and names: getdents64, getcwd, chdir, chroot,
-- readlinkat, faccessat and openat.
pub mod Stream
use edge_libos.Utf8.{from_utf8_lossy}
use edge_libos.Sys.PathCalls.{guest_path, io_error, path_at, truncate}
use edge_libos.Sys.PathResolve.{resolve}
use edge_libos.Vfs.Dirent.{readdir_all}
use edge_libos.Vfs.Host.{
  ErrorKind, FileSystem, Host, Metadata, OpenOptions, io_to_errno, is_dir, map_err,
}
use edge_libos.Vfs.{Vfs, at_fdcwd}
use edge_libos.Paths.{PathBuf, to_string}
use edge_libos.Kernel.{Kernel}
use edge_libos.Fd.Table.{get_fd, insert_fd}
use edge_libos.Fd.Objects.{FilePos, Resource}
use edge_libos.Mem.{copy_to, guest_slice_mut}
use edge_libos.Map.{get, insert}
use edge_libos.Errno.{eacces, ebadf, efault, einval, enametoolong, enotdir, erange, to_ret}
use edge_libos.Base.Result.{Result, and_then, err, ok}
use edge_libos.Base.{
  Bool, List, Option, [], as_u32, as_usize, bit_and, drop, false, if◌then◌else◌, inl, inr, leb,
  length, ltb, min, none, not, pos, some, take, true, try_u32, try_usize, ℕ, ℤ, ◌&&◌, ◌++◌, ◌+◌,
  ◌-◌, ◌==◌, ◌∷◌, ◌⊎◌,
}
use edge_libos.Vfs
pub mod Keeps

-- The listing of a directory descriptor: the cached one, or a new one that is then cached.
abbrev pub listing : FileSystem → FilePos → PathBuf → Result (List ℕ)
listing fs fp path = elim fp.dir_cache [ some c ↦ ok c | none ↦ readdir_all fs path ]

-- The bytes from the position on, at most `len`, and the position behind them.
abbrev pub next_slice : List ℕ → (start len : ℕ) → List ℕ × ℕ
next_slice cache start len = if leb (length cache) start then ([], start) else (
  take (min (start + len) (length cache) - start) (drop start cache),
  min (start + len) (length cache),
)

-- The stream moves on, and the bytes go to the guest. No bytes are the end of the directory.
abbrev pub deliver_slice : Kernel → (buf_ptr : ℤ) → List ℕ → Kernel × ℤ
deliver_slice k buf_ptr [] = (k, pos 0)
deliver_slice k buf_ptr (b ∷ bs) = elim (guest_slice_mut k.memory buf_ptr (pos (length (b ∷ bs)))) [
  | ok p ↦ (record k { memory = copy_to k.memory p (b ∷ bs) }, pos (length (b ∷ bs)))
  | err e ↦ (k, e)
]

abbrev pub stream_on : Kernel → ℕ → FilePos → (buf_ptr : ℤ) → (len : ℕ) → List ℕ → Kernel × ℤ
stream_on k f fp buf_ptr len cache =
    deliver_slice
      (record k {
        files =
            insert f (record fp { pos = (next_slice cache fp.pos len).1; dir_cache = some cache })
              k.files;
      })
      buf_ptr (next_slice cache fp.pos len).0

abbrev pub stream_listed :
    Kernel → ℕ → FilePos → (buf_ptr : ℤ) → (len : ℕ) → Result (List ℕ) → Kernel × ℤ
stream_listed k f fp buf_ptr len (err e) = (k, e)
stream_listed k f fp buf_ptr len (ok cache) = stream_on k f fp buf_ptr len cache

abbrev pub stream_path :
    FileSystem → Kernel → ℕ → FilePos → (buf_ptr : ℤ) → (len : ℕ) → Option PathBuf → Kernel × ℤ
stream_path fs k f fp buf_ptr len none = (k, to_ret ebadf)
stream_path fs k f fp buf_ptr len (some path) =
    stream_listed k f fp buf_ptr len (listing fs fp path)

abbrev pub stream_dir :
    FileSystem → Kernel → ℕ → (buf_ptr : ℤ) → (len : ℕ) → Option FilePos → Kernel × ℤ
stream_dir fs k f buf_ptr len none = (k, to_ret ebadf)
stream_dir fs k f buf_ptr len (some fp) =
    if fp.is_dir then stream_path fs k f fp buf_ptr len fp.path else (k, to_ret enotdir)

abbrev pub stream_resource :
    FileSystem → Kernel → (buf_ptr : ℤ) → (len : ℕ) → Result Resource → Kernel × ℤ
stream_resource fs k buf_ptr len (ok (Resource.file f)) =
    stream_dir fs k f buf_ptr len (get f k.files)
stream_resource fs k buf_ptr len (ok (Resource.stdin p)) = (k, to_ret enotdir)
stream_resource fs k buf_ptr len (ok (Resource.stdout p)) = (k, to_ret enotdir)
stream_resource fs k buf_ptr len (ok (Resource.stderr p)) = (k, to_ret enotdir)
stream_resource fs k buf_ptr len (ok (Resource.pipe_read p)) = (k, to_ret enotdir)
stream_resource fs k buf_ptr len (ok (Resource.pipe_write p)) = (k, to_ret enotdir)
stream_resource fs k buf_ptr len (ok (Resource.socket s)) = (k, to_ret enotdir)
stream_resource fs k buf_ptr len (ok (Resource.epoll e)) = (k, to_ret enotdir)
stream_resource fs k buf_ptr len (ok (Resource.event_fd e)) = (k, to_ret enotdir)
stream_resource fs k buf_ptr len (err e) = (k, e)

-- `getdents64`. The range is checked before the length: a length below 0 is EFAULT there.
unfoldable pub getdents64 : FileSystem → Kernel → (fd buf_ptr buf_len : ℤ) → Kernel × ℤ
getdents64 fs k fd buf_ptr buf_len = elim (try_u32 fd) [
  | none ↦ (k, to_ret ebadf)
  | some f ↦ elim (guest_slice_mut k.memory buf_ptr buf_len) [
    | err e ↦ (k, e)
    | ok p ↦
        if as_usize buf_len == 0
        then (k, to_ret einval)
        else stream_resource fs k buf_ptr (as_usize buf_len) (get_fd k.fds f)
  ]
]

-- `getcwd`: the path and a NUL.
abbrev pub write_cwd : Kernel → (buf_ptr : ℤ) → (buf_len : ℕ) → List ℕ → Kernel × ℤ
write_cwd k buf_ptr buf_len bytes =
    if ltb buf_len (length bytes + 1)
    then (k, to_ret erange)
    else elim (guest_slice_mut k.memory buf_ptr (pos (length bytes + 1))) [
      | err e ↦ (k, e)
      | ok p ↦ (record k { memory = copy_to k.memory p (bytes ++ 0 ∷ []) }, pos (length bytes))
    ]

unfoldable pub getcwd : Kernel → (buf_ptr size : ℤ) → Kernel × ℤ
getcwd k buf_ptr size = elim (try_usize size) [
  | none ↦ (k, to_ret efault)
  | some n ↦ write_cwd k buf_ptr n (from_utf8_lossy (to_string k.vfs.cwd))
]

abbrev pub vfs_answer : Kernel → Vfs × Result {0} Unit → Kernel × ℤ
vfs_answer k (v, ok u) = (record k { vfs = v }, pos 0)
vfs_answer k (v, err e) = (record k { vfs = v }, e)

-- Linux's permission bits, by the class of access that is asked for.
abbrev pub denied : (mode m bit mask : ℕ) → Bool
denied mode m bit mask = not (bit_and mode bit == 0) && (bit_and m mask == 0)

abbrev pub access_of : (mode : ℕ) → ErrorKind ⊎ Metadata → ℤ
access_of mode (inl e) = io_error e
access_of mode (inr meta) =
    if mode == 0
    then pos 0
    else if denied mode meta.mode 4 292
    then to_ret eacces
    else if denied mode meta.mode 2 146
    then to_ret eacces
    else if denied mode meta.mode 1 73
    then to_ret eacces
    else pos 0

-- `Vfs::open`: the options that flags stand for. O_CREAT, O_EXCL, O_TRUNC and O_APPEND are 64,
-- 128, 512 and 1024.
abbrev pub has_flag : ℕ → ℕ → Bool
has_flag flags bit = not (bit_and flags bit == 0)

abbrev pub options : (flags : ℕ) → (read write : Bool) → OpenOptions
options flags read write = record {
  read = read;
  write = write;
  create = has_flag flags 64;
  create_new = has_flag flags 64 && has_flag flags 128;
  truncate = has_flag flags 512;
  append = has_flag flags 1024;
}

unfoldable pub open_options : (flags : ℕ) → Result OpenOptions
open_options flags =
    if bit_and flags 3 == 0
    then ok (options flags true false)
    else if bit_and flags 3 == 1
    then ok (options flags false true)
    else if bit_and flags 3 == 2
    then ok (options flags true true)
    else err (to_ret einval)

-- O_DIRECTORY is 65536: the opened file has to be a directory.
abbrev pub dir_checked : Host → ℕ → (flags inner : ℕ) → Result ℕ
dir_checked h w flags inner =
    if has_flag flags 65536
    then and_then (map_err (h.file_metadata w inner))
        (λ meta. if is_dir meta.file_type then ok inner else err (to_ret enotdir))
    else ok inner

abbrev pub opened : Host → (flags : ℕ) → ℕ × (ErrorKind ⊎ ℕ) → ℕ × Result ℕ
opened h flags (w, inl e) = (w, err (io_to_errno e))
opened h flags (w, inr inner) = (w, dir_checked h w flags inner)

abbrev pub open_with : Host → ℕ → PathBuf → (flags : ℕ) → Result OpenOptions → ℕ × Result ℕ
open_with h w abs flags (err e) = (w, err e)
open_with h w abs flags (ok opt) = opened h flags (h.open_file w abs opt)

unfoldable pub open_file : Host → ℕ → PathBuf → (flags : ℕ) → ℕ × Result ℕ
open_file h w abs flags = open_with h w abs flags (open_options flags)

-- `metadata(..).map(|m| m.is_dir()).unwrap_or(false)`.
abbrev pub is_dir_path : ErrorKind ⊎ Metadata → Bool
is_dir_path (inl e) = false
is_dir_path (inr meta) = is_dir meta.file_type

-- A new `FilePos`, under the next descriptor.
abbrev pub install_file : Kernel → FilePos → Kernel × ℤ
install_file k fp = (
  record k {
    fds = (insert_fd k.fds (Resource.file k.next_object)).0;
    files = insert k.next_object fp k.files;
    next_object = k.next_object + 1;
  },
  pos (insert_fd k.fds (Resource.file k.next_object)).1,
)

abbrev pub install_opened : Host → Kernel → PathBuf → ℕ × Result ℕ → ℕ × (Kernel × ℤ)
install_opened h k abs (w, err e) = (w, (k, e))
install_opened h k abs (w, ok inner) = (
  w,
  install_file k (record {
    inner = inner;
    pos = 0;
    path = some abs;
    is_dir = is_dir_path ((h.files w).metadata abs);
    dir_cache = none;
  }),
)

abbrev pub open_at : Host → ℕ → Kernel → (flags : ℕ) → Result PathBuf → ℕ × (Kernel × ℤ)
open_at h w k flags (err e) = (w, (k, e))
open_at h w k flags (ok abs) = install_opened h k abs (open_file h w abs flags)

module _ (is_utf8 : List ℕ → Bool) where
  -- `chdir` and `chroot`.
  abbrev pub chdir_to : FileSystem → Kernel → Result PathBuf → Kernel × ℤ
  chdir_to fs k (err e) = (k, e)
  chdir_to fs k (ok abs) = vfs_answer k (Vfs.chdir fs k.vfs abs)

  unfoldable pub chdir : FileSystem → Kernel → (path_ptr : ℤ) → Kernel × ℤ
  chdir fs k path_ptr = chdir_to fs k (path_at is_utf8 k at_fdcwd path_ptr)

  abbrev pub chroot_to : FileSystem → Kernel → Result PathBuf → Kernel × ℤ
  chroot_to fs k (err e) = (k, e)
  chroot_to fs k (ok abs) = vfs_answer k (Vfs.chroot fs k.vfs abs)

  unfoldable pub chroot : FileSystem → Kernel → (path_ptr : ℤ) → Kernel × ℤ
  chroot fs k path_ptr = chroot_to fs k (path_at is_utf8 k at_fdcwd path_ptr)

  -- `readlinkat`, and `readlink`.
  abbrev pub write_link : Kernel → (buf_ptr : ℤ) → (buf_len : ℕ) → ErrorKind ⊎ List ℕ → Kernel × ℤ
  write_link k buf_ptr buf_len (inl e) = (k, io_error e)
  write_link k buf_ptr buf_len (inr target) =
      let bytes = from_utf8_lossy target in
      if ltb buf_len (length bytes)
      then (k, to_ret enametoolong)
      else elim (guest_slice_mut k.memory buf_ptr (pos (length bytes))) [
        | err e ↦ (k, e)
        | ok p ↦ (record k { memory = copy_to k.memory p bytes }, pos (length bytes))
      ]

  unfoldable pub readlinkat :
      FileSystem → Kernel → (dirfd path_ptr buf_ptr buf_len : ℤ) → Kernel × ℤ
  readlinkat fs k dirfd path_ptr buf_ptr buf_len = elim (try_usize buf_len) [
    | none ↦ (k, to_ret einval)
    | some n ↦ elim (path_at is_utf8 k dirfd path_ptr) [
      | err e ↦ (k, e)
      | ok abs ↦ write_link k buf_ptr n (fs.read_link abs)
    ]
  ]

  abbrev pub readlink : FileSystem → Kernel → (path_ptr buf_ptr buf_len : ℤ) → Kernel × ℤ
  readlink fs k path_ptr buf_ptr buf_len = readlinkat fs k at_fdcwd path_ptr buf_ptr buf_len

  -- `faccessat2`, and `faccessat`.
  unfoldable pub faccessat2 : FileSystem → Kernel → (dirfd path_ptr mode : ℤ) → ℤ
  faccessat2 fs k dirfd path_ptr mode = elim (path_at is_utf8 k dirfd path_ptr) [
    | err e ↦ e
    | ok abs ↦ access_of (as_u32 mode) (fs.metadata abs)
  ]

  -- `openat`, and `open`: the path may be empty here.
  unfoldable pub openat : Host → ℕ → Kernel → (dirfd path_ptr flags : ℤ) → ℕ × (Kernel × ℤ)
  openat h w k dirfd path_ptr flags =
      open_at h w k (as_u32 flags) (and_then (guest_path is_utf8 k path_ptr) (resolve k dirfd))

  abbrev pub open_path : Host → ℕ → Kernel → (path_ptr flags : ℤ) → ℕ × (Kernel × ℤ)
  open_path h w k path_ptr flags = openat h w k at_fdcwd path_ptr flags
