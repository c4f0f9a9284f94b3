-- ===== src/Sys/Dirs/Keeps.antt =====
-- chdir and chroot keep the file system's state well formed, and openat records a path inside.
use edge_libos.Mem.Bounds.{guest_str-IsNegative}
use edge_libos.Sys.PathResolve.{resolve}
use edge_libos.Fd.Table.Lowest.{get_fd-insert_fd}
use edge_libos.Sys.Dirs.{
  chdir_to, chroot_to, dir_checked, has_flag, install_file, install_opened, open_at, open_file,
  open_options, open_with, openat, opened, vfs_answer,
}
use edge_libos.Sys.PathCalls.Inside.{Any, one_path}
use edge_libos.Sys.PathCalls.{guest_path, path_at}
use edge_libos.Sys.PathResolve.Inside.{Inside, resolve-Inside}
use edge_libos.Vfs.Host.{
  ErrorKind, FileSystem, Host, OpenOptions, already_exists, directory_not_empty, invalid_input,
  io_to_errno, is_a_directory, is_dir, map_err, not_a_directory, not_found, other,
  permission_denied, too_many_links,
}
use edge_libos.Vfs.{IsVfs, Vfs, at_fdcwd}
use edge_libos.Paths.{PathBuf}
use edge_libos.Kernel.{Kernel}
use edge_libos.Fd.Table.{get_fd, insert_fd}
use edge_libos.Fd.Objects.{FilePos, Resource}
use edge_libos.Map.{get, get-insert}
use edge_libos.Base.Result.{IsNegative, Outcome, Outcome-and_then, Result, and_then, err, ok}
use edge_libos.Base.{
  Bool, List, arith, as_u32, bit_and, if-cases, inl, inr, is_neg, none, pos, refl, some, subst, sym,
  true, ℕ, ℤ, ◌==◌, ◌≡◌, ◌⊎◌,
}
use edge_libos.Sys.Dirs
use edge_libos.Vfs.Stable

vfs_answer-vfs : (k : Kernel) (r : Vfs × Result {0} Unit) → (vfs_answer k r).0.vfs ≡ r.0
vfs_answer-vfs k (v, ok u) = refl
vfs_answer-vfs k (v, err e) = refl

module _ (is_utf8 : List ℕ → Bool) (fs : FileSystem) (k : Kernel) (h : IsVfs k.vfs) where
  changed : (r : Vfs × Result {0} Unit) → IsVfs r.0 → IsVfs (vfs_answer k r).0.vfs
  changed r x = subst IsVfs (sym (vfs_answer-vfs k r)) x

  -- After a chdir and after a chroot, of any path of the guest and whatever the host says of it,
  -- the root and the current directory are absolute, without `.` and `..`, and the current
  -- directory lies under the root: if they were so before.
  pub chdir-chroot-IsVfs :
      (path_ptr : ℤ)
      → IsVfs (Dirs.chdir is_utf8 fs k path_ptr).0.vfs
        × IsVfs (Dirs.chroot is_utf8 fs k path_ptr).0.vfs
  unfolding Dirs.chdir Dirs.chroot Inside
  chdir-chroot-IsVfs path_ptr = (
    down (path_at is_utf8 k at_fdcwd path_ptr) (one_path is_utf8 fs k h at_fdcwd path_ptr),
    up (path_at is_utf8 k at_fdcwd path_ptr) (one_path is_utf8 fs k h at_fdcwd path_ptr),
  )
    where
      down :
          (r : Result PathBuf)
          → Outcome (Inside k.vfs) IsNegative r
          → IsVfs (chdir_to is_utf8 fs k r).0.vfs
      down (err e) x = h
      down (ok abs) x = changed _ (Stable.chdir-IsVfs fs k.vfs abs h x.0)

      up :
          (r : Result PathBuf)
          → Outcome (Inside k.vfs) IsNegative r
          → IsVfs (chroot_to is_utf8 fs k r).0.vfs
      up (err e) x = h
      up (ok abs) x = changed _ (Stable.chroot-IsVfs fs k.vfs abs h x.0)

-- What an open file's record says: it starts at 0, with a path inside, no listing yet, and the
-- descriptor leads to it.
pub IsOpened : Kernel → Kernel × ℤ → Type 0
IsOpened k (n, r) =
    (is_neg r ≡ true)
    ⊎ ((fd : ℕ) × (o : ℕ) × (fp : FilePos) × (r ≡ pos fd)
        × (get_fd n.fds fd ≡ ok (Resource.file o))
        × (get o n.files ≡ some fp)
        × (fp.pos ≡ 0)
        × (fp.dir_cache ≡ none)
        × ((abs : PathBuf) × (fp.path ≡ some abs) × Inside k.vfs abs))

install_file-IsOpened :
    (k : Kernel) (fp : FilePos) (abs : PathBuf)
    → fp.pos ≡ 0
    → fp.dir_cache ≡ none
    → fp.path ≡ some abs
    → Inside k.vfs abs
    → IsOpened k (install_file k fp)
unfolding IsOpened
install_file-IsOpened k fp abs start fresh named inside = inr (
  (insert_fd k.fds (Resource.file k.next_object)).1,
  k.next_object,
  fp,
  refl,
  get_fd-insert_fd k.fds (Resource.file k.next_object),
  ground (arith, get-insert k.next_object k.next_object fp k.files),
  start,
  fresh,
  (abs, named, inside),
)

io_to_errno-IsNegative : (e : ErrorKind) → IsNegative (io_to_errno e)
unfolding io_to_errno
io_to_errno-IsNegative not_found = refl
io_to_errno-IsNegative permission_denied = refl
io_to_errno-IsNegative already_exists = refl
io_to_errno-IsNegative invalid_input = refl
io_to_errno-IsNegative not_a_directory = refl
io_to_errno-IsNegative is_a_directory = refl
io_to_errno-IsNegative directory_not_empty = refl
io_to_errno-IsNegative too_many_links = refl
io_to_errno-IsNegative other = refl

map_err-IsNegative {ℓ} : {A : Type ℓ} (r : ErrorKind ⊎ A) → Outcome Any IsNegative (map_err r)
map_err-IsNegative (inl e) = io_to_errno-IsNegative e
map_err-IsNegative (inr a) = tt

dir_checked-IsNegative :
    (h : Host) (w flags inner : ℕ) → Outcome Any IsNegative (dir_checked h w flags inner)
dir_checked-IsNegative h w flags inner =
    if-cases (Outcome Any IsNegative) (has_flag flags 65536) _ _
      (λ e.
        Outcome-and_then Any Any IsNegative (map_err (h.file_metadata w inner)) _
          (map_err-IsNegative (h.file_metadata w inner))
          (λ meta t.
            if-cases (Outcome Any IsNegative) (is_dir meta.file_type) _ _ (λ f. tt) (λ f. refl)))
      (λ e. tt)

open_options-IsNegative : (flags : ℕ) → Outcome Any IsNegative (open_options flags)
unfolding open_options
open_options-IsNegative flags =
    if-cases (Outcome Any IsNegative) (bit_and flags 3 == 0) _ _ (λ e. tt)
      (λ e.
        if-cases (Outcome Any IsNegative) (bit_and flags 3 == 1) _ _ (λ f. tt)
          (λ f. if-cases (Outcome Any IsNegative) (bit_and flags 3 == 2) _ _ (λ g. tt) (λ g. refl)))

open_file-IsNegative :
    (h : Host) (w : ℕ) (abs : PathBuf) (flags : ℕ)
    → Outcome Any IsNegative (open_file h w abs flags).1
unfolding open_file
open_file-IsNegative h w abs flags =
    with_options (open_options flags) (open_options-IsNegative flags)
  where
    after : (r : ℕ × (ErrorKind ⊎ ℕ)) → Outcome Any IsNegative (opened h flags r).1
    after (n, inl e) = io_to_errno-IsNegative e
    after (n, inr inner) = dir_checked-IsNegative h n flags inner

    with_options :
        (r : Result OpenOptions)
        → Outcome Any IsNegative r
        → Outcome Any IsNegative (open_with h w abs flags r).1
    with_options (err e) x = x
    with_options (ok opt) x = after (h.open_file w abs opt)

-- openat, for all arguments, returns an error number, or else the number of a descriptor that is
-- bound to an open file, at position 0, whose recorded path is absolute, has no `.` and no `..` and
-- is the root or lies under it: of a root and a current directory that are well formed.
pub openat-IsOpened :
    (is_utf8 : List ℕ → Bool) (h : Host) (w : ℕ) (k : Kernel) (dirfd path_ptr flags : ℤ)
    → IsVfs k.vfs
    → IsOpened k (openat is_utf8 h w k dirfd path_ptr flags).1
unfolding openat IsOpened
openat-IsOpened is_utf8 h w k dirfd path_ptr flags v =
    resolved (and_then (guest_path is_utf8 k path_ptr) (resolve k dirfd)) (
      Outcome-and_then Any (Inside k.vfs) IsNegative (guest_path is_utf8 k path_ptr) _
        (guest_str-IsNegative is_utf8 k.memory path_ptr (pos 4096))
        (λ path t. resolve-Inside k dirfd path v))
  where
    installed :
        (abs : PathBuf) (r : ℕ × Result ℕ)
        → Inside k.vfs abs
        → Outcome Any IsNegative r.1
        → IsOpened k (install_opened h k abs r).1
    installed abs (n, err e) i x = inl x
    installed abs (n, ok inner) i x = install_file-IsOpened k _ abs refl refl refl i

    resolved :
        (r : Result PathBuf)
        → Outcome (Inside k.vfs) IsNegative r
        → IsOpened k (open_at h w k (as_u32 flags) r).1
    resolved (err e) x = inl x
    resolved (ok abs) x =
        installed abs (open_file h w abs (as_u32 flags)) x
          (open_file-IsNegative h w abs (as_u32 flags))
