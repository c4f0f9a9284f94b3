-- ===== src/Sys/PathCalls.antt =====
-- The path handlers of src/sys/file.rs that change the host's file system: each reads its paths,
-- resolves them, and either fails or makes one call of the host.
pub mod Inside
use edge_libos.Sys.PathResolve.{resolve}
use edge_libos.Kernel.{Kernel}
use edge_libos.Vfs.Host.{
  ErrorKind, FileSystem, Host, HostCall, Metadata, SystemTime, already_exists, create_dir,
  directory_not_empty, hard_link, invalid_input, is_a_directory, not_a_directory, not_found, other,
  permission_denied, remove_dir, remove_file, rename, set_len, set_modified, set_permissions,
  symlink_to, too_many_links,
}
use edge_libos.Vfs.{at_fdcwd}
use edge_libos.Paths.{PathBuf}
use edge_libos.Errno.{
  eacces, eexist, einval, eio, eisdir, eloop, enoent, enotdir, enotempty, to_ret,
}
use edge_libos.Mem.Bytes.{from_le}
use edge_libos.Mem.{guest_slice, guest_str}
use edge_libos.Base.Result.{Result, and_then, err, map_ok, ok}
use edge_libos.Base.{
  Bool, List, Option, [], as_u32, bit_and, drop, false, if◌then◌else◌, inl, inr, is_zero, negsuc,
  none, not, pos, signed64, some, take, true, ℕ, ℤ, ◌&&◌, ◌*◌, ◌+◌, ◌-◌, ◌==◌, ◌^◌, ◌∷◌, ◌⊎◌,
}

-- `io_to_errno` of src/sys/file.rs, negated.
unfoldable pub io_error : ErrorKind → ℤ
io_error not_found = to_ret enoent
io_error permission_denied = to_ret eacces
io_error already_exists = to_ret eexist
io_error invalid_input = to_ret einval
io_error not_a_directory = to_ret enotdir
io_error is_a_directory = to_ret eisdir
io_error directory_not_empty = to_ret enotempty
io_error too_many_links = to_ret eloop
io_error other = to_ret eio

-- A handler's end: its error, or the host's answer to its call.
abbrev pub answer_of : ℕ × Option ErrorKind → ℕ × ℤ
answer_of (w, none) = (w, pos 0)
answer_of (w, some e) = (w, io_error e)

unfoldable pub run : Host → ℕ → Result HostCall → ℕ × ℤ
run host w (ok call) = answer_of (host.perform w call)
run host w (err e) = (w, e)

abbrev pub not_empty : List ℕ → Result (List ℕ)
not_empty [] = err (to_ret enoent)
not_empty (c ∷ cs) = ok (c ∷ cs)

-- `is_utf8` is `std::str::from_utf8(..).is_ok()`.
module _ (is_utf8 : List ℕ → Bool) where
  -- A path of the guest: at most 4096 bytes.
  abbrev pub guest_path : Kernel → ℤ → Result (List ℕ)
  guest_path k ptr = guest_str is_utf8 k.memory ptr (pos 4096)

  -- A path of the guest that may not be empty, resolved.
  unfoldable pub path_at : Kernel → (dirfd ptr : ℤ) → Result PathBuf
  path_at k dirfd ptr =
      and_then (guest_path k ptr) (λ s. and_then (not_empty s) (λ path. resolve k dirfd path))

  -- `mkdir` and `mkdirat`.
  unfoldable pub mkdirat : Kernel → (dirfd ptr : ℤ) → Result HostCall
  mkdirat k dirfd ptr = map_ok create_dir (path_at k dirfd ptr)

  abbrev pub mkdir : Kernel → (ptr : ℤ) → Result HostCall
  mkdir k ptr = map_ok create_dir (path_at k at_fdcwd ptr)

  -- `rmdir`.
  abbrev pub rmdir : Kernel → (ptr : ℤ) → Result HostCall
  rmdir k ptr = map_ok remove_dir (path_at k at_fdcwd ptr)

  -- `unlink`, and `unlinkat` with its flag AT_REMOVEDIR.
  abbrev pub unlink : Kernel → (ptr : ℤ) → Result HostCall
  unlink k ptr = map_ok remove_file (path_at k at_fdcwd ptr)

  unfoldable pub unlinkat : Kernel → (dirfd ptr flags : ℤ) → Result HostCall
  unlinkat k dirfd ptr flags =
      map_ok (λ abs. if bit_and (as_u32 flags) 512 == 0 then remove_file abs else remove_dir abs)
        (path_at k dirfd ptr)

  -- Two paths of the guest: both are read before either is looked at.
  abbrev pub both_not_empty : List ℕ → List ℕ → Result (List ℕ × List ℕ)
  both_not_empty [] new = err (to_ret enoent)
  both_not_empty (c ∷ cs) [] = err (to_ret enoent)
  both_not_empty (c ∷ cs) (d ∷ ds) = ok (c ∷ cs, d ∷ ds)

  abbrev pub resolve_both :
      Kernel → (olddirfd newdirfd : ℤ) → List ℕ × List ℕ → Result (PathBuf × PathBuf)
  resolve_both k olddirfd newdirfd (old, new) =
      and_then (resolve k olddirfd old)
        (λ old_abs. map_ok (λ new_abs. (old_abs, new_abs)) (resolve k newdirfd new))

  unfoldable pub paths_at :
      Kernel → (olddirfd old_ptr newdirfd new_ptr : ℤ) → Result (PathBuf × PathBuf)
  paths_at k olddirfd old_ptr newdirfd new_ptr = and_then (guest_path k old_ptr) (λ old.
      and_then (guest_path k new_ptr)
        (λ new. and_then (both_not_empty old new) (resolve_both k olddirfd newdirfd)))

  -- `RENAME_NOREPLACE`, `RENAME_EXCHANGE` and `RENAME_WHITEOUT` are 1, 2 and 4.
  abbrev pub exists : ErrorKind ⊎ Metadata → Bool
  exists (inl e) = false
  exists (inr meta) = true

  unfoldable pub rename_checked : FileSystem → (flags : ℕ) → PathBuf × PathBuf → Result HostCall
  rename_checked fs flags (old_abs, new_abs) =
      if not (bit_and flags (2 ^ 32 - 8) == 0)
      then err (to_ret einval)
      else if not (bit_and flags 4 == 0)
      then err (to_ret einval)
      else if not (bit_and flags 1 == 0) && exists (fs.metadata new_abs)
      then err (to_ret eexist)
      else ok (rename old_abs new_abs)

  -- `renameat` and `renameat2`; `rename` has no flags.
  unfoldable pub renameat :
      FileSystem → Kernel → (olddirfd old_ptr newdirfd new_ptr flags : ℤ) → Result HostCall
  renameat fs k olddirfd old_ptr newdirfd new_ptr flags =
      and_then (paths_at k olddirfd old_ptr newdirfd new_ptr) (rename_checked fs (as_u32 flags))

  abbrev pub rename_paths : FileSystem → Kernel → (old_ptr new_ptr : ℤ) → Result HostCall
  rename_paths fs k old_ptr new_ptr = renameat fs k at_fdcwd old_ptr at_fdcwd new_ptr (pos 0)

  -- `linkat`, and `link`.
  unfoldable pub linkat : Kernel → (olddirfd old_ptr newdirfd new_ptr : ℤ) → Result HostCall
  linkat k olddirfd old_ptr newdirfd new_ptr =
      map_ok (λ p. hard_link p.0 p.1) (paths_at k olddirfd old_ptr newdirfd new_ptr)

  abbrev pub link : Kernel → (old_ptr new_ptr : ℤ) → Result HostCall
  link k old_ptr new_ptr = linkat k at_fdcwd old_ptr at_fdcwd new_ptr

  -- `symlinkat`, and `symlink`: the target is stored as it is.
  unfoldable pub symlinkat : Kernel → (target_ptr dirfd ptr : ℤ) → Result HostCall
  symlinkat k target_ptr dirfd ptr =
      and_then (guest_path k target_ptr)
        (λ target. map_ok (symlink_to target) (path_at k dirfd ptr))

  abbrev pub symlink_at_cwd : Kernel → (target_ptr ptr : ℤ) → Result HostCall
  symlink_at_cwd k target_ptr ptr = symlinkat k target_ptr at_fdcwd ptr

  -- `truncate`: the length is looked at before the path is resolved.
  abbrev pub length_arg : ℤ → Result ℕ
  length_arg (pos n) = ok n
  length_arg (negsuc n) = err (to_ret einval)

  unfoldable pub truncate : Kernel → (ptr len : ℤ) → Result HostCall
  truncate k ptr len = and_then (guest_path k ptr) (λ s. and_then (not_empty s) (λ path.
      and_then (length_arg len) (λ n. map_ok (λ abs. set_len abs n) (resolve k at_fdcwd path))))

  -- `timespec_from_bytes`, of the seconds and the nanoseconds.
  abbrev pub time_of : ℤ → ℤ → SystemTime
  time_of (pos sec) (pos nsec) = pos (sec * 1000000000 + nsec)
  time_of (pos sec) (negsuc nsec) = pos 0
  time_of (negsuc sec) nsec = pos 0

  abbrev pub timespec_from_bytes : List ℕ → SystemTime
  timespec_from_bytes b = time_of (signed64 (from_le (take 8 b))) (signed64 (from_le (drop 8 b)))

  -- The time of the last change that `utimensat` sets: the second of the two.
  abbrev pub mtime_arg : Kernel → SystemTime → (times_ptr : ℤ) → Result SystemTime
  mtime_arg k now times_ptr =
      if is_zero times_ptr
      then ok now
      else map_ok (λ bytes. timespec_from_bytes (take 16 (drop 16 bytes)))
          (guest_slice k.memory times_ptr (pos 32))

  -- `utimensat`. `now` is the host's clock.
  unfoldable pub utimensat : Kernel → SystemTime → (dirfd ptr times_ptr : ℤ) → Result HostCall
  utimensat k now dirfd ptr times_ptr =
      and_then (path_at k dirfd ptr) (λ abs. map_ok (set_modified abs) (mtime_arg k now times_ptr))

  -- `fchmodat`, and `chmod`: the low 12 bits of the mode.
  unfoldable pub fchmodat : Kernel → (dirfd ptr mode : ℤ) → Result HostCall
  fchmodat k dirfd ptr mode =
      map_ok (λ abs. set_permissions abs (bit_and (as_u32 mode) 4095)) (path_at k dirfd ptr)

  abbrev pub chmod : Kernel → (ptr mode : ℤ) → Result HostCall
  chmod k ptr mode = fchmodat k at_fdcwd ptr mode
