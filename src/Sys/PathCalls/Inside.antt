-- ===== src/Sys/PathCalls/Inside.antt =====
-- The path handlers name to the host only paths inside the root.
use edge_libos.Sys.PathCalls.{
  both_not_empty, exists, fchmodat, guest_path, length_arg, linkat, mkdir, mkdirat, mtime_arg,
  not_empty, path_at, paths_at, rename_checked, renameat, resolve_both, rmdir, symlinkat, truncate,
  unlink, unlinkat, utimensat,
}
use edge_libos.Sys.PathResolve.Inside.{Inside, resolve-Inside}
use edge_libos.Sys.PathResolve.{resolve}
use edge_libos.Paths.{PathBuf}
use edge_libos.Kernel.{Kernel}
use edge_libos.Vfs.Host.{
  FileSystem, HostCall, SystemTime, create_dir, hard_link, remove_dir, remove_file, rename, set_len,
  set_modified, set_permissions, symlink_to,
}
use edge_libos.Vfs.{IsVfs, Vfs, at_fdcwd}
use edge_libos.Mem.Bounds.{guest_slice-IsNegative, guest_str-IsNegative}
use edge_libos.Mem.{guest_slice}
use edge_libos.Base.Result.{IsNegative, Outcome, Outcome-and_then, Outcome-map_ok, Result, map_ok}
use edge_libos.Base.{
  Bool, List, [], as_u32, bit_and, if-cases, is_zero, negsuc, not, pos, refl, ℕ, ℤ, ◌&&◌, ◌-◌, ◌==◌,
  ◌^◌, ◌∷◌,
}

-- The paths that a call creates, removes or changes lie inside. The target of a symbolic link is no
-- such path: it is text that the guest gives and the host stores.
unfoldable pub CallInside : Vfs → HostCall → Type 0
CallInside v (create_dir p) = Inside v p
CallInside v (remove_dir p) = Inside v p
CallInside v (remove_file p) = Inside v p
CallInside v (rename p q) = Inside v p × Inside v q
CallInside v (hard_link p q) = Inside v p × Inside v q
CallInside v (symlink_to target p) = Inside v p
CallInside v (set_len p n) = Inside v p
CallInside v (set_modified p t) = Inside v p
CallInside v (set_permissions p m) = Inside v p

-- What a path handler may end with, for some arguments.
pub data Handles (is_utf8 : List ℕ → Bool) (fs : FileSystem) (k : Kernel)
    : Result HostCall → Type 0 where
  by_mkdirat : (dirfd ptr : ℤ) → Handles is_utf8 fs k (mkdirat is_utf8 k dirfd ptr)
  by_mkdir : (ptr : ℤ) → Handles is_utf8 fs k (mkdir is_utf8 k ptr)
  by_rmdir : (ptr : ℤ) → Handles is_utf8 fs k (rmdir is_utf8 k ptr)
  by_unlink : (ptr : ℤ) → Handles is_utf8 fs k (unlink is_utf8 k ptr)
  by_unlinkat : (dirfd ptr flags : ℤ) → Handles is_utf8 fs k (unlinkat is_utf8 k dirfd ptr flags)
  by_renameat :
      (olddirfd old newdirfd new flags : ℤ)
      → Handles is_utf8 fs k (renameat is_utf8 fs k olddirfd old newdirfd new flags)
  by_linkat :
      (olddirfd old newdirfd new : ℤ)
      → Handles is_utf8 fs k (linkat is_utf8 k olddirfd old newdirfd new)
  by_symlinkat :
      (target dirfd ptr : ℤ) → Handles is_utf8 fs k (symlinkat is_utf8 k target dirfd ptr)
  by_truncate : (ptr len : ℤ) → Handles is_utf8 fs k (truncate is_utf8 k ptr len)
  by_utimensat :
      (now : SystemTime) (dirfd ptr times : ℤ)
      → Handles is_utf8 fs k (utimensat is_utf8 k now dirfd ptr times)
  by_fchmodat : (dirfd ptr mode : ℤ) → Handles is_utf8 fs k (fchmodat is_utf8 k dirfd ptr mode)

abbrev pub Any {ℓ} : {A : Type ℓ} → A → Type 0
Any a = Unit

module _ (is_utf8 : List ℕ → Bool) (fs : FileSystem) (k : Kernel) (h : IsVfs k.vfs) where
  read_path : (ptr : ℤ) → Outcome Any IsNegative (guest_path is_utf8 k ptr)
  read_path ptr = guest_str-IsNegative is_utf8 k.memory ptr (pos 4096)

  some_path : (s : List ℕ) → Outcome Any IsNegative (not_empty s)
  some_path [] = refl
  some_path (c ∷ cs) = tt

  pub one_path : (dirfd ptr : ℤ) → Outcome (Inside k.vfs) IsNegative (path_at is_utf8 k dirfd ptr)
  unfolding path_at
  one_path dirfd ptr =
      Outcome-and_then Any (Inside k.vfs) IsNegative (guest_path is_utf8 k ptr) _ (read_path ptr)
        (λ s t.
          Outcome-and_then Any (Inside k.vfs) IsNegative (not_empty s) _ (some_path s)
            (λ path u. resolve-Inside k dirfd path h))

  Both : PathBuf × PathBuf → Type 0
  Both p = Inside k.vfs p.0 × Inside k.vfs p.1

  resolve_both-Both :
      (d e : ℤ) (p : List ℕ × List ℕ) → Outcome Both IsNegative (resolve_both is_utf8 k d e p)
  unfolding Both
  resolve_both-Both d e (old, new) =
      Outcome-and_then (Inside k.vfs) Both IsNegative (resolve k d old) _ (resolve-Inside k d old h)
        (λ a ha.
          Outcome-map_ok (Inside k.vfs) Both IsNegative (resolve k e new) _
            (resolve-Inside k e new h) (λ b hb. (ha, hb)))

  both-some : (s t : List ℕ) → Outcome Any IsNegative (both_not_empty is_utf8 s t)
  both-some [] t = refl
  both-some (c ∷ cs) [] = refl
  both-some (c ∷ cs) (d ∷ ds) = tt

  two_paths : (d p e q : ℤ) → Outcome Both IsNegative (paths_at is_utf8 k d p e q)
  unfolding paths_at
  two_paths d p e q =
      Outcome-and_then Any Both IsNegative (guest_path is_utf8 k p) _ (read_path p) (λ old t.
        Outcome-and_then Any Both IsNegative (guest_path is_utf8 k q) _ (read_path q) (λ new u.
          Outcome-and_then Any Both IsNegative (both_not_empty is_utf8 old new) _
            (both-some old new) (λ both w. resolve_both-Both d e both)))

  rename_checked-CallInside :
      (flags : ℕ) (p : PathBuf × PathBuf)
      → Both p
      → Outcome (CallInside k.vfs) IsNegative (rename_checked is_utf8 fs flags p)
  unfolding rename_checked CallInside Both
  rename_checked-CallInside flags (a, b) both =
      if-cases (Outcome (CallInside k.vfs) IsNegative) (not (bit_and flags (2 ^ 32 - 8) == 0)) _ _
        (λ e. refl)
        (λ e.
          if-cases (Outcome (CallInside k.vfs) IsNegative) (not (bit_and flags 4 == 0)) _ _
            (λ f. refl)
            (λ f.
              if-cases (Outcome (CallInside k.vfs) IsNegative)
                (not (bit_and flags 1 == 0) && exists is_utf8 (fs.metadata b)) _ _ (λ g. refl)
                (λ g. both)))

  length_arg-ok : (len : ℤ) → Outcome Any IsNegative (length_arg is_utf8 len)
  length_arg-ok (pos n) = tt
  length_arg-ok (negsuc n) = refl

  mtime_arg-ok :
      (now : SystemTime) (times : ℤ) → Outcome Any IsNegative (mtime_arg is_utf8 k now times)
  mtime_arg-ok now times =
      if-cases (Outcome Any IsNegative) (is_zero times) _ _ (λ e. tt)
        (λ e.
          Outcome-map_ok Any Any IsNegative (guest_slice k.memory times (pos 32)) _
            (guest_slice-IsNegative k.memory times (pos 32)) (λ a b. tt))

  -- A handler that maps its one path to a call of it.
  single :
      (f : PathBuf → HostCall) (dirfd ptr : ℤ)
      → ((p : PathBuf) → Inside k.vfs p → CallInside k.vfs (f p))
      → Outcome (CallInside k.vfs) IsNegative (map_ok f (path_at is_utf8 k dirfd ptr))
  single f dirfd ptr g =
      Outcome-map_ok (Inside k.vfs) (CallInside k.vfs) IsNegative (path_at is_utf8 k dirfd ptr) f
        (one_path dirfd ptr) g

  -- Every path at which a path handler asks the host to create, remove, rename, link or change
  -- something is absolute, has no `.` and no `..`, and is the root or lies under it; a handler that
  -- does not call the host returns an error number. So for mkdir, rmdir, unlink, rename, link,
  -- symlink, truncate, utimensat, chmod and their `at` forms, for all arguments, of a root and a
  -- current directory that are well formed. Of the target text of a symbolic link, which the
  -- handler passes on without resolving it, nothing is said.
  pub Handles-CallInside :
      (r : Result HostCall) → Handles is_utf8 fs k r → Outcome (CallInside k.vfs) IsNegative r
  unfolding CallInside mkdirat unlinkat renameat linkat symlinkat truncate utimensat fchmodat Both
  Handles-CallInside _ (by_mkdirat dirfd ptr) = single create_dir dirfd ptr (λ p x. x)
  Handles-CallInside _ (by_mkdir ptr) = single create_dir at_fdcwd ptr (λ p x. x)
  Handles-CallInside _ (by_rmdir ptr) = single remove_dir at_fdcwd ptr (λ p x. x)
  Handles-CallInside _ (by_unlink ptr) = single remove_file at_fdcwd ptr (λ p x. x)
  Handles-CallInside _ (by_unlinkat dirfd ptr flags) =
      single _ dirfd ptr
        (λ p x. if-cases (CallInside k.vfs) (bit_and (as_u32 flags) 512 == 0) _ _ (λ e. x) (λ e. x))
  Handles-CallInside _ (by_renameat d p e q flags) =
      Outcome-and_then Both (CallInside k.vfs) IsNegative (paths_at is_utf8 k d p e q) _
        (two_paths d p e q) (λ both x. rename_checked-CallInside (as_u32 flags) both x)
  Handles-CallInside _ (by_linkat d p e q) =
      Outcome-map_ok Both (CallInside k.vfs) IsNegative (paths_at is_utf8 k d p e q) _
        (two_paths d p e q) (λ both x. x)
  Handles-CallInside _ (by_symlinkat target dirfd ptr) =
      Outcome-and_then Any (CallInside k.vfs) IsNegative (guest_path is_utf8 k target) _
        (read_path target) (λ t u. single (symlink_to t) dirfd ptr (λ p x. x))
  Handles-CallInside _ (by_truncate ptr len) =
      Outcome-and_then Any (CallInside k.vfs) IsNegative (guest_path is_utf8 k ptr) _
        (read_path ptr)
        (λ s t.
          Outcome-and_then Any (CallInside k.vfs) IsNegative (not_empty s) _ (some_path s)
            (λ path u.
              Outcome-and_then Any (CallInside k.vfs) IsNegative (length_arg is_utf8 len) _
                (length_arg-ok len)
                (λ n w.
                  Outcome-map_ok (Inside k.vfs) (CallInside k.vfs) IsNegative
                    (resolve k at_fdcwd path) _ (resolve-Inside k at_fdcwd path h) (λ p x. x))))
  Handles-CallInside _ (by_utimensat now dirfd ptr times) =
      Outcome-and_then (Inside k.vfs) (CallInside k.vfs) IsNegative (path_at is_utf8 k dirfd ptr) _
        (one_path dirfd ptr)
        (λ p x.
          Outcome-map_ok Any (CallInside k.vfs) IsNegative (mtime_arg is_utf8 k now times) _
            (mtime_arg-ok now times) (λ t u. x))
  Handles-CallInside _ (by_fchmodat dirfd ptr mode) = single _ dirfd ptr (λ p x. x)
