-- ===== src/Vfs.antt =====
-- The virtual file system: src/vfs.rs. The host's file system is a parameter.
pub mod Host
pub mod Inside
pub mod Stable
pub mod Stat
pub mod Dirent
use edge_libos.Vfs.Host.{FileSystem, Metadata, is_dir, map_err}
use edge_libos.Paths.{
  Component, IsCanonical, PathBuf, components, cur_dir, has_root, is_absolute, join, normal,
  parent_dir, root_dir, starts_with, trim_start,
}
use edge_libos.Errno.{eacces, enosys, enotdir, to_ret}
use edge_libos.Base.Result.{Result, and_then, err, ok}
use edge_libos.Base.{
  Bool, List, Option, [], eq_ℤ, if◌then◌else◌, negsuc, none, not, some, ℕ, ℤ, ◌&&◌, ◌++◌, ◌∷◌, ◌≡◌,
}
use edge_libos.Paths

-- `Vfs`.
pub record Vfs : Type 0 where
  pub root : PathBuf
  pub cwd : PathBuf

-- `AT_FDCWD`.
abbrev pub at_fdcwd : ℤ
at_fdcwd = negsuc 99

-- `Vfs::new`.
unfoldable pub new_vfs : FileSystem → PathBuf → Result Vfs
new_vfs fs preopen = elim (map_err (fs.canonicalize preopen)) [
  | ok root ↦ ok (record { root = root; cwd = root })
  | err e ↦ err e
]

-- One component of the walk of `normalize`.
abbrev pub popped : Option PathBuf → Result PathBuf
popped none = err (to_ret eacces)
popped (some q) = ok q

abbrev pub visit : PathBuf → Component → Result PathBuf
visit p root_dir = ok (root_dir ∷ [])
visit p cur_dir = ok p
visit p parent_dir = popped (Paths.pop p)
visit p (normal s) = ok (p ++ normal s ∷ [])

-- The loop of `normalize`.
unfoldable pub walk : PathBuf → List Component → Result PathBuf
walk p [] = ok p
walk p (c ∷ cs) = and_then (visit p c) (λ q. walk q cs)

abbrev pub under : PathBuf → PathBuf → Result PathBuf
under root p = if starts_with p root then ok p else err (to_ret eacces)

-- `Vfs::normalize`.
unfoldable pub normalize : Vfs → PathBuf → Result PathBuf
normalize v joined = and_then (walk [] joined) (under v.root)

-- The base of a path that is not already under the root.
abbrev pub base_of : Vfs → ℤ → Bool → Result PathBuf
base_of v dirfd from_root =
    if from_root then ok v.root else if eq_ℤ dirfd at_fdcwd then ok v.cwd else err (to_ret enosys)

abbrev pub join_trimmed : PathBuf → List ℕ → PathBuf
join_trimmed base [] = base
join_trimmed base (c ∷ cs) = join base (components (c ∷ cs))

-- `Vfs::resolve_path`.
unfoldable pub resolve_path : Vfs → ℤ → List ℕ → Result PathBuf
resolve_path v dirfd path =
    if is_absolute (components path) && starts_with (components path) v.root
    then normalize v (components path)
    else and_then (base_of v dirfd (has_root path))
        (λ base. normalize v (join_trimmed base (trim_start path)))

-- What became of the check that a path is a directory: the state is `v` still, or else `w`.
abbrev pub dir_answer : Vfs → Vfs → Result Metadata → Vfs × Result {0} Unit
dir_answer v w (err e) = (v, err e)
dir_answer v w (ok meta) = if is_dir meta.file_type then (w, ok tt) else (v, err (to_ret enotdir))

-- `Vfs::chdir`.
unfoldable pub chdir : FileSystem → Vfs → PathBuf → Vfs × Result {0} Unit
chdir fs v abs =
    if not (starts_with abs v.root)
    then (v, err (to_ret eacces))
    else dir_answer v (record v { cwd = abs }) (map_err (fs.metadata abs))

-- `Vfs::chroot`.
unfoldable pub chroot : FileSystem → Vfs → PathBuf → Vfs × Result {0} Unit
chroot fs v abs = dir_answer v (record { root = abs; cwd = abs }) (map_err (fs.metadata abs))

-- `p` is `root` or lies under it.
unfoldable pub Under : PathBuf → PathBuf → Type 0
Under root p = (rest : List Component) × (p ≡ root ++ rest)

-- The root and the current directory are absolute, without `.` and `..`, and the
-- current directory lies under the root.
pub record IsVfs (v : Vfs) : Type 0 where
  pub root_ok : IsCanonical v.root
  pub cwd_ok : IsCanonical v.cwd
  pub cwd_under : Under v.root v.cwd
