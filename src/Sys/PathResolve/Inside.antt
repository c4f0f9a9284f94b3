-- ===== src/Sys/PathResolve/Inside.antt =====
-- No directory number and no path lead outside the root.
use edge_libos.Utf8.{from_utf8_lossy}
use edge_libos.Map.{get}
use edge_libos.Sys.PathResolve.{dir_of, dir_path, join_path, recorded, resolve, resolve_via_dirfd}
use edge_libos.Vfs.Inside.{Resolved, resolve_path-Resolved}
use edge_libos.Vfs.{IsVfs, Under, Vfs, at_fdcwd, resolve_path}
use edge_libos.Paths.{IsCanonical, PathBuf, has_root, to_string}
use edge_libos.Kernel.{Kernel}
use edge_libos.Fd.Table.{get_fd}
use edge_libos.Fd.Objects.{FilePos, Resource}
use edge_libos.Base.Result.{IsNegative, Outcome, Outcome-and_then, Result, err, ok}
use edge_libos.Base.{
  List, Option, as_u32, eq_ℤ, if-cases, inl, inr, is_neg, none, refl, some, ℕ, ℤ, ◌||◌,
}

-- A path that is absolute, has no `.` and no `..`, and is the root or lies under it.
unfoldable pub Inside : Vfs → PathBuf → Type 0
Inside v p = IsCanonical p × Under v.root p

resolve_path-Inside :
    (v : Vfs) (dirfd : ℤ) (path : List ℕ)
    → IsVfs v
    → Outcome (Inside v) IsNegative (resolve_path v dirfd path)
unfolding Inside Resolved
resolve_path-Inside v dirfd path h =
    go (resolve_path v dirfd path) (resolve_path-Resolved v dirfd path h)
  where
    go : (r : Result PathBuf) → Resolved v r → Outcome (Inside v) IsNegative r
    go (ok p) x = x
    go (err e) (inl x) = rw x refl
    go (err e) (inr x) = rw x refl

dir_path-IsNegative :
    (k : Kernel) (r : Result Resource) → Outcome (λ p. Unit {0}) IsNegative (dir_path k r)
unfolding dir_path
dir_path-IsNegative k (ok (Resource.file f)) = found (get f k.files)
  where
    known : (o : Option PathBuf) → Outcome (λ p. Unit {0}) IsNegative (recorded o)
    known none = refl
    known (some p) = tt

    found : (o : Option FilePos) → Outcome (λ p. Unit {0}) IsNegative (dir_of o)
    found none = refl
    found (some fp) =
        if-cases (Outcome (λ p. Unit {0}) IsNegative) fp.is_dir _ _ (λ e. known fp.path) (λ e. refl)
dir_path-IsNegative k (ok (Resource.stdin p)) = refl
dir_path-IsNegative k (ok (Resource.stdout p)) = refl
dir_path-IsNegative k (ok (Resource.stderr p)) = refl
dir_path-IsNegative k (ok (Resource.pipe_read p)) = refl
dir_path-IsNegative k (ok (Resource.pipe_write p)) = refl
dir_path-IsNegative k (ok (Resource.socket s)) = refl
dir_path-IsNegative k (ok (Resource.epoll e)) = refl
dir_path-IsNegative k (ok (Resource.event_fd e)) = refl
dir_path-IsNegative k (err e) = refl

-- Resolution in a kernel returns a path inside the root or an error, for every directory number,
-- every path, and every directory that a descriptor is bound to: of a root and a current directory
-- that are well formed.
pub resolve-Inside :
    (k : Kernel) (dirfd : ℤ) (path : List ℕ)
    → IsVfs k.vfs
    → Outcome (Inside k.vfs) IsNegative (resolve k dirfd path)
unfolding resolve resolve_via_dirfd
resolve-Inside k dirfd path h =
    if-cases (Outcome (Inside k.vfs) IsNegative) (has_root path || eq_ℤ dirfd at_fdcwd) _ _
      (λ e. resolve_path-Inside k.vfs dirfd path h)
      (λ e.
        if-cases (Outcome (Inside k.vfs) IsNegative) (is_neg dirfd) _ _ (λ f. refl)
          (λ f.
            Outcome-and_then (λ p. Unit {0}) (Inside k.vfs) IsNegative
              (dir_path k (get_fd k.fds (as_u32 dirfd))) _
              (dir_path-IsNegative k (get_fd k.fds (as_u32 dirfd)))
              (λ dir t.
                resolve_path-Inside k.vfs at_fdcwd
                  (from_utf8_lossy (to_string (join_path dir path))) h)))
