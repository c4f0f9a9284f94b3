-- ===== src/Sys/PathResolve/Cwd.antt =====
-- A directory descriptor stands for its directory.
use edge_libos.Utf8.{from_utf8_lossy}
use edge_libos.Vfs.Stable.{Under-starts_with}
use edge_libos.Sys.PathResolve.{dir_path, join_path, resolve, resolve_via_dirfd}
use edge_libos.Vfs.Inside.{IsNormal-IsTail, join_trimmed-IsTail, relative}
use edge_libos.Vfs.{Under, Vfs, at_fdcwd, join_trimmed, normalize, resolve_path, under}
use edge_libos.Paths.Print.{components-to_string}
use edge_libos.Paths.Parse.{components-relative}
use edge_libos.Paths.{
  Component, IsCanonical, IsNormal, IsTail, PathBuf, components, eq_component, has_root, root_dir,
  starts_with, to_string, trim_start, without_dot,
}
use edge_libos.Kernel.{Kernel}
use edge_libos.Fd.Table.{get_fd}
use edge_libos.Base.Result.{ok}
use edge_libos.Base.{
  All, All-mono, List, [], and_true, ap, arith, false, pos, refl, subst, sym, true, ℕ, ◌%◌, ◌++◌,
  ◌<◌, ◌^◌, ◌∙◌, ◌∷◌, ◌≡◌,
}

relative_trim : (s : List ℕ) → has_root s ≡ false → trim_start s ≡ s
relative_trim [] h = refl
relative_trim (c ∷ s) h = rw h refl

-- Joining a path without a root is the join of its components.
join_path-trimmed : (dir : PathBuf) (s : List ℕ) → join_path dir s ≡ join_trimmed dir s
join_path-trimmed dir [] = refl
join_path-trimmed dir (c ∷ cs) = refl

starts_with-tail :
    (base cs root : PathBuf) → starts_with base root ≡ true → starts_with (base ++ cs) root ≡ true
starts_with-tail base cs [] h = refl
starts_with-tail [] cs (r ∷ root) h = ground arith
starts_with-tail (b ∷ base) cs (r ∷ root) h =
    let (e, f) = and_true (eq_component b r) (starts_with base root) h in
    rw (e, starts_with-tail base cs root f) refl

-- The text of a path under the root resolves to what the path normalizes to.
resolve_path-text :
    (v : Vfs) (cs : List Component)
    → All IsTail cs
    → starts_with (root_dir ∷ cs) v.root ≡ true
    → resolve_path v at_fdcwd (to_string (root_dir ∷ cs)) ≡ normalize v (root_dir ∷ cs)
unfolding resolve_path
resolve_path-text v cs h u = rw (components-to_string cs h, u) refl

-- The current directory is the base of a path without a root.
resolve_path-cwd :
    (v : Vfs) (s : List ℕ)
    → has_root s ≡ false
    → resolve_path v at_fdcwd s ≡ normalize v (join_trimmed v.cwd s)
unfolding resolve_path
resolve_path-cwd v s h =
    rw (relative (components s) (components-relative s h), h, relative_trim s h) refl

join_trimmed-under :
    (b : Component) (base : List Component) (s : List ℕ) (root : PathBuf)
    → has_root s ≡ false
    → starts_with (b ∷ base) root ≡ true
    → starts_with (join_trimmed (b ∷ base) s) root ≡ true
join_trimmed-under b base [] root h u = u
join_trimmed-under b base (c ∷ s) root h u =
    rw (relative (components (c ∷ s)) (components-relative (c ∷ s) h))
      (starts_with-tail (b ∷ base) (without_dot (components (c ∷ s))) root u)

from_dir :
    (v : Vfs) (dir : List Component) (path : List ℕ)
    → All IsNormal dir
    → Under v.root (root_dir ∷ dir)
    → has_root path ≡ false
    → resolve_path v at_fdcwd (to_string (join_path (root_dir ∷ dir) path))
      ≡ resolve_path (record v { cwd = root_dir ∷ dir }) at_fdcwd path
unfolding normalize
from_dir v dir path names under h =
    let (cs, e, tail) =
      join_trimmed-IsTail dir path (All-mono IsNormal IsTail dir IsNormal-IsTail names) h in
    let inside =
      subst (λ p. starts_with p v.root ≡ true) e
        (join_trimmed-under root_dir dir path v.root h
          (Under-starts_with v.root (root_dir ∷ dir) under)) in
    ap (λ p. resolve_path v at_fdcwd (to_string p)) (join_path-trimmed (root_dir ∷ dir) path ∙ e)
    ∙ resolve_path-text v cs tail inside
    ∙ ap (normalize v) (sym e)
    ∙ sym (resolve_path-cwd (record v { cwd = root_dir ∷ dir }) path h)

-- A path without a root, taken from a directory descriptor, leads to where it leads when the
-- descriptor's directory is the current directory: if that directory is canonical and under the
-- root, and the text of the directory joined with the path is UTF-8, so that `to_string_lossy`
-- keeps it.
pub resolve-cwd :
    (k : Kernel) (dirfd : ℕ) (dir : PathBuf) (path : List ℕ)
    → dirfd < 2 ^ 32
    → dir_path k (get_fd k.fds dirfd) ≡ ok dir
    → IsCanonical dir
    → Under k.vfs.root dir
    → has_root path ≡ false
    → from_utf8_lossy (to_string (join_path dir path)) ≡ to_string (join_path dir path)
    → resolve k (pos dirfd) path ≡ resolve_path (record k.vfs { cwd = dir }) at_fdcwd path
unfolding resolve resolve_via_dirfd
resolve-cwd k dirfd [] path small bound canonical under h text = absurd canonical
resolve-cwd k dirfd (c ∷ dir) path small bound canonical under h text =
    let fits : dirfd % 2 ^ 32 ≡ dirfd = omega arith in
    let under_root = subst (λ x. Under k.vfs.root (x ∷ dir)) canonical.0 under in
    let keeps =
      subst
        (λ x.
          from_utf8_lossy (to_string (join_path (x ∷ dir) path))
          ≡ to_string (join_path (x ∷ dir) path))
        canonical.0 text in
    rw (h, fits, bound, canonical.0, keeps) (from_dir k.vfs dir path canonical.1 under_root h)
