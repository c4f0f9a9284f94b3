-- ===== src/Vfs/Stable.antt =====
-- Resolving the text of a resolved path gives the path again; changing the directory or the root.
use edge_libos.Vfs.Host.{FileSystem, Metadata, is_dir, map_err}
use mathlib.Core.List.{append-nil, append_assoc}
use edge_libos.Vfs.Inside.{IsNormal-IsTail, Resolved, resolve_path-Resolved, starts_with-Under}
use edge_libos.Vfs.{IsVfs, Under, Vfs, chdir, chroot, dir_answer, normalize, resolve_path, walk}
use edge_libos.Paths.Print.{components-to_string}
use edge_libos.Paths.{
  Component, IsCanonical, IsNormal, IsTail, PathBuf, components, cur_dir, eq_bytes, eq_component,
  is_root, normal, parent_dir, root_dir, starts_with, to_string,
}
use edge_libos.Base.Result.{Result, err, ok}
use edge_libos.Base.{
  All, All-mono, Bool, List, [], ap, arith, false, if-cases, not, refl, subst, sym, true, ℕ, ℤ,
  ◌++◌, ◌==◌, ◌∙◌, ◌∷◌, ◌≡◌,
}

starts_with-append : (root rest : PathBuf) → starts_with (root ++ rest) root ≡ true
starts_with-append [] rest = refl
starts_with-append (c ∷ root) rest = rw (eq_component-refl c, starts_with-append root rest) refl
  where
    eq_bytes-refl : (s : List ℕ) → eq_bytes s s ≡ true
    eq_bytes-refl [] = refl
    eq_bytes-refl (x ∷ xs) =
        let self : (x == x) ≡ true = ground arith in rw (self, eq_bytes-refl xs) refl

    eq_component-refl : (c : Component) → eq_component c c ≡ true
    eq_component-refl root_dir = refl
    eq_component-refl cur_dir = refl
    eq_component-refl parent_dir = refl
    eq_component-refl (normal s) = eq_bytes-refl s

pub Under-starts_with : (root p : PathBuf) → Under root p → starts_with p root ≡ true
unfolding Under
Under-starts_with root p (rest, e) = rw e (starts_with-append root rest)

-- Names are walked by appending them.
pub walk-names : (p : PathBuf) (cs : List Component) → All IsNormal cs → walk p cs ≡ ok (p ++ cs)
unfolding walk
walk-names p [] h = ap ok (sym (append-nil p))
walk-names p (root_dir ∷ cs) h = absurd h.0
walk-names p (cur_dir ∷ cs) h = absurd h.0
walk-names p (parent_dir ∷ cs) h = absurd h.0
walk-names p (normal s ∷ cs) h =
    walk-names (p ++ normal s ∷ []) cs h.1 ∙ ap ok (append_assoc p (normal s ∷ []) cs)

-- A canonical path inside is normalized to itself.
pub normalize-inside :
    (v : Vfs) (p : PathBuf) → IsCanonical p → Under v.root p → normalize v p ≡ ok p
unfolding normalize walk
normalize-inside v [] h u = absurd h
normalize-inside v (c ∷ p) h u =
    let inside : starts_with (root_dir ∷ p) v.root ≡ true =
      subst (λ x. starts_with (x ∷ p) v.root ≡ true) h.0 (Under-starts_with v.root (c ∷ p) u) in
    rw (h.0, walk-names (root_dir ∷ []) p h.1, inside) refl

inside-to_string :
    (v : Vfs) (dirfd : ℤ) (p : PathBuf)
    → IsCanonical p
    → Under v.root p
    → resolve_path v dirfd (to_string p) ≡ ok p
unfolding resolve_path
inside-to_string v dirfd [] h u = absurd h
inside-to_string v dirfd (c ∷ p) h u =
    let text : components (to_string (c ∷ p)) ≡ c ∷ p =
      subst (λ x. components (to_string (x ∷ p)) ≡ x ∷ p) (sym h.0)
        (components-to_string p (All-mono IsNormal IsTail p IsNormal-IsTail h.1)) in
    let root : is_root c ≡ true = rw h.0 refl in
    rw (text, Under-starts_with v.root (c ∷ p) u, root) (normalize-inside v (c ∷ p) h u)

-- A path that resolution returned resolves to itself when its text is resolved again, with any
-- directory number: of a root and a current directory that are canonical.
pub resolve_path-again :
    (v : Vfs) (dirfd again : ℤ) (path : List ℕ) (p : PathBuf)
    → IsVfs v
    → resolve_path v dirfd path ≡ ok p
    → resolve_path v again (to_string p) ≡ ok p
unfolding Resolved
resolve_path-again v dirfd again path p h e =
    let inside = subst (Resolved v) e (resolve_path-Resolved v dirfd path h) in
    inside-to_string v again p inside.0 inside.1

Under-self : (p : PathBuf) → Under p p
unfolding Under
Under-self p = ([], sym (append-nil p))

-- Changing the directory to a canonical path keeps the root and the current directory canonical
-- and the one under the other, in every outcome: outside the root, missing, and not a directory.
pub chdir-IsVfs :
    (fs : FileSystem) (v : Vfs) (abs : PathBuf)
    → IsVfs v
    → IsCanonical abs
    → IsVfs (chdir fs v abs).0
unfolding chdir
chdir-IsVfs fs v abs h c =
    if-cases (λ (r : Vfs × Result {0} Unit). IsVfs r.0) (not (starts_with abs v.root)) _ _ (λ e. h)
      (λ e. inside (map_err (fs.metadata abs)) (starts_with-Under abs v.root (not_false _ e)))
  where
    not_false : (b : Bool) → not b ≡ false → b ≡ true
    not_false true e = refl
    not_false false e = ground arith

    inside :
        (m : Result Metadata) → Under v.root abs → IsVfs (dir_answer v (record v { cwd = abs }) m).0
    inside (err e) u = h
    inside (ok meta) u =
        if-cases (λ (r : Vfs × Result {0} Unit). IsVfs r.0) (is_dir meta.file_type) _ _
          (λ e. record { root_ok = h.root_ok; cwd_ok = c; cwd_under = u }) (λ e. h)

-- Changing the root to a canonical path does the same.
pub chroot-IsVfs :
    (fs : FileSystem) (v : Vfs) (abs : PathBuf)
    → IsVfs v
    → IsCanonical abs
    → IsVfs (chroot fs v abs).0
unfolding chroot
chroot-IsVfs fs v abs h c = inside (map_err (fs.metadata abs))
  where
    inside : (m : Result Metadata) → IsVfs (dir_answer v (record { root = abs; cwd = abs }) m).0
    inside (err e) = h
    inside (ok meta) =
        if-cases (λ (r : Vfs × Result {0} Unit). IsVfs r.0) (is_dir meta.file_type) _ _
          (λ e. record { root_ok = c; cwd_ok = c; cwd_under = Under-self abs }) (λ e. h)
