-- ===== src/Vfs/Inside.antt =====
-- A resolved path is absolute, has no `.` and no `..`, and lies under the root.
use edge_libos.Paths.Parse.{components-absolute, components-relative}
use edge_libos.Vfs.{
  IsVfs, Under, Vfs, at_fdcwd, base_of, join_trimmed, normalize, resolve_path, under, visit, walk,
}
use edge_libos.Paths.{
  Component, IsCanonical, IsNormal, IsTail, PathBuf, components, cur_dir, eq_bytes, eq_component,
  has_root, is_absolute, normal, parent_dir, root_dir, slash, starts_with, trim_start, without_dot,
}
use edge_libos.Errno.{eacces, enosys, to_ret}
use edge_libos.Base.Result.{Outcome, Outcome-and_then, Result, and_then, err, ok}
use edge_libos.Base.{
  All, All-append, All-mono, Bool, Bool-cases, List, [], and_true, ap, arith, eq_ℤ, false, if-cases,
  inl, inr, refl, some, subst, sym, true, ℕ, ℤ, ◌&&◌, ◌++◌, ◌==◌, ◌∙◌, ◌∷◌, ◌≡◌, ◌⊎◌,
}
use edge_libos.Paths

All-append_one :
    (p : List Component) (c : Component) → All IsNormal p → IsNormal c → All IsNormal (p ++ c ∷ [])
All-append_one p c hp hc = All-append IsNormal p (c ∷ []) hp (hc, tt)

-- Popping names gives names.
pop-names :
    (c : Component) (p : List Component)
    → All IsNormal (c ∷ p)
    → (q : PathBuf) × (Paths.pop (c ∷ p) ≡ some q) × All IsNormal q
pop-names root_dir [] h = absurd h.0
pop-names cur_dir [] h = absurd h.0
pop-names parent_dir [] h = absurd h.0
pop-names (normal s) [] h = ([], refl, tt)
pop-names c (d ∷ p) h = let (q, e, hq) = pop-names d p h.1 in (c ∷ q, rw e refl, (h.0, hq))

IsEacces : ℤ → Type 0
IsEacces e = e ≡ to_ret eacces

visit-Outcome :
    (p : PathBuf) (c : Component)
    → IsCanonical p
    → IsTail c
    → Outcome IsCanonical IsEacces (visit p c)
unfolding IsEacces
visit-Outcome [] c hp h = absurd hp
visit-Outcome (d ∷ p) root_dir hp h = absurd h
visit-Outcome (d ∷ p) cur_dir hp h = absurd h
visit-Outcome (d ∷ []) parent_dir hp h =
    subst (λ x. Outcome IsCanonical IsEacces (visit (x ∷ []) parent_dir)) (sym hp.0) refl
visit-Outcome (d ∷ e ∷ p) parent_dir hp h = let (q, eq, hq) = pop-names e p hp.1 in rw eq (hp.0, hq)
visit-Outcome (d ∷ p) (normal s) hp h = (hp.0, All-append_one p (normal s) hp.1 h)

walk-Outcome :
    (p : PathBuf) (cs : List Component)
    → IsCanonical p
    → All IsTail cs
    → Outcome IsCanonical IsEacces (walk p cs)
unfolding walk
walk-Outcome p [] hp h = hp
walk-Outcome p (c ∷ cs) hp h =
    Outcome-and_then IsCanonical IsCanonical IsEacces (visit p c) (λ q. walk q cs)
      (visit-Outcome p c hp h.0) (λ q hq. walk-Outcome q cs hq h.1)

pub eq_bytes-eq : (s t : List ℕ) → eq_bytes s t ≡ true → s ≡ t
eq_bytes-eq [] [] h = refl
eq_bytes-eq [] (y ∷ ys) h = ground arith
eq_bytes-eq (x ∷ xs) [] h = ground arith
eq_bytes-eq (x ∷ xs) (y ∷ ys) h =
    let (e, f) = and_true (x == y) (eq_bytes xs ys) h in
    let head : x ≡ y = ground arith in rw (head, eq_bytes-eq xs ys f) refl

eq_component-eq : (c d : Component) → eq_component c d ≡ true → c ≡ d
eq_component-eq root_dir root_dir h = refl
eq_component-eq cur_dir cur_dir h = refl
eq_component-eq parent_dir parent_dir h = refl
eq_component-eq (normal s) (normal t) h = ap normal (eq_bytes-eq s t h)
eq_component-eq root_dir cur_dir h = ground arith
eq_component-eq root_dir parent_dir h = ground arith
eq_component-eq root_dir (normal t) h = ground arith
eq_component-eq cur_dir root_dir h = ground arith
eq_component-eq cur_dir parent_dir h = ground arith
eq_component-eq cur_dir (normal t) h = ground arith
eq_component-eq parent_dir root_dir h = ground arith
eq_component-eq parent_dir cur_dir h = ground arith
eq_component-eq parent_dir (normal t) h = ground arith
eq_component-eq (normal s) root_dir h = ground arith
eq_component-eq (normal s) cur_dir h = ground arith
eq_component-eq (normal s) parent_dir h = ground arith

pub starts_with-Under : (p root : PathBuf) → starts_with p root ≡ true → Under root p
unfolding Under
starts_with-Under p [] h = (p, refl)
starts_with-Under [] (c ∷ cs) h = ground arith
starts_with-Under (d ∷ p) (c ∷ cs) h =
    let (e, f) = and_true (eq_component d c) (starts_with p cs) h in
    let (rest, eq) = starts_with-Under p cs f in
    (rest, ap (λ x. x ∷ p) (eq_component-eq d c e) ∙ ap (◌∷◌ c) eq)

-- What `resolve_path` promises: the path is inside, or the error says why not.
unfoldable pub Resolved : Vfs → Result PathBuf → Type 0
Resolved v r =
    Outcome (λ p. IsCanonical p × Under v.root p) (λ e. (e ≡ to_ret eacces) ⊎ (e ≡ to_ret enosys)) r

under-Resolved : (v : Vfs) (p : PathBuf) → IsCanonical p → Resolved v (under v.root p)
unfolding Resolved
under-Resolved v p h = elim (Bool-cases (starts_with p v.root)) [
  | inl e ↦ rw e (h, starts_with-Under p v.root e)
  | inr e ↦ rw e (inl refl)
]

-- Normalizing an absolute path.
pub normalize-Resolved :
    (v : Vfs) (cs : List Component) → All IsTail cs → Resolved v (normalize v (root_dir ∷ cs))
unfolding normalize walk Resolved IsEacces
normalize-Resolved v cs h =
    Outcome-and_then IsCanonical (λ p. IsCanonical p × Under v.root p)
      (λ e. (e ≡ to_ret eacces) ⊎ (e ≡ to_ret enosys)) (walk (root_dir ∷ []) cs) (under v.root)
      (weaken (walk (root_dir ∷ []) cs) (walk-Outcome (root_dir ∷ []) cs (refl, tt) h))
      (under-Resolved v)
  where
    weaken :
        (r : Result PathBuf)
        → Outcome IsCanonical IsEacces r
        → Outcome IsCanonical (λ e. (e ≡ to_ret eacces) ⊎ (e ≡ to_ret enosys)) r
    weaken (ok p) h = h
    weaken (err e) h = inl h

pub IsNormal-IsTail : (c : Component) → IsNormal c → IsTail c
IsNormal-IsTail root_dir h = absurd h
IsNormal-IsTail cur_dir h = absurd h
IsNormal-IsTail parent_dir h = absurd h
IsNormal-IsTail (normal s) h = h

-- What stays of a string without the slashes in front does not start with one.
pub trim_start-relative : (s : List ℕ) → has_root (trim_start s) ≡ false
trim_start-relative [] = refl
trim_start-relative (c ∷ cs) = elim (Bool-cases (c == slash)) [
  | inl e ↦ rw e (trim_start-relative cs)
  | inr e ↦ rw e e
]

pub relative : (cs : List Component) → All IsTail (without_dot cs) → is_absolute cs ≡ false
relative [] h = refl
relative (root_dir ∷ cs) h = absurd h.0
relative (cur_dir ∷ cs) h = refl
relative (parent_dir ∷ cs) h = refl
relative (normal s ∷ cs) h = refl

-- Joining a relative path to an absolute base gives the base and a tail behind it.
pub join_trimmed-IsTail :
    (base : List Component) (s : List ℕ)
    → All IsTail base
    → has_root s ≡ false
    → (cs : List Component) × (join_trimmed (root_dir ∷ base) s ≡ root_dir ∷ cs) × All IsTail cs
join_trimmed-IsTail base [] hb h = (base, refl, hb)
join_trimmed-IsTail base (c ∷ s) hb h =
    let tail = components-relative (c ∷ s) h in
    (
      base ++ without_dot (components (c ∷ s)),
      rw (relative (components (c ∷ s)) tail) refl,
      All-append IsTail base (without_dot (components (c ∷ s))) hb tail,
    )

pub join_trimmed-Resolved :
    (v : Vfs) (base : PathBuf) (s : List ℕ)
    → IsCanonical base
    → has_root s ≡ false
    → Resolved v (normalize v (join_trimmed base s))
join_trimmed-Resolved v [] s hb h = absurd hb
join_trimmed-Resolved v (c ∷ base) s hb h =
    let (cs, e, tail) =
      join_trimmed-IsTail base s (All-mono IsNormal IsTail base IsNormal-IsTail hb.1) h in
    rw (hb.0, e) (normalize-Resolved v cs tail)

-- Only a string with a slash in front has absolute components.
pub components-has_root :
    (s : List ℕ)
    → is_absolute (components s) ≡ true
    → (cs : List Component) × (components s ≡ root_dir ∷ cs) × All IsTail cs
components-has_root s h = elim (Bool-cases (has_root s)) [
  | inl e ↦ components-absolute s e
  | inr e ↦
      let no = relative (components s) (components-relative s e) in
      absurd (true_false (is_absolute (components s)) h no)
]
  where
    true_false : (b : Bool) → b ≡ true → b ≡ false → ⊥
    true_false b x y = ground arith

given_absolute :
    (v : Vfs) (path : List ℕ)
    → is_absolute (components path) ≡ true
    → Resolved v (normalize v (components path))
given_absolute v path h =
    let (cs, e, tail) = components-has_root path h in rw e (normalize-Resolved v cs tail)

base_of-Outcome :
    (v : Vfs) (dirfd : ℤ) (b : Bool)
    → IsVfs v
    → Outcome IsCanonical (λ e. e ≡ to_ret enosys) (base_of v dirfd b)
base_of-Outcome v dirfd b h =
    if-cases (Outcome IsCanonical (λ e. e ≡ to_ret enosys)) b _ _ (λ e. h.root_ok)
      (λ e.
        if-cases (Outcome IsCanonical (λ e. e ≡ to_ret enosys)) (eq_ℤ dirfd at_fdcwd) _ _
          (λ f. h.cwd_ok) (λ f. refl))

joined :
    (v : Vfs) (dirfd : ℤ) (path : List ℕ)
    → IsVfs v
    → Resolved v (
        and_then
          (base_of v dirfd (has_root path))
          (λ base. normalize v (join_trimmed base (trim_start path))))
unfolding Resolved
joined v dirfd path h =
    go (base_of v dirfd (has_root path)) (base_of-Outcome v dirfd (has_root path) h)
  where
    go :
        (r : Result PathBuf)
        → Outcome IsCanonical (λ e. e ≡ to_ret enosys) r
        → Resolved v (and_then r (λ base. normalize v (join_trimmed base (trim_start path))))
    go (ok base) hr = join_trimmed-Resolved v base (trim_start path) hr (trim_start-relative path)
    go (err e) hr = inr hr

-- Resolution returns a path that is absolute, has no `.` and no `..` and is the root or lies under
-- it, or else it fails with EACCES or ENOSYS: of a root and a current directory that are canonical,
-- for each directory number and each string.
pub resolve_path-Resolved :
    (v : Vfs) (dirfd : ℤ) (path : List ℕ) → IsVfs v → Resolved v (resolve_path v dirfd path)
unfolding resolve_path
resolve_path-Resolved v dirfd path h =
    if-cases (Resolved v) (is_absolute (components path) && starts_with (components path) v.root) _
      _ (λ e. given_absolute v path (and_true _ _ e).0) (λ e. joined v dirfd path h)
