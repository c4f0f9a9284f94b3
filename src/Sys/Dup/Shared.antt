-- ===== src/Sys/Dup/Shared.antt =====
-- What dup, dup2 and dup3 share, and what a failure leaves.
use edge_libos.Fd.Table.Flags.{
  Installed, set_cloexec-IsValidTable, set_cloexec-bit, set_cloexec-found, set_cloexec-other,
}
use edge_libos.Base.Result.{Result, Result-cases, err, ok}
use edge_libos.Errno.{ebadf, to_ret}
use edge_libos.Map.{contains_key, contains_key-get, get, member}
use edge_libos.Fd.Objects.{Resource}
use edge_libos.Fd.Table.Lowest.{
  Adds, Closed, IsLowestFree, IsValidTable, PutAt, close-Closed, insert_at-PutAt,
  insert_at_least-Adds,
}
use edge_libos.Fd.Table.{FdTable, get_cloexec, insert_at, u32_max}
use edge_libos.Sys.Dup.{clone_resource, cloned_of, finish_dup, install, internal_dup}
use edge_libos.Fd.Table
use edge_libos.Base.{
  Bool, Option, Option-cases, ap, arith, false, inl, inr, is_some, length, negsuc, none, pos, refl,
  some, subst, sym, true, ℕ, ℤ, ◌%◌, ◌+◌, ◌<◌, ◌^◌, ◌∙◌, ◌≡◌, ◌≢◌,
}

clone_resource-same : (r s : Resource) → clone_resource r ≡ ok s → s ≡ r
unfolding clone_resource
clone_resource-same (Resource.stdin p) s h = cc
clone_resource-same (Resource.stdout p) s h = cc
clone_resource-same (Resource.stderr p) s h = cc
clone_resource-same (Resource.file f) s h = cc
clone_resource-same (Resource.pipe_read p) s h = cc
clone_resource-same (Resource.pipe_write p) s h = cc
clone_resource-same (Resource.socket f) s h = cc
clone_resource-same (Resource.epoll e) s h = absurd (cc)
clone_resource-same (Resource.event_fd e) s h = absurd (cc)

clone_resource-err : (r : Resource) (e : ℤ) → clone_resource r ≡ err e → e ≡ to_ret ebadf
unfolding clone_resource
clone_resource-err (Resource.stdin p) e h = absurd (cc)
clone_resource-err (Resource.stdout p) e h = absurd (cc)
clone_resource-err (Resource.stderr p) e h = absurd (cc)
clone_resource-err (Resource.file f) e h = absurd (cc)
clone_resource-err (Resource.pipe_read p) e h = absurd (cc)
clone_resource-err (Resource.pipe_write p) e h = absurd (cc)
clone_resource-err (Resource.socket f) e h = absurd (cc)
clone_resource-err (Resource.epoll x) e h = cc
clone_resource-err (Resource.event_fd x) e h = cc

cloned_of-get :
    (t : FdTable) (fd : ℕ) (r : Resource) → cloned_of t fd ≡ ok r → get fd t.table ≡ some r
unfolding cloned_of
cloned_of-get t fd r h = elim (Option-cases (get fd t.table)) [
  | inl gone ↦ absurd (ground (arith, gone))
  | inr (s, there) ↦ ground (arith, there, clone_resource-same s r)
]

cloned_of-err : (t : FdTable) (fd : ℕ) (e : ℤ) → cloned_of t fd ≡ err e → e ≡ to_ret ebadf
unfolding cloned_of
cloned_of-err t fd e h = elim (Option-cases (get fd t.table)) [
  | inl gone ↦ ground (arith, gone)
  | inr (s, there) ↦ ground (arith, there, clone_resource-err s e)
]

-- The number that a duplicate gets.
abbrev pub IsTarget : FdTable → ℕ → Option ℕ → ℕ → Type 0
IsTarget t oldfd none fd = IsLowestFree t.table (oldfd + 1) fd
IsTarget t oldfd (some target) fd = fd ≡ target

-- The outcomes of a duplication.
abbrev pub Duplicated : FdTable → ℕ → Option ℕ → Bool → FdTable × ℤ → Type 0
Duplicated t oldfd target want (u, pos fd) =
    IsTarget t oldfd target fd
    × (is_some (get oldfd t.table) ≡ true)
    × (get fd u.table ≡ get oldfd t.table)
    × ((k : ℕ) → k ≢ fd → (get k u.table ≡ get k t.table) × (get_cloexec u k ≡ get_cloexec t k))
    × (get_cloexec u fd ≡ want)
    × IsValidTable u
Duplicated t oldfd target want (u, negsuc e) =
    (u ≡ t) × (negsuc e ≡ to_ret ebadf) × (cloned_of t oldfd ≡ err (to_ret ebadf))

-- Room for the new number.
abbrev pub HasRoom : FdTable → ℕ → Option ℕ → Type 0
HasRoom t oldfd none = oldfd + 1 + length t.table < u32_max
HasRoom t oldfd (some target) = target < u32_max

Adds-Installed : (t u : FdTable) (fd : ℕ) (r : Resource) → Adds t u fd r → Installed t u fd r
Adds-Installed t u fd r a = record {
  found = a.lookup_new;
  others = a.lookup_old;
  bits = λ k n. ap (member k) a.same_cloexec;
  valid = a.valid;
}

-- A valid table in which `target` is free, and that is `t` elsewhere.
record IsCleared (t c : FdTable) (target : ℕ) : Type 0 where
  free : contains_key target c.table ≡ false
  others : (k : ℕ) → k ≢ target → get k c.table ≡ get k t.table
  bits : (k : ℕ) → k ≢ target → member k c.cloexec ≡ member k t.cloexec
  valid : IsValidTable c

Closed-IsCleared :
    (t : FdTable) (target : ℕ) (r : FdTable × Result (Unit {0}))
    → IsValidTable t
    → Closed t target r
    → IsCleared t r.0 target
Closed-IsCleared t target (c, ok _) v h = record {
  free = ground (arith, h.1, contains_key-get target c.table);
  others = λ k n. (h.3 k n).0;
  bits = λ k n. (h.3 k n).1;
  valid = h.5;
}
Closed-IsCleared t target (c, err e) v h = record {
  free = ap (λ x. contains_key target x.table) h.0 ∙ h.2;
  others = λ k n. ap (λ x. get k x.table) h.0;
  bits = λ k n. ap (λ x. member k x.cloexec) h.0;
  valid = subst IsValidTable (sym h.0) v;
}

-- The outcome of `install`.
abbrev InstallOutcome : FdTable → ℕ → Option ℕ → Resource → FdTable × Result ℕ → Type 0
InstallOutcome t oldfd target r (u, ok fd) = IsTarget t oldfd target fd × Installed t u fd r
InstallOutcome t oldfd target r (u, err e) = ⊥

PutAt-InstallOutcome :
    (t c : FdTable) (oldfd target : ℕ) (r : Resource) (x : FdTable × Result ℕ)
    → IsCleared t c target
    → PutAt c target r x
    → InstallOutcome t oldfd (some target) r x
PutAt-InstallOutcome t c oldfd target r (u, ok fd) h (same, a) = (
  same,
  subst (λ n. Installed t u n r) (sym same)
      (record {
        found = a.lookup_new;
        others = λ k n. a.lookup_old k n ∙ h.others k n;
        bits = λ k n. ap (member k) a.same_cloexec ∙ h.bits k n;
        valid = a.valid;
      }),
)
PutAt-InstallOutcome t c oldfd target r (u, err e) h (same, e_is, bound) = cc (h.free)

install-InstallOutcome :
    (t : FdTable) (oldfd : ℕ) (target : Option ℕ) (r : Resource)
    → IsValidTable t
    → HasRoom t oldfd target
    → InstallOutcome t oldfd target r (install t oldfd target r)
unfolding install
install-InstallOutcome t oldfd none r v h =
    let next : (oldfd + 1) % 2 ^ 32 ≡ oldfd + 1 = omega arith in
    let added = insert_at_least-Adds t (oldfd + 1) r v h in
    rw next (added.0, Adds-Installed t _ _ r added.1)
install-InstallOutcome t oldfd (some target) r v h =
    let cleared = Closed-IsCleared t target (Table.close t target) v (close-Closed t target v) in
    let c = (Table.close t target).0 in
    PutAt-InstallOutcome t c oldfd target r (insert_at c target r) cleared
      (insert_at-PutAt c target r cleared.valid h)

finish_dup-Duplicated :
    (t : FdTable) (oldfd : ℕ) (target : Option ℕ) (want : Bool) (r : Resource)
    (x : FdTable × Result ℕ)
    → get oldfd t.table ≡ some r
    → InstallOutcome t oldfd target r x
    → Duplicated t oldfd target want (finish_dup want x)
unfolding finish_dup
finish_dup-Duplicated t oldfd target want r (u, ok fd) there (is_target, i) = (
  is_target,
  ap is_some there,
  set_cloexec-found t u fd r i want ∙ sym there,
  set_cloexec-other t u fd r i want,
  set_cloexec-bit t u fd r i want,
  set_cloexec-IsValidTable t u fd r i want,
)
finish_dup-Duplicated t oldfd target want r (u, err e) there none_of = absurd none_of

-- `internal_dup`, which carries dup, dup2 and dup3, on a valid table with room for the new number:
-- either the new descriptor (the lowest free one above the old one, or the target, even if that
-- was open) leads to the same resource as the old one, has the FD_CLOEXEC bit that was wanted, no
-- other descriptor or bit changes, and the table stays valid; or the old descriptor is closed or
-- its kind is not duplicated, the answer is -EBADF and nothing changes.
pub internal_dup-Duplicated :
    (t : FdTable) (oldfd : ℕ) (target : Option ℕ) (want : Bool)
    → IsValidTable t
    → HasRoom t oldfd target
    → Duplicated t oldfd target want (internal_dup t oldfd target want)
unfolding internal_dup
internal_dup-Duplicated t oldfd target want v h = elim (Result-cases (cloned_of t oldfd)) [
  | inl (r, there) ↦
      rw (there, internal_dup)
        (finish_dup-Duplicated t oldfd target want r (install t oldfd target r)
          (cloned_of-get t oldfd r there) (install-InstallOutcome t oldfd target r v h))
  | inr (e, refused) ↦
      let is = cloned_of-err t oldfd e refused in
      rw (refused, internal_dup) (rw is (refl, refl, refused ∙ ap err is))
]
