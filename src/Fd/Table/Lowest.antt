-- ===== src/Fd/Table/Lowest.antt =====
-- Which descriptor an insertion picks, and that the table stays well formed.
use edge_libos.Base.Result.{Result, err, ok}
use edge_libos.Errno.{ebadf, to_ret}
use edge_libos.Map.{
  contains_key, contains_key-insert, contains_key-remove, count_from, count_from-length,
  count_from-suc, get, get-insert, get-remove, insert, member, member-delete,
}
use edge_libos.Fd.Objects.{Resource}
use edge_libos.Fd.Table.{
  FdTable, close, empty, get_cloexec, get_fd, insert_at, insert_at_least, insert_fd, lowest_free,
  put_at, u32_max,
}
use edge_libos.Base.{
  ==_iff, Bool-cases, List, arith, false, inl, inr, length, min, refl, some, subst, suc, sym, true,
  zero, ℕ, ◌+◌, ◌<◌, ◌==◌, ◌≡◌, ◌≢◌, ◌≤◌,
}

-- Every open descriptor is below `next_fd`, so that `insert` never replaces one; and only open
-- descriptors carry FD_CLOEXEC.
pub record IsValidTable (t : FdTable) : Type 0 where
  pub below_next : (k : ℕ) → contains_key k t.table ≡ true → k < t.next_fd
  pub cloexec_open : (k : ℕ) → member k t.cloexec ≡ true → contains_key k t.table ≡ true

-- The descriptors of `u` are those of `t` and the new `fd`, which leads to `r`.
pub record Adds (t u : FdTable) (fd : ℕ) (r : Resource) : Type 0 where
  pub was_free : contains_key fd t.table ≡ false
  pub lookup_new : get fd u.table ≡ some r
  pub lookup_old : (k : ℕ) → k ≢ fd → get k u.table ≡ get k t.table
  pub same_cloexec : u.cloexec ≡ t.cloexec
  pub valid : IsValidTable u

empty-IsValidTable : IsValidTable empty
unfolding empty
empty-IsValidTable = record { below_next = λ k h. cc; cloexec_open = λ k h. cc }

-- A valid table with room for one more number: `insert` opens the number `next_fd`, which was free,
-- changes no other descriptor and keeps the table valid.
pub insert_fd-Adds :
    (t : FdTable) (r : Resource)
    → IsValidTable t
    → t.next_fd < u32_max
    → Adds t (insert_fd t r).0 (insert_fd t r).1 r
unfolding insert_fd
insert_fd-Adds t r v h = record {
  was_free = ground (arith, v.below_next t.next_fd);
  lookup_new = rw get-insert (ground arith);
  lookup_old = λ k n. rw get-insert (ground arith);
  same_cloexec = refl;
  valid = record {
    below_next = λ k c. ground (arith, contains_key-insert t.next_fd k r t.table, v.below_next k);
    cloexec_open =
        λ k c. ground (arith, contains_key-insert t.next_fd k r t.table, v.cloexec_open k);
  };
}

put_at-Adds :
    (t : FdTable) (fd : ℕ) (r : Resource)
    → IsValidTable t
    → fd < u32_max
    → contains_key fd t.table ≡ false
    → Adds t (put_at t fd r) fd r
unfolding put_at
put_at-Adds t fd r v h free = record {
  was_free = free;
  lookup_new = rw get-insert (ground arith);
  lookup_old = λ k n. rw get-insert (ground arith);
  same_cloexec = refl;
  valid = record {
    below_next = λ k c. ground (arith, contains_key-insert fd k r t.table, v.below_next k);
    cloexec_open = λ k c. ground (arith, contains_key-insert fd k r t.table, v.cloexec_open k);
  };
}

-- The outcomes of `insert_at`.
abbrev pub PutAt : FdTable → ℕ → Resource → FdTable × Result ℕ → Type 0
PutAt t fd r (u, ok k) = (k ≡ fd) × Adds t u fd r
PutAt t fd r (u, err e) = (u ≡ t) × (e ≡ to_ret ebadf) × (contains_key fd t.table ≡ true)

-- A valid table and a number below the largest: `insert_at` opens exactly that number if it is
-- free; if it is open it changes nothing and returns -EBADF.
pub insert_at-PutAt :
    (t : FdTable) (fd : ℕ) (r : Resource)
    → IsValidTable t
    → fd < u32_max
    → PutAt t fd r (insert_at t fd r)
unfolding insert_at
insert_at-PutAt t fd r v h = elim (Bool-cases (contains_key fd t.table)) [
  | inl bound ↦ rw (bound, insert_at) (refl, refl, bound)
  | inr free ↦ rw (free, insert_at) (refl, put_at-Adds t fd r v h free)
]

-- The outcome of the search loop from `fd`.
abbrev pub IsLowestFree : List (ℕ × Resource) → ℕ → ℕ → Type 0
IsLowestFree t fd k =
    (fd ≤ k) × (contains_key k t ≡ false) × ((j : ℕ) → fd ≤ j → j < k → contains_key j t ≡ true)

lowest_free-IsLowestFree :
    (fuel fd : ℕ) (t : List (ℕ × Resource))
    → count_from fd t ≤ fuel
    → fd + fuel ≤ u32_max
    → IsLowestFree t fd (lowest_free fuel fd t) × (lowest_free fuel fd t ≤ fd + fuel)
unfolding lowest_free
lowest_free-IsLowestFree zero fd t c h = elim (Bool-cases (contains_key fd t)) [
  | inl bound ↦ absurd (omega (arith, count_from-suc fd t bound))
  | inr free ↦ ((omega arith, free, λ j lo hi. absurd (omega arith)), omega arith)
]
lowest_free-IsLowestFree (suc fuel) fd t c h = elim (Bool-cases (contains_key fd t)) [
  | inl bound ↦
      let step : min (fd + 1) u32_max ≡ suc fd = omega arith in
      let later =
        lowest_free-IsLowestFree fuel (suc fd) t (omega (arith, count_from-suc fd t bound))
          (omega arith) in
      rw (bound, step, lowest_free)
        (
          (
            omega (arith, later.0.0),
            later.0.1,
            λ j lo hi. elim (Bool-cases (j == fd)) [
              | inl same ↦ subst (λ n. contains_key n t ≡ true) (sym ((==_iff j fd).0 same)) bound
              | inr more ↦ later.0.2 j (ground arith) hi
            ],
          ),
          omega (arith, later.1),
        )
  | inr free ↦
      rw (free, lowest_free) ((omega arith, free, λ j lo hi. absurd (omega arith)), omega arith)
]

-- In a valid table with room above `min_fd`, the loop of `insert_at_least` ends on the lowest free
-- number from `min_fd` on (POSIX F_DUPFD); that number is opened, no other descriptor changes, and
-- the table stays valid.
pub insert_at_least-Adds :
    (t : FdTable) (min_fd : ℕ) (r : Resource)
    → IsValidTable t
    → min_fd + length t.table < u32_max
    → let (u, fd) = insert_at_least t min_fd r in IsLowestFree t.table min_fd fd × Adds t u fd r
unfolding insert_at_least
insert_at_least-Adds t min_fd r v h =
    let found =
      lowest_free-IsLowestFree (length t.table) min_fd t.table (count_from-length min_fd t.table)
        (omega arith) in
    (found.0, put_at-Adds t _ r v (omega (arith, found.1)) found.0.1)

-- The outcomes of `close`.
abbrev pub Closed : FdTable → ℕ → FdTable × Result (Unit {0}) → Type 0
Closed t fd (u, ok _) =
    (contains_key fd t.table ≡ true)
    × (get_fd u fd ≡ err (to_ret ebadf))
    × (get_cloexec u fd ≡ false)
    × ((k : ℕ)
        → k ≢ fd
        → (get k u.table ≡ get k t.table) × (member k u.cloexec ≡ member k t.cloexec))
    × (u.next_fd ≡ t.next_fd)
    × IsValidTable u
Closed t fd (u, err e) = (u ≡ t) × (e ≡ to_ret ebadf) × (contains_key fd t.table ≡ false)

-- `close` on a valid table: an open descriptor is gone afterwards together with its FD_CLOEXEC bit,
-- the others keep theirs, `next_fd` stays, and the table stays valid; a closed one is refused with
-- -EBADF and nothing changes.
pub close-Closed : (t : FdTable) (fd : ℕ) → IsValidTable t → Closed t fd (close t fd)
unfolding close
close-Closed t fd v = elim (Bool-cases (contains_key fd t.table)) [
  | inl open_fd ↦
      rw (open_fd, close)
        (
          open_fd,
          ground (arith, get-remove fd fd t.table),
          ground (arith, member-delete fd fd t.cloexec),
          λ k n. (
            ground (arith, get-remove fd k t.table),
            ground (arith, member-delete fd k t.cloexec),
          ),
          refl,
          record {
            below_next = λ k c. ground (arith, contains_key-remove fd k t.table, v.below_next k);
            cloexec_open = λ k c. ground (
              arith,
              member-delete fd k t.cloexec,
              contains_key-remove fd k t.table,
              v.cloexec_open k,
            );
          },
        )
  | inr gone ↦ rw (gone, close) (refl, refl, gone)
]

-- The number that `insert` returns is bound to the resource.
pub get_fd-insert_fd :
    (t : FdTable) (r : Resource) → get_fd (insert_fd t r).0 (insert_fd t r).1 ≡ ok r
unfolding insert_fd
get_fd-insert_fd t r =
    let found : get t.next_fd (insert t.next_fd r t.table) ≡ some r =
      ground (arith, get-insert t.next_fd t.next_fd r t.table) in
    rw (found, get_fd) refl
