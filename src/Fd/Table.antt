-- ===== src/Fd/Table.antt =====
-- `FdTable` of src/fd.rs.
pub mod Lowest
pub mod Flags
use edge_libos.Map.{add, contains_key, delete, get, insert, member, remove}
use edge_libos.Base.Result.{Result, err, ok}
use edge_libos.Errno.{ebadf, to_ret}
use edge_libos.Base.{
  Bool, List, [], false, if◌then◌else◌, leb, length, min, none, some, suc, true, zero, ℕ, ◌%◌, ◌+◌,
  ◌-◌, ◌^◌,
}
use edge_libos.Fd.Objects.{Resource}

pub record FdTable : Type 0 where
  pub table : List (ℕ × Resource)
  pub next_fd : ℕ
  pub cloexec : List ℕ

abbrev pub u32_max : ℕ
u32_max = 2 ^ 32 - 1

pub empty : FdTable
empty = record { table = []; next_fd = 3; cloexec = [] }

-- `next_fd += 1` on a u32.
pub insert_fd : FdTable → Resource → FdTable × ℕ
insert_fd t r =
    (record t { next_fd = (t.next_fd + 1) % 2 ^ 32; table = insert t.next_fd r t.table }, t.next_fd)

-- `if fd >= self.next_fd { self.next_fd = fd + 1 }`, then the insertion.
pub put_at : FdTable → ℕ → Resource → FdTable
put_at t fd r = record t {
  next_fd = if leb t.next_fd fd then (fd + 1) % 2 ^ 32 else t.next_fd;
  table = insert fd r t.table;
}

pub insert_at : FdTable → ℕ → Resource → FdTable × Result ℕ
unfolding put_at
insert_at t fd r =
    if contains_key fd t.table then (t, err (to_ret ebadf)) else (put_at t fd r, ok fd)

-- The `while` loop of `insert_at_least`, on fuel, with `saturating_add`.
pub lowest_free : ℕ → ℕ → List (ℕ × Resource) → ℕ
lowest_free zero fd t = fd
lowest_free (suc fuel) fd t =
    let later = lowest_free fuel (min (fd + 1) u32_max) t in if contains_key fd t then later else fd

-- The fuel is the number of entries: each round passes one of them.
pub insert_at_least : FdTable → ℕ → Resource → FdTable × ℕ
unfolding lowest_free put_at
insert_at_least t min_fd r =
    let fd = lowest_free (length t.table) min_fd t.table in (put_at t fd r, fd)

pub set_cloexec : FdTable → ℕ → Bool → FdTable
set_cloexec t fd true = record t { cloexec = add fd t.cloexec }
set_cloexec t fd false = record t { cloexec = delete fd t.cloexec }

abbrev pub get_cloexec : FdTable → ℕ → Bool
get_cloexec t fd = member fd t.cloexec

-- `get` and `get_mut`.
abbrev pub get_fd : FdTable → ℕ → Result Resource
get_fd t fd = elim (get fd t.table) [ some r ↦ ok r | none ↦ err (to_ret ebadf) ]

-- A write through `get_mut`: the entry is there.
abbrev pub set_fd : FdTable → ℕ → Resource → FdTable
set_fd t fd r = record t { table = insert fd r t.table }

pub close : FdTable → ℕ → FdTable × Result (Unit {0})
close t fd =
    if contains_key fd t.table
    then (record t { table = remove fd t.table; cloexec = delete fd t.cloexec }, ok tt)
    else (t, err (to_ret ebadf))

abbrev pub contains_fd : FdTable → ℕ → Bool
contains_fd t fd = contains_key fd t.table
