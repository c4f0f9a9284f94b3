-- ===== src/Fd/Table/Flags.antt =====
-- FD_CLOEXEC of a descriptor that was just opened.
-- `t` is the table before, `u` has the new descriptor.
use edge_libos.Base.{Bool, arith, false, refl, some, true, ℕ, ◌≡◌, ◌≢◌}
use edge_libos.Map.{contains_key-get, get, member, member-add, member-delete}
use edge_libos.Fd.Objects.{Resource}
use edge_libos.Fd.Table.Lowest.{IsValidTable}
use edge_libos.Fd.Table.{FdTable, get_cloexec, set_cloexec}

module _ (t u : FdTable) (fd : ℕ) (r : Resource) where
  -- `u` before `set_cloexec`: other descriptors keep their entries and bits.
  pub record Installed : Type 0 where
    pub found : get fd u.table ≡ some r
    pub others : (k : ℕ) → k ≢ fd → get k u.table ≡ get k t.table
    pub bits : (k : ℕ) → k ≢ fd → member k u.cloexec ≡ member k t.cloexec
    pub valid : IsValidTable u

  module _ (i : Installed) where
    pub set_cloexec-IsValidTable : (want : Bool) → IsValidTable (set_cloexec u fd want)
    unfolding set_cloexec
    set_cloexec-IsValidTable true = record {
      below_next = i.valid.below_next;
      cloexec_open = λ k c. ground (
        arith,
        member-add fd k u.cloexec,
        i.valid.cloexec_open k,
        contains_key-get k u.table,
        i.found,
      );
    }
    set_cloexec-IsValidTable false = record {
      below_next = i.valid.below_next;
      cloexec_open = λ k c. ground (arith, member-delete fd k u.cloexec, i.valid.cloexec_open k);
    }

    pub set_cloexec-bit : (want : Bool) → get_cloexec (set_cloexec u fd want) fd ≡ want
    unfolding set_cloexec
    set_cloexec-bit true = ground (arith, member-add fd fd u.cloexec)
    set_cloexec-bit false = ground (arith, member-delete fd fd u.cloexec)

    pub set_cloexec-other :
        (want : Bool) (k : ℕ)
        → k ≢ fd
        → (get k (set_cloexec u fd want).table ≡ get k t.table)
          × (get_cloexec (set_cloexec u fd want) k ≡ get_cloexec t k)
    unfolding set_cloexec
    set_cloexec-other true k n =
        (i.others k n, ground (arith, member-add fd k u.cloexec, i.bits k n))
    set_cloexec-other false k n =
        (i.others k n, ground (arith, member-delete fd k u.cloexec, i.bits k n))

    pub set_cloexec-found : (want : Bool) → get fd (set_cloexec u fd want).table ≡ some r
    unfolding set_cloexec
    set_cloexec-found true = i.found
    set_cloexec-found false = i.found

pub set_cloexec_on :
    (t : FdTable) (fd : ℕ)
    → (get_cloexec (set_cloexec t fd true) fd ≡ true) × ((set_cloexec t fd true).table ≡ t.table)
unfolding set_cloexec
set_cloexec_on t fd = (ground (arith, member-add fd fd t.cloexec), refl)
