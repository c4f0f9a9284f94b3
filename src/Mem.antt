-- ===== src/Mem.antt =====
-- Guest memory and the checked accesses to it: src/mem.rs, and `Kernel::memory` of src/kernel.rs.
pub mod Bytes
pub mod Bounds
use edge_libos.Mem.Bytes.{read_at, write_at}
use edge_libos.Errno.{efault, einval, to_ret}
use edge_libos.Base.{
  Bool, List, Option, [], as_usize, if◌then◌else◌, leb, negsuc, none, pos, some, ℕ, ℤ, ◌+◌, ◌==◌,
  ◌∷◌,
}
use edge_libos.Base.Result.{Result, err, map_ok, ok}

-- A linear memory: its size in bytes, and its bytes.
pub record Memory : Type 0 where
  pub size : ℕ
  pub byte : ℕ → ℕ

pub data MemoryKind : Type 0 where
  owned : Memory → MemoryKind
  shared : Memory → MemoryKind

-- `Kernel::memory`.
abbrev pub owned_memory : Option MemoryKind → Result Memory
owned_memory none = err (to_ret efault)
owned_memory (some (owned m)) = ok m
owned_memory (some (shared m)) = err (to_ret einval)

-- `base.get(p..end)`.
abbrev pub get_range : Memory → ℕ → ℕ → Result ℕ
get_range m p l = if leb (p + l) m.size then ok p else err (to_ret efault)

-- `guest_slice_mut` and `guest_slice_mut_via`: the offset of the borrowed range. Both numbers are
-- below 2 ^ 63, so that `checked_add` does not fail.
unfoldable pub guest_slice_mut : Option MemoryKind → ℤ → ℤ → Result ℕ
guest_slice_mut mem (pos p) (pos l) = elim (owned_memory mem) [
  | ok m ↦ get_range m p l
  | err e ↦ err e
]
guest_slice_mut mem (pos p) (negsuc l) = err (to_ret efault)
guest_slice_mut mem (negsuc p) len = err (to_ret efault)

-- The bytes of a range of owned memory; other kinds are not reached behind a checked range.
abbrev pub bytes_of : Option MemoryKind → ℕ → ℕ → List ℕ
bytes_of none p n = []
bytes_of (some (owned m)) p n = read_at p n m.byte
bytes_of (some (shared m)) p n = []

-- `guest_slice`: the bytes themselves.
unfoldable pub guest_slice : Option MemoryKind → ℤ → ℤ → Result (List ℕ)
unfolding guest_slice_mut
guest_slice mem ptr len = map_ok (λ p. bytes_of mem p (as_usize len)) (guest_slice_mut mem ptr len)

-- `copy_from_slice` into a borrowed range.
abbrev pub copy_to : Option MemoryKind → ℕ → List ℕ → Option MemoryKind
copy_to none p bs = none
copy_to (some (owned m)) p bs = some (owned (record m { byte = write_at p bs m.byte }))
copy_to (some (shared m)) p bs = some (shared m)

-- The bytes before the first NUL.
abbrev pub until_nul : List ℕ → List ℕ
until_nul [] = []
until_nul (b ∷ bs) = if b == 0 then [] else b ∷ until_nul bs

-- `guest_str`. `is_utf8` is `std::str::from_utf8(..).is_ok()`.
unfoldable pub guest_str : (List ℕ → Bool) → Option MemoryKind → ℤ → ℤ → Result (List ℕ)
unfolding guest_slice
guest_str is_utf8 mem ptr max_len = elim (guest_slice mem ptr max_len) [
  | ok bs ↦ if is_utf8 (until_nul bs) then ok (until_nul bs) else err (to_ret einval)
  | err e ↦ err e
]
