-- ===== src/Snapshot/Pages/Restore.antt =====
-- What a restore of the collected pages gives.
use edge_libos.Sys.Memory.{Grow}
use edge_libos.Snapshot.Pages.{MemoryPageSnapshot, SnapshotError, io_error, page_size}
use edge_libos.Mem.Bytes.{read_at, write_at}
use edge_libos.Mem.{Memory}
use edge_libos.Base.{List, Option, [], length, none, some, ℕ, ◌*◌, ◌+◌, ◌<◌, ◌∷◌, ◌≡◌, ◌≤◌, ◌⊎◌}

-- The bytes after all pages are copied.
pub pasted : List MemoryPageSnapshot → (ℕ → ℕ) → ℕ → ℕ
pasted [] f = f
pasted (p ∷ ps) f = pasted ps (write_at (p.page_index * page_size) p.bytes f)

-- A page that lies in a memory of `size` bytes.
pub Fits : ℕ → MemoryPageSnapshot → Type 0
Fits size p = p.page_index * page_size + length p.bytes ≤ size

module _ (m : Memory) where
  chunk : ℕ → List ℕ
  chunk i = read_at (i * page_size) page_size m.byte

  -- Collected pages are whole.
  IsWhole : MemoryPageSnapshot → Type 0
  IsWhole p = length p.bytes ≡ page_size

-- Every page is at most the highest.
UpTo : ℕ → MemoryPageSnapshot → Type 0
UpTo n p = p.page_index ≤ n

-- The outcome of a restore of the memory `old` into `target`: the host refuses to grow it and it
-- stays, or it is restored from what it was, grown or not. Bytes of `old` are back, or are 0 and
-- left as they were; what lies above the restored memory was 0.
pub data Restored (grow : Grow) (old target : Memory) : Memory × Option SnapshotError → Type 0 where
  refused : Restored grow old target (target, some io_error)
  restored :
      (g r : Memory)
      → (g ≡ target) ⊎ ((pages : ℕ) × (grow target pages ≡ some g))
      → r.size ≡ g.size
      → ((q : ℕ)
          → q < old.size
          → (r.byte q ≡ old.byte q) ⊎ ((old.byte q ≡ 0) × (r.byte q ≡ g.byte q)))
      → ((q : ℕ) → q < old.size → r.size ≤ q → old.byte q ≡ 0)
      → Restored grow old target (r, none)
