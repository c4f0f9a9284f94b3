-- ===== src/Snapshot/Pages.antt =====
-- The pages of the linear memory in a snapshot: collect_pages, and the restore of memory.
pub mod Restore
use edge_libos.Mem.Bytes.{read_at, write_at}
use edge_libos.Mem.{Memory}
use edge_libos.Base.{
  Bool, List, Option, [], if◌then◌else◌, length, ltb, max, none, some, suc, true, zero, ℕ, ◌&&◌,
  ◌*◌, ◌+◌, ◌-◌, ◌/◌, ◌==◌, ◌∷◌,
}

-- `PAGE_SIZE_BYTES`.
abbrev pub page_size : ℕ
page_size = 65536

-- `MemoryPageSnapshot`.
pub record MemoryPageSnapshot : Type 0 where
  pub page_index : ℕ
  pub bytes : List ℕ

-- `is_zero_page`.
unfoldable pub is_zero_page : List ℕ → Bool
is_zero_page [] = true
is_zero_page (b ∷ bs) = (b == 0) && is_zero_page bs

-- A chunk becomes a page unless it is zero.
abbrev pub push_page : ℕ → List ℕ → List MemoryPageSnapshot → List MemoryPageSnapshot
push_page i chunk rest =
    if is_zero_page chunk then rest else record { page_index = i; bytes = chunk } ∷ rest

-- The remainder behind the whole pages.
abbrev pub push_remainder : ℕ → List ℕ → List MemoryPageSnapshot
push_remainder i [] = []
push_remainder i (b ∷ bs) = push_page i (b ∷ bs) []

-- The `n` pages from page `i` on, and what remains behind them.
unfoldable pub collect_from : Memory → ℕ → ℕ → List MemoryPageSnapshot
collect_from m zero i = push_remainder i (read_at (i * page_size) (m.size - i * page_size) m.byte)
collect_from m (suc n) i =
    push_page i (read_at (i * page_size) page_size m.byte) (collect_from m n (i + 1))

-- `collect_pages`.
unfoldable pub collect_pages : Memory → List MemoryPageSnapshot
collect_pages m = collect_from m (m.size / page_size) 0

-- `SnapshotError`, without the texts.
pub data SnapshotError : Type 0 where
  format_version_mismatch module_hash_mismatch io_error missing_path unsupported : SnapshotError
  accepted_stream_on_listener abstract_unix_namespace unknown_resource invalid : SnapshotError

-- The highest page, of one page and more.
abbrev pub max_index : ℕ → List MemoryPageSnapshot → ℕ
max_index n [] = n
max_index n (p ∷ ps) = max_index (max n p.page_index) ps

-- The loop that copies the pages.
unfoldable pub copy_pages : Memory → List MemoryPageSnapshot → Memory × Option SnapshotError
copy_pages m [] = (m, none)
copy_pages m (p ∷ ps) =
    let start = p.page_index * page_size in
    let rest = copy_pages (record m { byte = write_at start p.bytes m.byte }) ps in
    if ltb m.size (start + length p.bytes) then (m, some io_error) else rest

-- The memory grown to hold `target` pages. `grow` is the host's `Memory::grow`.
abbrev pub grown : (Memory → ℕ → Option Memory) → Memory → (target : ℕ) → Option Memory
grown grow m target =
    if ltb (m.size / page_size) target then grow m (target - m.size / page_size) else some m

-- `apply_snapshot_to_memory`; `apply_snapshot_to_shared_memory` is the same for shared memory.
abbrev pub copy_into :
    Memory → List MemoryPageSnapshot → Option Memory → Memory × Option SnapshotError
copy_into m pages none = (m, some io_error)
copy_into m pages (some g) = copy_pages g pages

unfoldable pub apply_snapshot_to_memory :
    (Memory → ℕ → Option Memory) → List MemoryPageSnapshot → Memory → Memory × Option SnapshotError
apply_snapshot_to_memory grow [] m = (m, none)
apply_snapshot_to_memory grow (p ∷ ps) m =
    copy_into m (p ∷ ps) (grown grow m (max_index p.page_index ps + 1))
