-- ===== src/Mm/Allocator.antt =====
-- `LinearAllocator` of src/mm/mod.rs: arenas stacked in linear memory, and the decision where an
-- anonymous mapping goes.
pub mod Layout
pub mod Map
pub mod Unmap
pub mod Tests
use edge_libos.Base.{
  List, Option, [], bit_and, eq_ℤ, if◌then◌else◌, is_zero, leb, ltb, negsuc, none, not, pos, some,
  ℕ, ℤ, ◌%◌, ◌&&◌, ◌++◌, ◌+◌, ◌-◌, ◌/◌, ◌==◌, ◌^◌, ◌∷◌,
}
use edge_libos.Errno.{einval, enomem, enosys, to_ret}
use mathlib.Core.Option
use edge_libos.Mm.Arena.{Arena, alloc, arena_size, contains, free, new}

abbrev pub page_size : ℕ
page_size = 65536

abbrev pub map_anonymous : ℕ
map_anonymous = 0x20

abbrev pub map_private : ℕ
map_private = 0x02

abbrev pub first_arena_base : ℕ
first_arena_base = 0x10_0000

pub record LinearAllocator : Type 0 where
  pub arenas : List Arena
  pub high_water : ℕ

pub data MmapResult : Type 0 where
  ok : ℕ → MmapResult
  need_grow : ℕ → MmapResult
  err : ℤ → MmapResult

pub empty : LinearAllocator
empty = record { arenas = []; high_water = first_arena_base }

-- One round of the loop over the arenas, with the outcome of the later rounds.
pub first_of_two : Arena × Option ℕ → List Arena → List Arena × Option ℕ → List Arena × Option ℕ
first_of_two (b, some addr) bs later = (b ∷ bs, some addr)
first_of_two (b, none) bs (cs, found) = (b ∷ cs, found)

-- The first arena that has room.
pub alloc_first : List Arena → ℕ → List Arena × Option ℕ
unfolding first_of_two
alloc_first [] len = ([], none)
alloc_first (a ∷ bs) len = first_of_two (alloc a len 8) bs (alloc_first bs len)

-- The argument checks of `mmap`, in order; `flags` is the pattern of an i32.
pub check_args : ℕ → ℕ → ℤ → ℤ → Option ℤ
check_args len flags fd off =
    if len == 0
    then some (to_ret einval)
    else if not (eq_ℤ fd (negsuc 0))
    then some (to_ret enosys)
    else if bit_and flags map_anonymous == 0
    then some (to_ret enosys)
    else if bit_and flags map_private == 0
    then some (to_ret enosys)
    else if not (is_zero off)
    then some (to_ret enosys)
    else if ltb arena_size len
    then some (to_ret enosys)
    else none

-- Step 3: a fresh arena at the high-water mark.
pub push_new : LinearAllocator → Arena × Option ℕ → LinearAllocator × MmapResult
push_new m (a, some addr) = (record m { arenas = m.arenas ++ a ∷ [] }, ok addr)
push_new m (a, none) = (m, err (to_ret enomem))

pub place_new : LinearAllocator → ℕ → LinearAllocator × MmapResult
unfolding push_new
place_new m len =
    push_new (record m { high_water = (m.high_water + arena_size) % 2 ^ 32 })
      (alloc (new m.high_water) len 8)

-- Steps 2 and 3: no arena has room.
pub place_fresh : LinearAllocator → ℕ → ℕ → LinearAllocator × MmapResult
place_fresh m cur_mem_size len =
    let needed = m.high_water + arena_size in
    if ltb cur_mem_size needed
    then (m, need_grow ((needed - cur_mem_size + (page_size - 1)) / page_size))
    else place_new m len

pub place_in : LinearAllocator → ℕ → ℕ → List Arena × Option ℕ → LinearAllocator × MmapResult
unfolding place_fresh
place_in m cur_mem_size len (bs, some addr) = (record m { arenas = bs }, ok addr)
place_in m cur_mem_size len (bs, none) = place_fresh (record m { arenas = bs }) cur_mem_size len

pub place : LinearAllocator → ℕ → ℕ → LinearAllocator × MmapResult
unfolding place_in alloc_first
place m cur_mem_size len = place_in m cur_mem_size len (alloc_first m.arenas len)

-- The code ignores `prot`.
pub mmap :
    LinearAllocator → (cur_mem_size len flags : ℕ) (fd off : ℤ) → LinearAllocator × MmapResult
mmap m cur_mem_size len flags fd off = elim (check_args len flags fd off) [
  | some e ↦ (m, err e)
  | none ↦ place m cur_mem_size len
]

-- The loop of `munmap`: the first arena that contains the range; the result of `free` is dropped.
pub free_first : List Arena → ℕ → ℕ → Option (List Arena)
free_first [] addr len = none
free_first (a ∷ bs) addr len =
    let rest = free_first bs addr len in
    if contains a addr len then some ((free a addr len).0 ∷ bs) else Option.map (λ cs. a ∷ cs) rest

pub unmap_with : LinearAllocator → Option (List Arena) → LinearAllocator × ℤ
unmap_with m (some bs) = (record m { arenas = bs }, pos 0)
unmap_with m none = (m, to_ret einval)

pub munmap : LinearAllocator → ℕ → ℕ → LinearAllocator × ℤ
unfolding unmap_with free_first
munmap m addr len = if len == 0 then (m, pos 0) else unmap_with m (free_first m.arenas addr len)

-- The loop of `grow_in_place`: the arena of which the range is the topmost allocation.
pub extend_top : List Arena → (old old_len extra : ℕ) → Option (List Arena)
extend_top [] old old_len extra = none
extend_top (a ∷ bs) old old_len extra =
    let rest = Option.map (λ cs. a ∷ cs) (extend_top bs old old_len extra) in
    if ltb old a.base
    then rest
    else if (old - a.base + old_len == a.used) && leb (a.used + extra) arena_size
    then some (record a { used = a.used + extra } ∷ bs)
    else rest

pub grow_with : LinearAllocator → ℕ → Option (List Arena) → LinearAllocator × ℤ
grow_with m old (some bs) = (record m { arenas = bs }, pos old)
grow_with m old none = (m, to_ret enomem)

-- `Err(e)` is the negative number `e`.
pub grow_in_place : LinearAllocator → (old old_len new_len : ℕ) → LinearAllocator × ℤ
unfolding grow_with extend_top
grow_in_place m old old_len new_len =
    if leb new_len old_len
    then (m, pos old)
    else grow_with m old (extend_top m.arenas old old_len (new_len - old_len))

pub brk : LinearAllocator → ℕ
brk m = m.high_water

-- `LinearAllocatorSnapshot`, `snapshot` and `replace_from_snapshot`.
pub record LinearAllocatorSnapshot : Type 0 where
  pub arenas : List Arena
  pub high_water : ℕ

unfoldable pub snapshot : LinearAllocator → LinearAllocatorSnapshot
snapshot mm = record { arenas = mm.arenas; high_water = mm.high_water }

unfoldable pub replace_from_snapshot : LinearAllocator → LinearAllocatorSnapshot → LinearAllocator
replace_from_snapshot mm snap = record mm { arenas = snap.arenas; high_water = snap.high_water }
