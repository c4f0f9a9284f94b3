-- ===== src/Sys/Memory.antt =====
-- src/sys/memory.rs: mmap, munmap, mremap, mprotect, madvise and brk.
pub mod Fresh
pub mod Lost
use edge_libos.Base.Result.{Result, err, ok}
use edge_libos.Errno.{einval, enomem, enosys, to_ret}
use edge_libos.Base.{
  Option, as_u32, bit_and, if◌then◌else◌, leb, negsuc, none, not, pos, replicate, some, suc,
  try_u32, try_usize, zero, ℕ, ℤ, ◌+◌, ◌==◌,
}
use edge_libos.Kernel.{Kernel}
use edge_libos.Mem.{Memory, owned, owned_memory}
use edge_libos.Mem.Bytes.{write_at}
use edge_libos.Mm.Allocator.{LinearAllocator, MmapResult}
use edge_libos.Mm.Allocator

-- `Memory::grow` of wasmtime, by a number of pages: the grown memory, or a failure.
abbrev pub Grow : Type 0
Grow = Memory → ℕ → Option Memory

-- The zero fill of the new range; it is skipped if the range ends outside the memory.
pub zero_fill : Memory → ℕ → ℕ → Memory
zero_fill m start len =
    if leb (start + len) m.size
    then record m { byte = write_at start (replicate len 0) m.byte }
    else m

-- The answer to the second decision.
pub mmap_answer : Kernel → Memory → (len : ℕ) → LinearAllocator × MmapResult → Kernel × ℤ
unfolding zero_fill
mmap_answer k m len (mm, MmapResult.ok addr) =
    (record k { mm = mm; memory = some (owned (zero_fill m addr len)) }, pos addr)
mmap_answer k m len (mm, MmapResult.need_grow pages) =
    (record k { mm = mm; memory = some (owned m) }, to_ret enomem)
mmap_answer k m len (mm, MmapResult.err e) = (record k { mm = mm; memory = some (owned m) }, e)

-- The second decision, on the memory as it then is.
pub mmap_place : Kernel → Memory → (len flags : ℕ) (fd off : ℤ) → Kernel × ℤ
unfolding mmap_answer
mmap_place k m len flags fd off = mmap_answer k m len (Allocator.mmap k.mm m.size len flags fd off)

-- The first decision has been taken, and has changed the allocator.
pub mmap_decided : Grow → Kernel → Memory → (len flags : ℕ) (fd off : ℤ) → MmapResult → Kernel × ℤ
unfolding mmap_place
mmap_decided grow k m len flags fd off (MmapResult.need_grow pages) = elim (grow m pages) [
  | some grown ↦ mmap_place k grown len flags fd off
  | none ↦ (k, to_ret enomem)
]
mmap_decided grow k m len flags fd off (MmapResult.ok addr) = mmap_place k m len flags fd off
mmap_decided grow k m len flags fd off (MmapResult.err e) = mmap_place k m len flags fd off

pub mmap_owned : Grow → Kernel → (len flags : ℕ) (fd off : ℤ) → Result Memory → Kernel × ℤ
unfolding mmap_decided
mmap_owned grow k len flags fd off (err e) = (k, e)
mmap_owned grow k len flags fd off (ok m) =
    let (mm, decision) = Allocator.mmap k.mm m.size len flags fd off in
    mmap_decided grow (record k { mm = mm }) m len flags fd off decision

-- `mmap(addr, len, prot, flags, fd, off)`: `addr` is a hint that is ignored, and so is `prot`.
pub mmap : Grow → Kernel → (len flags fd off : ℤ) → Kernel × ℤ
unfolding mmap_owned
mmap grow k (negsuc n) flags fd off = (k, to_ret einval)
mmap grow k (pos zero) flags fd off = (k, to_ret einval)
mmap grow k (pos (suc n)) flags fd off =
    mmap_owned grow k (suc n) (as_u32 flags) fd off (owned_memory k.memory)

pub munmap : Kernel → (addr len : ℤ) → Kernel × ℤ
munmap k addr len = elim (try_u32 addr) [
  | none ↦ (k, to_ret einval)
  | some a ↦ elim (try_usize len) [
    | none ↦ (k, to_ret einval)
    | some l ↦ let (mm, r) = Allocator.munmap k.mm a l in (record k { mm = mm }, r)
  ]
]

pub mprotect : ℤ
mprotect = pos 0

pub madvise : ℤ
madvise = pos 0

pub brk : Kernel → ℤ
brk k = pos (Allocator.brk k.mm)

-- `flags & (MREMAP_MAYMOVE | MREMAP_FIXED)` is `flags & 3`.
pub mremap_checked : Kernel → (old old_len new_len flags new_addr : ℕ) → Kernel × ℤ
mremap_checked k old old_len new_len flags new_addr =
    if not (bit_and flags 3 == 0)
    then (k, to_ret enosys)
    else if not (new_addr == 0)
    then (k, to_ret enosys)
    else if leb new_len old_len
    then (k, pos old)
    else let (mm, r) = Allocator.grow_in_place k.mm old old_len new_len in (record k { mm = mm }, r)

abbrev pub try_positive : ℤ → Option ℕ
try_positive (negsuc n) = none
try_positive (pos n) = if n == 0 then none else some n

pub mremap : Kernel → (old old_len new_len flags new_addr : ℤ) → Kernel × ℤ
unfolding mremap_checked
mremap k old old_len new_len flags new_addr = elim (try_u32 old) [
  | none ↦ (k, to_ret einval)
  | some o ↦ elim (try_positive old_len) [
    | none ↦ (k, to_ret einval)
    | some ol ↦ elim (try_positive new_len) [
      | none ↦ (k, to_ret einval)
      | some nl ↦ mremap_checked k o ol nl (as_u32 flags) (as_u32 new_addr)
    ]
  ]
]
