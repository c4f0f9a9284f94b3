-- ===== src/Mm/Allocator/Tests.antt =====
-- The allocator at concrete inputs.
use edge_libos.Mm.Arena.{align_up, alloc, best_fit}
use edge_libos.Mm.Allocator.Unmap.{Grown, Unmapped, grow_in_place-Grown, munmap-Unmapped}
use edge_libos.Mm.Allocator.Map.{IsValidAllocator, Mapped, mmap-Mapped}
use edge_libos.Mm.Allocator.{
  LinearAllocator, MmapResult, alloc_first, check_args, first_of_two, mmap, place, place_fresh,
  place_in,
}
use edge_libos.Mm.Arena.Cover.{cover}
use edge_libos.Base.{[], arith, negsuc, pos, refl, ◌∷◌, ◌≡◌}
use edge_libos.Mm.Allocator

abbrev fresh : LinearAllocator
fresh = record { arenas = []; high_water = 1048576 }

fresh-IsValidAllocator : IsValidAllocator fresh
fresh-IsValidAllocator = record { stacked = refl }

mmap-Mapped_example :
    Mapped fresh 2097152 100 (Allocator.mmap fresh 2097152 100 0x22 (negsuc 0) (pos 0))
mmap-Mapped_example =
    mmap-Mapped fresh 2097152 100 0x22 (negsuc 0) (pos 0) fresh-IsValidAllocator (omega arith)
      (omega arith)

-- One arena with 100 bytes in use.
abbrev pub used : LinearAllocator
used = record {
  arenas = record { base = 1048576; used = 100; free_list = [] } ∷ [];
  high_water = 1310720;
}

pub used-IsValidAllocator : IsValidAllocator used
unfolding cover
used-IsValidAllocator = record {
  stacked = (
    refl,
    record {
      in_arena = omega arith;
      disjoint = λ x. omega arith;
      below_used = λ x h. absurd (omega arith);
    },
    refl,
  );
}

munmap-Unmapped_example : Unmapped used 1048592 16 (Allocator.munmap used 1048592 16)
munmap-Unmapped_example =
    munmap-Unmapped used 1048592 16 used-IsValidAllocator (omega arith) (omega arith) (omega arith)

grow_in_place-Grown_example :
    Grown used 1048608 68 100 (Allocator.grow_in_place used 1048608 68 100)
grow_in_place-Grown_example = grow_in_place-Grown used 1048608 68 100 used-IsValidAllocator

-- The same with the next 8-aligned 100 bytes in use, too.
abbrev pub used_more : LinearAllocator
used_more = record used { arenas = record { base = 1048576; used = 204; free_list = [] } ∷ [] }

pub mmap_fits :
    Allocator.mmap used 2097152 100 0x22 (negsuc 0) (pos 0) ≡ (used_more, MmapResult.ok 1048680)
unfolding mmap check_args place alloc_first place_in first_of_two alloc best_fit align_up
mmap_fits = refl
