-- ===== src/Mm/Arena/Tests.antt =====
-- Arenas at concrete inputs.
use edge_libos.Mm.Arena.Cover.{cover}
use edge_libos.Mm.Arena.Free.{Freed, GivenBack, free-Freed, free-IsValid, free-alloc, free-free}
use edge_libos.Mm.Arena.Alloc.{Allocated, IsValid, alloc-Allocated, room}
use edge_libos.Base.{[], arith, refl, some, ℕ, ◌+◌, ◌<◌, ◌∷◌, ◌≡◌, ◌≤◌}
use edge_libos.Mm.Arena.{
  Arena, align_up, alloc, arena_size, best_fit, better, carve, consider, free,
}

-- An arena with 100 used bytes and two holes.
abbrev holed : Arena
holed = record { base = 1048576; used = 100; free_list = (0, 16) ∷ (32, 40) ∷ [] }

holed-IsValid : IsValid holed
unfolding cover
holed-IsValid = record {
  in_arena = omega arith;
  disjoint = λ x. ground arith;
  below_used = λ x h. ground arith;
}

alloc_test : alloc holed 24 8 ≡ (record holed { free_list = (0, 16) ∷ (56, 16) ∷ [] }, some 1048608)
unfolding alloc best_fit consider better carve align_up
alloc_test = refl

alloc-Allocated_example : Allocated holed 24 8 (alloc holed 24 8)
alloc-Allocated_example = alloc-Allocated holed 24 8 holed-IsValid (omega arith) (omega arith)

free-Freed_example : Freed holed 1048592 16 (free holed 1048592 16)
free-Freed_example = free-Freed holed 1048592 16

-- The bytes from 16 to 32 are in use.
holed_in_use :
    (x : ℕ) → 1048592 ≤ 1048576 + x → 1048576 + x < 1048592 + 16 → x < arena_size → room holed x ≡ 0
unfolding cover
holed_in_use x lo hi h = ground arith

free-IsValid_example : IsValid (free holed 1048592 16).0
free-IsValid_example = free-IsValid holed 1048592 16 holed-IsValid holed_in_use

free-alloc_example :
    let b : Arena = record holed { free_list = (0, 16) ∷ (56, 16) ∷ [] } in
    GivenBack holed b 1048608 24 (free b 1048608 24)
free-alloc_example =
    free-alloc holed (record holed { free_list = (0, 16) ∷ (56, 16) ∷ [] }) 24 8 1048608
      holed-IsValid (omega arith) (omega arith) alloc_test

free-free_example :
    ((x : ℕ)
      → 16 ≤ x
      → x < 16 + 16
      → 2 ≤ cover (free (free holed 1048592 16).0 1048592 16).0.free_list x)
    × (¬ IsValid (free (free holed 1048592 16).0 1048592 16).0)
free-free_example = free-free holed 1048592 16 (omega arith) (omega arith) (omega arith)
