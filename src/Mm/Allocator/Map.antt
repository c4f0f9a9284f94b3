-- ===== src/Mm/Allocator/Map.antt =====
-- `LinearAllocator::mmap`: the range it returns, the growth it asks for, and its refusals.
use edge_libos.Errno.{einval, enosys, to_ret}
use edge_libos.Base.{
  Bool-cases, List, Option, Option-cases, [], ap, arith, bit_and, inl, inr, ltb, negsuc, none, pos,
  refl, some, subst, sym, ℕ, ℤ, ◌%◌, ◌*◌, ◌++◌, ◌+◌, ◌-◌, ◌<◌, ◌^◌, ◌∙◌, ◌∷◌, ◌≡◌, ◌≢◌, ◌≤◌, ◌⊎◌,
}
use edge_libos.Mm.Arena.{Arena, arena_size, new}
use edge_libos.Mm.Arena.Alloc.{
  Allocated, Takes, alloc-Allocated, alloc-new, base-new, new-IsValid, room-new,
}
use edge_libos.Mm.Arena.Cover.{within}
use edge_libos.Mm.Allocator.{
  LinearAllocator, MmapResult, alloc_first, check_args, err, first_arena_base, map_anonymous,
  map_private, mmap, need_grow, ok, page_size, place, place_fresh, place_in, place_new, push_new,
}
use edge_libos.Mm.Allocator.Layout.{
  Placed, Stacked, Stacked-append, Stacked-le, Stacked-mod, alloc_first-Placed, spare, spare-append,
}

pub record IsValidAllocator (m : LinearAllocator) : Type 0 where
  pub stacked : Stacked first_arena_base m.arenas m.high_water

-- What `mmap` did to `m`, with a linear memory of `cur` bytes.
abbrev pub Mapped : LinearAllocator → ℕ → ℕ → LinearAllocator × MmapResult → Type 0
Mapped m cur len (n, ok addr) =
    IsValidAllocator n
    × (first_arena_base ≤ addr)
    × (addr + len ≤ n.high_water)
    × ((n.high_water ≡ m.high_water) ⊎ (n.high_water ≤ cur))
    × (addr % 8 ≡ 0)
    × ((x : ℕ)
        → spare n.arenas x + within (addr, len) x
          ≤ spare m.arenas x + within (m.high_water, n.high_water - m.high_water) x)
Mapped m cur len (n, need_grow pages) =
    (n ≡ m)
    × (cur < m.high_water + arena_size)
    × (m.high_water + arena_size ≤ cur + pages * page_size)
    × (cur + pages * page_size < m.high_water + arena_size + page_size)
Mapped m cur len (n, err e) = n ≡ m

check_args-len :
    (len flags : ℕ) (fd off : ℤ) → check_args len flags fd off ≡ none → len ≤ arena_size
unfolding check_args
check_args-len len flags fd off h = ground arith

module _ (m : LinearAllocator) (cur len : ℕ) (v : IsValidAllocator m) (p : 0 < len) where
  push_new-Mapped :
      (a : Arena) (o addr : ℕ)
      → m.high_water + arena_size ≤ cur
      → addr ≡ m.high_water + o
      → Takes (new m.high_water) a o len 8
      → Mapped m cur len
          (push_new (record m { high_water = m.high_water + arena_size }) (a, some addr))
  unfolding push_new spare
  push_new-Mapped a o addr room_left e t =
      let base : a.base ≡ m.high_water = t.same_base ∙ base-new m.high_water in
      let low = Stacked-le first_arena_base m.arenas m.high_water v.stacked in
      let al = Stacked-mod first_arena_base m.arenas m.high_water v.stacked in
      (
        record {
          stacked = Stacked-append first_arena_base m.arenas m.high_water a v.stacked base t.valid;
        },
        omega arith,
        omega (arith, t.in_bounds),
        inr room_left,
        omega (arith, t.aligned),
        λ x. ground (
          arith,
          spare-append m.arenas (a ∷ []) x,
          t.taken (x - m.high_water),
          t.in_bounds,
          room-new m.high_water (x - m.high_water),
        ),
      )

  place_new-Mapped :
      m.high_water + arena_size ≤ cur
      → cur < 2 ^ 32
      → len ≤ arena_size
      → Mapped m cur len (place_new m len)
  unfolding place_new
  place_new-Mapped room_left small fits =
      let made = alloc-new m.high_water len fits in
      let (o, e, t) =
        subst (Allocated (new m.high_water) len 8) made
          (alloc-Allocated (new m.high_water) len 8 (new-IsValid m.high_water) p (omega arith)) in
      let raised : (m.high_water + arena_size) % 2 ^ 32 ≡ m.high_water + arena_size = omega arith in
      rw raised (
        subst
          (λ r. Mapped m cur len (push_new (record m { high_water = m.high_water + arena_size }) r))
          (sym made)
          (push_new-Mapped _ o m.high_water room_left (e ∙ ap (λ n. n + o) (base-new m.high_water))
            t))

  place_fresh-Mapped : cur < 2 ^ 32 → len ≤ arena_size → Mapped m cur len (place_fresh m cur len)
  unfolding place_fresh
  place_fresh-Mapped small fits = elim (Bool-cases (ltb cur (m.high_water + arena_size))) [
    | inl short ↦ rw short (refl, ground arith, ground arith, ground arith)
    | inr enough ↦ rw enough (place_new-Mapped (ground arith) small fits)
  ]

  place_in-Mapped :
      cur < 2 ^ 32
      → len ≤ arena_size
      → (r : List Arena × Option ℕ) → Placed first_arena_base m.arenas m.high_water len r
      → Mapped m cur len (place_in m cur len r)
  unfolding place_in
  place_in-Mapped small fits (cs, some addr) (s, lo, hi, al, sp) =
      (record { stacked = s }, lo, hi, inl refl, ground arith, λ x. ground (arith, sp x))
  place_in-Mapped small fits (cs, none) e = rw e (place_fresh-Mapped small fits)

  place-Mapped : cur < 2 ^ 32 → len ≤ arena_size → Mapped m cur len (place m cur len)
  unfolding place
  place-Mapped small fits =
      place_in-Mapped small fits (alloc_first m.arenas len)
        (alloc_first-Placed first_arena_base m.arenas m.high_water len v.stacked p)

-- For a valid allocator, a non-empty request and a linear memory below 4 GiB: `mmap` either returns
-- an 8-aligned range between the first arena and the high-water mark, of which each byte was spare
-- (in an old arena, or in the new one, which lies inside the memory) and is spare no longer, while
-- no other byte becomes spare; or it asks for the least number of pages that makes room for one
-- more arena; or it refuses; and in the last two cases it changes nothing.
pub mmap-Mapped :
    (m : LinearAllocator) (cur len flags : ℕ) (fd off : ℤ)
    → IsValidAllocator m
    → 0 < len
    → cur < 2 ^ 32
    → Mapped m cur len (mmap m cur len flags fd off)
unfolding mmap
mmap-Mapped m cur len flags fd off v p small = elim (Option-cases (check_args len flags fd off)) [
  | inl accepted ↦
      rw (accepted, mmap)
        (place-Mapped m cur len v p small (check_args-len len flags fd off accepted))
  | inr (e, refused) ↦ rw (refused, mmap) refl
]

place_new_lem :
    (m : LinearAllocator) (len : ℕ)
    → len ≤ arena_size
    → (n : LinearAllocator) × (addr : ℕ) × (place_new m len ≡ (n, ok addr))
unfolding place_new push_new
place_new_lem m len fits =
    let raised = record m { high_water = (m.high_water + arena_size) % 2 ^ 32 } in
    let a = record (new m.high_water) { used = len } in
    (
      record raised { arenas = m.arenas ++ a ∷ [] },
      m.high_water,
      ap (push_new raised) (alloc-new m.high_water len fits),
    )

place_fresh_grown :
    (m n : LinearAllocator) (cur len pages : ℕ)
    → len ≤ arena_size
    → place_fresh m cur len ≡ (n, need_grow pages)
    → (n ≡ m) × (m.high_water + arena_size ≤ cur + pages * page_size)
unfolding place_fresh
place_fresh_grown m n cur len pages fits e =
    let (q, addr, placed) = place_new_lem m len fits in ground (arith, placed)

place_fresh_ok :
    (m : LinearAllocator) (cur len : ℕ)
    → len ≤ arena_size
    → m.high_water + arena_size ≤ cur
    → (n : LinearAllocator) × (addr : ℕ) × (place_fresh m cur len ≡ (n, ok addr))
unfolding place_fresh
place_fresh_ok m cur len fits h =
    let (q, addr, placed) = place_new_lem m len fits in (q, addr, ground (arith, placed))

place_in_grown :
    (m n : LinearAllocator) (cur len pages : ℕ)
    → len ≤ arena_size
    → (r : List Arena × Option ℕ) → Placed first_arena_base m.arenas m.high_water len r
    → place_in m cur len r ≡ (n, need_grow pages)
    → (k : LinearAllocator) × (addr : ℕ) × (place_in m (cur + pages * page_size) len r
        ≡ (k, ok addr))
unfolding place_in
place_in_grown m n cur len pages fits (bs, some addr) p e = absurd (cc)
place_in_grown m n cur len pages fits (bs, none) p e =
    let raised = record m { arenas = bs } in
    place_fresh_ok raised (cur + pages * page_size) len fits
      (place_fresh_grown raised n cur len pages fits e).1

-- When `mmap` asks a valid allocator's caller to grow the memory, the same request succeeds on the
-- grown memory.
pub mmap-grown :
    (m n : LinearAllocator) (cur len flags pages : ℕ) (fd off : ℤ)
    → IsValidAllocator m
    → 0 < len
    → mmap m cur len flags fd off ≡ (n, need_grow pages)
    → (k : LinearAllocator) × (addr : ℕ) × (mmap m (cur + pages * page_size) len flags fd off
        ≡ (k, ok addr))
unfolding mmap place
mmap-grown m n cur len flags pages fd off v p e =
    elim (Option-cases (check_args len flags fd off)) [
      | inl accepted ↦
          rw (accepted, mmap)
            (place_in_grown m n cur len pages (check_args-len len flags fd off accepted)
              (alloc_first m.arenas len)
              (alloc_first-Placed first_arena_base m.arenas m.high_water len v.stacked p)
              (rw (accepted, mmap) at e))
      | inr (x, refused) ↦ absurd (ground (arith, refused))
    ]

-- The reasons to refuse a request, each with its error.
abbrev pub Refusal : (len flags : ℕ) (fd off e : ℤ) → Type 0
Refusal len flags fd off e =
    ((len ≡ 0) × (e ≡ to_ret einval))
    ⊎ ((len ≢ 0)
        × (e ≡ to_ret enosys)
        × ((fd ≢ negsuc 0)
            ⊎ (bit_and flags map_anonymous ≡ 0)
            ⊎ (bit_and flags map_private ≡ 0)
            ⊎ (off ≢ pos 0)
            ⊎ (arena_size < len)))

place_in_err :
    (m n : LinearAllocator) (cur len : ℕ) (e : ℤ)
    → len ≤ arena_size
    → (r : List Arena × Option ℕ) → ¬ (place_in m cur len r ≡ (n, err e))
unfolding place_in place_fresh
place_in_err m n cur len e fits (bs, some addr) h = cc
place_in_err m n cur len e fits (bs, none) h =
    let (q, addr, placed) = place_new_lem (record m { arenas = bs }) len fits in
    ground (arith, placed)

check_args-Refusal :
    (len flags : ℕ) (fd off e : ℤ)
    → check_args len flags fd off ≡ some e
    → Refusal len flags fd off e
unfolding check_args
check_args-Refusal len flags fd off e h = ground arith

-- A request that `mmap` refuses has length 0, and the error is -EINVAL; or the error is -ENOSYS and
-- the request names a descriptor or an offset, lacks MAP_ANONYMOUS or MAP_PRIVATE, or is longer than
-- an arena.
pub mmap-Refusal :
    (m n : LinearAllocator) (cur len flags : ℕ) (fd off e : ℤ)
    → mmap m cur len flags fd off ≡ (n, err e)
    → Refusal len flags fd off e
unfolding mmap place
mmap-Refusal m n cur len flags fd off e h = elim (Option-cases (check_args len flags fd off)) [
  | inl accepted ↦ absurd (
      place_in_err m n cur len e (check_args-len len flags fd off accepted)
        (alloc_first m.arenas len) (rw (accepted, mmap) at h))
  | inr (d, refused) ↦ check_args-Refusal len flags fd off e (ground (arith, refused))
]
