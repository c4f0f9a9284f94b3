-- ===== src/Mm/Allocator/Unmap.antt =====
-- `LinearAllocator::munmap` and `grow_in_place`.
use edge_libos.Errno.{einval, enomem, to_ret}
use edge_libos.Mm.Allocator.Map.{IsValidAllocator}
use edge_libos.Mm.Arena.Alloc.{IsValid}
use mathlib.Core.Option
use edge_libos.Mm.Arena.Free.{free-IsValid, free-cover}
use edge_libos.Base.{
  Bool-cases, List, Option, [], arith, false, inl, inr, leb, ltb, negsuc, none, pos, refl, some,
  true, ℕ, ℤ, ◌&&◌, ◌+◌, ◌-◌, ◌<◌, ◌==◌, ◌^◌, ◌↔◌, ◌∙◌, ◌∷◌, ◌≡◌, ◌≤◌, ◌⊎◌,
}
use edge_libos.Mm.Arena.{Arena, arena_size, contains, free}
use edge_libos.Mm.Arena.Cover.{within}
use edge_libos.Mm.Allocator.{
  LinearAllocator, extend_top, first_arena_base, free_first, grow_in_place, grow_with, munmap,
  unmap_with,
}
use edge_libos.Mm.Allocator.Layout.{Stacked, Stacked-le, spare}

-- The range lies in one arena of the list.
abbrev pub InOne : List Arena → ℕ → ℕ → Type 0
InOne [] addr len = ⊥
InOne (a ∷ bs) addr len = ((a.base ≤ addr) × (addr + len ≤ a.base + arena_size)) ⊎ InOne bs addr len

-- The outcome of the loop of `munmap`.
abbrev pub Returned : ℕ → List Arena → ℕ → ℕ → ℕ → Option (List Arena) → Type 0
Returned low bs high addr len (some cs) =
    InOne bs addr len
    × ((x : ℕ) → spare cs x ≡ spare bs x + within (addr, len) x)
    × (((x : ℕ) → addr ≤ x → x < addr + len → spare bs x ≡ 0) → Stacked low cs high)
Returned low bs high addr len none = ¬ InOne bs addr len

contains_iff :
    (a : Arena) (addr len : ℕ)
    → a.base + arena_size < 2 ^ 32
    → len < 2 ^ 32
    → (contains a addr len ≡ true) ↔ ((a.base ≤ addr) × (addr + len ≤ a.base + arena_size))
unfolding contains
contains_iff a addr len h l = (λ c. ground arith, λ c. ground arith)

module _ (a : Arena) (addr len : ℕ) (p : 0 < len) (lo : a.base ≤ addr)
    (hi : addr + len ≤ a.base + arena_size) where
  spare-free :
      (bs : List Arena) (x : ℕ)
      → spare ((free a addr len).0 ∷ bs) x ≡ spare (a ∷ bs) x + within (addr, len) x
  unfolding spare
  spare-free bs x = ground (arith, free-cover a addr len (x - a.base) p lo (omega arith))

  free-Stacked :
      (low : ℕ) (bs : List Arena) (high : ℕ)
      → Stacked low (a ∷ bs) high
      → ((x : ℕ) → addr ≤ x → x < addr + len → spare (a ∷ bs) x ≡ 0)
      → Stacked low ((free a addr len).0 ∷ bs) high
  unfolding spare
  free-Stacked low bs high s in_use = (
    (free-cover a addr len 0 p lo (omega arith)).0 ∙ s.0,
    free-IsValid a addr len s.1 (λ x ge lt h. ground (arith, in_use (a.base + x))),
    s.2,
  )

module _ (addr len : ℕ) (p : 0 < len) (short : len < 2 ^ 32) where
  free_first-Returned :
      (low : ℕ) (bs : List Arena) (high : ℕ)
      → Stacked low bs high
      → high < 2 ^ 32
      → Returned low bs high addr len (free_first bs addr len)
  unfolding free_first spare
  free_first-Returned low [] high s h = λ i. i
  free_first-Returned low (a ∷ bs) high s h =
      let later = free_first-Returned (low + arena_size) bs high s.2 h in
      let top = Stacked-le (low + arena_size) bs high s.2 in
      let iff = contains_iff a addr len (omega arith) short in
      elim (Bool-cases (contains a addr len)) [
        | inl hit ↦
            let inside = iff.0 hit in
            rw (hit, free_first)
              (
                inl inside,
                spare-free a addr len p inside.0 inside.1 bs,
                free-Stacked a addr len p inside.0 inside.1 low bs high s,
              )
        | inr miss ↦ rw (miss, free_first) (go (free_first bs addr len) later (λ i. cc (iff.1 i)))
      ]
    where
      go :
          (r : Option (List Arena))
          → Returned (low + arena_size) bs high addr len r
          → ¬ ((a.base ≤ addr) × (addr + len ≤ a.base + arena_size))
          → Returned low (a ∷ bs) high addr len (Option.map (λ cs. a ∷ cs) r)
      go none l n = λ i. elim i [ inl h ↦ n h | inr k ↦ l k ]
      go (some cs) l n = (
        inr l.0,
        λ x. omega (arith, l.1 x),
        λ u. (s.0, s.1, l.2 (λ x ge lt. omega (arith, u x ge lt))),
      )

-- The outcomes of `munmap`.
abbrev pub Unmapped : LinearAllocator → ℕ → ℕ → LinearAllocator × ℤ → Type 0
Unmapped m addr len (n, pos r) =
    (r ≡ 0)
    × InOne m.arenas addr len
    × ((x : ℕ) → spare n.arenas x ≡ spare m.arenas x + within (addr, len) x)
    × (((x : ℕ) → addr ≤ x → x < addr + len → spare m.arenas x ≡ 0) → IsValidAllocator n)
Unmapped m addr len (n, negsuc e) =
    (n ≡ m) × (negsuc e ≡ to_ret einval) × (¬ InOne m.arenas addr len)

unmap_by :
    (m : LinearAllocator) (addr len : ℕ) (r : Option (List Arena))
    → Returned first_arena_base m.arenas m.high_water addr len r
    → Unmapped m addr len (unmap_with m r)
unfolding unmap_with
unmap_by m addr len none h = (refl, refl, h)
unmap_by m addr len (some cs) h = (refl, h.0, h.1, λ u. record { stacked = h.2 u })

-- For a valid allocator below 4 GiB and a range of 1 to 2 ^ 32 - 1 bytes: `munmap` returns 0 exactly
-- if the range lies in one arena, and then gives back each of its bytes once and no other byte; if
-- none of them was spare, that is, if the range was in use, the allocator stays valid. Otherwise it
-- returns -EINVAL and changes nothing.
pub munmap-Unmapped :
    (m : LinearAllocator) (addr len : ℕ)
    → IsValidAllocator m
    → m.high_water < 2 ^ 32
    → 0 < len
    → len < 2 ^ 32
    → Unmapped m addr len (munmap m addr len)
unfolding munmap
munmap-Unmapped m addr len v h p short =
    let nonzero : (len == 0) ≡ false = ground arith in
    rw nonzero (
      unmap_by m addr len (free_first m.arenas addr len)
        (free_first-Returned addr len p short first_arena_base m.arenas m.high_water v.stacked h))

-- The outcome of the loop of `grow_in_place`.
abbrev pub Extended : ℕ → List Arena → ℕ → (old old_len extra : ℕ) → Option (List Arena) → Type 0
Extended low bs high old old_len extra (some cs) =
    Stacked low cs high × ((x : ℕ) → spare cs x + within (old + old_len, extra) x ≡ spare bs x)
Extended low bs high old old_len extra none = Unit

module _ (old old_len extra : ℕ) where
  extend_top-Extended :
      (low : ℕ) (bs : List Arena) (high : ℕ)
      → Stacked low bs high
      → Extended low bs high old old_len extra (extend_top bs old old_len extra)
  unfolding extend_top spare
  extend_top-Extended low [] high s = tt
  extend_top-Extended low (a ∷ bs) high s =
      let later = extend_top-Extended (low + arena_size) bs high s.2 in
      elim (Bool-cases (ltb old a.base)) [
        | inl before ↦ rw (before, extend_top) (go (extend_top bs old old_len extra) later)
        | inr behind ↦
            elim (Bool-cases
              ((old - a.base + old_len == a.used) && leb (a.used + extra) arena_size)) [
                | inl top ↦
                    rw (behind, top, extend_top)
                      ((s.0, here (ground arith), s.2), λ x. ground arith)
                | inr under ↦
                    rw (behind, under, extend_top) (go (extend_top bs old old_len extra) later)
              ]
      ]
    where
      go :
          (r : Option (List Arena))
          → Extended (low + arena_size) bs high old old_len extra r
          → Extended low (a ∷ bs) high old old_len extra (Option.map (λ cs. a ∷ cs) r)
      go none e = tt
      go (some cs) e = ((s.0, s.1, e.0), λ x. omega (arith, e.1 x))

      here : a.used + extra ≤ arena_size → IsValid (record a { used = a.used + extra })
      here h = record {
        in_arena = h;
        disjoint = s.1.disjoint;
        below_used = λ x c. omega (arith, s.1.below_used x c);
      }

-- The outcomes of `grow_in_place`.
abbrev pub Grown : LinearAllocator → (old old_len new_len : ℕ) → LinearAllocator × ℤ → Type 0
Grown m old old_len new_len (n, pos addr) =
    (addr ≡ old)
    × IsValidAllocator n
    × ((x : ℕ) → spare n.arenas x + within (old + old_len, new_len - old_len) x ≡ spare m.arenas x)
Grown m old old_len new_len (n, negsuc e) =
    (n ≡ m) × (negsuc e ≡ to_ret enomem) × (old_len < new_len)

grow_by :
    (m : LinearAllocator) (old old_len new_len : ℕ) (r : Option (List Arena))
    → old_len < new_len
    → Extended first_arena_base m.arenas m.high_water old old_len (new_len - old_len) r
    → Grown m old old_len new_len (grow_with m old r)
unfolding grow_with
grow_by m old old_len new_len none h e = (refl, refl, h)
grow_by m old old_len new_len (some cs) h e = (refl, record { stacked = e.0 }, e.1)

-- For a valid allocator: `grow_in_place` returns the old address only if each byte that the mapping
-- gains was spare, and takes these bytes and no others; a request that is not longer changes
-- nothing. It fails with -ENOMEM only for a longer request, and then changes nothing.
pub grow_in_place-Grown :
    (m : LinearAllocator) (old old_len new_len : ℕ)
    → IsValidAllocator m
    → Grown m old old_len new_len (grow_in_place m old old_len new_len)
unfolding grow_in_place
grow_in_place-Grown m old old_len new_len v = elim (Bool-cases (leb new_len old_len)) [
  | inl shrink ↦ rw (shrink, grow_in_place) (refl, v, λ x. ground arith)
  | inr grow ↦
      rw (grow, grow_in_place)
        (grow_by m old old_len new_len (extend_top m.arenas old old_len (new_len - old_len))
          (ground arith)
          (extend_top-Extended old old_len (new_len - old_len) first_arena_base m.arenas
            m.high_water v.stacked))
]
