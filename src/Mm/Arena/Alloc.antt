-- ===== src/Mm/Arena/Alloc.antt =====
-- `Arena::alloc`: what it hands out was free, is free no longer, is aligned and lies in the arena.
use edge_libos.Base.{
  All, Bool-cases, Option, arith, get_or, if◌then◌else◌, inl, inr, leb, length, ltb, ltb→lt, none,
  refl, some, ℕ, ◌%◌, ◌&&◌, ◌+◌, ◌-◌, ◌<◌, ◌≡◌, ◌≤◌,
}
use edge_libos.Mm.Arena.{
  Arena, Best, align_up, alloc, alloc_in, arena_size, best_fit, bump, carve, new,
}
use edge_libos.Mm.Arena.Cover.{cover, cover-carve, within, within-le-cover}
use edge_libos.Mm.Arena.Fit.{Chosen, Fits, align_up-le, align_up-mod, best_fit-Chosen}

-- How often the offset `x` can still be handed out: by a hole, or by the tail above `used`.
abbrev pub room : Arena → ℕ → ℕ
room a x = cover a.free_list x + (if leb a.used x && ltb x arena_size then 1 else 0)

-- The invariants at the head of arena.rs: holes do not overlap and lie below the bump pointer,
-- which lies in the arena.
pub record IsValid (a : Arena) : Type 0 where
  pub in_arena : a.used ≤ arena_size
  pub disjoint : (x : ℕ) → cover a.free_list x ≤ 1
  pub below_used : (x : ℕ) → 0 < cover a.free_list x → x < a.used

-- A range of `len` bytes at `o` left `a` for `b`.
pub record Takes (a b : Arena) (o len align : ℕ) : Type 0 where
  pub same_base : b.base ≡ a.base
  pub aligned : o % align ≡ 0
  pub in_bounds : o + len ≤ arena_size
  pub was_free : (x : ℕ) → o ≤ x → x < o + len → room a x ≡ 1
  pub taken : (x : ℕ) → room b x + within (o, len) x ≤ room a x
  pub valid : IsValid b

-- The two outcomes of an allocation: a range was taken, or nothing changed since neither a hole
-- nor the tail has the room.
abbrev pub Allocated : Arena → ℕ → ℕ → Arena × Option ℕ → Type 0
Allocated a len align (b, some addr) = (o : ℕ) × (addr ≡ a.base + o) × Takes a b o len align
Allocated a len align (b, none) =
    (b ≡ a) × All (λ e. ¬ Fits len align e) a.free_list × (arena_size < align_up a.used align + len)

module _ (a : Arena) (len align : ℕ) (v : IsValid a) (pl : 0 < len) (pa : 0 < align) where
  hole_end :
      (i : ℕ)
      → i < length a.free_list
      → 0 < (get_or a.free_list i (0, 0)).1
      → (get_or a.free_list i (0, 0)).0 + (get_or a.free_list i (0, 0)).1 ≤ a.used
  hole_end i h p = ground (
    arith,
    v.below_used ((get_or a.free_list i (0, 0)).0 + (get_or a.free_list i (0, 0)).1 - 1),
    within-le-cover a.free_list i
        ((get_or a.free_list i (0, 0)).0 + (get_or a.free_list i (0, 0)).1 - 1) h,
  )

  carve-Takes :
      (i o w : ℕ)
      → Chosen len align a.free_list (some (i, o, w))
      → Takes a (record a { free_list = carve a.free_list i o len }) o len align
  carve-Takes i o w (b, p, f, _, _) =
      let up = align_up-le (get_or a.free_list i (0, 0)).0 align pa in
      let end = hole_end i b (omega arith) in
      let split = λ (x : ℕ). cover-carve a.free_list i o len x b (omega arith) (omega arith) in
      record {
        same_base = refl;
        aligned = rw p (align_up-mod (get_or a.free_list i (0, 0)).0 align pa);
        in_bounds = omega (arith, v.in_arena);
        was_free = λ x lo hi. ground (arith, split x, v.disjoint x, v.below_used x, end);
        taken = λ x. ground (arith, split x);
        valid = record {
          in_arena = v.in_arena;
          disjoint = λ x. ground (arith, split x, v.disjoint x);
          below_used = λ x h. ground (arith, split x, v.below_used x);
        };
      }

  bump-Takes :
      align_up a.used align + len ≤ arena_size
      → Takes a (record a { used = align_up a.used align + len }) (align_up a.used align) len align
  bump-Takes h =
      let up = align_up-le a.used align pa in
      record {
        same_base = refl;
        aligned = align_up-mod a.used align pa;
        in_bounds = h;
        was_free = λ x lo hi. ground (arith, v.disjoint x, v.below_used x);
        taken = λ x. ground arith;
        valid = record {
          in_arena = h;
          disjoint = v.disjoint;
          below_used = λ x c. omega (arith, v.below_used x c);
        };
      }

  bump-Allocated :
      All (λ e. ¬ Fits len align e) a.free_list → Allocated a len align (bump a len align)
  unfolding bump
  bump-Allocated none_fits = elim (Bool-cases (ltb arena_size (align_up a.used align + len))) [
    | inl full ↦ rw full (refl, none_fits, ltb→lt _ _ full)
    | inr fits ↦ rw fits (align_up a.used align, refl, bump-Takes (ground arith))
  ]

  alloc_in-Allocated :
      (best : Best)
      → Chosen len align a.free_list best
      → Allocated a len align (alloc_in a len align best)
  unfolding alloc_in
  alloc_in-Allocated none c = bump-Allocated c
  alloc_in-Allocated (some (i, o, w)) c = (o, refl, carve-Takes i o w c)

-- For a valid arena, a positive length and a positive alignment, `alloc` either takes an aligned
-- range inside the arena of which every byte was free, so that no byte of it can be handed out
-- again, no other byte becomes free, and the arena stays valid; or it returns `None`, changes
-- nothing, and no hole fits the request at an aligned offset nor does the tail.
pub alloc-Allocated :
    (a : Arena) (len align : ℕ)
    → IsValid a
    → 0 < len
    → 0 < align
    → Allocated a len align (alloc a len align)
unfolding alloc
alloc-Allocated a len align v pl pa =
    alloc_in-Allocated a len align v pl pa _ (best_fit-Chosen len align a.free_list)

pub new-IsValid : (base : ℕ) → IsValid (new base)
unfolding new cover
new-IsValid base = record {
  in_arena = omega arith;
  disjoint = λ x. omega arith;
  below_used = λ x h. absurd (omega arith);
}

pub base-new : (base : ℕ) → (new base).base ≡ base
unfolding new
base-new base = refl

-- A fresh arena has room for every request up to its size.
pub alloc-new :
    (base len : ℕ)
    → len ≤ arena_size
    → alloc (new base) len 8 ≡ (record (new base) { used = len }, some base)
unfolding new alloc align_up bump best_fit
alloc-new base len h = ground arith

pub room-new : (base x : ℕ) → room (new base) x ≡ (if ltb x arena_size then 1 else 0)
unfolding new cover
room-new base x = ground arith
