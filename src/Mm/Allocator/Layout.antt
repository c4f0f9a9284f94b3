-- ===== src/Mm/Allocator/Layout.antt =====
-- How the arenas of an allocator lie in linear memory: one behind another, from
-- `FIRST_ARENA_BASE` to the high-water mark.
use edge_libos.Base.{
  List, Option, [], arith, if◌then◌else◌, leb, ltb, none, refl, some, sym, ℕ, ◌%◌, ◌&&◌, ◌++◌, ◌+◌,
  ◌-◌, ◌<◌, ◌∙◌, ◌∷◌, ◌≡◌, ◌≤◌,
}
use edge_libos.Mm.Arena.{Arena, alloc, arena_size}
use edge_libos.Mm.Arena.Alloc.{Allocated, IsValid, alloc-Allocated, room}
use edge_libos.Mm.Arena.Cover.{within}
use edge_libos.Mm.Allocator.{alloc_first, first_of_two}

-- How often the address `x` can still be handed out.
unfoldable pub spare : List Arena → ℕ → ℕ
spare [] x = 0
spare (a ∷ bs) x =
    (if leb a.base x && ltb x (a.base + arena_size) then room a (x - a.base) else 0) + spare bs x

-- Valid arenas, stacked from `low` to `high`.
abbrev pub Stacked : ℕ → List Arena → ℕ → Type 0
Stacked low [] high = low ≡ high
Stacked low (a ∷ bs) high = (a.base ≡ low) × IsValid a × Stacked (low + arena_size) bs high

pub Stacked-le : (low : ℕ) (bs : List Arena) (high : ℕ) → Stacked low bs high → low ≤ high
Stacked-le low [] high s = omega arith
Stacked-le low (a ∷ bs) high s = omega (arith, Stacked-le (low + arena_size) bs high s.2)

pub Stacked-mod : (low : ℕ) (bs : List Arena) (high : ℕ) → Stacked low bs high → high % 8 ≡ low % 8
Stacked-mod low [] high s = omega arith
Stacked-mod low (a ∷ bs) high s = omega (arith, Stacked-mod (low + arena_size) bs high s.2)

-- Below the lowest arena nothing is spare, and no address is spare twice.
pub spare-below :
    (low : ℕ) (bs : List Arena) (high x : ℕ) → Stacked low bs high → x < low → spare bs x ≡ 0
unfolding spare
spare-below low [] high x s h = refl
spare-below low (a ∷ bs) high x s h = ground (arith, spare-below (low + arena_size) bs high x s.2)

pub spare-above :
    (low : ℕ) (bs : List Arena) (high x : ℕ) → Stacked low bs high → high ≤ x → spare bs x ≡ 0
unfolding spare
spare-above low [] high x s h = refl
spare-above low (a ∷ bs) high x s h =
    ground (
      arith,
      Stacked-le (low + arena_size) bs high s.2,
      spare-above (low + arena_size) bs high x s.2,
    )

pub spare-append : (bs cs : List Arena) (x : ℕ) → spare (bs ++ cs) x ≡ spare bs x + spare cs x
unfolding spare
spare-append [] cs x = omega arith
spare-append (a ∷ bs) cs x = omega (arith, spare-append bs cs x)

pub Stacked-append :
    (low : ℕ) (bs : List Arena) (high : ℕ) (a : Arena)
    → Stacked low bs high
    → a.base ≡ high
    → IsValid a
    → Stacked low (bs ++ a ∷ []) (high + arena_size)
Stacked-append low [] high a s e v = (e ∙ sym s, v, omega arith)
Stacked-append low (b ∷ bs) high a s e v =
    (s.0, s.1, Stacked-append (low + arena_size) bs high a s.2 e v)

-- The outcome of `alloc_first`: a range was taken, or nothing changed.
abbrev pub Placed : ℕ → List Arena → ℕ → ℕ → List Arena × Option ℕ → Type 0
Placed low bs high len (cs, some addr) =
    Stacked low cs high
    × (low ≤ addr)
    × (addr + len ≤ high)
    × (addr % 8 ≡ low % 8)
    × ((x : ℕ) → spare cs x + within (addr, len) x ≤ spare bs x)
Placed low bs high len (cs, none) = cs ≡ bs

first_of_two-Placed :
    (low : ℕ) (a : Arena) (bs : List Arena) (high len : ℕ)
    → Stacked low (a ∷ bs) high
    → (r : Arena × Option ℕ) → Allocated a len 8 r
    → (l : List Arena × Option ℕ) → Placed (low + arena_size) bs high len l
    → Placed low (a ∷ bs) high len (first_of_two r bs l)
unfolding first_of_two spare
first_of_two-Placed low a bs high len s (b, some addr) (o, e, t) l p = (
  (t.same_base ∙ s.0, t.valid, s.2),
  ground arith,
  ground (arith, Stacked-le (low + arena_size) bs high s.2, t.in_bounds),
  ground (arith, t.aligned),
  λ x. ground (arith, t.taken (x - a.base), t.same_base, t.in_bounds),
)
first_of_two-Placed low a bs high len s (b, none) r (cs, some addr) p =
    rw (r.0) ((s.0, s.1, p.0), ground arith, p.2, ground (arith, p.3), λ x. ground (arith, p.4 x))
first_of_two-Placed low a bs high len s (b, none) r (cs, none) p = rw (r.0, p) refl

pub alloc_first-Placed :
    (low : ℕ) (bs : List Arena) (high len : ℕ)
    → Stacked low bs high
    → 0 < len
    → Placed low bs high len (alloc_first bs len)
unfolding alloc_first
alloc_first-Placed low [] high len s p = refl
alloc_first-Placed low (a ∷ bs) high len s p =
    first_of_two-Placed low a bs high len s (alloc a len 8)
      (alloc-Allocated a len 8 s.1 p (omega arith)) (alloc_first bs len)
      (alloc_first-Placed (low + arena_size) bs high len s.2 p)

-- No address is spare twice.
pub spare-le_one : (low : ℕ) (bs : List Arena) (high x : ℕ) → Stacked low bs high → spare bs x ≤ 1
unfolding spare
spare-le_one low [] high x s = omega arith
spare-le_one low (a ∷ bs) high x s = ground (
  arith,
  s.1.disjoint (x - a.base),
  s.1.below_used (x - a.base),
  spare-le_one (low + arena_size) bs high x s.2,
  spare-below (low + arena_size) bs high x s.2,
)
