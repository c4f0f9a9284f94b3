-- ===== src/Mm/Arena/Free.antt =====
-- `Arena::free`: what it gives back, what it refuses, and a range that is freed twice.
use edge_libos.Base.{
  Bool, Bool-cases, List, [], arith, false, inl, inr, ltb, ltb→lt, refl, some, subst, sym, true, ℕ,
  ◌++◌, ◌+◌, ◌-◌, ◌<◌, ◌==◌, ◌∷◌, ◌≡◌, ◌≤◌, ◌⊎◌,
}
use edge_libos.Mm.Arena.{Arena, alloc, arena_size, coalesce, free, sort_by_offset}
use edge_libos.Mm.Arena.Cover.{cover, cover-append, cover-coalesce, cover-sort_by_offset, within}
use edge_libos.Mm.Arena.Alloc.{Allocated, IsValid, Takes, alloc-Allocated, room}

-- The outcomes of `free`. On success each byte of the range can be handed out once more than
-- before, and all other bytes as often as before.
abbrev pub Freed : Arena → ℕ → ℕ → Arena × Bool → Type 0
Freed a off len (b, true) =
    (b.base ≡ a.base)
    × (b.used ≡ a.used)
    × (a.base ≤ off)
    × (off - a.base + len ≤ arena_size)
    × ((x : ℕ) → room b x ≡ room a x + within (off - a.base, len) x)
Freed a off len (b, false) =
    (b ≡ a) × ((len ≡ 0) ⊎ (off < a.base) ⊎ (arena_size < off - a.base + len))

cover-given_back :
    (es : List (ℕ × ℕ)) (e : ℕ × ℕ) (x : ℕ)
    → cover (coalesce (sort_by_offset (es ++ e ∷ []))) x ≡ cover es x + within e x
unfolding cover
cover-given_back es e x = omega (
  arith,
  cover-coalesce (sort_by_offset (es ++ e ∷ [])) x,
  cover-sort_by_offset (es ++ e ∷ []) x,
  cover-append es (e ∷ []) x,
)

-- `free` succeeds exactly on a non-empty range inside the arena. It then gives back each byte of
-- the range once and changes no other byte, whatever order the holes are in and however they
-- merge. Otherwise it changes nothing.
pub free-Freed : (a : Arena) (off len : ℕ) → Freed a off len (free a off len)
unfolding free
free-Freed a off len = elim (Bool-cases (len == 0)) [
  | inl z ↦ rw z (refl, inl (ground arith))
  | inr p ↦ rw p (elim (Bool-cases (ltb off a.base)) [
    | inl low ↦ rw low (refl, inr (inl (ltb→lt _ _ low)))
    | inr ge ↦ rw ge (elim (Bool-cases (ltb arena_size (off - a.base + len))) [
      | inl high ↦ rw high (refl, inr (inr (ltb→lt _ _ high)))
      | inr fits ↦ rw fits (
        refl,
        refl,
        ground arith,
        ground arith,
        λ x. omega (arith, cover-given_back a.free_list (off - a.base, len) x),
      )
    ])
  ])
]

-- Freeing a range that is in use, of which no byte can be handed out, keeps the arena valid.
pub free-IsValid :
    (a : Arena) (off len : ℕ)
    → IsValid a
    → ((x : ℕ) → off ≤ a.base + x → a.base + x < off + len → x < arena_size → room a x ≡ 0)
    → IsValid (free a off len).0
unfolding free
free-IsValid a off len v in_use = elim (Bool-cases (len == 0)) [
  | inl z ↦ rw z v
  | inr p ↦ rw p (elim (Bool-cases (ltb off a.base)) [
    | inl low ↦ rw low v
    | inr ge ↦ rw ge (elim (Bool-cases (ltb arena_size (off - a.base + len))) [
      | inl high ↦ rw high v
      | inr fits ↦ rw fits (record {
        in_arena = v.in_arena;
        disjoint = λ x.
            ground
              (arith, cover-given_back a.free_list (off - a.base, len) x, v.disjoint x, in_use x);
        below_used = λ x h.
            ground
              (arith, cover-given_back a.free_list (off - a.base, len) x, v.below_used x, in_use x);
      })
    ])
  ])
]

Freed-room_in :
    (a : Arena) (off len : ℕ) (r : Arena × Bool)
    → Freed a off len r
    → 0 < len
    → a.base ≤ off
    → off - a.base + len ≤ arena_size
    → (r.1 ≡ true) × ((x : ℕ) → room r.0 x ≡ room a x + within (off - a.base, len) x)
Freed-room_in a off len (b, true) f p lo hi = (refl, f.4)
Freed-room_in a off len (b, false) (e, inl z) p lo hi = absurd (omega arith)
Freed-room_in a off len (b, false) (e, inr (inl z)) p lo hi = absurd (omega arith)
Freed-room_in a off len (b, false) (e, inr (inr z)) p lo hi = absurd (omega arith)

-- What a `free` right behind the allocation of `len` bytes at `addr` gives: the range is back.
pub record GivenBack (a b : Arena) (addr len : ℕ) (r : Arena × Bool) : Type 0 where
  pub accepted : r.1 ≡ true
  pub valid : IsValid r.0
  pub back : (x : ℕ) → addr ≤ a.base + x → a.base + x < addr + len → room r.0 x ≡ 1
  pub others : (x : ℕ) → (a.base + x < addr) ⊎ (addr + len ≤ a.base + x) → room r.0 x ≡ room b x
  pub no_more : (x : ℕ) → room r.0 x ≤ room a x

module _ (a b : Arena) (len align addr : ℕ) (v : IsValid a) (p : 0 < len) where
  free-Takes :
      (o : ℕ) → addr ≡ a.base + o → Takes a b o len align → GivenBack a b addr len (free b addr len)
  free-Takes o e t =
      let (done, all) =
        Freed-room_in b addr len (free b addr len) (free-Freed b addr len) p
          (let s = t.same_base in omega arith)
          (let s = t.same_base in let h = t.in_bounds in omega arith) in
      record {
        accepted = done;
        valid =
            free-IsValid b addr len t.valid
              (λ x lo hi h. ground (arith, t.same_base, t.taken x, t.was_free x));
        back = λ x lo hi. ground (arith, t.same_base, all x, t.taken x, t.was_free x);
        others = λ x out. ground (arith, t.same_base, all x, out);
        no_more = λ x. ground (arith, t.same_base, all x, t.taken x);
      }

-- An allocation of a valid arena followed by the matching `free`: the `free` is accepted, every
-- byte of the range can be handed out again, once, every other byte as often as between the two
-- calls, no byte more often than before the allocation, and the arena is valid.
pub free-alloc :
    (a b : Arena) (len align addr : ℕ)
    → IsValid a
    → 0 < len
    → 0 < align
    → alloc a len align ≡ (b, some addr)
    → GivenBack a b addr len (free b addr len)
free-alloc a b len align addr v pl pa e =
    let (o, p, t) = subst (Allocated a len align) e (alloc-Allocated a len align v pl pa) in
    free-Takes a b len align addr v pl o p t

pub free-cover :
    (a : Arena) (off len x : ℕ)
    → 0 < len
    → a.base ≤ off
    → off - a.base + len ≤ arena_size
    → ((free a off len).0.base ≡ a.base)
      × ((free a off len).0.used ≡ a.used)
      × (cover (free a off len).0.free_list x ≡ cover a.free_list x + within (off - a.base, len) x)
unfolding free
free-cover a off len x p lo hi = ground (arith, cover-given_back a.free_list (off - a.base, len) x)

free_twice-cover :
    (a : Arena) (off len x : ℕ)
    → 0 < len
    → a.base ≤ off
    → off - a.base + len ≤ arena_size
    → off - a.base ≤ x
    → x < off - a.base + len
    → 2 ≤ cover (free (free a off len).0 off len).0.free_list x
free_twice-cover a off len x p lo hi ge lt =
    let once = free-cover a off len x p lo hi in
    ground (
      arith,
      once,
      free-cover (free a off len).0 off len x p (subst (λ n. n ≤ off) (sym once.0) lo)
          (subst (λ n. off - n + len ≤ arena_size) (sym once.0) hi),
    )

-- A range in the arena that is freed twice is in the free list twice over: the arena is no longer
-- valid, and each byte of the range can be handed out twice.
pub free-free :
    (a : Arena) (off len : ℕ)
    → 0 < len
    → a.base ≤ off
    → off - a.base + len ≤ arena_size
    → ((x : ℕ)
        → off - a.base ≤ x
        → x < off - a.base + len
        → 2 ≤ cover (free (free a off len).0 off len).0.free_list x)
      × (¬ IsValid (free (free a off len).0 off len).0)
free-free a off len p lo hi =
    let twice = λ (x : ℕ) (ge : off - a.base ≤ x) (lt : x < off - a.base + len).
      free_twice-cover a off len x p lo hi ge lt in
    (
      twice,
      λ v.
          omega
            (arith, twice (off - a.base) (omega arith) (omega arith), v.disjoint (off - a.base)),
    )
