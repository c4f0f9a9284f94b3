-- ===== src/Mm/Arena/Cover.antt =====
-- How many holes of a free list cover an offset. Counting does not see the order of the list, so
-- that sorting, `swap_remove` and merging are equations between counts.
use edge_libos.Base.{
  Bool-cases, List, [], arith, get_or, if◌then◌else◌, inl, inr, leb, length, ltb, refl, set, suc,
  zero, ℕ, ◌&&◌, ◌++◌, ◌+◌, ◌-◌, ◌<◌, ◌∷◌, ◌≡◌, ◌≤◌,
}
use edge_libos.Mm.Arena.{
  but_last, carve, coalesce, coalesce_from, insert_sorted, last_or, sort_by_offset, swap_remove,
}

-- 1 if the range of the hole holds `x`.
abbrev pub within : ℕ × ℕ → ℕ → ℕ
within (off, len) x = if leb off x && ltb x (off + len) then 1 else 0

unfoldable pub cover : List (ℕ × ℕ) → ℕ → ℕ
cover [] x = 0
cover (e ∷ es) x = within e x + cover es x

pub cover-append : (es fs : List (ℕ × ℕ)) (x : ℕ) → cover (es ++ fs) x ≡ cover es x + cover fs x
unfolding cover
cover-append [] fs x = omega arith
cover-append (e ∷ es) fs x = omega (arith, cover-append es fs x)

pub cover-set :
    (es : List (ℕ × ℕ)) (i : ℕ) (e : ℕ × ℕ) (x : ℕ)
    → i < length es
    → cover (set es i e) x + within (get_or es i (0, 0)) x ≡ cover es x + within e x
unfolding cover
cover-set [] i e x h = absurd (omega arith)
cover-set (d ∷ es) zero e x h = omega arith
cover-set (d ∷ es) (suc i) e x h = omega (arith, cover-set es i e x (omega arith))

cover-last_or :
    (e : ℕ × ℕ) (es : List (ℕ × ℕ)) (x : ℕ)
    → within (last_or e es) x + cover (but_last (e ∷ es)) x ≡ cover (e ∷ es) x
unfolding cover last_or but_last
cover-last_or e [] x = omega arith
cover-last_or e (d ∷ es) x = omega (arith, cover-last_or d es x)

pub cover-swap_remove :
    (es : List (ℕ × ℕ)) (i : ℕ) (x : ℕ)
    → i < length es
    → cover (swap_remove es i) x + within (get_or es i (0, 0)) x ≡ cover es x
unfolding cover swap_remove
cover-swap_remove [] i x h = absurd (omega arith)
cover-swap_remove (d ∷ []) zero x h = omega arith
cover-swap_remove (d ∷ e ∷ es) zero x h = omega (arith, cover-last_or e es x)
cover-swap_remove (d ∷ []) (suc i) x h = absurd (omega arith)
cover-swap_remove (d ∷ e ∷ es) (suc i) x h =
    omega (arith, cover-swap_remove (e ∷ es) i x (omega arith))

-- A range splits at any point of it.
within-split : (off l m x : ℕ) → within (off, l + m) x ≡ within (off, l) x + within (off + l, m) x
within-split off l m x = ground arith

pub cover-carve :
    (es : List (ℕ × ℕ)) (i o len x : ℕ)
    → i < length es
    → (get_or es i (0, 0)).0 ≤ o
    → o + len ≤ (get_or es i (0, 0)).0 + (get_or es i (0, 0)).1
    → cover (carve es i o len) x + within (o, len) x ≡ cover es x
unfolding cover carve
cover-carve es i o len x h lo hi = ground (
  arith,
  cover-swap_remove es i x h,
  cover-set es i (o + len, (get_or es i (0, 0)).0 + (get_or es i (0, 0)).1 - (o + len)) x h,
  cover-set es i ((get_or es i (0, 0)).0, o - (get_or es i (0, 0)).0) x h,
  cover-append (set es i ((get_or es i (0, 0)).0, o - (get_or es i (0, 0)).0))
      ((o + len, (get_or es i (0, 0)).0 + (get_or es i (0, 0)).1 - (o + len)) ∷ []) x,
)

cover-insert_sorted :
    (e : ℕ × ℕ) (es : List (ℕ × ℕ)) (x : ℕ) → cover (insert_sorted e es) x ≡ within e x + cover es x
unfolding cover insert_sorted
cover-insert_sorted e [] x = refl
cover-insert_sorted e (d ∷ es) x = elim (Bool-cases (leb e.0 d.0)) [
  | inl h ↦ ground arith
  | inr h ↦ ground (arith, cover-insert_sorted e es x)
]

pub cover-sort_by_offset : (es : List (ℕ × ℕ)) (x : ℕ) → cover (sort_by_offset es) x ≡ cover es x
unfolding cover sort_by_offset
cover-sort_by_offset [] x = refl
cover-sort_by_offset (e ∷ es) x =
    omega (arith, cover-insert_sorted e (sort_by_offset es) x, cover-sort_by_offset es x)

cover-coalesce_from :
    (o l : ℕ) (es : List (ℕ × ℕ)) (x : ℕ)
    → cover (coalesce_from (o, l) es) x ≡ within (o, l) x + cover es x
unfolding cover coalesce_from
cover-coalesce_from o l [] x = refl
cover-coalesce_from o l ((p, m) ∷ es) x =
    ground (arith, cover-coalesce_from o (l + m) es x, cover-coalesce_from p m es x)

pub cover-coalesce : (es : List (ℕ × ℕ)) (x : ℕ) → cover (coalesce es) x ≡ cover es x
unfolding cover coalesce
cover-coalesce [] x = refl
cover-coalesce ((o, l) ∷ es) x = cover-coalesce_from o l es x

pub within-le-cover :
    (es : List (ℕ × ℕ)) (i x : ℕ) → i < length es → within (get_or es i (0, 0)) x ≤ cover es x
unfolding cover
within-le-cover [] i x h = absurd (omega arith)
within-le-cover (e ∷ es) zero x h = omega arith
within-le-cover (e ∷ es) (suc i) x h = omega (arith, within-le-cover es i x (omega arith))
