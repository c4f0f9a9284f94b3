-- ===== src/Mm/Arena.antt =====
-- A 256 KiB arena: src/mm/arena.rs. Offsets in the free list are relative to `base`.
-- `align` is a power of two in the code, so that `x & !(align - 1)` is `x / align * align`.
pub mod Cover
pub mod Fit
pub mod Alloc
pub mod Free
mod Tests
use edge_libos.Base.{
  Bool, List, Option, [], false, get_or, if◌then◌else◌, leb, ltb, none, set, some, suc, true, zero,
  ℕ, ◌%◌, ◌&&◌, ◌*◌, ◌++◌, ◌+◌, ◌-◌, ◌/◌, ◌==◌, ◌^◌, ◌∷◌,
}

abbrev pub arena_size : ℕ
arena_size = 262144

pub record Arena : Type 0 where
  pub base : ℕ
  pub used : ℕ
  pub free_list : List (ℕ × ℕ)

pub new : ℕ → Arena
new base = record { base = base; used = 0; free_list = [] }

-- `(x + align_mask) & !align_mask`.
unfoldable pub align_up : ℕ → ℕ → ℕ
align_up x align = (x + (align - 1)) / align * align

-- The best hole so far: its index, the aligned offset in it, and the bytes it would waste.
abbrev pub Best : Type 0
Best = Option (ℕ × ℕ × ℕ)

pub better : Best → ℕ → ℕ → ℕ → Best
better none i off waste = some (i, off, waste)
better (some (j, o, w)) i off waste = if ltb waste w then some (i, off, waste) else some (j, o, w)

-- One round of the search, at the hole `(off, hlen)` of index `i`.
pub consider : ℕ → ℕ → ℕ → ℕ × ℕ → Best → Best
unfolding better
consider len align i (off, hlen) best =
    let aligned_off = align_up off align in
    let slack = aligned_off - off in
    if ltb hlen (slack + len) then best else better best i aligned_off (hlen - len - slack)

unfoldable pub best_fit : ℕ → ℕ → ℕ → List (ℕ × ℕ) → Best → Best
best_fit len align i [] best = best
best_fit len align i (hole ∷ holes) best =
    best_fit len align (suc i) holes (consider len align i hole best)

-- `Vec::swap_remove`: the last entry takes the place of the removed one.
pub last_or {ℓ} : {A : Type ℓ} → A → List A → A
last_or a [] = a
last_or a (x ∷ xs) = last_or x xs

pub but_last {ℓ} : {A : Type ℓ} → List A → List A
but_last [] = []
but_last (x ∷ []) = []
but_last (x ∷ y ∷ xs) = x ∷ but_last (y ∷ xs)

pub swap_remove {ℓ} : {A : Type ℓ} → List A → ℕ → List A
swap_remove [] i = []
swap_remove (x ∷ []) zero = []
swap_remove (x ∷ y ∷ xs) zero = last_or y xs ∷ but_last (y ∷ xs)
swap_remove (x ∷ xs) (suc i) = x ∷ swap_remove xs i

-- Take `[alloc_off, alloc_off + len)` out of the hole of index `i`.
pub carve : List (ℕ × ℕ) → ℕ → ℕ → ℕ → List (ℕ × ℕ)
carve holes i alloc_off len =
    let (hole_off, hole_len) = get_or holes i (0, 0) in
    let alloc_end = alloc_off + len in
    let hole_end = hole_off + hole_len in
    if (alloc_off == hole_off) && (alloc_end == hole_end)
    then swap_remove holes i
    else if alloc_off == hole_off
    then set holes i (alloc_end, hole_end - alloc_end)
    else if alloc_end == hole_end
    then set holes i (hole_off, alloc_off - hole_off)
    else set holes i (hole_off, alloc_off - hole_off) ++ (alloc_end, hole_end - alloc_end) ∷ []

-- Move the bump pointer.
pub bump : Arena → ℕ → ℕ → Arena × Option ℕ
bump a len align =
    let bump_aligned = align_up a.used align in
    let new_used = bump_aligned + len in
    if ltb arena_size new_used
    then (a, none)
    else (record a { used = new_used }, some (a.base + bump_aligned))

pub alloc_in : Arena → ℕ → ℕ → Best → Arena × Option ℕ
unfolding bump carve
alloc_in a len align none = bump a len align
alloc_in a len align (some (i, alloc_off, _)) =
    (record a { free_list = carve a.free_list i alloc_off len }, some (a.base + alloc_off))

unfoldable pub alloc : Arena → ℕ → ℕ → Arena × Option ℕ
unfolding alloc_in best_fit consider
alloc a len align = alloc_in a len align (best_fit len align 0 a.free_list none)

-- `sort_by_key` on the offset, which is stable.
pub insert_sorted : ℕ × ℕ → List (ℕ × ℕ) → List (ℕ × ℕ)
insert_sorted e [] = e ∷ []
insert_sorted e (x ∷ xs) = if leb e.0 x.0 then e ∷ x ∷ xs else x ∷ insert_sorted e xs

pub sort_by_offset : List (ℕ × ℕ) → List (ℕ × ℕ)
unfolding insert_sorted
sort_by_offset [] = []
sort_by_offset (x ∷ xs) = insert_sorted x (sort_by_offset xs)

-- The merging loop, with the entry at index `i` in hand and the entries behind it.
pub coalesce_from : ℕ × ℕ → List (ℕ × ℕ) → List (ℕ × ℕ)
coalesce_from (a_off, a_len) [] = (a_off, a_len) ∷ []
coalesce_from (a_off, a_len) ((b_off, b_len) ∷ rest) =
    let merged = coalesce_from (a_off, a_len + b_len) rest in
    let kept = (a_off, a_len) ∷ coalesce_from (b_off, b_len) rest in
    if a_off + a_len == b_off then merged else kept

pub coalesce : List (ℕ × ℕ) → List (ℕ × ℕ)
unfolding coalesce_from
coalesce [] = []
coalesce (x ∷ xs) = coalesce_from x xs

-- `off` is absolute. Both numbers are below 2 ^ 64 together, so `checked_add` does not fail.
pub free : Arena → ℕ → ℕ → Arena × Bool
unfolding coalesce sort_by_offset
free a off len =
    if len == 0
    then (a, false)
    else if ltb off a.base
    then (a, false)
    else if ltb arena_size (off - a.base + len)
    then (a, false)
    else (
      record a { free_list = coalesce (sort_by_offset (a.free_list ++ (off - a.base, len) ∷ [])) },
      true,
    )

-- `off.checked_add(len as u32)` with the cast, then the two bounds.
unfoldable pub contains : Arena → ℕ → ℕ → Bool
contains a off len =
    let len32 = len % 2 ^ 32 in
    if leb (2 ^ 32) (off + len32)
    then false
    else leb a.base off && leb (off + len32) ((a.base + arena_size) % 2 ^ 32)

pub sum_len : List (ℕ × ℕ) → ℕ
sum_len [] = 0
sum_len ((_, l) ∷ xs) = l + sum_len xs

pub available : Arena → ℕ
unfolding sum_len
available a = arena_size - a.used + sum_len a.free_list
