-- ===== src/Vfs/Dirent/Order.antt =====
-- The order of a listing.
use edge_libos.Vfs.Host.{DirEntry}
use edge_libos.Vfs.Dirent.{insert_entry, leb_bytes, sort_entries}
use edge_libos.Base.{
  All, All-mono, Bool-cases, List, [], and_true, arith, false, if-cases, inl, inr, ltb, ltb→lt,
  true, ℕ, ◌&&◌, ◌<◌, ◌==◌, ◌∙◌, ◌∷◌, ◌≡◌, ◌⊎◌,
}
use mathlib.Core.List.{Perm}
use mathlib.Core.List.Perm

-- The order of strings by their bytes.
abbrev pub NameLe : List ℕ → List ℕ → Type 0
NameLe [] t = Unit
NameLe (x ∷ s) [] = ⊥
NameLe (x ∷ s) (y ∷ t) = (x < y) ⊎ ((x ≡ y) × NameLe s t)

-- Each entry's name is not above those that follow.
abbrev pub IsSorted : List DirEntry → Type 0
IsSorted [] = Unit
IsSorted (e ∷ es) = All (λ f. NameLe e.name f.name) es × IsSorted es

leb_bytes-NameLe : (s t : List ℕ) → leb_bytes s t ≡ true → NameLe s t
leb_bytes-NameLe [] t h = tt
leb_bytes-NameLe (x ∷ s) [] h = absurd (ground arith)
leb_bytes-NameLe (x ∷ s) (y ∷ t) h = elim (Bool-cases (ltb x y)) [
  | inl less ↦ inl (ltb→lt x y less)
  | inr more ↦
      let both : ((x == y) && leb_bytes s t) ≡ true = ground (arith, more, h) in
      let (same, rest) = and_true (x == y) (leb_bytes s t) both in
      inr (ground arith, leb_bytes-NameLe s t rest)
]

not_leb_bytes-NameLe : (s t : List ℕ) → leb_bytes s t ≡ false → NameLe t s
not_leb_bytes-NameLe [] t h = absurd (ground arith)
not_leb_bytes-NameLe (x ∷ s) [] h = tt
not_leb_bytes-NameLe (x ∷ s) (y ∷ t) h = elim (Bool-cases (x == y)) [
  | inl same ↦
      let rest : leb_bytes s t ≡ false = ground (arith, same, h) in
      inr (ground arith, not_leb_bytes-NameLe s t rest)
  | inr differ ↦ inl (ground (arith, differ, h))
]

NameLe-trans : (s t u : List ℕ) → NameLe s t → NameLe t u → NameLe s u
NameLe-trans [] t u h g = tt
NameLe-trans (x ∷ s) [] u h g = absurd h
NameLe-trans (x ∷ s) (y ∷ t) [] h g = absurd g
NameLe-trans (x ∷ s) (y ∷ t) (z ∷ u) (inl h) (inl g) = inl (omega arith)
NameLe-trans (x ∷ s) (y ∷ t) (z ∷ u) (inl h) (inr g) = inl (let e = g.0 in omega arith)
NameLe-trans (x ∷ s) (y ∷ t) (z ∷ u) (inr h) (inl g) = inl (let e = h.0 in omega arith)
NameLe-trans (x ∷ s) (y ∷ t) (z ∷ u) (inr h) (inr g) = inr (h.0 ∙ g.0, NameLe-trans s t u h.1 g.1)

pub insert_entry-All :
    (P : DirEntry → Type 0) (e : DirEntry) (es : List DirEntry)
    → P e
    → All P es
    → All P (insert_entry e es)
insert_entry-All P e [] h hs = (h, tt)
insert_entry-All P e (f ∷ fs) h hs =
    if-cases (All P) (leb_bytes e.name f.name) _ _ (λ x. (h, hs))
      (λ x. (hs.0, insert_entry-All P e fs h hs.1))

insert_entry-IsSorted :
    (e : DirEntry) (es : List DirEntry) → IsSorted es → IsSorted (insert_entry e es)
insert_entry-IsSorted e [] h = (tt, tt)
insert_entry-IsSorted e (f ∷ fs) h =
    if-cases IsSorted (leb_bytes e.name f.name) _ _
      (λ x.
        let le = leb_bytes-NameLe e.name f.name x in
        (
          (
            le,
            All-mono (λ g. NameLe f.name g.name) (λ g. NameLe e.name g.name) fs
                (λ g. NameLe-trans e.name f.name g.name le) h.0,
          ),
          h,
        ))
      (λ x. (
        insert_entry-All (λ g. NameLe f.name g.name) e fs (not_leb_bytes-NameLe e.name f.name x)
            h.0,
        insert_entry-IsSorted e fs h.1,
      ))

pub sort_entries-IsSorted : (es : List DirEntry) → IsSorted (sort_entries es)
sort_entries-IsSorted [] = tt
sort_entries-IsSorted (e ∷ es) =
    insert_entry-IsSorted e (sort_entries es) (sort_entries-IsSorted es)

insert_entry-Perm : (e : DirEntry) (es : List DirEntry) → Perm (insert_entry e es) (e ∷ es)
insert_entry-Perm e [] = Perm.refl (e ∷ [])
insert_entry-Perm e (f ∷ fs) =
    if-cases (λ xs. Perm xs (e ∷ f ∷ fs)) (leb_bytes e.name f.name) _ _
      (λ x. Perm.refl (e ∷ f ∷ fs))
      (λ x. Perm.trans (Perm.cons f (insert_entry-Perm e fs)) (Perm.swap e f fs))

pub sort_entries-Perm : (es : List DirEntry) → Perm (sort_entries es) es
sort_entries-Perm [] = Perm.refl []
sort_entries-Perm (e ∷ es) =
    Perm.trans (insert_entry-Perm e (sort_entries es)) (Perm.cons e (sort_entries-Perm es))
