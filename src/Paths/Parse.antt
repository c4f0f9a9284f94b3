-- ===== src/Paths/Parse.antt =====
-- What the components of a path string are.
use edge_libos.Paths.{
  Component, IsTail, NoSlash, body, component_of, components, cons_some, cur_dir, dot, eq_bytes,
  extend, has_root, leading, normal, parent_dir, root_dir, segments, slash, without_dot,
}
use edge_libos.Base.{
  All, Bool, Bool-cases, List, Option, [], false, if◌then◌else◌, inl, inr, none, refl, some, true,
  ℕ, ◌==◌, ◌∷◌, ◌≡◌,
}

extend-NoSlash :
    (c : ℕ) (ss : List (List ℕ)) → (c == slash) ≡ false → All NoSlash ss → All NoSlash (extend c ss)
extend-NoSlash c [] h hs = ((h, tt), tt)
extend-NoSlash c (s ∷ ss) h hs = ((h, hs.0), hs.1)

segments-NoSlash : (s : List ℕ) → All NoSlash (segments s)
unfolding segments
segments-NoSlash [] = (tt, tt)
segments-NoSlash (c ∷ cs) = elim (Bool-cases (c == slash)) [
  | inl e ↦ rw e (tt, segments-NoSlash cs)
  | inr e ↦ rw e (extend-NoSlash c (segments cs) e (segments-NoSlash cs))
]

-- The component of a piece is `..` or a name.
pub AllTail : Option Component → Type 0
AllTail none = Unit
AllTail (some c) = IsTail c

component_of-IsTail : (s : List ℕ) → NoSlash s → AllTail (component_of s)
unfolding AllTail
component_of-IsTail s h = elim (Bool-cases (eq_bytes s [])) [
  | inl e ↦ rw e tt
  | inr e ↦ elim (Bool-cases (eq_bytes s (dot ∷ []))) [
    | inl f ↦ rw (e, f) tt
    | inr f ↦ elim (Bool-cases (eq_bytes s (dot ∷ dot ∷ []))) [
      | inl g ↦ rw (e, f, g) tt
      | inr g ↦
          let name : component_of s ≡ some (normal s) = rw (e, f, g) refl in rw (e, f, g) (h, name)
    ]
  ]
]

cons_some-IsTail :
    (o : Option Component) (cs : List Component)
    → AllTail o
    → All IsTail cs
    → All IsTail (cons_some o cs)
unfolding AllTail
cons_some-IsTail none cs h hs = hs
cons_some-IsTail (some c) cs h hs = (h, hs)

pub body-IsTail : (ss : List (List ℕ)) → All NoSlash ss → All IsTail (body ss)
body-IsTail [] h = tt
body-IsTail (s ∷ ss) h =
    cons_some-IsTail (component_of s) (body ss) (component_of-IsTail s h.0) (body-IsTail ss h.1)

-- The components of a path with a root: the root, then `..`s and names.
pub components-absolute :
    (s : List ℕ)
    → has_root s ≡ true
    → (cs : List Component) × (components s ≡ root_dir ∷ cs) × All IsTail cs
unfolding components
components-absolute s h =
    (body (segments s), rw h refl, body-IsTail (segments s) (segments-NoSlash s))

leading-IsTail : (ss : List (List ℕ)) → All NoSlash ss → All IsTail (without_dot (leading ss))
leading-IsTail [] h = tt
leading-IsTail (s ∷ ss) h =
    pick (eq_bytes s (dot ∷ [])) (body-IsTail ss h.1)
      (dotless (body (s ∷ ss)) (body-IsTail (s ∷ ss) h))
  where
    pick :
        (b : Bool)
        → All IsTail (body ss)
        → All IsTail (without_dot (body (s ∷ ss)))
        → All IsTail (without_dot (if b then cur_dir ∷ body ss else body (s ∷ ss)))
    pick true x y = x
    pick false x y = y

    dotless : (cs : List Component) → All IsTail cs → All IsTail (without_dot cs)
    dotless [] h = tt
    dotless (root_dir ∷ cs) h = absurd h.0
    dotless (cur_dir ∷ cs) h = absurd h.0
    dotless (parent_dir ∷ cs) h = h
    dotless (normal s ∷ cs) h = h

-- The components of a path without a root, behind a base.
pub components-relative :
    (s : List ℕ) → has_root s ≡ false → All IsTail (without_dot (components s))
unfolding components
components-relative s h = rw h (leading-IsTail (segments s) (segments-NoSlash s))
