-- ===== src/Paths/Print.antt =====
-- Printing a path and parsing it again.
use edge_libos.Paths.{
  Component, IsTail, NoSlash, body, component_of, components, cons_some, cur_dir, join_names,
  name_of, normal, parent_dir, root_dir, segments, slash, to_string,
}
use edge_libos.Base.{All, List, [], ap, refl, some, ℕ, ◌++◌, ◌∙◌, ◌∷◌, ◌≡◌}

segments-piece : (s t : List ℕ) → NoSlash s → segments (s ++ slash ∷ t) ≡ s ∷ segments t
unfolding segments
segments-piece [] t h = refl
segments-piece (c ∷ s) t h = rw (h.0, segments-piece s t h.1) refl

segments-last : (s : List ℕ) → NoSlash s → segments s ≡ s ∷ []
unfolding segments
segments-last [] h = refl
segments-last (c ∷ s) h = rw (h.0, segments-last s h.1) refl

name_of-NoSlash : (c : Component) → IsTail c → NoSlash (name_of c)
name_of-NoSlash root_dir h = absurd h
name_of-NoSlash cur_dir h = absurd h
name_of-NoSlash parent_dir h = (refl, (refl, tt))
name_of-NoSlash (normal s) h = h.0

component_of-name_of : (c : Component) → IsTail c → component_of (name_of c) ≡ some c
component_of-name_of root_dir h = absurd h
component_of-name_of cur_dir h = absurd h
component_of-name_of parent_dir h = refl
component_of-name_of (normal s) h = h.1

-- The pieces of printed names are the names.
body-join_names : (cs : List Component) → All IsTail cs → body (segments (join_names cs)) ≡ cs
unfolding segments
body-join_names [] h = refl
body-join_names (c ∷ []) h =
    ap body (segments-last (name_of c) (name_of-NoSlash c h.0))
    ∙ ap (λ o. cons_some o []) (component_of-name_of c h.0)
body-join_names (c ∷ d ∷ cs) h =
    ap body (segments-piece (name_of c) (join_names (d ∷ cs)) (name_of-NoSlash c h.0))
    ∙ ap (λ o. cons_some o (body (segments (join_names (d ∷ cs))))) (component_of-name_of c h.0)
    ∙ ap (◌∷◌ c) (body-join_names (d ∷ cs) h.1)

-- The components of the text of an absolute path are the path.
pub components-to_string :
    (cs : List Component) → All IsTail cs → components (to_string (root_dir ∷ cs)) ≡ root_dir ∷ cs
unfolding components segments
components-to_string cs h = ap (◌∷◌ root_dir) (body-join_names cs h)
