-- ===== src/Paths.antt =====
-- Paths as src/vfs.rs uses std::path: the components of a path string, and a path buffer as the
-- list of its components, which is what std compares, joins, pops and iterates.
pub mod Parse
pub mod Print
use edge_libos.Base.{
  All, Bool, List, Option, [], false, if◌then◌else◌, none, some, true, ℕ, ◌&&◌, ◌++◌, ◌==◌, ◌∷◌,
  ◌≡◌,
}

pub data Component : Type 0 where
  root_dir cur_dir parent_dir : Component
  normal : List ℕ → Component

abbrev pub PathBuf : Type 0
PathBuf = List Component

-- '/' and '.'.
abbrev pub slash : ℕ
slash = 47

abbrev pub dot : ℕ
dot = 46

abbrev pub eq_bytes : List ℕ → List ℕ → Bool
eq_bytes [] [] = true
eq_bytes [] (y ∷ ys) = false
eq_bytes (x ∷ xs) [] = false
eq_bytes (x ∷ xs) (y ∷ ys) = (x == y) && eq_bytes xs ys

abbrev pub eq_component : Component → Component → Bool
eq_component root_dir root_dir = true
eq_component cur_dir cur_dir = true
eq_component parent_dir parent_dir = true
eq_component (normal s) (normal t) = eq_bytes s t
eq_component _ _ = false

-- The pieces of a string between slashes.
abbrev pub extend : ℕ → List (List ℕ) → List (List ℕ)
extend c [] = (c ∷ []) ∷ []
extend c (s ∷ ss) = (c ∷ s) ∷ ss

unfoldable pub segments : List ℕ → List (List ℕ)
segments [] = [] ∷ []
segments (c ∷ cs) = let rest = segments cs in if c == slash then [] ∷ rest else extend c rest

-- A piece is skipped if it is empty or `.`.
abbrev pub component_of : List ℕ → Option Component
component_of s =
    if eq_bytes s []
    then none
    else if eq_bytes s (dot ∷ [])
    then none
    else if eq_bytes s (dot ∷ dot ∷ [])
    then some parent_dir
    else some (normal s)

abbrev pub cons_some {ℓ} : {A : Type ℓ} → Option A → List A → List A
cons_some none xs = xs
cons_some (some x) xs = x ∷ xs

abbrev pub body : List (List ℕ) → List Component
body [] = []
body (s ∷ ss) = cons_some (component_of s) (body ss)

-- A path without a root keeps a `.` in front.
abbrev pub leading : List (List ℕ) → List Component
leading [] = []
leading (s ∷ ss) = if eq_bytes s (dot ∷ []) then cur_dir ∷ body ss else body (s ∷ ss)

-- `str::starts_with('/')`, which is `Path::has_root`.
abbrev pub has_root : List ℕ → Bool
has_root [] = false
has_root (c ∷ cs) = c == slash

-- `Path::components`.
unfoldable pub components : List ℕ → PathBuf
components s = if has_root s then root_dir ∷ body (segments s) else leading (segments s)

-- `Path::starts_with`: component by component.
abbrev pub starts_with : PathBuf → PathBuf → Bool
starts_with p [] = true
starts_with [] (c ∷ cs) = false
starts_with (d ∷ p) (c ∷ cs) = eq_component d c && starts_with p cs

abbrev pub is_root : Component → Bool
is_root root_dir = true
is_root _ = false

-- `Path::is_absolute`.
abbrev pub is_absolute : PathBuf → Bool
is_absolute [] = false
is_absolute (c ∷ cs) = is_root c

-- `Path::join` and `PathBuf::push`: an absolute path replaces, and a `.` in front is skipped
-- behind something.
abbrev pub without_dot : PathBuf → PathBuf
without_dot [] = []
without_dot (cur_dir ∷ p) = p
without_dot (c ∷ p) = c ∷ p

abbrev pub join : PathBuf → PathBuf → PathBuf
join [] p = p
join (b ∷ base) p = if is_absolute p then p else (b ∷ base) ++ without_dot p

-- `PathBuf::pop`: nothing to pop in an empty path and at the root.
abbrev pub pop : PathBuf → Option PathBuf
pop [] = none
pop (c ∷ []) = if is_root c then none else some []
pop (c ∷ d ∷ p) = elim (pop (d ∷ p)) [ none ↦ none | some q ↦ some (c ∷ q) ]

-- `str::trim_start_matches('/')`.
abbrev pub trim_start : List ℕ → List ℕ
trim_start [] = []
trim_start (c ∷ cs) = let rest = trim_start cs in if c == slash then rest else c ∷ cs

abbrev pub name_of : Component → List ℕ
name_of root_dir = slash ∷ []
name_of cur_dir = dot ∷ []
name_of parent_dir = dot ∷ dot ∷ []
name_of (normal s) = s

abbrev pub join_names : List Component → List ℕ
join_names [] = []
join_names (c ∷ []) = name_of c
join_names (c ∷ d ∷ cs) = name_of c ++ slash ∷ join_names (d ∷ cs)

-- The bytes of a path: `as_os_str`.
abbrev pub to_string : PathBuf → List ℕ
to_string [] = []
to_string (root_dir ∷ cs) = slash ∷ join_names cs
to_string (c ∷ cs) = join_names (c ∷ cs)

-- A name that a component may have: it is not empty, `.` or `..`, and has no slash.
abbrev pub NoSlash : List ℕ → Type 0
NoSlash s = All (λ c. (c == slash) ≡ false) s

abbrev pub IsName : List ℕ → Type 0
IsName s = NoSlash s × (component_of s ≡ some (normal s))

abbrev pub IsNormal : Component → Type 0
IsNormal (normal s) = IsName s
IsNormal _ = ⊥

-- A component behind the first of a parsed path.
abbrev pub IsTail : Component → Type 0
IsTail root_dir = ⊥
IsTail cur_dir = ⊥
IsTail parent_dir = Unit
IsTail (normal s) = IsName s

-- An absolute path without `.` and `..`.
abbrev pub IsCanonical : PathBuf → Type 0
IsCanonical [] = ⊥
IsCanonical (c ∷ p) = (c ≡ root_dir) × All IsNormal p
