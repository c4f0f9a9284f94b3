-- ===== src/Snapshot/Fields/Actions.antt =====
-- The signal actions survive a snapshot.
use edge_libos.Sys.Process.Reap.{IsMap}
use edge_libos.Snapshot.Fields.{before, from_signals, insert_action, insert_each, rebuilt_signals}
use edge_libos.Kernel.{SigAction, SignalState}
use edge_libos.Map.{contains_key, contains_key-get, get, get-insert, insert}
use edge_libos.Base.{
  ==_iff, All, Bool-cases, List, Option, [], ap, arith, false, if-cases, if◌then◌else◌, inl, inr,
  none, refl, some, subst, true, ℕ, ◌==◌, ◌∙◌, ◌∷◌, ◌≡◌,
}

get-insert_action :
    (k j : ℕ) (a : SigAction) (m : List (ℕ × SigAction))
    → get j (insert_action k a m) ≡ (if k == j then some a else get j m)
unfolding insert_action
get-insert_action k j a [] = refl
get-insert_action k j a ((i, b) ∷ m) = ground (arith, get-insert_action k j a m)

contains_key-insert_action :
    (k j : ℕ) (a : SigAction) (m : List (ℕ × SigAction))
    → contains_key j (insert_action k a m) ≡ (if k == j then true else contains_key j m)
unfolding insert_action
contains_key-insert_action k j a [] = refl
contains_key-insert_action k j a ((i, b) ∷ m) = ground (arith, contains_key-insert_action k j a m)

insert_action-IsMap :
    (k : ℕ) (a : SigAction) (m : List (ℕ × SigAction))
    → contains_key k m ≡ false
    → IsMap m
    → IsMap (insert_action k a m)
unfolding insert_action
insert_action-IsMap k a [] h u = (refl, tt)
insert_action-IsMap k a ((j, b) ∷ m) h u = elim (Bool-cases (j == k)) [
  | inl same ↦ absurd (ground (arith, same, h))
  | inr differ ↦
      let away : contains_key k m ≡ false = ground (arith, differ, h) in
      rw differ (
        if-cases IsMap (before k j) _ _ (λ e. (h, u))
          (λ e. (
            ground (arith, contains_key-insert_action k j a m, u.0, differ),
            insert_action-IsMap k a m away u.1,
          )))
]

-- A number that no action of `s` has, or that has no action in `m`.
abbrev Apart : List (ℕ × SigAction) → List (ℕ × SigAction) → Type 0
Apart s m = All (λ e. contains_key e.0 m ≡ false) s

Apart-insert_action :
    (k : ℕ) (a : SigAction) (s m : List (ℕ × SigAction))
    → contains_key k s ≡ false
    → Apart s m
    → Apart s (insert_action k a m)
Apart-insert_action k a [] m h ap = tt
Apart-insert_action k a ((j, b) ∷ s) m h d = (
  ground (arith, contains_key-insert_action k j a m, h, d.0),
  Apart-insert_action k a s m (ground (arith, h)) d.1,
)

insert_each-IsMap :
    (s m : List (ℕ × SigAction))
    → IsMap s
    → IsMap m
    → Apart s m
    → IsMap (insert_each insert_action s m)
insert_each-IsMap [] m u v d = v
insert_each-IsMap ((k, a) ∷ s) m u v d =
    insert_each-IsMap s (insert_action k a m) u.1 (insert_action-IsMap k a m d.0 v)
      (Apart-insert_action k a s m u.0 d.1)

abbrev first_of : Option SigAction → Option SigAction → Option SigAction
first_of (some a) o = some a
first_of none o = o

first_of-none : (o : Option SigAction) → first_of o none ≡ o
first_of-none none = refl
first_of-none (some a) = refl

-- What a loop of insertions makes of a map.
get-insert_each :
    (into : ℕ → SigAction → List (ℕ × SigAction) → List (ℕ × SigAction))
    → ((k j : ℕ) (a : SigAction) (m : List (ℕ × SigAction))
        → get j (into k a m) ≡ (if k == j then some a else get j m))
    → (j : ℕ) (s m : List (ℕ × SigAction)) → IsMap s
    → get j (insert_each into s m) ≡ first_of (get j s) (get j m)
get-insert_each into law j [] m u = refl
get-insert_each into law j ((k, a) ∷ s) m u =
    get-insert_each into law j s (into k a m) u.1 ∙ elim (Bool-cases (k == j)) [
      | inl same ↦
          let gone : get j s ≡ none =
            subst (λ x. get x s ≡ none) ((==_iff k j).0 same) ((contains_key-get k s).0 u.0) in
          rw (gone, law k j a m, same) refl
      | inr differ ↦ rw (law k j a m, differ) refl
    ]

-- Each number has the action again that it had.
pub get-rebuilt_signals :
    (s : SignalState) (j : ℕ)
    → IsMap s.actions
    → get j (rebuilt_signals (from_signals s)).actions ≡ get j s.actions
unfolding rebuilt_signals from_signals
get-rebuilt_signals s j u =
    let frozen = insert_each insert_action s.actions [] in
    get-insert_each insert get-insert j frozen []
      (insert_each-IsMap s.actions [] u tt (nothing s.actions))
    ∙ first_of-none (get j frozen)
    ∙ get-insert_each insert_action get-insert_action j s.actions [] u
    ∙ first_of-none (get j s.actions)
  where
    nothing : (s : List (ℕ × SigAction)) → Apart s []
    nothing [] = tt
    nothing (e ∷ s) = (refl, nothing s)
