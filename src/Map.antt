-- ===== src/Map.antt =====
-- `HashMap` and `HashSet` keyed by u32 or i32, as association lists. The order of the entries is
-- the order in which a loop over the map meets them; no theorem depends on which order that is.
use edge_libos.Base.{
  ==_iff, Bool, Bool-cases, List, Option, [], arith, false, if◌then◌else◌, inl, inr, leb, length,
  none, refl, some, subst, suc, true, ℕ, ◌+◌, ◌<◌, ◌==◌, ◌↔◌, ◌∷◌, ◌≡◌, ◌≤◌,
}

module _ {ℓ} {V : Type ℓ} where
  abbrev pub get : ℕ → List (ℕ × V) → Option V
  get k [] = none
  get k ((j, v) ∷ m) = if j == k then some v else get k m

  abbrev pub contains_key : ℕ → List (ℕ × V) → Bool
  contains_key k [] = false
  contains_key k ((j, v) ∷ m) = if j == k then true else contains_key k m

  abbrev pub insert : ℕ → V → List (ℕ × V) → List (ℕ × V)
  insert k v [] = (k, v) ∷ []
  insert k v ((j, w) ∷ m) = if j == k then (k, v) ∷ m else (j, w) ∷ insert k v m

  abbrev pub remove : ℕ → List (ℕ × V) → List (ℕ × V)
  remove k [] = []
  remove k ((j, w) ∷ m) = let rest = remove k m in if j == k then rest else (j, w) ∷ rest

  -- Entries with a key of at least `k`.
  pub count_from : ℕ → List (ℕ × V) → ℕ
  count_from k [] = 0
  count_from k ((j, v) ∷ m) = (if leb k j then 1 else 0) + count_from k m

module _ {ℓ} {V : Type ℓ} where
  pub get-insert :
      (k j : ℕ) (v : V) (m : List (ℕ × V))
      → get j (insert k v m) ≡ (if k == j then some v else get j m)
  get-insert k j v [] = refl
  get-insert k j v ((i, w) ∷ m) = ground (arith, get-insert k j v m)

  pub get-remove :
      (k j : ℕ) (m : List (ℕ × V)) → get j (remove k m) ≡ (if k == j then none else get j m)
  get-remove k j [] = ground arith
  get-remove k j ((i, w) ∷ m) = ground (arith, get-remove k j m)

  pub contains_key-get : (k : ℕ) (m : List (ℕ × V)) → (contains_key k m ≡ false) ↔ (get k m ≡ none)
  contains_key-get k [] = (λ _. refl, λ _. refl)
  contains_key-get k ((j, v) ∷ m) =
      let ih = contains_key-get k m in (λ h. ground (arith, ih), λ h. ground (arith, ih))

  pub contains_key-insert :
      (k j : ℕ) (v : V) (m : List (ℕ × V))
      → contains_key j (insert k v m) ≡ (if k == j then true else contains_key j m)
  contains_key-insert k j v [] = refl
  contains_key-insert k j v ((i, w) ∷ m) = ground (arith, contains_key-insert k j v m)

  pub contains_key-remove :
      (k j : ℕ) (m : List (ℕ × V))
      → contains_key j (remove k m) ≡ (if k == j then false else contains_key j m)
  contains_key-remove k j [] = ground arith
  contains_key-remove k j ((i, w) ∷ m) = ground (arith, contains_key-remove k j m)

  pub count_from-suc :
      (k : ℕ) (m : List (ℕ × V)) → contains_key k m ≡ true → count_from (suc k) m < count_from k m
  unfolding count_from
  count_from-suc k [] h = cc
  count_from-suc k ((j, v) ∷ m) h = ground (arith, count_from-suc k m, count_from-suc_le k m)
    where
      count_from-suc_le : (k : ℕ) (m : List (ℕ × V)) → count_from (suc k) m ≤ count_from k m
      count_from-suc_le k [] = omega arith
      count_from-suc_le k ((j, v) ∷ m) = ground (arith, count_from-suc_le k m)

  pub count_from-length : (k : ℕ) (m : List (ℕ × V)) → count_from k m ≤ length m
  unfolding count_from
  count_from-length k [] = omega arith
  count_from-length k ((j, v) ∷ m) = ground (arith, count_from-length k m)

-- A set of numbers.
abbrev pub member : ℕ → List ℕ → Bool
member k [] = false
member k (j ∷ s) = if j == k then true else member k s

abbrev pub add : ℕ → List ℕ → List ℕ
add k s = if member k s then s else k ∷ s

abbrev pub delete : ℕ → List ℕ → List ℕ
delete k [] = []
delete k (j ∷ s) = let rest = delete k s in if j == k then rest else j ∷ rest

pub member-add : (k j : ℕ) (s : List ℕ) → member j (add k s) ≡ (if k == j then true else member j s)
member-add k j s = elim (Bool-cases (member k s)) [
  | inl old ↦ rw old (elim (Bool-cases (k == j)) [
    | inl same ↦ rw same (subst (λ n. member n s ≡ true) ((==_iff k j).0 same) old)
    | inr other ↦ rw other refl
  ])
  | inr new ↦ rw new refl
]

pub member-delete :
    (k j : ℕ) (s : List ℕ) → member j (delete k s) ≡ (if k == j then false else member j s)
member-delete k j [] = ground arith
member-delete k j (i ∷ s) = ground (arith, member-delete k j s)
