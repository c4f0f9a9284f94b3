-- ===== src/Base/Result.antt =====
-- `Result<T, i64>`, whose errors are negated error numbers.
use mathlib.Core.Bool.{true}
use mathlib.Core.Path.{◌≡◌, refl}
use mathlib.Core.Logic.{◌⊎◌, inl, inr}
use edge_libos.Base.Int.{is_neg, ℤ}

pub data Result {ℓ} (A : Type ℓ) : Type ℓ where
  ok : A → Result A
  err : ℤ → Result A

pub Result-cases {ℓ} :
    {A : Type ℓ} (r : Result A) → ((a : A) × (r ≡ ok a)) ⊎ ((e : ℤ) × (r ≡ err e))
Result-cases (ok a) = inl (a, refl)
Result-cases (err e) = inr (e, refl)

-- The `?` operator and `Result::and_then`.
abbrev pub and_then {ℓ κ} : {A : Type ℓ} {B : Type κ} → Result A → (A → Result B) → Result B
and_then (ok a) f = f a
and_then (err e) f = err e

-- What holds of the value, and what of the error.
abbrev pub Outcome {ℓ} : {A : Type ℓ} → (A → Type 0) → (ℤ → Type 0) → Result A → Type 0
Outcome P Q (ok a) = P a
Outcome P Q (err e) = Q e

-- An error number, negated.
abbrev pub IsNegative : ℤ → Type 0
IsNegative e = is_neg e ≡ true

abbrev pub map_ok {ℓ κ} : {A : Type ℓ} {B : Type κ} → (A → B) → Result A → Result B
map_ok f (ok a) = ok (f a)
map_ok f (err e) = err e

pub Outcome-map_ok {ℓ κ} :
    {A : Type ℓ} {B : Type κ} (P : A → Type 0) (R : B → Type 0) (Q : ℤ → Type 0) (r : Result A)
    (f : A → B)
    → Outcome P Q r
    → ((a : A) → P a → R (f a))
    → Outcome R Q (map_ok f r)
Outcome-map_ok P R Q (ok a) f h g = g a h
Outcome-map_ok P R Q (err e) f h g = h

pub Outcome-and_then {ℓ κ} :
    {A : Type ℓ} {B : Type κ} (P : A → Type 0) (R : B → Type 0) (Q : ℤ → Type 0) (r : Result A)
    (f : A → Result B)
    → Outcome P Q r
    → ((a : A) → P a → Outcome R Q (f a))
    → Outcome R Q (and_then r f)
Outcome-and_then P R Q (ok a) f h g = g a h
Outcome-and_then P R Q (err e) f h g = h
