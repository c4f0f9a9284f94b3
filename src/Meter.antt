-- ===== src/Meter.antt =====
-- The execution meter: src/meter.rs. Milliseconds and fuel are u64.
use edge_libos.Base.{
  Bool, List, [], arith, false, if◌then◌else◌, ltb, min, true, ℕ, ◌&&◌, ◌*◌, ◌+◌, ◌-◌, ◌/◌, ◌<◌,
  ◌==◌, ◌^◌, ◌||◌, ◌∷◌, ◌≡◌, ◌≤◌,
}

-- `FUEL_PER_MS`.
abbrev pub fuel_per_ms : ℕ
fuel_per_ms = 1000000

abbrev pub u64_max : ℕ
u64_max = 2 ^ 64 - 1

-- `ms_to_fuel`.
unfoldable pub ms_to_fuel : ℕ → ℕ
ms_to_fuel ms = if ms == u64_max then u64_max else min (ms * fuel_per_ms) u64_max

-- `fuel_to_ms`.
unfoldable pub fuel_to_ms : ℕ → ℕ
fuel_to_ms fuel = if fuel == u64_max then u64_max else fuel / fuel_per_ms

-- Converting a budget to fuel and back gives the budget if its fuel is below 2^64 - 1, and the
-- unbounded budget if not; the fuel is a u64.
pub fuel_to_ms-ms_to_fuel :
    (ms : ℕ)
    → ms ≤ u64_max
    → (ms_to_fuel ms ≤ u64_max)
      × (fuel_to_ms (ms_to_fuel ms) ≡ (if ltb (ms * fuel_per_ms) u64_max then ms else u64_max))
unfolding ms_to_fuel fuel_to_ms
fuel_to_ms-ms_to_fuel ms h = (ground arith, ground arith)

-- Fuel that was given for a budget never measures as more than it: of what is spent, at most the
-- budget is reported, and what is reported is at most a millisecond short.
pub fuel_to_ms-bounds :
    (fuel : ℕ)
    → fuel < u64_max
    → (fuel_to_ms fuel * fuel_per_ms ≤ fuel) × (fuel < fuel_to_ms fuel * fuel_per_ms + fuel_per_ms)
unfolding fuel_to_ms
fuel_to_ms-bounds fuel h = (ground arith, ground arith)

-- Whether `text` starts with `part`, and whether it contains it.
abbrev pub starts : List ℕ → List ℕ → Bool
starts [] text = true
starts (p ∷ part) [] = false
starts (p ∷ part) (t ∷ text) = (p == t) && starts part text

abbrev pub contains : List ℕ → List ℕ → Bool
contains part [] = starts part []
contains part (t ∷ text) = let rest = contains part text in starts part (t ∷ text) || rest

-- A wasmtime error: whether it is the trap `OutOfFuel`, its text, and those of its sources.
pub record TrapError : Type 0 where
  pub is_out_of_fuel_trap : Bool
  pub text : List ℕ
  pub sources : List (List ℕ)

-- "all fuel consumed by WebAssembly".
abbrev pub fuel_text : List ℕ
fuel_text =
    97 ∷ 108 ∷ 108 ∷ 32 ∷ 102 ∷ 117 ∷ 101 ∷ 108 ∷ 32 ∷ 99 ∷ 111 ∷ 110 ∷ 115 ∷ 117 ∷ 109 ∷ 101 ∷ 100
    ∷ 32 ∷ 98 ∷ 121 ∷ 32 ∷ 87 ∷ 101 ∷ 98 ∷ 65 ∷ 115 ∷ 115 ∷ 101 ∷ 109 ∷ 98 ∷ 108 ∷ 121 ∷ []

abbrev pub any_contains : List ℕ → List (List ℕ) → Bool
any_contains part [] = false
any_contains part (s ∷ ss) = let rest = any_contains part ss in contains part s || rest

-- `is_out_of_fuel`.
unfoldable pub is_out_of_fuel : TrapError → Bool
is_out_of_fuel e =
    e.is_out_of_fuel_trap || (contains fuel_text e.text || any_contains fuel_text e.sources)
