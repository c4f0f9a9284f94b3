-- ===== src/Snapshot/Fields.antt =====
-- The conversions of the kernel's fields to and from a snapshot: VfsSnapshot, ClockStateSnapshot and
-- SignalStateSnapshot of src/snapshot.rs, and the rebuilding of the signal actions.
pub mod Actions
use edge_libos.Paths.{PathBuf}
use edge_libos.Vfs.{Vfs}
use edge_libos.Kernel.{SigAction, SignalState}
use edge_libos.Map.{insert}
use edge_libos.Base.{Bool, List, Option, [], if◌then◌else◌, ltb, ℕ, ◌%◌, ◌+◌, ◌==◌, ◌^◌, ◌∷◌}

-- `VfsSnapshot`, and the `Vfs` that is rebuilt from it.
pub record VfsSnapshot : Type 0 where
  pub root : PathBuf
  pub cwd : PathBuf

unfoldable pub from_vfs : Vfs → VfsSnapshot
from_vfs v = record { root = v.root; cwd = v.cwd }

unfoldable pub rebuilt_vfs : VfsSnapshot → Vfs
rebuilt_vfs s = record { root = s.root; cwd = s.cwd }

-- `ClockStateSnapshot`, from the one field of `ClockState`.
pub record ClockStateSnapshot : Type 0 where
  pub boot_monotonic_ns : ℕ

abbrev pub from_clock : (boot_monotonic_ns : ℕ) → ClockStateSnapshot
from_clock n = record { boot_monotonic_ns = n }

-- `BTreeMap::insert` on the actions: their numbers are patterns of an i32, in the order of the i32s.
abbrev pub before : ℕ → ℕ → Bool
before k j = ltb ((k + 2 ^ 31) % 2 ^ 32) ((j + 2 ^ 31) % 2 ^ 32)

unfoldable pub insert_action : ℕ → SigAction → List (ℕ × SigAction) → List (ℕ × SigAction)
insert_action k a [] = (k, a) ∷ []
insert_action k a ((j, b) ∷ m) =
    let rest = insert_action k a m in
    if j == k then (k, a) ∷ m else if before k j then (k, a) ∷ (j, b) ∷ m else (j, b) ∷ rest

-- `SignalStateSnapshot`.
pub record SignalStateSnapshot : Type 0 where
  pub actions : List (ℕ × SigAction)
  pub mask : ℕ
  pub alt_stack : Option (List ℕ)

-- The loops that insert each action of one map into another.
abbrev pub insert_each :
    (ℕ → SigAction → List (ℕ × SigAction) → List (ℕ × SigAction))
    → List (ℕ × SigAction)
    → List (ℕ × SigAction)
    → List (ℕ × SigAction)
insert_each into [] m = m
insert_each into ((k, a) ∷ s) m = insert_each into s (into k a m)

unfoldable pub from_signals : SignalState → SignalStateSnapshot
from_signals s = record {
  actions = insert_each insert_action s.actions [];
  mask = s.mask;
  alt_stack = s.alt_stack;
}

unfoldable pub rebuilt_signals : SignalStateSnapshot → SignalState
rebuilt_signals s = record {
  actions = insert_each insert s.actions [];
  mask = s.mask;
  alt_stack = s.alt_stack;
}
