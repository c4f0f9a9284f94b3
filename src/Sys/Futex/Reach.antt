-- ===== src/Sys/Futex/Reach.antt =====
-- The futex table and the tasks inside a wait, step by step.
-- The table, and for each address the number of tasks between registering and returning.
use edge_libos.Kernel.{Kernel}
use edge_libos.Base.{arith, if◌then◌else◌, ℕ, ◌+◌, ◌-◌, ◌<◌, ◌==◌, ◌≡◌, ◌≤◌}
use edge_libos.Sys.Futex.Wake.{
  futex_wake-waiters_at, futexes, register_waiter-waiters_at, release_waiter-waiters_at, waiters_at,
}
use edge_libos.Sys.Futex.{futex_wake, register_waiter, set_futexes, wait_timed_out, wait_woken}

pub record State : Type 0 where
  pub kernel : Kernel
  pub inside : ℕ → ℕ

abbrev pub start : Kernel → State
start k = record { kernel = k; inside = λ a. 0 }

abbrev pub bump : (ℕ → ℕ) → ℕ → ℕ → ℕ
bump f a b = if a == b then f b + 1 else f b

abbrev drop_one : (ℕ → ℕ) → ℕ → ℕ → ℕ
drop_one f a b = if a == b then f b - 1 else f b

-- A task registers and parks; a wake; a task that was woken or timed out returns.
pub data Step : State → State → Type 0 where
  wait :
      (s : State) (a : ℕ)
      → Step s (record { kernel = (register_waiter s.kernel a).0; inside = bump s.inside a })
  wake :
      (s : State) (a val : ℕ)
      → Step s (record s { kernel = set_futexes s.kernel (futex_wake (futexes s.kernel) a val).0 })
  woken :
      (s : State) (a : ℕ)
      → 0 < s.inside a
      → Step s (record { kernel = (wait_woken s.kernel a).0; inside = drop_one s.inside a })
  timed_out :
      (s : State) (a : ℕ)
      → 0 < s.inside a
      → Step s (record { kernel = (wait_timed_out s.kernel a).0; inside = drop_one s.inside a })

pub data Reachable (k : Kernel) : State → Type 0 where
  started : Reachable k (start k)
  step : (s u : State) → Reachable k s → Step s u → Reachable k u

-- The count never exceeds the tasks that wait.
abbrev pub IsCovered : State → Type 0
IsCovered s = (a : ℕ) → waiters_at (futexes s.kernel) a ≤ s.inside a

Step-IsCovered : (s u : State) → Step s u → IsCovered s → IsCovered u
unfolding wait_woken wait_timed_out
Step-IsCovered _ _ (wait s a) h =
    λ b. ground (arith, register_waiter-waiters_at s.kernel a b, h a, h b)
Step-IsCovered _ _ (wake s a val) h =
    λ b. ground (arith, (futex_wake-waiters_at (futexes s.kernel) a val).1 b, h a, h b)
Step-IsCovered _ _ (woken s a p) h =
    λ b. ground (arith, release_waiter-waiters_at (futexes s.kernel) a b, h a, h b)
Step-IsCovered _ _ (timed_out s a p) h =
    λ b. ground (arith, release_waiter-waiters_at (futexes s.kernel) a b, h a, h b)

Reachable-IsCovered :
    (k : Kernel) (s : State)
    → ((a : ℕ) → waiters_at (futexes k) a ≡ 0)
    → Reachable k s
    → IsCovered s
Reachable-IsCovered k _ none_at started = λ a. ground (arith, none_at a)
Reachable-IsCovered k _ none_at (step s u r st) =
    Step-IsCovered s u st (Reachable-IsCovered k s none_at r)

-- In every state that waits, wakes, wake-ups and timeouts reach from a table without waiters,
-- `FUTEX_WAKE` reports at most as many woken tasks as are inside a wait on the address.
pub futex_wake-Reachable :
    (k : Kernel) (s : State) (a val : ℕ)
    → ((b : ℕ) → waiters_at (futexes k) b ≡ 0)
    → Reachable k s
    → (futex_wake (futexes s.kernel) a val).1 ≤ s.inside a
futex_wake-Reachable k s a val none_at r =
    omega (
      arith,
      (futex_wake-waiters_at (futexes s.kernel) a val).0,
      Reachable-IsCovered k s none_at r a,
    )
