-- ===== src/Tests/Tasks.antt =====
-- Futexes, children and signals at concrete inputs.
-- Two tasks wait on address 64.
use edge_libos.Base.{
  [], arith, false, if◌then◌else◌, min, negsuc, pos, refl, some, true, ℕ, ◌*◌, ◌-◌, ◌==◌, ◌∷◌, ◌≡◌,
  ◌≤◌,
}
use edge_libos.Map.{contains_key, get, member}
use edge_libos.Kernel.{Kernel}
use edge_libos.Sys.Process.Fork.{IsFreshPids, fork_syscall-Fresh}
use edge_libos.Sys.Process.Reap.{ReapOutcome, children_of, try_reap-ReapOutcome}
use edge_libos.Sys.Process.{Children, fork_syscall, try_reap}
use edge_libos.Sys.Futex.Reach.{
  Reachable, State, bump, futex_wake-Reachable, start, started, step, wait,
}
use edge_libos.Sys.Futex.Wake.{
  futex_wake-waiters_at, futexes, release_all, release_all-futex_wake, waiters_at, waiters_at-none,
}
use edge_libos.Sys.Futex.{FutexTable, clamp_i32, futex_wake, register_waiter}
use edge_libos.Tests.Memory.{a_kernel}

abbrev two_waiters : FutexTable
two_waiters = (64, record { notify = 0; waiters = 2 }) ∷ []

futex_wake-waiters_at_example :
    let (u, n) = futex_wake two_waiters 64 1 in
    (n ≡ min (clamp_i32 1) (waiters_at two_waiters 64))
    × ((b : ℕ)
        → waiters_at u b
          ≡ (if 64 == b then waiters_at two_waiters 64 - n else waiters_at two_waiters b))
futex_wake-waiters_at_example = futex_wake-waiters_at two_waiters 64 1

release_all-futex_wake_example :
    let (u, n) = futex_wake two_waiters 64 1 in
    waiters_at (release_all n u 64) 64 ≡ waiters_at two_waiters 64 - 2 * n
release_all-futex_wake_example = release_all-futex_wake two_waiters 64 1

-- One task has registered.
abbrev one_inside : State
one_inside = record { kernel = (register_waiter a_kernel 64).0; inside = bump (λ a. 0) 64 }

one_inside-Reachable : Reachable a_kernel one_inside
one_inside-Reachable = step (start a_kernel) one_inside started (wait (start a_kernel) 64)

futex_wake-Reachable_example :
    (futex_wake (futexes one_inside.kernel) 64 5).1 ≤ one_inside.inside 64
futex_wake-Reachable_example =
    futex_wake-Reachable a_kernel one_inside 64 5 (λ b. waiters_at-none [] b refl)
      one_inside-Reachable

-- A running child and one that has exited.
abbrev two_children : Children
two_children =
    (2, record { exit_code = 0; exited = false })
    ∷ (3, record { exit_code = 7; exited = true })
    ∷ []

try_reap-ReapOutcome_example :
    ReapOutcome two_children (negsuc 0) (try_reap two_children (negsuc 0))
try_reap-ReapOutcome_example = try_reap-ReapOutcome two_children (negsuc 0) (refl, (refl, tt))

abbrev a_parent : Kernel
a_parent = record a_kernel {
  process_state = record a_kernel.process_state { next_pid = 4; children = two_children };
}

below_4 : IsFreshPids a_parent
below_4 p h = ground arith

fork_syscall-Fresh_example :
    let (n, r) = fork_syscall a_parent in
    (r ≡ pos 4)
    × (contains_key 4 two_children ≡ false)
    × ((q : ℕ)
        → get q (children_of n) ≡ (
            if 4 == q then some (record { exit_code = 0; exited = false }) else get q two_children))
    × (member 4 n.process_state.tgid_registry ≡ true)
    × IsFreshPids n
fork_syscall-Fresh_example = fork_syscall-Fresh a_parent below_4 (omega arith) (omega arith)
