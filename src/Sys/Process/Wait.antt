-- ===== src/Sys/Process/Wait.antt =====
-- When a wait returns, and when it parks.
use edge_libos.Mem.Bytes.{to_le}
use edge_libos.Base.Result.{Result, err, ok}
use edge_libos.Mem.{copy_to, guest_slice_mut}
use edge_libos.Errno.{echild, to_ret}
use edge_libos.Sys.Process.Reap.{children_of, try_reap-none}
use edge_libos.Kernel.{ChildExitStatus, Kernel}
use edge_libos.Base.{
  Bool, Bool-cases, Option, bit_and, false, inl, inr, length, none, pos, refl, signed32, some, true,
  ℕ, ℤ, ◌*◌, ◌==◌, ◌≡◌,
}
use edge_libos.Map.{contains_key-get, get, remove}
use edge_libos.Sys.Process.{
  Children, Wait4, finish_wait, mark_exited, park, pick, set_children, target_of, wait4_blocking,
  wait4_checked, wait4_woken,
}

-- The wait parks.
abbrev pub is_parked : Wait4 → Bool
is_parked (Wait4.returned k r) = false
is_parked (Wait4.parked_on_child k p) = true
is_parked (Wait4.parked_on_any k) = true

finish_wait_returns :
    (k : Kernel) (wstatus : ℤ) (r : Children × ℕ × ℕ) → is_parked (finish_wait k wstatus r) ≡ false
finish_wait_returns k wstatus (cs, p, code) = refl

-- The child that a wait picks among children that all have exited: the named one if one is named.
pub record Picked (cs : Children) (t : Option ℕ) (p : ℕ) (c : ChildExitStatus) : Type 0 where
  pub picked : pick (mark_exited cs) t ≡ some p
  pub was_child : get p cs ≡ some c
  pub marked : get p (mark_exited cs) ≡ some (record c { exited = true })
  pub named : (q : ℕ) → t ≡ some q → p ≡ q

-- How a wait that reaped `p` ends, in the state `n` without that child: nobody asks for the status;
-- the place for it is refused; or it is written there, the low byte of the child's exit code above a
-- byte of 0.
pub data Ends (n : Kernel) (p code : ℕ) (wstatus : ℤ) : Wait4 → Type 0 where
  unasked : wstatus ≡ pos 0 → Ends n p code wstatus (Wait4.returned n (signed32 p))
  refused :
      (e : ℤ)
      → guest_slice_mut n.memory wstatus (pos 4) ≡ err e
      → Ends n p code wstatus (Wait4.returned n e)
  told :
      (q : ℕ)
      → guest_slice_mut n.memory wstatus (pos 4) ≡ ok q
      → Ends n p code wstatus (
          Wait4.returned
            (record n { memory = copy_to n.memory q (to_le 4 (bit_and code 255 * 256)) })
            (signed32 p))

-- What a wait after the exit of `k` does: it reaps the child `p`, which is the one that the wait
-- names if it names one.
pub record Reaps (k : Kernel) (after : Kernel) (pid wstatus : ℤ) (w : Wait4) (p : ℕ)
    (c : ChildExitStatus) : Type 0 where
  pub was_child : get p (children_of k) ≡ some c
  pub named : (q : ℕ) → target_of pid ≡ some q → p ≡ q
  pub ends : Ends (set_children after (remove p (children_of after))) p c.exit_code wstatus w

-- A task that waited for a child which another task has reaped meanwhile: when it is woken it parks
-- again, for any child, while the same call from the start returns -ECHILD.
pub wait4_woken-gone :
    (k : Kernel) (pid wstatus : ℤ) (p : ℕ)
    → target_of pid ≡ some p
    → get p (children_of k) ≡ none
    → (wait4_woken k pid wstatus ≡ Wait4.parked_on_any k)
      × (wait4_checked k pid wstatus 0 ≡ Wait4.returned k (to_ret echild))
unfolding wait4_woken wait4_checked wait4_blocking park pick
wait4_woken-gone k pid wstatus p target gone =
    let nothing : pick (children_of k) (target_of pid) ≡ none = rw (target, gone, pick) refl in
    let failed = try_reap-none (children_of k) pid nothing in
    let absent = (contains_key-get p (children_of k)).1 gone in
    (
      rw (failed, target, absent, wait4_woken, park) refl,
      elim (Bool-cases (length (children_of k) == 0)) [
        | inl empty ↦ rw empty refl
        | inr some_left ↦ rw (some_left, failed, target, absent, wait4_blocking) refl
      ],
    )
