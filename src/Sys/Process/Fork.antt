-- ===== src/Sys/Process/Fork.antt =====
-- The numbers that fork and clone hand out, and who can be signalled.
-- Every child has a number below the next one.
use edge_libos.Base.Result.{err}
use edge_libos.Mem.{Memory, guest_slice_mut, owned, owned_memory}
use edge_libos.Errno.{esrch, to_ret}
use edge_libos.Sys.Credentials.{kill, kill_other}
use edge_libos.Kernel.{ChildExitStatus, Kernel}
use edge_libos.Base.{
  ap, arith, false, if◌then◌else◌, pos, refl, some, subst, sym, true, ℕ, ℤ, ◌%◌, ◌+◌, ◌<◌, ◌==◌,
  ◌^◌, ◌≡◌, ◌≢◌, ◌≤◌,
}
use edge_libos.Map.{add, contains_key, contains_key-insert, get, get-insert, member, member-add}
use edge_libos.Sys.Process.Reap.{children_of}
use edge_libos.Sys.Process.{
  clone_checked, clone_child, clone_parent_settid, clone_registered, clone_syscall, clone_write,
  fetch_pid, fork_syscall, register_tid, write_tid,
}

abbrev pub IsFreshPids : Kernel → Type 0
IsFreshPids k = (p : ℕ) → contains_key p (children_of k) ≡ true → p < k.process_state.next_pid

-- `fork`, while fewer than 2^31 - 1 numbers are used: it returns a positive number that no child
-- has, adds a running child under it to the table and the number to the registry, changes no other
-- child, and again every child's number is below the next one.
pub fork_syscall-Fresh :
    (k : Kernel)
    → IsFreshPids k
    → 0 < k.process_state.next_pid
    → k.process_state.next_pid < 2 ^ 31
    → let (n, r) = fork_syscall k in
      let pid = k.process_state.next_pid in
      (r ≡ pos pid)
      × (contains_key pid (children_of k) ≡ false)
      × ((q : ℕ)
          → get q (children_of n) ≡ (
              if pid == q
              then some (record { exit_code = 0; exited = false })
              else get q (children_of k)))
      × (member pid n.process_state.tgid_registry ≡ true)
      × IsFreshPids n
unfolding fork_syscall fetch_pid register_tid
fork_syscall-Fresh k fresh p small =
    let pid = k.process_state.next_pid in
    let child : ChildExitStatus = record { exit_code = 0; exited = false } in
    (
      ground arith,
      ground (arith, fresh pid),
      λ q. get-insert pid q child (children_of k),
      ground (arith, member-add pid pid k.process_state.tgid_registry),
      λ q h. ground (arith, contains_key-insert pid q child (children_of k), fresh q),
    )

-- A child of `fork` cannot be signalled: `kill` with its number answers -ESRCH, although `fork` has
-- put the number into the registry, if the caller's own number is another one.
pub kill-fork_syscall :
    (k : Kernel) (sig : ℕ)
    → 0 < k.process_state.next_pid
    → k.process_state.next_pid < 2 ^ 31
    → k.process_state.next_pid ≢ k.tgid
    → sig ≤ 64
    → let (n, r) = fork_syscall k in kill n r (pos sig) ≡ (n, to_ret esrch)
unfolding fork_syscall fetch_pid register_tid
kill-fork_syscall k sig p small other valid =
    kill_other _ k.process_state.next_pid sig p small other valid

-- `clone` with the flag for the parent's pointer and a pointer that is out of bounds: the call
-- fails, but the new number is registered and used up.
pub clone_syscall-leaks :
    (k : Kernel) (ptid ctid : ℤ) (m : Memory) (e : ℤ)
    → k.memory ≡ some (owned m)
    → guest_slice_mut k.memory ptid (pos 4) ≡ err e
    → let (n, r) = clone_syscall k (pos clone_parent_settid) ptid ctid in
      (r ≡ e)
      × (member k.process_state.next_pid n.process_state.tgid_registry ≡ true)
      × (n.process_state.next_pid ≡ (k.process_state.next_pid + 1) % 2 ^ 32)
unfolding clone_syscall clone_checked fetch_pid register_tid clone_registered clone_write
    clone_child write_tid
clone_syscall-leaks k ptid ctid m e mem bad =
    let pid = k.process_state.next_pid in
    let pending : member pid (add pid k.process_state.tgid_registry) ≡ true =
      ground (arith, member-add pid pid k.process_state.tgid_registry) in
    let flags = clone_parent_settid in
    let b = register_tid (fetch_pid k).0 pid in
    let write : write_tid true b ptid pid ≡ (b, some e) = rw (bad, write_tid) refl in
    subst
      (λ o.
        let (n, r) = clone_registered b flags ptid ctid pid o in
        (r ≡ e)
        × (member pid n.process_state.tgid_registry ≡ true)
        × (n.process_state.next_pid ≡ (pid + 1) % 2 ^ 32))
      (sym (ap owned_memory mem))
      (subst
        (λ w.
          let (n, r) = clone_child flags ctid pid w in
          (r ≡ e)
          × (member pid n.process_state.tgid_registry ≡ true)
          × (n.process_state.next_pid ≡ (pid + 1) % 2 ^ 32))
        (sym write) (refl, pending, refl))
