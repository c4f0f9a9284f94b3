-- ===== src/Sys/Process.antt =====
-- src/sys/process.rs: exit, clone, fork, wait4, and the process queries. Process numbers are the
-- patterns of an i32.
pub mod Fork
pub mod Wait
pub mod Reap
use edge_libos.Base.Result.{Result, err, ok}
use edge_libos.Mem.Bytes.{to_le}
use edge_libos.Mem.{Memory, copy_to, guest_slice_mut, owned_memory}
use edge_libos.Map.{add, contains_key, get, insert, remove}
use edge_libos.Errno.{echild, einval, to_ret}
use edge_libos.Base.{
  Bool, List, Option, [], as_u32, as_u64, bit_and, false, if◌then◌else◌, is_zero, length, ltb,
  negsuc, none, not, pos, signed32, some, true, ℕ, ℤ, ◌%◌, ◌*◌, ◌+◌, ◌-◌, ◌==◌, ◌^◌, ◌∷◌,
}
use edge_libos.Kernel.{ChildExitStatus, Kernel}

abbrev pub Children : Type 0
Children = List (ℕ × ChildExitStatus)

abbrev pub set_children : Kernel → Children → Kernel
set_children k c = record k { process_state = record k.process_state { children = c } }

-- `status.exited = true` for every child. The `Notify`s that are fired carry no state.
pub mark_exited : Children → Children
mark_exited [] = []
mark_exited ((p, c) ∷ cs) = (p, record c { exited = true }) ∷ mark_exited cs

pub reap_all_children : Kernel → Kernel
unfolding mark_exited
reap_all_children k = set_children k (mark_exited k.process_state.children)

-- `exit` and `exit_group`.
pub exit : Kernel → ℤ → Kernel × ℤ
unfolding reap_all_children
exit k code = (reap_all_children (record k { exit_code = some (as_u32 code) }), pos 0)

pub getpid : Kernel → ℤ
getpid k = signed32 k.tgid

-- `gettid` and `set_tid_address`.
pub gettid : Kernel → ℤ
gettid k = signed32 k.tid

-- `next_pid.fetch_add(1)`, and the new number in the registry.
pub fetch_pid : Kernel → Kernel × ℕ
fetch_pid k = (
  record k {
    process_state = record k.process_state { next_pid = (k.process_state.next_pid + 1) % 2 ^ 32 };
  },
  k.process_state.next_pid,
)

pub register_tid : Kernel → ℕ → Kernel
register_tid k tid = record k {
  process_state = record k.process_state { tgid_registry = add tid k.process_state.tgid_registry };
}

-- `CLONE_SUPPORTED_V2`, and its two write-back flags.
abbrev pub clone_supported : ℕ
clone_supported = 151060736

abbrev pub clone_child_settid : ℕ
clone_child_settid = 16777216

abbrev pub clone_parent_settid : ℕ
clone_parent_settid = 134217728

abbrev pub has_flag : ℕ → ℕ → Bool
has_flag flags f = not (bit_and flags f == 0)

-- `if flag { write the number at ptr }`.
pub write_tid : Bool → Kernel → (ptr : ℤ) → ℕ → Kernel × Option ℤ
write_tid false k ptr tid = (k, none)
write_tid true k ptr tid = elim (guest_slice_mut k.memory ptr (pos 4)) [
  | err e ↦ (k, some e)
  | ok p ↦ (record k { memory = copy_to k.memory p (to_le 4 tid) }, none)
]

-- An error of a write ends the call.
pub written_tid : ℕ → Kernel × Option ℤ → Kernel × ℤ
written_tid tid (k, some e) = (k, e)
written_tid tid (k, none) = (k, signed32 tid)

pub clone_child : (flags : ℕ) (ctid : ℤ) → ℕ → Kernel × Option ℤ → Kernel × ℤ
unfolding written_tid
clone_child flags ctid tid (k, some e) = (k, e)
clone_child flags ctid tid (k, none) =
    written_tid tid (write_tid (has_flag flags clone_child_settid) k ctid tid)

pub clone_write : Kernel → (flags : ℕ) (ptid ctid : ℤ) → ℕ → Kernel × ℤ
unfolding clone_child
clone_write k flags ptid ctid tid =
    clone_child flags ctid tid (write_tid (has_flag flags clone_parent_settid) k ptid tid)

-- The registered child, and the memory to write its number to.
pub clone_registered : Kernel → (flags : ℕ) (ptid ctid : ℤ) → ℕ → Result Memory → Kernel × ℤ
unfolding clone_write
clone_registered k flags ptid ctid tid (err e) = (k, e)
clone_registered k flags ptid ctid tid (ok m) = clone_write k flags ptid ctid tid

pub clone_checked : Kernel → (flags : ℕ) (ptid ctid : ℤ) → Kernel × ℤ
unfolding fetch_pid register_tid clone_registered
clone_checked k flags ptid ctid =
    if not (bit_and flags (2 ^ 64 - 1 - clone_supported) == 0)
    then (k, to_ret einval)
    else if bit_and flags (clone_child_settid + clone_parent_settid) == 0
    then (k, to_ret einval)
    else (let (a, tid) = fetch_pid k in
        let b = register_tid a tid in
        clone_registered b flags ptid ctid tid (owned_memory b.memory))

-- `clone(flags, child_stack, ptid, ctid, tls)`.
pub clone_syscall : Kernel → (flags ptid ctid : ℤ) → Kernel × ℤ
unfolding clone_checked
clone_syscall k flags ptid ctid = clone_checked k (as_u64 flags) ptid ctid

pub fork_syscall : Kernel → Kernel × ℤ
unfolding fetch_pid register_tid
fork_syscall k =
    let (a, pid) = fetch_pid k in
    (
      register_tid
          (set_children a
            (insert pid (record { exit_code = 0; exited = false }) a.process_state.children))
          pid,
      signed32 pid,
    )

-- How the part of a wait before an await ends.
pub data Wait4 : Type 0 where
  returned : Kernel → ℤ → Wait4
  -- On the `Notify` of one child.
  parked_on_child : Kernel → ℕ → Wait4
  -- On `child_event`.
  parked_on_any : Kernel → Wait4

-- `pid > 0`, as an i32.
abbrev pub target_of : ℤ → Option ℕ
target_of (pos n) = if n == 0 then none else some (n % 2 ^ 32)
target_of (negsuc n) = none

pub find_exited : Children → Option ℕ
find_exited [] = none
find_exited ((p, c) ∷ cs) = if c.exited then some p else find_exited cs

pub pick : Children → Option ℕ → Option ℕ
unfolding find_exited
pick cs none = find_exited cs
pick cs (some p) = elim (get p cs) [ some c ↦ if c.exited then some p else none | none ↦ none ]

pub remove_child : Children → ℕ → Option (Children × ℕ × ℕ)
remove_child cs p = elim (get p cs) [ some c ↦ some (remove p cs, p, c.exit_code) | none ↦ none ]

-- `try_reap`: the number and the exit code of a child that is removed.
pub try_reap : Children → ℤ → Option (Children × ℕ × ℕ)
unfolding pick remove_child
try_reap cs pid = elim (pick cs (target_of pid)) [ none ↦ none | some p ↦ remove_child cs p ]

-- `(exit_code & 0xff) << 8`.
abbrev pub wait_status : ℕ → ℕ
wait_status exit_code = bit_and exit_code 255 * 256

pub write_wstatus_and_return : Kernel → (picked exit_code : ℕ) → ℤ → Kernel × ℤ
write_wstatus_and_return k picked exit_code ptr =
    if is_zero ptr then (k, signed32 picked) else elim (guest_slice_mut k.memory ptr (pos 4)) [
      | err e ↦ (k, e)
      | ok p ↦ (
        record k { memory = copy_to k.memory p (to_le 4 (wait_status exit_code)) },
        signed32 picked,
      )
    ]

abbrev pub finish_wait : Kernel → ℤ → Children × ℕ × ℕ → Wait4
finish_wait k ptr (cs, picked, code) =
    let (n, r) = write_wstatus_and_return (set_children k cs) picked code ptr in returned n r

-- One round of the `loop`, up to its await.
pub park : Kernel → ℤ → Wait4
park k pid = elim (target_of pid) [
  | none ↦ parked_on_any k
  | some p ↦
      if contains_key p k.process_state.children then parked_on_child k p else parked_on_any k
]

-- The rest of a round: what the task does when it is woken.
pub wait4_woken : Kernel → (pid wstatus : ℤ) → Wait4
unfolding try_reap park
wait4_woken k pid wstatus = elim (try_reap k.process_state.children pid) [
  | some r ↦ finish_wait k wstatus r
  | none ↦ park k pid
]

-- The check that a specific child exists, before the loop.
pub wait4_blocking : Kernel → ℤ → Wait4
unfolding park
wait4_blocking k pid = elim (target_of pid) [
  | none ↦ park k pid
  | some p ↦
      if contains_key p k.process_state.children then park k pid else returned k (to_ret echild)
]

pub wait4_checked : Kernel → (pid wstatus : ℤ) → (options : ℕ) → Wait4
unfolding try_reap wait4_blocking
wait4_checked k pid wstatus options =
    if length k.process_state.children == 0
    then returned k (to_ret echild)
    else elim (try_reap k.process_state.children pid) [
      | some r ↦ finish_wait k wstatus r
      | none ↦ if has_flag options 64 then returned k (pos 0) else wait4_blocking k pid
    ]

-- `pid < -1`.
abbrev pub is_group : ℤ → Bool
is_group (pos n) = false
is_group (negsuc n) = ltb 0 n

-- `wait4(pid, wstatus, options, rusage)`. `WNOHANG` is 64 here, and the only option.
pub wait4_syscall : Kernel → (pid wstatus options : ℤ) → Wait4
unfolding wait4_checked
wait4_syscall k pid wstatus options =
    if not (bit_and (as_u32 options) (2 ^ 32 - 1 - 64) == 0)
    then returned k (to_ret einval)
    else if is_group pid
    then returned k (to_ret einval)
    else wait4_checked k pid wstatus (as_u32 options)
