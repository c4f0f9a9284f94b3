-- ===== src/Sys/Futex.antt =====
-- src/sys/futex.rs: waiting, waking, and the table of waiters. A handler that awaits is cut there:
-- `Wait` says how the part before ends, and `wait_woken` and `wait_timed_out` are the parts after.
pub mod Wake
pub mod Reach
use edge_libos.Base.Result.{Result, err, map_ok, ok}
use edge_libos.Mem.Bytes.{from_le}
use edge_libos.Mem.{guest_slice}
use edge_libos.Map.{get, insert, remove}
use edge_libos.Errno.{eagain, einval, enosys, etimedout, to_ret}
use edge_libos.Base.{
  List, Option, as_u32, bit_and, drop, eq_ℤ, if◌then◌else◌, is_zero, ltb, min, negsuc, none, not,
  pos, signed64, some, take, try_u32, ℕ, ℤ, ◌%◌, ◌*◌, ◌+◌, ◌-◌, ◌==◌, ◌^◌,
}
use edge_libos.Kernel.{FutexEntry, Kernel}

abbrev pub FutexTable : Type 0
FutexTable = List (ℕ × FutexEntry)

pub data Wait : Type 0 where
  returned : Kernel → ℤ → Wait
  -- The `Notify` that it awaits, and the timeout in nanoseconds.
  parked : Kernel → (notify : ℕ) → (deadline : Option ℕ) → Wait

abbrev pub set_futexes : Kernel → FutexTable → Kernel
set_futexes k t = record k { process_state = record k.process_state { futex_table = t } }

-- `entry(uaddr).or_insert_with(..)`, then `waiters += 1`.
pub register_waiter : Kernel → ℕ → Kernel × ℕ
register_waiter k uaddr = elim (get uaddr k.process_state.futex_table) [
  | some e ↦ (
    set_futexes k (insert uaddr (record e { waiters = e.waiters + 1 }) k.process_state.futex_table),
    e.notify,
  )
  | none ↦ (
    set_futexes (record k { next_object = k.next_object + 1 })
        (insert uaddr (record { notify = k.next_object; waiters = 1 }) k.process_state.futex_table),
    k.next_object,
  )
]

-- `release_waiter`.
pub release_waiter : FutexTable → ℕ → FutexTable
release_waiter t uaddr = elim (get uaddr t) [
  | some e ↦
      if e.waiters - 1 == 0
      then remove uaddr t
      else insert uaddr (record e { waiters = e.waiters - 1 }) t
  | none ↦ t
]

-- The nanoseconds of a timespec: `saturating_mul`, then `+` on a u64.
pub duration : (sec nsec : ℤ) → Result ℕ
duration (pos sec) (pos nsec) =
    if ltb nsec 1000000000
    then ok ((min (sec * 1000000000) (2 ^ 64 - 1) + nsec) % 2 ^ 64)
    else err (to_ret einval)
duration (pos sec) (negsuc nsec) = err (to_ret einval)
duration (negsuc sec) nsec = err (to_ret einval)

pub decode_timespec : Kernel → ℤ → Result ℕ
unfolding duration
decode_timespec k ptr = elim (guest_slice k.memory ptr (pos 16)) [
  | err e ↦ err e
  | ok bytes ↦
      duration (signed64 (from_le (take 8 bytes))) (signed64 (from_le (take 8 (drop 8 bytes))))
]

pub decode_deadline : Kernel → ℤ → Result (Option ℕ)
unfolding decode_timespec
decode_deadline k ptr = if is_zero ptr then ok none else map_ok some (decode_timespec k ptr)

-- `futex_wait`, up to its await.
pub futex_wait : Kernel → ℕ → (val timeout : ℤ) → Wait
unfolding register_waiter decode_deadline
futex_wait k uaddr val timeout = elim (guest_slice k.memory (pos uaddr) (pos 4)) [
  | err e ↦ returned k e
  | ok bytes ↦
      if not (eq_ℤ (pos (from_le bytes)) val)
      then returned k (to_ret eagain)
      else elim (decode_deadline k timeout) [
        | err e ↦ returned k e
        | ok deadline ↦ let (n, notify) = register_waiter k uaddr in parked n notify deadline
      ]
]

-- The part of `futex_wait` after `notified()`, and after the timeout.
pub wait_woken : Kernel → ℕ → Kernel × ℤ
unfolding release_waiter
wait_woken k uaddr = (set_futexes k (release_waiter k.process_state.futex_table uaddr), pos 0)

pub wait_timed_out : Kernel → ℕ → Kernel × ℤ
unfolding release_waiter
wait_timed_out k uaddr =
    (set_futexes k (release_waiter k.process_state.futex_table uaddr), to_ret etimedout)

-- `val.max(0) as usize`, of the i32 that a bit pattern stands for.
abbrev pub clamp_i32 : ℕ → ℕ
clamp_i32 w = if ltb w (2 ^ 31) then w else 0

-- `futex_wake`: the table, and how many times `notify_one` is called, which it also returns.
pub futex_wake : FutexTable → ℕ → ℕ → FutexTable × ℕ
futex_wake t uaddr val = elim (get uaddr t) [
  | none ↦ (t, 0)
  | some e ↦
      let to_wake = min (clamp_i32 val) e.waiters in
      (
        if e.waiters - to_wake == 0
            then remove uaddr t
            else insert uaddr (record e { waiters = e.waiters - to_wake }) t,
        to_wake,
      )
]

pub futex_checked : Kernel → ℕ → ℕ → (val timeout : ℤ) → Wait
unfolding futex_wait futex_wake
futex_checked k uaddr cmd val timeout =
    if cmd == 0
    then futex_wait k uaddr val timeout
    else if cmd == 1
    then (let (t, n) = futex_wake k.process_state.futex_table uaddr (as_u32 val) in
        returned (set_futexes k t) (pos n))
    else returned k (to_ret enosys)

-- `futex(uaddr, futex_op, val, timeout)`.
pub futex : Kernel → (uaddr op val timeout : ℤ) → Wait
unfolding futex_checked
futex k uaddr op val timeout = elim (try_u32 uaddr) [
  | none ↦ returned k (to_ret einval)
  | some u ↦
      if u == 2 ^ 32 - 1
      then returned k (to_ret einval)
      else futex_checked k u (bit_and (as_u32 op) 63) val timeout
]
