-- ===== src/Sys/EventFd.antt =====
-- src/sys/eventfd.rs: event counters.
pub mod Count
use edge_libos.Base.Result.{Result, err, ok}
use edge_libos.Base.{
  as_u32, as_u64, bit_and, if◌then◌else◌, ltb, negsuc, not, pos, ℕ, ℤ, ◌+◌, ◌-◌, ◌==◌, ◌^◌,
}
use edge_libos.Errno.{eagain, einval, to_ret}
use edge_libos.Fd.Objects.{EventFdInner, Resource}
use edge_libos.Kernel.{Kernel}
use edge_libos.Fd.Table.{insert_fd}

-- `eventfd2(initval, flags)`; `eventfd` is the same function.
pub eventfd2 : Kernel → (initval flags : ℤ) → Kernel × ℤ
eventfd2 k initval flags =
    let inner : EventFdInner = record {
      counter = as_u64 initval;
      nonblock = not (bit_and (as_u32 flags) 2048 == 0);
    } in
    let (t, fd) = insert_fd k.fds (Resource.event_fd inner) in (record k { fds = t }, pos fd)

pub eventfd : Kernel → (initval flags : ℤ) → Kernel × ℤ
eventfd k initval flags = eventfd2 k initval flags

-- `eventfd_read`: a counter that is not 0 is drained.
pub eventfd_read : EventFdInner → EventFdInner × Result ℕ
eventfd_read e =
    if e.counter == 0
    then (if e.nonblock then (e, err (to_ret eagain)) else (e, ok 0))
    else (record e { counter = 0 }, ok e.counter)

-- `checked_add(addend).unwrap_or(u64::MAX)`.
abbrev pub add_u64 : ℕ → ℕ → ℕ
add_u64 a b = if ltb (a + b) (2 ^ 64) then a + b else 2 ^ 64 - 1

pub eventfd_write : EventFdInner → ℕ → EventFdInner × ℕ
eventfd_write e addend = (record e { counter = add_u64 e.counter addend }, add_u64 e.counter addend)

-- `buf_len < 8`.
pub require_u64_buf : ℤ → Result (Unit {0})
require_u64_buf (negsuc n) = err (to_ret einval)
require_u64_buf (pos n) = if ltb n 8 then err (to_ret einval) else ok tt
