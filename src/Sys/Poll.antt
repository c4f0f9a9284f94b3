-- ===== src/Sys/Poll.antt =====
-- src/sys/poll.rs: poll. A handler that awaits is cut there: `Wait` says how the part before ends,
-- and `poll_round` is run again after a wake, `poll_expired` after the timeout.
pub mod Answer
use edge_libos.Fd.Table.{get_fd}
use edge_libos.Base.Result.{Result, err, ok}
use edge_libos.Mem.Bytes.{from_le, to_le}
use edge_libos.Mem.{MemoryKind, copy_to, guest_slice, guest_slice_mut}
use edge_libos.Map.{get}
use edge_libos.Errno.{einval, to_ret}
use edge_libos.Base.{
  Bool, List, Option, [], bit_and, bit_or, drop, if◌then◌else◌, is_some, is_zero, leb, length, ltb,
  map, none, not, pos, signed64, some, suc, take, try_usize, zero, ℕ, ℤ, ◌&&◌, ◌*◌, ◌+◌, ◌==◌, ◌^◌,
  ◌||◌, ◌∷◌,
}
use edge_libos.Kernel.{Kernel}
use edge_libos.Fd.Objects.{Pipe, Resource, SocketInner, is_listening}

-- `POLLIN`, `POLLOUT`, `POLLERR` and `POLLNVAL`: bits of an i16, whose pattern it is.
abbrev pub pollin : ℕ
pollin = 1

abbrev pub pollout : ℕ
pollout = 4

abbrev pub pollerr : ℕ
pollerr = 8

abbrev pub pollnval : ℕ
pollnval = 32

abbrev pub asks : ℕ → ℕ → Bool
asks events e = not (bit_and events e == 0)

pub ready_pipe_read : ℕ → Bool → ℕ
ready_pipe_read events has_data_or_eof =
    bit_or (if has_data_or_eof && asks events pollin then pollin else 0)
      (if asks events pollout then pollerr else 0)

abbrev pub socket_in : SocketInner → ℕ
socket_in s = if is_some s.stream then pollin else if is_listening s then pollnval else 0

abbrev pub socket_out : SocketInner → ℕ
socket_out s = if is_some s.stream then pollout else if is_some s.bound then pollnval else 0

pub ready_socket : ℕ → SocketInner → ℕ
ready_socket events s =
    bit_or (if asks events pollin then socket_in s else 0)
      (if asks events pollout then socket_out s else 0)

abbrev pub on_pipe : Kernel → ℕ → (Pipe → ℕ) → ℕ
on_pipe k p f = elim (get p k.pipes) [ some x ↦ f x | none ↦ 0 ]

abbrev pub on_socket : Kernel → ℕ → (SocketInner → ℕ) → ℕ
on_socket k s f = elim (get s k.sockets) [ some x ↦ f x | none ↦ 0 ]

abbrev pub has_data : Pipe → Bool
has_data x = ltb 0 (length x.buf)

pub poll_resource : Kernel → ℕ → Resource → ℕ
unfolding ready_pipe_read ready_socket
poll_resource k events (Resource.stdin p) =
    on_pipe k p (λ x. ready_pipe_read events (not x.closed || has_data x))
poll_resource k events (Resource.stdout p) = bit_and pollout events
poll_resource k events (Resource.stderr p) = bit_and pollout events
poll_resource k events (Resource.file f) = bit_or pollin pollout
poll_resource k events (Resource.pipe_read p) =
    on_pipe k p (λ x. ready_pipe_read events (has_data x || x.closed))
poll_resource k events (Resource.pipe_write p) = bit_and pollout events
poll_resource k events (Resource.socket s) = on_socket k s (ready_socket events)
poll_resource k events (Resource.epoll e) = pollnval
poll_resource k events (Resource.event_fd e) = pollnval

-- `poll_one`, on the bit pattern of an i32.
pub poll_one : Kernel → ℕ × ℕ → ℕ
unfolding poll_resource
poll_one k (fd, events) =
    if leb (2 ^ 31) fd
    then pollnval
    else elim (get_fd k.fds fd) [ ok r ↦ poll_resource k events r | err e ↦ pollnval ]

-- The descriptors and events of `n` records of 8 bytes from `ptr` on.
pub read_entries : Option MemoryKind → (ptr n : ℕ) → List (ℕ × ℕ)
read_entries mem ptr zero = []
read_entries mem ptr (suc n) =
    let rest = read_entries mem (ptr + 8) n in
    elim (guest_slice mem (pos ptr) (pos 8)) [
      | err e ↦ (0, pollnval) ∷ rest
      | ok bytes ↦ (from_le (take 4 bytes), from_le (take 2 (drop 4 bytes))) ∷ rest
    ]

-- The answers into their records, from `p` on.
pub put_revents : Option MemoryKind → ℕ → List ℕ → Option MemoryKind
put_revents mem p [] = mem
put_revents mem p (r ∷ rs) = put_revents (copy_to mem (p + 6) (to_le 2 r)) (p + 8) rs

pub count_ready : List ℕ → ℕ
count_ready [] = 0
count_ready (r ∷ rs) = (if r == 0 then 0 else 1) + count_ready rs

pub write_revents_at : Kernel → List ℕ → Result ℕ → Kernel × ℤ
unfolding put_revents count_ready
write_revents_at k rs (err e) = (k, e)
write_revents_at k rs (ok p) =
    (record k { memory = put_revents k.memory p rs }, pos (count_ready rs))

pub write_revents : Kernel → ℤ → List ℕ → Kernel × ℤ
unfolding write_revents_at
write_revents k ptr rs = write_revents_at k rs (guest_slice_mut k.memory ptr (pos (length rs * 8)))

pub data Wait : Type 0 where
  returned : Kernel → ℤ → Wait
  -- Until a wake of one of the descriptors, or the timeout.
  parked : Kernel → List (ℕ × ℕ) → Wait

-- One round of the `loop`.
pub poll_round : Kernel → (ptr timeout_ms : ℤ) → List (ℕ × ℕ) → Wait
unfolding poll_one count_ready write_revents
poll_round k ptr timeout_ms entries =
    let readiness = map (poll_one k) entries in
    if ltb 0 (count_ready readiness) || is_zero timeout_ms
    then (let (n, r) = write_revents k ptr readiness in returned n r)
    else parked k entries

-- The timer fires.
pub poll_expired : Kernel → ℤ → List (ℕ × ℕ) → Kernel × ℤ
unfolding poll_one write_revents
poll_expired k ptr entries = write_revents k ptr (map (poll_one k) entries)

pub poll_checked : Kernel → (ptr : ℤ) → (nfds : ℕ) → (timeout_ms : ℤ) → Wait
unfolding read_entries poll_round
poll_checked k ptr nfds timeout_ms =
    if nfds == 0
    then returned k (pos 0)
    else if leb (2 ^ 64) (nfds * 8)
    then returned k (to_ret einval)
    else elim (guest_slice_mut k.memory ptr (signed64 (nfds * 8))) [
      | err e ↦ returned k e
      | ok p ↦ poll_round k ptr timeout_ms (read_entries k.memory p nfds)
    ]

-- `poll(fds, nfds, timeout)`.
pub poll : Kernel → (ptr nfds timeout_ms : ℤ) → Wait
unfolding poll_checked
poll k ptr nfds timeout_ms = elim (try_usize nfds) [
  | none ↦ returned k (to_ret einval)
  | some n ↦ poll_checked k ptr n timeout_ms
]
