-- ===== src/Sys/Epoll.antt =====
-- src/sys/epoll.rs: epoll instances. A handler that awaits is cut there: `Wait` says how the part
-- before ends, and `epoll_woken` is the part after.
pub mod Report
use edge_libos.Fd.Table.{get_fd, insert_fd, set_fd}
use edge_libos.Base.Result.{Result, err, ok}
use edge_libos.Mem.Bytes.{from_le, to_le}
use edge_libos.Mem.{copy_to, guest_slice, guest_slice_mut}
use edge_libos.Map.{contains_key, get, insert, remove}
use edge_libos.Errno.{ebadf, eexist, einval, enoent, to_ret}
use edge_libos.Base.{
  Bool, List, [], as_u32, bit_and, bit_or, drop, false, if◌then◌else◌, is_neg, is_some, is_zero,
  length, ltb, min, none, not, pos, signed64, some, take, try_u32, try_usize, ℕ, ℤ, ◌%◌, ◌*◌, ◌++◌,
  ◌==◌, ◌^◌, ◌||◌, ◌∷◌,
}
use edge_libos.Kernel.{Kernel}
use edge_libos.Fd.Objects.{EpollEntry, EpollInner, Resource, SocketInner, Wake, is_listening}

abbrev pub Entries : Type 0
Entries = List (ℕ × EpollEntry)

-- `EPOLLIN`, `EPOLLOUT`, `EPOLLERR` and `EPOLLHUP`.
abbrev pub epollin : ℕ
epollin = 1

abbrev pub epollout : ℕ
epollout = 4

abbrev pub epollerr : ℕ
epollerr = 8

abbrev pub epollhup : ℕ
epollhup = 16

pub epoll_create1 : Kernel → Kernel × ℤ
epoll_create1 k =
    let (t, fd) =
      insert_fd k.fds (Resource.epoll (record { entries = []; self_event_fd = none })) in
    (record k { fds = t }, pos fd)

-- The entries of an epoll descriptor.
pub entries_of : Kernel → ℕ → Result EpollInner
entries_of k epfd = elim (get_fd k.fds epfd) [
  | ok (Resource.epoll e) ↦ ok e
  | ok _ ↦ err (to_ret ebadf)
  | err e ↦ err e
]

-- The `Notify` that an entry waits on: of a socket its own, of another resource a new one.
abbrev pub has_event : ℕ → ℕ → Bool
has_event events e = not (bit_and events e == 0)

abbrev pub choose_wake : Wake → Wake → ℕ → Wake
choose_wake r w events =
    if has_event events epollin then r else if has_event events epollout then w else Wake.cancel

pub wake_of : Kernel → ℕ → ℕ → Wake
wake_of k fd events = elim (get_fd k.fds fd) [
  | ok (Resource.socket s) ↦ choose_wake (Wake.read_of s) (Wake.write_of s) events
  | _ ↦ choose_wake Wake.placeholder Wake.placeholder events
]

-- The entry of a `struct epoll_event` of 12 bytes.
pub parse_event : Kernel → ℕ → List ℕ → EpollEntry
unfolding wake_of
parse_event k fd bytes = record {
  fd = fd;
  events = from_le (take 4 bytes);
  user_data = from_le (take 8 (drop 4 bytes));
  wake = wake_of k fd (from_le (take 4 bytes));
}

abbrev pub put_entries : Kernel → ℕ → EpollInner → Entries → Kernel
put_entries k epfd e entries = record k {
  fds = set_fd k.fds epfd (Resource.epoll (record e { entries = entries }));
}

-- `EPOLL_CTL_ADD` wants no entry for the descriptor, `EPOLL_CTL_MOD` wants one.
pub epoll_put : Kernel → (epfd fd : ℕ) → EpollInner → ℤ → (refused : Bool) (e : ℕ) → Kernel × ℤ
unfolding parse_event
epoll_put k epfd fd inner ptr refused e = elim (guest_slice k.memory ptr (pos 12)) [
  | err x ↦ (k, x)
  | ok bytes ↦
      if refused
      then (k, to_ret e)
      else (put_entries k epfd inner (insert fd (parse_event k fd bytes) inner.entries), pos 0)
]

pub epoll_ctl_on : Kernel → (epfd op fd : ℕ) → ℤ → EpollInner → Kernel × ℤ
unfolding epoll_put
epoll_ctl_on k epfd op fd ptr inner =
    let there = contains_key fd inner.entries in
    if op == 1
    then epoll_put k epfd fd inner ptr there eexist
    else if op == 3
    then epoll_put k epfd fd inner ptr (not there) enoent
    else if op == 2
    then (if there
        then (put_entries k epfd inner (remove fd inner.entries), pos 0)
        else (k, to_ret enoent))
    else (k, to_ret einval)

-- `epoll_ctl(epfd, op, fd, event)`.
pub epoll_ctl : Kernel → (epfd op fd event : ℤ) → Kernel × ℤ
unfolding entries_of epoll_ctl_on
epoll_ctl k epfd op fd event = elim (try_u32 epfd) [
  | none ↦ (k, to_ret ebadf)
  | some ep ↦ elim (try_u32 fd) [
    | none ↦ (k, to_ret ebadf)
    | some f ↦ elim (entries_of k ep) [
      | err e ↦ (k, e)
      | ok inner ↦ epoll_ctl_on k ep (as_u32 op) f event inner
    ]
  ]
]

abbrev pub pipe_ready : Kernel → ℕ → Bool
pipe_ready k p = elim (get p k.pipes) [ some x ↦ ltb 0 (length x.buf) || x.closed | none ↦ false ]

-- `if requested & event != 0 { r |= bit }`, for a bit that is not in `r` yet.
abbrev pub when_asked : (requested event : ℕ) → (bit : ℕ) → ℕ
when_asked requested event bit = if has_event requested event then bit else 0

abbrev pub socket_in : SocketInner → ℕ
socket_in s = if is_some s.stream then epollin else if is_listening s then epollin else epollerr

abbrev pub socket_out : SocketInner → ℕ
socket_out s = if is_some s.stream then epollout else epollerr

abbrev pub socket_revents : Kernel → ℕ → ℕ → ℕ
socket_revents k requested s = elim (get s k.sockets) [
  | none ↦ 0
  | some x ↦
      bit_or (when_asked requested epollin (socket_in x))
        (when_asked requested epollout (socket_out x))
]

abbrev pub pipe_revents : Kernel → ℕ → ℕ → ℕ
pipe_revents k requested p = if pipe_ready k p then when_asked requested epollin epollin else 0

pub revents_of : Kernel → ℕ → Resource → ℕ
revents_of k requested (Resource.socket s) = socket_revents k requested s
revents_of k requested (Resource.pipe_read p) = pipe_revents k requested p
revents_of k requested (Resource.stdin p) = pipe_revents k requested p
revents_of k requested (Resource.pipe_write p) = when_asked requested epollout epollout
revents_of k requested (Resource.stdout p) = when_asked requested epollout epollout
revents_of k requested (Resource.stderr p) = when_asked requested epollout epollout
revents_of k requested (Resource.file f) =
    bit_or (when_asked requested epollin epollin) (when_asked requested epollout epollout)
revents_of k requested (Resource.event_fd e) = when_asked requested epollin epollin
revents_of k requested (Resource.epoll e) = epollerr

-- `compute_revents`.
pub compute_revents : Kernel → ℕ → ℕ → ℕ
unfolding revents_of
compute_revents k fd requested = elim (get_fd k.fds fd) [
  | ok r ↦ revents_of k requested r
  | err e ↦ bit_or epollerr epollhup
]

-- `snapshot_readiness`.
pub snapshot_readiness : Kernel → Entries → List (EpollEntry × ℕ)
snapshot_readiness k [] = []
snapshot_readiness k ((fd, e) ∷ es) =
    let rest = snapshot_readiness k es in
    let r = compute_revents k e.fd e.events in if r == 0 then rest else (e, r) ∷ rest

-- One `struct epoll_event` after the other.
pub event_bytes : List (EpollEntry × ℕ) → List ℕ
event_bytes [] = []
event_bytes ((e, r) ∷ es) = to_le 4 r ++ (to_le 8 e.user_data ++ event_bytes es)

pub pack_at : Kernel → ℕ → List ℕ → Result ℕ → Kernel × ℤ
pack_at k count bytes (err e) = (k, e)
pack_at k count bytes (ok p) = (record k { memory = copy_to k.memory p bytes }, pos count)

pub pack_events : Kernel → ℤ → ℕ → List (EpollEntry × ℕ) → Kernel × ℤ
unfolding event_bytes pack_at
pack_events k ptr maxevents ready =
    let count = min (length ready) maxevents in
    pack_at k count (event_bytes (take count ready))
      (guest_slice_mut k.memory ptr (pos (count * 12)))

pub data Wait : Type 0 where
  returned : Kernel → ℤ → Wait
  -- No entries: it returns 0 after the timeout.
  sleeping : Kernel → Wait
  -- Until the timeout, a wake of an entry, or a change of the set.
  parked : Kernel → Entries → Wait

pub epoll_wait_on : Kernel → (events : ℤ) → (maxevents : ℕ) → (timeout_ms : ℤ) → Entries → Wait
unfolding snapshot_readiness pack_events
epoll_wait_on k events maxevents timeout_ms [] =
    if is_neg timeout_ms || is_zero timeout_ms then returned k (pos 0) else sleeping k
epoll_wait_on k events maxevents timeout_ms (e ∷ es) = elim (snapshot_readiness k (e ∷ es)) [
  | [] ↦ parked k (e ∷ es)
  | r ∷ rs ↦ let (n, x) = pack_events k events maxevents (r ∷ rs) in returned n x
]

pub epoll_wait_checked : Kernel → ℕ → (events : ℤ) → (maxevents : ℕ) → (timeout_ms : ℤ) → Wait
unfolding epoll_wait_on
epoll_wait_checked k epfd events maxevents timeout_ms =
    if maxevents == 0
    then returned k (to_ret einval)
    else elim (guest_slice_mut k.memory events (signed64 (maxevents * 12 % 2 ^ 64))) [
      | err e ↦ returned k e
      | ok _ ↦ elim (entries_of k epfd) [
        | err e ↦ returned k e
        | ok inner ↦ epoll_wait_on k events maxevents timeout_ms inner.entries
      ]
    ]

-- `epoll_wait(epfd, events, maxevents, timeout)`.
pub epoll_wait : Kernel → (epfd events maxevents timeout_ms : ℤ) → Wait
unfolding epoll_wait_checked
epoll_wait k epfd events maxevents timeout_ms = elim (try_u32 epfd) [
  | none ↦ returned k (to_ret ebadf)
  | some ep ↦ elim (try_usize maxevents) [
    | none ↦ returned k (to_ret einval)
    | some m ↦ epoll_wait_checked k ep events m timeout_ms
  ]
]

-- Phase 3, on the entries as they were before the wait.
pub epoll_woken : Kernel → (events : ℤ) → (maxevents : ℕ) → Entries → Kernel × ℤ
unfolding snapshot_readiness pack_events
epoll_woken k events maxevents es = pack_events k events maxevents (snapshot_readiness k es)
