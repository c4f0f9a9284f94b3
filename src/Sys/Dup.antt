-- ===== src/Sys/Dup.antt =====
-- src/sys/file.rs: close, dup, dup2, dup3 and pipe2.
pub mod Shared
use edge_libos.Base.Result.{Result, err, ok}
use edge_libos.Map.{insert}
use edge_libos.Base.{
  Bool, Option, Option-cases, [], as_u32, bit_and, false, if◌then◌else◌, inl, inr, none, not, pos,
  refl, some, try_u32, ℕ, ℤ, ◌%◌, ◌+◌, ◌-◌, ◌==◌, ◌^◌, ◌≡◌,
}
use edge_libos.Fd.Table.{FdTable, get_fd, insert_at, insert_at_least, insert_fd, set_cloexec}
use edge_libos.Fd.Table
use edge_libos.Fd.Objects.{Resource}
use edge_libos.Kernel.{Kernel}
use edge_libos.Mem.{copy_to, guest_slice_mut}
use edge_libos.Mem.Bytes.{to_le}
use edge_libos.Errno.{ebadf, einval, to_ret}

abbrev pub o_cloexec : ℕ
o_cloexec = 524288

abbrev pub o_nonblock : ℕ
o_nonblock = 2048

-- `close(fd)`.
pub close_answer : Kernel → FdTable × Result (Unit {0}) → Kernel × ℤ
close_answer k (t, ok _) = (record k { fds = t }, pos 0)
close_answer k (t, err e) = (record k { fds = t }, e)

pub close : Kernel → ℤ → Kernel × ℤ
unfolding close_answer
close k fd = elim (try_u32 fd) [
  | none ↦ (k, to_ret ebadf)
  | some f ↦ close_answer k (Table.close k.fds f)
]

-- The `match` of `internal_dup` and of `F_DUPFD`: a resource that shares its object can be
-- duplicated.
pub clone_resource : Resource → Result Resource
clone_resource (Resource.stdin p) = ok (Resource.stdin p)
clone_resource (Resource.stdout p) = ok (Resource.stdout p)
clone_resource (Resource.stderr p) = ok (Resource.stderr p)
clone_resource (Resource.file f) = ok (Resource.file f)
clone_resource (Resource.pipe_read p) = ok (Resource.pipe_read p)
clone_resource (Resource.pipe_write p) = ok (Resource.pipe_write p)
clone_resource (Resource.socket s) = ok (Resource.socket s)
clone_resource (Resource.epoll e) = err (to_ret ebadf)
clone_resource (Resource.event_fd e) = err (to_ret ebadf)

-- Phase 1: the resource of an open descriptor, cloned.
pub cloned_of : FdTable → ℕ → Result Resource
unfolding clone_resource
cloned_of t fd = elim (get_fd t fd) [ ok r ↦ clone_resource r | err e ↦ err e ]

-- Phase 2: the number of the new descriptor. `oldfd + 1` is a u32.
pub install : FdTable → ℕ → Option ℕ → Resource → FdTable × Result ℕ
install t oldfd none r = let (u, fd) = insert_at_least t ((oldfd + 1) % 2 ^ 32) r in (u, ok fd)
install t oldfd (some target) r = insert_at (Table.close t target).0 target r

pub finish_dup : Bool → FdTable × Result ℕ → FdTable × ℤ
finish_dup want_cloexec (t, ok fd) = (set_cloexec t fd want_cloexec, pos fd)
finish_dup want_cloexec (t, err e) = (t, e)

pub internal_dup : FdTable → ℕ → Option ℕ → Bool → FdTable × ℤ
unfolding cloned_of install finish_dup
internal_dup t oldfd target want_cloexec = elim (cloned_of t oldfd) [
  | ok r ↦ finish_dup want_cloexec (install t oldfd target r)
  | err e ↦ (t, e)
]

abbrev pub on_fds : Kernel → FdTable × ℤ → Kernel × ℤ
on_fds k (t, r) = (record k { fds = t }, r)

pub dup : Kernel → ℤ → Kernel × ℤ
unfolding internal_dup
dup k oldfd = elim (try_u32 oldfd) [
  | none ↦ (k, to_ret ebadf)
  | some o ↦ on_fds k (internal_dup k.fds o none false)
]

pub dup2_checked : FdTable → ℕ → ℕ → FdTable × ℤ
unfolding internal_dup
dup2_checked t oldfd newfd =
    if oldfd == newfd
    then elim (get_fd t oldfd) [ ok r ↦ (t, pos newfd) | err e ↦ (t, e) ]
    else internal_dup t oldfd (some newfd) false

pub dup2 : Kernel → (oldfd newfd : ℤ) → Kernel × ℤ
unfolding dup2_checked
dup2 k oldfd newfd = elim (try_u32 oldfd) [
  | none ↦ (k, to_ret ebadf)
  | some o ↦ elim (try_u32 newfd) [
    | none ↦ (k, to_ret ebadf)
    | some n ↦ on_fds k (dup2_checked k.fds o n)
  ]
]

-- `!O_CLOEXEC` is a mask of 32 bits.
pub dup3_checked : FdTable → ℕ → ℕ → ℕ → FdTable × ℤ
unfolding internal_dup
dup3_checked t oldfd newfd flags =
    if not (bit_and flags (2 ^ 32 - 1 - o_cloexec) == 0)
    then (t, to_ret einval)
    else if oldfd == newfd
    then (t, to_ret einval)
    else internal_dup t oldfd (some newfd) (not (bit_and flags o_cloexec == 0))

pub dup3 : Kernel → (oldfd newfd flags : ℤ) → Kernel × ℤ
unfolding dup3_checked
dup3 k oldfd newfd flags = elim (try_u32 oldfd) [
  | none ↦ (k, to_ret ebadf)
  | some o ↦ elim (try_u32 newfd) [
    | none ↦ (k, to_ret ebadf)
    | some n ↦ on_fds k (dup3_checked k.fds o n (as_u32 flags))
  ]
]

-- `make_pipe`: both ends refer to one new object.
pub make_pipe : Kernel → Bool → Kernel × ℕ
make_pipe k nonblock = (
  record k {
    pipes = insert k.next_object (record { buf = []; closed = false; nonblock = nonblock }) k.pipes;
    next_object = k.next_object + 1;
  },
  k.next_object,
)

pub insert_pipe : Kernel → ℕ → Kernel × ℕ × ℕ
insert_pipe k p =
    let (t, rd) = insert_fd k.fds (Resource.pipe_read p) in
    let (u, wr) = insert_fd t (Resource.pipe_write p) in (record k { fds = u }, rd, wr)

pub pipe2 : Kernel → (fdarray flags : ℤ) → Kernel × ℤ
unfolding make_pipe insert_pipe
pipe2 k fdarray flags = elim (guest_slice_mut k.memory fdarray (pos 8)) [
  | err e ↦ (k, e)
  | ok p ↦
      let (made, object) = make_pipe k (not (bit_and (as_u32 flags) o_nonblock == 0)) in
      let (put, rd, wr) = insert_pipe made object in
      (
        record put { memory = copy_to (copy_to put.memory p (to_le 4 rd)) (p + 4) (to_le 4 wr) },
        pos 0,
      )
]

-- `pipe(fdarray)`.
pub pipe : Kernel → ℤ → Kernel × ℤ
pipe k fdarray = pipe2 k fdarray (pos 0)

close_answer_pipes :
    (k : Kernel) (r : FdTable × Result (Unit {0})) → (close_answer k r).0.pipes ≡ k.pipes
unfolding close_answer
close_answer_pipes k (t, ok _) = refl
close_answer_pipes k (t, err e) = refl

-- Closing a descriptor leaves every pipe.
pub close_pipes : (k : Kernel) (fd : ℤ) → (close k fd).0.pipes ≡ k.pipes
unfolding close
close_pipes k fd = elim (Option-cases (try_u32 fd)) [
  | inl bad ↦ rw (bad, close) refl
  | inr (f, good) ↦ rw (good, close) (close_answer_pipes k (Table.close k.fds f))
]
