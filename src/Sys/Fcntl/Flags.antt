-- ===== src/Sys/Fcntl/Flags.antt =====
-- The status flags of shared pipes, and the descriptor flag of closed numbers.
-- The pipe that a resource refers to, and the access mode that is reported for it.
use edge_libos.Base.{Bool, Option, ap, arith, false, none, pos, refl, some, true, ℕ, ◌∙◌, ◌≡◌}
use edge_libos.Map.{get, get-insert, insert}
use edge_libos.Kernel.{Kernel}
use edge_libos.Fd.Objects.{Pipe, Resource}
use edge_libos.Fd.Table.Lowest.{IsValidTable}
use edge_libos.Fd.Table.Flags.{set_cloexec_on}
use edge_libos.Fd.Table.{contains_fd, get_cloexec}
use edge_libos.Sys.Fcntl.{
  fcntl_checked, o_rdonly, o_rdwr, o_wronly, pipe_nonblock, set_nonblock, set_pipe_nonblock, setfd,
  status_flags, with_nonblock,
}

abbrev pub pipe_of : Resource → Option ℕ
pipe_of (Resource.stdin p) = some p
pipe_of (Resource.stdout p) = some p
pipe_of (Resource.stderr p) = some p
pipe_of (Resource.file f) = none
pipe_of (Resource.pipe_read p) = some p
pipe_of (Resource.pipe_write p) = some p
pipe_of (Resource.socket s) = none
pipe_of (Resource.epoll e) = none
pipe_of (Resource.event_fd e) = none

abbrev pub mode_of : Resource → ℕ
mode_of (Resource.stdin p) = o_rdonly
mode_of (Resource.pipe_read p) = o_rdonly
mode_of (Resource.stdout p) = o_wronly
mode_of (Resource.stderr p) = o_wronly
mode_of (Resource.pipe_write p) = o_wronly
mode_of (Resource.file f) = o_rdwr
mode_of (Resource.socket s) = o_rdwr
mode_of (Resource.epoll e) = o_rdwr
mode_of (Resource.event_fd e) = o_rdwr

status_flags-pipe :
    (k : Kernel) (r : Resource) (p : ℕ)
    → pipe_of r ≡ some p
    → status_flags k r ≡ with_nonblock (mode_of r) (pipe_nonblock k p)
unfolding status_flags
status_flags-pipe k (Resource.stdin q) p h = ground (arith, h)
status_flags-pipe k (Resource.stdout q) p h = ground (arith, h)
status_flags-pipe k (Resource.stderr q) p h = ground (arith, h)
status_flags-pipe k (Resource.pipe_read q) p h = ground (arith, h)
status_flags-pipe k (Resource.pipe_write q) p h = ground (arith, h)
status_flags-pipe k (Resource.file f) p h = absurd (cc)
status_flags-pipe k (Resource.socket s) p h = absurd (cc)
status_flags-pipe k (Resource.epoll e) p h = absurd (cc)
status_flags-pipe k (Resource.event_fd e) p h = absurd (cc)

set_nonblock-pipe :
    (k : Kernel) (r : Resource) (p : ℕ) (on : Bool)
    → pipe_of r ≡ some p
    → set_nonblock k r on ≡ set_pipe_nonblock k p on
unfolding set_nonblock
set_nonblock-pipe k (Resource.stdin q) p on h = ground (arith, h)
set_nonblock-pipe k (Resource.stdout q) p on h = ground (arith, h)
set_nonblock-pipe k (Resource.stderr q) p on h = ground (arith, h)
set_nonblock-pipe k (Resource.pipe_read q) p on h = ground (arith, h)
set_nonblock-pipe k (Resource.pipe_write q) p on h = ground (arith, h)
set_nonblock-pipe k (Resource.file f) p on h = absurd (cc)
set_nonblock-pipe k (Resource.socket s) p on h = absurd (cc)
set_nonblock-pipe k (Resource.epoll e) p on h = absurd (cc)
set_nonblock-pipe k (Resource.event_fd e) p on h = absurd (cc)

set_pipe_nonblock_lem :
    (k : Kernel) (p : ℕ) (x : Pipe) (on : Bool)
    → get p k.pipes ≡ some x
    → pipe_nonblock (set_pipe_nonblock k p on) p ≡ on
unfolding pipe_nonblock set_pipe_nonblock
set_pipe_nonblock_lem k p x on there =
    let found : get p (insert p (record x { nonblock = on }) k.pipes)
        ≡ some (record x { nonblock = on }) =
      ground (arith, get-insert p p (record x { nonblock = on }) k.pipes) in
    rw (there, set_pipe_nonblock) (rw (found, pipe_nonblock) refl)

-- `O_NONBLOCK` belongs to the pipe: when it is set or cleared through one resource, every resource
-- of the same pipe, a duplicate or the other end, reports it beside its own access mode.
pub status_flags-set_nonblock :
    (k : Kernel) (r s : Resource) (p : ℕ) (x : Pipe) (on : Bool)
    → pipe_of r ≡ some p
    → pipe_of s ≡ some p
    → get p k.pipes ≡ some x
    → status_flags (set_nonblock k r on) s ≡ with_nonblock (mode_of s) on
status_flags-set_nonblock k r s p x on hr hs there =
    status_flags-pipe (set_nonblock k r on) s p hs
    ∙ ap (λ n. with_nonblock (mode_of s) (pipe_nonblock n p)) (set_nonblock-pipe k r p on hr)
    ∙ ap (with_nonblock (mode_of s)) (set_pipe_nonblock_lem k p x on there)

-- `fcntl(fd, F_SETFD, FD_CLOEXEC)` on a number that is not open: it reports success, and the table
-- then marks a closed number as close-on-exec, so that it is not well formed any more.
pub fcntl_checked-closed :
    (k : Kernel) (fd : ℕ)
    → contains_fd k.fds fd ≡ false
    → let (n, r) = fcntl_checked k fd 2 (pos 1) in
      (r ≡ pos 0) × (get_cloexec n.fds fd ≡ true) × ¬ IsValidTable n.fds
unfolding fcntl_checked setfd
fcntl_checked-closed k fd closed =
    let on = set_cloexec_on k.fds fd in (refl, on.0, λ v. cc (v.cloexec_open fd on.0, on.1, closed))
