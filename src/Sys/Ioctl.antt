-- ===== src/Sys/Ioctl.antt =====
-- src/sys/ioctl.rs and src/sys/random.rs.
use edge_libos.Sys.Guest.{copy_out}
use edge_libos.Fd.Table.{get_fd}
use edge_libos.Fd.Objects.{Resource}
use edge_libos.Kernel.{Kernel}
use edge_libos.Mem.Bytes.{to_le}
use edge_libos.Mem.{copy_to, guest_slice_mut}
use edge_libos.Map.{get, insert}
use edge_libos.Errno.{ebadf, einval, enosys, enotty, to_ret}
use edge_libos.Base.Result.{Result, err, ok}
use edge_libos.Base.{
  Bool, List, Option, as_u32, bit_and, if◌then◌else◌, is_zero, ltb, none, not, pos, some, try_usize,
  ℕ, ℤ, ◌++◌, ◌-◌, ◌==◌, ◌^◌,
}

-- `set_nonblock`, of a file or a socket: a file has no such flag.
abbrev pub ioctl_nonblock : Kernel → Bool → Result Resource → Kernel × ℤ
ioctl_nonblock k want (err e) = (k, e)
ioctl_nonblock k want (ok (Resource.file f)) = (k, pos 0)
ioctl_nonblock k want (ok (Resource.socket s)) = elim (get s k.sockets) [
  | none ↦ (k, pos 0)
  | some x ↦ (record k { sockets = insert s (record x { nonblock = want }) k.sockets }, pos 0)
]
ioctl_nonblock k want (ok _) = (k, to_ret ebadf)

-- `ioctl`: FIONBIO, FIONREAD and TIOCGWINSZ are 0x5421, 0x541B and 0x5413.
abbrev pub fionbio : ℕ
fionbio = 21537

abbrev pub fionread : ℕ
fionread = 21531

abbrev pub tiocgwinsz : ℕ
tiocgwinsz = 21523

unfoldable pub ioctl : Kernel → (fd op arg : ℤ) → Kernel × ℤ
ioctl k fd op arg =
    if as_u32 op == fionbio
    then ioctl_nonblock k (not (is_zero arg)) (get_fd k.fds (as_u32 fd))
    else if as_u32 op == fionread
    then if is_zero arg then (k, pos 0) else copy_out k arg (to_le 4 0)
    else if as_u32 op == tiocgwinsz
    then if is_zero arg
      then (k, to_ret einval)
      else copy_out k arg (to_le 2 24 ++ (to_le 2 80 ++ (to_le 2 0 ++ to_le 2 0)))
    else (k, to_ret enotty)

-- The random number generator of the kernel: its state is a number, and it fills a buffer.
pub record Rng : Type 0 where
  pub fill_bytes : ℕ → ℕ → ℕ × List ℕ

-- `getrandom`: the generator moves on before the guest's range is checked.
abbrev pub deliver_random : Kernel → (buf : ℤ) → ℕ → ℕ × List ℕ → ℕ × (Kernel × ℤ)
deliver_random k buf len (seed, bytes) = elim (guest_slice_mut k.memory buf (pos len)) [
  | err e ↦ (seed, (k, e))
  | ok p ↦ (seed, (record k { memory = copy_to k.memory p bytes }, pos len))
]

abbrev pub random_bytes : Rng → ℕ → Kernel → (buf : ℤ) → Option ℕ → ℕ × (Kernel × ℤ)
random_bytes rng seed k buf none = (seed, (k, to_ret einval))
random_bytes rng seed k buf (some len) =
    if ltb 4096 len
    then (seed, (k, to_ret einval))
    else if len == 0
    then (seed, (k, pos 0))
    else deliver_random k buf len (rng.fill_bytes seed len)

unfoldable pub getrandom : Rng → ℕ → Kernel → (buf buflen flags : ℤ) → ℕ × (Kernel × ℤ)
getrandom rng seed k buf buflen flags =
    if not (bit_and (as_u32 flags) (2 ^ 32 - 4) == 0)
    then (seed, (k, to_ret enosys))
    else random_bytes rng seed k buf (try_usize buflen)
