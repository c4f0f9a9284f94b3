-- ===== src/Sys/OpenFile.antt =====
-- Changes to an open file: `ftruncate` and `fchmod` of src/sys/file.rs. The state of the host is a
-- number; the open file is the host's.
use edge_libos.Sys.PathCalls.{answer_of, io_error}
use edge_libos.Sys.FileStat.{fd_arg}
use edge_libos.Vfs.Host.{ErrorKind}
use edge_libos.Map.{get}
use edge_libos.Errno.{ebadf, einval, to_ret}
use edge_libos.Fd.Table.{get_fd}
use edge_libos.Fd.Objects.{FilePos, Resource}
use edge_libos.Kernel.{Kernel}
use edge_libos.Base.Result.{Result, err, ok}
use edge_libos.Base.{Option, as_u32, bit_and, inl, inr, negsuc, none, pos, some, ℕ, ℤ, ◌⊎◌}

-- What the host does with an open file.
pub record OpenFiles : Type 0 where
  pub try_clone : (world file : ℕ) → ErrorKind ⊎ ℕ
  pub metadata : (world file : ℕ) → Option ErrorKind
  pub set_len : (world file len : ℕ) → ℕ × Option ErrorKind
  pub set_mode : (world file mode : ℕ) → ℕ × Option ErrorKind

abbrev pub clone_of : OpenFiles → (world : ℕ) → Option FilePos → Result ℕ
clone_of h w none = err (to_ret ebadf)
clone_of h w (some fp) = elim (h.try_clone w fp.inner) [ inl e ↦ err (io_error e) | inr f ↦ ok f ]

-- The host file behind a descriptor, cloned.
abbrev pub cloned_file : OpenFiles → (world : ℕ) → Kernel → Result Resource → Result ℕ
cloned_file h w k (ok (Resource.file f)) = clone_of h w (get f k.files)
cloned_file h w k (ok r) = err (to_ret ebadf)
cloned_file h w k (err e) = err e

abbrev pub resized : OpenFiles → (world len : ℕ) → Result ℕ → ℕ × ℤ
resized h w len (ok f) = answer_of (h.set_len w f len)
resized h w len (err e) = (w, e)

-- `ftruncate`: the length is looked at before the descriptor is looked up.
unfoldable pub ftruncate : OpenFiles → (world : ℕ) → Kernel → (fd len : ℤ) → ℕ × ℤ
ftruncate h w k fd (negsuc n) = elim (fd_arg fd) [ ok f ↦ (w, to_ret einval) | err e ↦ (w, e) ]
ftruncate h w k fd (pos len) = elim (fd_arg fd) [
  | ok f ↦ resized h w len (cloned_file h w k (get_fd k.fds f))
  | err e ↦ (w, e)
]

abbrev pub mode_set : OpenFiles → (world file mode : ℕ) → Option ErrorKind → ℕ × ℤ
mode_set h w f mode none = answer_of (h.set_mode w f mode)
mode_set h w f mode (some e) = (w, io_error e)

abbrev pub chmodded : OpenFiles → (world mode : ℕ) → Result ℕ → ℕ × ℤ
chmodded h w mode (ok f) = mode_set h w f mode (h.metadata w f)
chmodded h w mode (err e) = (w, e)

-- `fchmod`: the mode keeps its low 12 bits.
unfoldable pub fchmod : OpenFiles → (world : ℕ) → Kernel → (fd mode : ℤ) → ℕ × ℤ
fchmod h w k fd mode =
    chmodded h w (bit_and (as_u32 mode) 4095) (cloned_file h w k (get_fd k.fds (as_u32 fd)))
