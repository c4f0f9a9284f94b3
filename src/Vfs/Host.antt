-- ===== src/Vfs/Host.antt =====
-- What the host's std::fs says, a parameter of the virtual file system, and the translations of
-- src/vfs.rs: `io_to_errno`, `mode_from`, `dirent_type` and `time_split`.
use edge_libos.Paths.{PathBuf}
use edge_libos.Errno.{eacces, efault, eio, eloop, enoent, to_ret}
use edge_libos.Base.Result.{Result, err, ok}
use edge_libos.Base.{
  Bool, List, Option, bit_and, bit_or, false, inl, inr, negsuc, none, pos, some, true, ℕ, ℤ, ◌%◌,
  ◌+◌, ◌/◌, ◌⊎◌,
}

-- `io::ErrorKind`, the kinds that an `io_to_errno` tells apart.
pub data ErrorKind : Type 0 where
  not_found permission_denied already_exists invalid_input not_a_directory : ErrorKind
  is_a_directory directory_not_empty too_many_links other : ErrorKind

unfoldable pub io_to_errno : ErrorKind → ℤ
io_to_errno not_found = to_ret enoent
io_to_errno permission_denied = to_ret eacces
io_to_errno invalid_input = to_ret efault
io_to_errno too_many_links = to_ret eloop
io_to_errno _ = to_ret eio

pub data FileType : Type 0 where
  dir file symlink char_device block_device fifo socket : FileType

-- `SystemTime`, in nanoseconds from the epoch.
abbrev pub SystemTime : Type 0
SystemTime = ℤ

-- `fs::Metadata`. A time that the host does not know is `none`.
pub record Metadata : Type 0 where
  pub file_type : FileType
  pub mode : ℕ
  pub len : ℕ
  pub ino : ℕ
  pub nlink : ℕ
  pub accessed : Option SystemTime
  pub modified : Option SystemTime
  pub created : Option SystemTime

abbrev pub is_dir : FileType → Bool
is_dir dir = true
is_dir _ = false

-- An entry of `fs::read_dir`: its name, its type and its inode, where the host tells them.
pub record DirEntry : Type 0 where
  pub name : List ℕ
  pub file_type : Option FileType
  pub ino : Option ℕ

-- `fs::canonicalize`, `fs::metadata`, `fs::symlink_metadata`, `fs::read_dir` with the entries that
-- are readable, and `fs::read_link`.
pub record FileSystem : Type 0 where
  pub canonicalize : PathBuf → ErrorKind ⊎ PathBuf
  pub metadata : PathBuf → ErrorKind ⊎ Metadata
  pub symlink_metadata : PathBuf → ErrorKind ⊎ Metadata
  pub read_dir : PathBuf → ErrorKind ⊎ List DirEntry
  pub read_link : PathBuf → ErrorKind ⊎ List ℕ

-- What a path handler asks of the host.
pub data HostCall : Type 0 where
  create_dir remove_dir remove_file : PathBuf → HostCall
  rename hard_link : PathBuf → PathBuf → HostCall
  symlink_to : List ℕ → PathBuf → HostCall
  set_len : PathBuf → ℕ → HostCall
  set_modified : PathBuf → SystemTime → HostCall
  set_permissions : PathBuf → ℕ → HostCall

-- The options of an open.
pub record OpenOptions : Type 0 where
  pub read : Bool
  pub write : Bool
  pub create : Bool
  pub create_new : Bool
  pub truncate : Bool
  pub append : Bool

-- The host's file system, whose state is a number: what it answers to questions, to a call, to
-- the opening of a file, which it then numbers, and to a question about an open file.
pub record Host : Type 0 where
  pub files : ℕ → FileSystem
  pub perform : ℕ → HostCall → ℕ × Option ErrorKind
  pub open_file : ℕ → PathBuf → OpenOptions → ℕ × (ErrorKind ⊎ ℕ)
  pub file_metadata : ℕ → ℕ → ErrorKind ⊎ Metadata

-- `.map_err(io_to_errno)`.
abbrev pub map_err {ℓ} : {A : Type ℓ} → ErrorKind ⊎ A → Result A
map_err (inl e) = err (io_to_errno e)
map_err (inr a) = ok a

-- `mode_from`.
unfoldable pub mode_from : FileType → ℕ → ℕ
mode_from dir perm = bit_or (bit_and perm 4095) 16384
mode_from symlink perm = bit_or (bit_and perm 4095) 40960
mode_from _ perm = bit_or (bit_and perm 4095) 32768

-- `dirent_type`.
unfoldable pub dirent_type : Option FileType → ℕ
dirent_type (some dir) = 4
dirent_type (some file) = 8
dirent_type (some symlink) = 10
dirent_type (some char_device) = 2
dirent_type (some block_device) = 6
dirent_type (some fifo) = 1
dirent_type (some socket) = 12
dirent_type none = 0

-- `time_split`: seconds and nanoseconds. Before the epoch the seconds are 0 and the nanoseconds
-- those of the distance.
unfoldable pub time_split : SystemTime → ℕ × ℕ
time_split (pos t) = (t / 1000000000, t % 1000000000)
time_split (negsuc t) = (0, (t + 1) % 1000000000)
