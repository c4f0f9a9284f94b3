-- ===== src/Tests/Paths.antt =====
-- Paths, listings and the small handlers at concrete inputs.
use mathlib.Core.List.{Perm}
use edge_libos.Utf8.{from_utf8_lossy, lossy}
use edge_libos.Vfs.Dirent.Order.{IsSorted}
use edge_libos.Tests.Memory.{a_kernel, small}
use edge_libos.Sys.Vectors.Gather.{InMemory, Sent, gathered, writev-Sent}
use edge_libos.Sys.Vectors.{iovecs, writev}
use edge_libos.Sys.File.{HostFile}
use edge_libos.Sys.Dirs.Keeps.{IsOpened, chdir-chroot-IsVfs, openat-IsOpened}
use edge_libos.Sys.Dirs.Stream.{drain, drain-listing}
use edge_libos.Sys.Dirs.{listing, open_file, openat}
use edge_libos.Sys.PathCalls.Inside.{CallInside, Handles-CallInside, by_mkdirat}
use edge_libos.Sys.PathCalls.{mkdirat}
use edge_libos.Sys.PathResolve.Cwd.{resolve-cwd}
use edge_libos.Sys.PathResolve.{dir_path, join_path, resolve}
use edge_libos.Vfs.Dirent.Parse.{IsEntry, TellAll, read_records, read_records-readdir_all}
use edge_libos.Vfs.Dirent.Records.{IsFileName}
use edge_libos.Vfs.Dirent.{encode_record, pack, readdir_all, shown, sort_entries}
use edge_libos.Vfs.Stat.{Encodes, IsStat, Stat, encode, encode-Encodes}
use edge_libos.Vfs.Stable.{resolve_path-again}
use edge_libos.Vfs.Inside.{Resolved, resolve_path-Resolved}
use edge_libos.Vfs.Host.{DirEntry, ErrorKind, FileSystem, FileType, Host, Metadata}
use edge_libos.Vfs.{IsVfs, Vfs, at_fdcwd, resolve_path}
use edge_libos.Paths.{IsName, components, normal, root_dir, segments, to_string}
use edge_libos.Kernel.{Kernel}
use edge_libos.Fd.Table.{get_fd}
use edge_libos.Fd.Objects.{Pipe, Resource}
use edge_libos.Mem.Bytes.{from_le, read_at, to_le}
use edge_libos.Mem.{Memory, owned}
use edge_libos.Base.Result.{IsNegative, Outcome, ok}
use edge_libos.Base.{
  All, List, [], arith, false, if◌then◌else◌, inl, inr, length, ltb, none, pos, refl, some, true, ℕ,
  ◌+◌, ◌<◌, ◌==◌, ◌^◌, ◌∷◌, ◌≡◌,
}
use edge_libos.Sys.Dirs
use edge_libos.Vfs

-- "home", "bin" and "etc".
abbrev home : List ℕ
home = 104 ∷ 111 ∷ 109 ∷ 101 ∷ []

abbrev bin : List ℕ
bin = 98 ∷ 105 ∷ 110 ∷ []

abbrev etc : List ℕ
etc = 101 ∷ 116 ∷ 99 ∷ []

-- The root is "/home", and the current directory "/home/bin".
abbrev a_vfs : Vfs
a_vfs = record {
  root = root_dir ∷ normal home ∷ [];
  cwd = root_dir ∷ normal home ∷ normal bin ∷ [];
}

home-IsName : IsName home
home-IsName = ((refl, (refl, (refl, (refl, tt)))), refl)

bin-IsName : IsName bin
bin-IsName = ((refl, (refl, (refl, tt))), refl)

a_vfs-IsVfs : IsVfs a_vfs
unfolding Vfs.Under
a_vfs-IsVfs = record {
  root_ok = (refl, (home-IsName, tt));
  cwd_ok = (refl, (home-IsName, (bin-IsName, tt)));
  cwd_under = (normal bin ∷ [], refl);
}

-- "../etc".
abbrev up_etc : List ℕ
up_etc = 46 ∷ 46 ∷ 47 ∷ 101 ∷ 116 ∷ 99 ∷ []

up_etc_resolves : resolve_path a_vfs at_fdcwd up_etc ≡ ok (root_dir ∷ normal home ∷ normal etc ∷ [])
unfolding resolve_path Vfs.normalize Vfs.walk components segments
up_etc_resolves = refl

resolve_path-Resolved_example : Resolved a_vfs (resolve_path a_vfs at_fdcwd up_etc)
resolve_path-Resolved_example = resolve_path-Resolved a_vfs at_fdcwd up_etc a_vfs-IsVfs

resolve_path-again_example :
    resolve_path a_vfs (pos 3) (to_string (root_dir ∷ normal home ∷ normal etc ∷ []))
    ≡ ok (root_dir ∷ normal home ∷ normal etc ∷ [])
resolve_path-again_example =
    resolve_path-again a_vfs at_fdcwd (pos 3) up_etc (root_dir ∷ normal home ∷ normal etc ∷ [])
      a_vfs-IsVfs up_etc_resolves

abbrev path_kernel : Kernel
path_kernel = record a_kernel {
  vfs = a_vfs;
  fds = record { table = (5, Resource.file 0) ∷ []; next_fd = 6; cloexec = [] };
  files =
      (
        0,
        record {
          inner = 0;
          pos = 0;
          path = some (root_dir ∷ normal home ∷ []);
          is_dir = true;
          dir_cache = some (1 ∷ 2 ∷ 3 ∷ []);
        },
      )
      ∷ [];
}

dir_known : dir_path path_kernel (get_fd path_kernel.fds 5) ≡ ok (root_dir ∷ normal home ∷ [])
unfolding dir_path
dir_known = refl

home-Under : Vfs.Under a_vfs.root (root_dir ∷ normal home ∷ [])
unfolding Vfs.Under
home-Under = ([], refl)

home_text :
    from_utf8_lossy (to_string (join_path (root_dir ∷ normal home ∷ []) etc))
    ≡ to_string (join_path (root_dir ∷ normal home ∷ []) etc)
unfolding from_utf8_lossy lossy components segments
home_text = refl

resolve-cwd_example :
    resolve path_kernel (pos 5) etc
    ≡ resolve_path (record a_vfs { cwd = root_dir ∷ normal home ∷ [] }) at_fdcwd etc
resolve-cwd_example =
    resolve-cwd path_kernel 5 (root_dir ∷ normal home ∷ []) etc (omega arith) dir_known
      (refl, (home-IsName, tt)) home-Under refl home_text

-- A host whose paths all are directories with one entry, "bin".
abbrev a_meta : Metadata
a_meta = record {
  file_type = FileType.dir;
  mode = 493;
  len = 4096;
  ino = 9;
  nlink = 2;
  accessed = none;
  modified = none;
  created = none;
}

abbrev an_entry : DirEntry
an_entry = record { name = bin; file_type = some FileType.dir; ino = some 9 }

abbrev a_fs : FileSystem
a_fs = record {
  canonicalize = λ p. inr p;
  metadata = λ p. inr a_meta;
  symlink_metadata = λ p. inr a_meta;
  read_dir = λ p. inr (an_entry ∷ []);
  read_link = λ p. inl ErrorKind.invalid_input;
}

abbrev a_host : Host
a_host = record {
  files = λ w. a_fs;
  perform = λ w c. (w, none);
  open_file = λ w p o. (w, inr 0);
  file_metadata = λ w i. inr a_meta;
}

Handles-CallInside_example :
    Outcome (CallInside a_vfs) IsNegative (mkdirat (λ b. true) path_kernel at_fdcwd (pos 97))
Handles-CallInside_example =
    Handles-CallInside (λ b. true) a_fs path_kernel a_vfs-IsVfs
      (mkdirat (λ b. true) path_kernel at_fdcwd (pos 97)) (by_mkdirat at_fdcwd (pos 97))

chdir-chroot-IsVfs_example :
    IsVfs (Dirs.chdir (λ b. true) a_fs path_kernel (pos 97)).0.vfs
    × IsVfs (Dirs.chroot (λ b. true) a_fs path_kernel (pos 97)).0.vfs
chdir-chroot-IsVfs_example = chdir-chroot-IsVfs (λ b. true) a_fs path_kernel a_vfs-IsVfs (pos 97)

openat-IsOpened_example :
    IsOpened path_kernel (openat (λ b. true) a_host 0 path_kernel at_fdcwd (pos 97) (pos 0)).1
openat-IsOpened_example =
    openat-IsOpened (λ b. true) a_host 0 path_kernel at_fdcwd (pos 97) (pos 0) a_vfs-IsVfs

abbrev a_stat : Stat
a_stat = record {
  dev = 0;
  ino = 9;
  nlink = 2;
  mode = 16877;
  uid = 1000;
  gid = 1000;
  rdev = 0;
  size = 4096;
  blksize = 4096;
  blocks = 8;
  atime = 1;
  atime_nsec = 2;
  mtime = 3;
  mtime_nsec = 4;
  ctime = 5;
  ctime_nsec = 6;
}

a_stat-IsStat : IsStat a_stat
a_stat-IsStat = record {
  dev_ok = omega arith;
  ino_ok = omega arith;
  nlink_ok = omega arith;
  mode_ok = omega arith;
  uid_ok = omega arith;
  gid_ok = omega arith;
  rdev_ok = omega arith;
  size_ok = omega arith;
  blksize_ok = omega arith;
  blocks_ok = omega arith;
  atime_ok = omega arith;
  atime_nsec_ok = omega arith;
  mtime_ok = omega arith;
  mtime_nsec_ok = omega arith;
  ctime_ok = omega arith;
  ctime_nsec_ok = omega arith;
}

encode-Encodes_example : Encodes a_stat (encode a_stat)
encode-Encodes_example = encode-Encodes a_stat a_stat-IsStat

abbrev boot : List ℕ
boot = 98 ∷ 111 ∷ 111 ∷ 116 ∷ []

bin-IsFileName : IsFileName bin
unfolding IsFileName
bin-IsFileName = (omega arith, (refl, (refl, (refl, tt))))

boot-IsFileName : IsFileName boot
unfolding IsFileName
boot-IsFileName = (omega arith, (refl, (refl, (refl, (refl, tt)))))

-- The host lists "boot", of which it tells nothing, before "bin", a directory.
abbrev two_entries : List DirEntry
two_entries = record { name = boot; file_type = none; ino = none } ∷ an_entry ∷ []

abbrev two_fs : FileSystem
two_fs = record a_fs { read_dir = λ p. inr two_entries }

two_entries-IsEntry : All IsEntry (shown two_entries)
unfolding from_utf8_lossy lossy
two_entries-IsEntry = (
  record { name_ok = boot-IsFileName; ino_ok = omega arith },
  (record { name_ok = bin-IsFileName; ino_ok = omega arith }, tt),
)

two_listing : length (pack [] (sort_entries (shown two_entries))) + 4 < 2 ^ 64
unfolding pack encode_record to_le from_utf8_lossy lossy
two_listing = omega arith

read_records-readdir_all_example :
    (listing : List ℕ) × (es : List DirEntry) × (readdir_all two_fs (root_dir ∷ []) ≡ ok listing)
    × Perm es (shown two_entries)
    × IsSorted es
    × TellAll (read_records 2 listing) es
read_records-readdir_all_example =
    read_records-readdir_all two_fs (root_dir ∷ []) two_entries refl two_entries-IsEntry two_listing

drain-listing_example : drain 9 a_fs 5 100 2 path_kernel ≡ 1 ∷ 2 ∷ 3 ∷ []
drain-listing_example =
    drain-listing a_fs (1 ∷ 2 ∷ 3 ∷ []) 5 0 100 2 9 path_kernel
      (record {
        inner = 0;
        pos = 0;
        path = some (root_dir ∷ normal home ∷ []);
        is_dir = true;
        dir_cache = some (1 ∷ 2 ∷ 3 ∷ []);
      })
      small
      (record {
        small = omega arith;
        bound = refl;
        there = refl;
        dir = refl;
        path = root_dir ∷ normal home ∷ [];
        known = refl;
        listed = refl;
        owns = refl;
        fits = omega arith;
        some_len = omega arith;
      })
      (omega arith)

-- One buffer of 2 bytes at 200, and the write end 4 of pipe 1.
abbrev vec_memory : Memory
vec_memory = record {
  size = 1000;
  byte = λ q. if q == 0 then 200 else if q == 4 then 2 else if ltb q 8 then 0 else 7;
}

abbrev a_pipe : Pipe
a_pipe = record { buf = []; closed = false; nonblock = false }

abbrev vec_kernel : Kernel
vec_kernel = record a_kernel {
  memory = some (owned vec_memory);
  fds = record { table = (4, Resource.pipe_write 1) ∷ []; next_fd = 5; cloexec = [] };
  pipes = (1, a_pipe) ∷ [];
}

abbrev no_file : HostFile
no_file = record {
  seek_start = λ s n. (s, none);
  seek_current = λ s n. (s, none);
  read_chunk = λ s n. (s, none);
  write_bytes = λ s b. (s, none);
  metadata_len = λ s. none;
}

one_buffer : All (InMemory vec_memory) (iovecs 1 (read_at 0 8 vec_memory.byte))
unfolding InMemory read_at from_le
one_buffer = (omega arith, tt)

writev-Sent_example :
    Sent no_file
      (λ k s. (k, pos 0))
      4
      1
      vec_memory
      a_pipe
      0
      (gathered vec_memory (iovecs 1 (read_at 0 8 vec_memory.byte)))
      (writev no_file (λ k s. (k, pos 0)) vec_kernel (pos 4) (pos 0) (pos 1))
writev-Sent_example =
    writev-Sent no_file (λ k s. (k, pos 0)) 4 1 vec_memory vec_kernel a_pipe 0 1
      (record { small = omega arith; bound = refl; there = refl; owns = refl }) (omega arith)
      (omega arith) one_buffer
