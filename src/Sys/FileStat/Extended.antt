-- ===== src/Sys/FileStat/Extended.antt =====
-- `Statx` of src/sys/file.rs: the 256 bytes that statx writes. Signed fields are 64-bit patterns.
use edge_libos.Vfs.Stat.{Stat, field}
use edge_libos.Mem.Bytes.{from_le-to_le, to_le}
use edge_libos.Base.{
  List, bit_and, bit_or, if◌then◌else◌, leb, length, min, refl, replicate, ℕ, ◌%◌, ◌++◌, ◌<◌, ◌^◌,
  ◌≡◌,
}

-- `Statx`.
pub record Statx : Type 0 where
  pub mask : ℕ
  pub blksize : ℕ
  pub attributes : ℕ
  pub nlink : ℕ
  pub uid : ℕ
  pub gid : ℕ
  pub mode : ℕ
  pub ino : ℕ
  pub size : ℕ
  pub blocks : ℕ
  pub attributes_mask : ℕ
  pub atime_sec : ℕ
  pub atime_nsec : ℕ
  pub btime_sec : ℕ
  pub btime_nsec : ℕ
  pub ctime_sec : ℕ
  pub ctime_nsec : ℕ
  pub mtime_sec : ℕ
  pub mtime_nsec : ℕ
  pub rdev_major : ℕ
  pub rdev_minor : ℕ
  pub dev_major : ℕ
  pub dev_minor : ℕ
  pub mnt_id : ℕ
  pub dio_mem_align : ℕ
  pub dio_offset_align : ℕ

-- `Statx::filled_mask`: all but STATX_SIZE (512) of the basic fields, and no STATX_BTIME (2048).
abbrev pub filled_mask : ℕ
filled_mask = bit_or 1 (
    bit_or 2
      (bit_or 4 (bit_or 8 (bit_or 16 (bit_or 32 (bit_or 64 (bit_or 128 (bit_or 256 1024))))))))

-- `clamp_nsec`, of the pattern of an i64.
abbrev pub clamp_nsec : ℕ → ℕ
clamp_nsec n = if leb (2 ^ 63) n then 0 else min n 999999999

-- `Statx::from_stat`.
unfoldable pub from_stat : Stat → Statx
from_stat s = record {
  mask = filled_mask;
  blksize = s.blksize % 2 ^ 32;
  attributes = 0;
  nlink = s.nlink;
  uid = s.uid;
  gid = s.gid;
  mode = bit_and s.mode 65535;
  ino = s.ino;
  size = s.size;
  blocks = s.blocks;
  attributes_mask = 0;
  atime_sec = s.atime;
  atime_nsec = clamp_nsec s.atime_nsec;
  btime_sec = 0;
  btime_nsec = 0;
  ctime_sec = s.ctime;
  ctime_nsec = clamp_nsec s.ctime_nsec;
  mtime_sec = s.mtime;
  mtime_nsec = clamp_nsec s.mtime_nsec;
  rdev_major = 0;
  rdev_minor = 0;
  dev_major = 0;
  dev_minor = 0;
  mnt_id = 0;
  dio_mem_align = 0;
  dio_offset_align = 0;
}

-- `Statx::encode`.
unfoldable pub encode_statx : Statx → List ℕ
encode_statx s =
    to_le 4 s.mask
    ++ (to_le 4 s.blksize
        ++ (to_le 8 s.attributes
            ++ (to_le 8 s.nlink
                ++ (to_le 4 s.uid
                    ++ (to_le 4 s.gid
                        ++ (to_le 2 s.mode
                            ++ (replicate 6 0
                                ++ (to_le 8 s.ino
                                    ++ (to_le 8 s.size
                                        ++ (to_le 8 s.blocks
                                            ++ (to_le 8 s.attributes_mask
                                                ++ (to_le 8 s.atime_sec
                                                    ++ (to_le 8 s.atime_nsec
                                                        ++ (to_le 8 s.btime_sec
                                                            ++ (to_le 8 s.btime_nsec
                                                            ++ (to_le 8 s.ctime_sec
                                                            ++ (to_le 8 s.ctime_nsec
                                                            ++ (to_le 8 s.mtime_sec
                                                            ++ (to_le 8 s.mtime_nsec
                                                            ++ (to_le 4 s.rdev_major
                                                            ++ (to_le 4 s.rdev_minor
                                                            ++ (to_le 8 s.dev_major
                                                            ++ (to_le 8 s.dev_minor
                                                            ++ (to_le 8 s.mnt_id
                                                            ++ (to_le 4 s.dio_mem_align
                                                            ++ (to_le 4 s.dio_offset_align
                                                            ++ (replicate 80
                                                            0)))))))))))))))))))))))))))

-- The structure at the offsets that the comments of `Statx::encode` give.
abbrev pub decode_statx : List ℕ → Statx
decode_statx bs = record {
  mask = field bs 0 4;
  blksize = field bs 4 4;
  attributes = field bs 8 8;
  nlink = field bs 16 8;
  uid = field bs 24 4;
  gid = field bs 28 4;
  mode = field bs 32 2;
  ino = field bs 40 8;
  size = field bs 48 8;
  blocks = field bs 56 8;
  attributes_mask = field bs 64 8;
  atime_sec = field bs 72 8;
  atime_nsec = field bs 80 8;
  btime_sec = field bs 88 8;
  btime_nsec = field bs 96 8;
  ctime_sec = field bs 104 8;
  ctime_nsec = field bs 112 8;
  mtime_sec = field bs 120 8;
  mtime_nsec = field bs 128 8;
  rdev_major = field bs 136 4;
  rdev_minor = field bs 140 4;
  dev_major = field bs 144 8;
  dev_minor = field bs 152 8;
  mnt_id = field bs 160 8;
  dio_mem_align = field bs 168 4;
  dio_offset_align = field bs 172 4;
}

-- Every field fits in its width.
pub record IsStatx (s : Statx) : Type 0 where
  pub mask_ok : s.mask < 2 ^ 32
  pub blksize_ok : s.blksize < 2 ^ 32
  pub attributes_ok : s.attributes < 2 ^ 64
  pub nlink_ok : s.nlink < 2 ^ 64
  pub uid_ok : s.uid < 2 ^ 32
  pub gid_ok : s.gid < 2 ^ 32
  pub mode_ok : s.mode < 2 ^ 16
  pub ino_ok : s.ino < 2 ^ 64
  pub size_ok : s.size < 2 ^ 64
  pub blocks_ok : s.blocks < 2 ^ 64
  pub attributes_mask_ok : s.attributes_mask < 2 ^ 64
  pub atime_sec_ok : s.atime_sec < 2 ^ 64
  pub atime_nsec_ok : s.atime_nsec < 2 ^ 64
  pub btime_sec_ok : s.btime_sec < 2 ^ 64
  pub btime_nsec_ok : s.btime_nsec < 2 ^ 64
  pub ctime_sec_ok : s.ctime_sec < 2 ^ 64
  pub ctime_nsec_ok : s.ctime_nsec < 2 ^ 64
  pub mtime_sec_ok : s.mtime_sec < 2 ^ 64
  pub mtime_nsec_ok : s.mtime_nsec < 2 ^ 64
  pub rdev_major_ok : s.rdev_major < 2 ^ 32
  pub rdev_minor_ok : s.rdev_minor < 2 ^ 32
  pub dev_major_ok : s.dev_major < 2 ^ 64
  pub dev_minor_ok : s.dev_minor < 2 ^ 64
  pub mnt_id_ok : s.mnt_id < 2 ^ 64
  pub dio_mem_align_ok : s.dio_mem_align < 2 ^ 32
  pub dio_offset_align_ok : s.dio_offset_align < 2 ^ 32

-- The encoding has 256 bytes.
pub length-encode_statx : (s : Statx) → length (encode_statx s) ≡ 256
unfolding encode_statx to_le
length-encode_statx s = refl

-- Reading each field of an encoded structure at its offset gives the structure back.
pub decode_statx-encode_statx : (s : Statx) → IsStatx s → decode_statx (encode_statx s) ≡ s
unfolding encode_statx to_le
decode_statx-encode_statx s h = λ i. record {
  mask = from_le-to_le 4 s.mask h.mask_ok i;
  blksize = from_le-to_le 4 s.blksize h.blksize_ok i;
  attributes = from_le-to_le 8 s.attributes h.attributes_ok i;
  nlink = from_le-to_le 8 s.nlink h.nlink_ok i;
  uid = from_le-to_le 4 s.uid h.uid_ok i;
  gid = from_le-to_le 4 s.gid h.gid_ok i;
  mode = from_le-to_le 2 s.mode h.mode_ok i;
  ino = from_le-to_le 8 s.ino h.ino_ok i;
  size = from_le-to_le 8 s.size h.size_ok i;
  blocks = from_le-to_le 8 s.blocks h.blocks_ok i;
  attributes_mask = from_le-to_le 8 s.attributes_mask h.attributes_mask_ok i;
  atime_sec = from_le-to_le 8 s.atime_sec h.atime_sec_ok i;
  atime_nsec = from_le-to_le 8 s.atime_nsec h.atime_nsec_ok i;
  btime_sec = from_le-to_le 8 s.btime_sec h.btime_sec_ok i;
  btime_nsec = from_le-to_le 8 s.btime_nsec h.btime_nsec_ok i;
  ctime_sec = from_le-to_le 8 s.ctime_sec h.ctime_sec_ok i;
  ctime_nsec = from_le-to_le 8 s.ctime_nsec h.ctime_nsec_ok i;
  mtime_sec = from_le-to_le 8 s.mtime_sec h.mtime_sec_ok i;
  mtime_nsec = from_le-to_le 8 s.mtime_nsec h.mtime_nsec_ok i;
  rdev_major = from_le-to_le 4 s.rdev_major h.rdev_major_ok i;
  rdev_minor = from_le-to_le 4 s.rdev_minor h.rdev_minor_ok i;
  dev_major = from_le-to_le 8 s.dev_major h.dev_major_ok i;
  dev_minor = from_le-to_le 8 s.dev_minor h.dev_minor_ok i;
  mnt_id = from_le-to_le 8 s.mnt_id h.mnt_id_ok i;
  dio_mem_align = from_le-to_le 4 s.dio_mem_align h.dio_mem_align_ok i;
  dio_offset_align = from_le-to_le 4 s.dio_offset_align h.dio_offset_align_ok i;
}
