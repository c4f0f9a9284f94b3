-- ===== src/Vfs/Stat.antt =====
-- `Stat` of src/vfs.rs: the 120 bytes that stat system calls write. Signed fields are 64-bit
-- patterns.
use edge_libos.Mem.Bytes.{from_le, from_le-to_le, to_le}
use edge_libos.Vfs.Host.{Metadata, mode_from, time_split}
use edge_libos.Base.{
  List, Option, arith, drop, length, none, pos, refl, replicate, some, take, ℕ, ◌%◌, ◌*◌, ◌++◌, ◌+◌,
  ◌/◌, ◌<◌, ◌^◌, ◌∙◌, ◌≡◌,
}

-- `Stat`.
pub record Stat : Type 0 where
  pub dev : ℕ
  pub ino : ℕ
  pub nlink : ℕ
  pub mode : ℕ
  pub uid : ℕ
  pub gid : ℕ
  pub rdev : ℕ
  pub size : ℕ
  pub blksize : ℕ
  pub blocks : ℕ
  pub atime : ℕ
  pub atime_nsec : ℕ
  pub mtime : ℕ
  pub mtime_nsec : ℕ
  pub ctime : ℕ
  pub ctime_nsec : ℕ

-- `unwrap_or`.
abbrev pub or_else {ℓ} : {A : Type ℓ} → Option A → A → A
or_else none d = d
or_else (some a) d = a

-- `Stat::from_metadata`.
unfoldable pub from_metadata : Metadata → Stat
from_metadata meta =
    let access = time_split (or_else meta.accessed (pos 0)) in
    let modify = time_split (or_else meta.modified (pos 0)) in
    let change = time_split (or_else meta.created (or_else meta.modified (pos 0))) in
    record {
      dev = 0;
      ino = meta.ino;
      nlink = meta.nlink;
      mode = mode_from meta.file_type meta.mode;
      uid = 1000;
      gid = 1000;
      rdev = 0;
      size = meta.len;
      blksize = 4096;
      blocks = (meta.len + 511) / 512;
      atime = access.0;
      atime_nsec = access.1;
      mtime = modify.0;
      mtime_nsec = modify.1;
      ctime = change.0;
      ctime_nsec = change.1;
    }

-- `Stat::encode`.
unfoldable pub encode : Stat → List ℕ
encode s =
    to_le 8 s.dev
    ++ (to_le 8 s.ino
        ++ (to_le 8 s.nlink
            ++ (to_le 4 s.mode
                ++ (to_le 4 s.uid
                    ++ (to_le 4 s.gid
                        ++ (replicate 4 0
                            ++ (to_le 8 s.rdev
                                ++ (to_le 8 s.size
                                    ++ (to_le 8 s.blksize
                                        ++ (to_le 8 s.blocks
                                            ++ (to_le 8 s.atime
                                                ++ (to_le 8 s.atime_nsec
                                                    ++ (to_le 8 s.mtime
                                                        ++ (to_le 8 s.mtime_nsec
                                                            ++ (to_le 8 s.ctime
                                                            ++ (to_le 8 s.ctime_nsec))))))))))))))))

-- The number of `n` bytes at offset `p` of a buffer.
abbrev pub field : List ℕ → (p n : ℕ) → ℕ
field bs p n = from_le (take n (drop p bs))

-- The structure that a guest reads at the offsets that stand beside the fields of `Stat`, but for the
-- last, which has 108 there and is read where `st_ctime` ends.
abbrev pub decode : List ℕ → Stat
decode bs = record {
  dev = field bs 0 8;
  ino = field bs 8 8;
  nlink = field bs 16 8;
  mode = field bs 24 4;
  uid = field bs 28 4;
  gid = field bs 32 4;
  rdev = field bs 40 8;
  size = field bs 48 8;
  blksize = field bs 56 8;
  blocks = field bs 64 8;
  atime = field bs 72 8;
  atime_nsec = field bs 80 8;
  mtime = field bs 88 8;
  mtime_nsec = field bs 96 8;
  ctime = field bs 104 8;
  ctime_nsec = field bs 112 8;
}

-- Every field fits in its width.
pub record IsStat (s : Stat) : Type 0 where
  pub dev_ok : s.dev < 2 ^ 64
  pub ino_ok : s.ino < 2 ^ 64
  pub nlink_ok : s.nlink < 2 ^ 64
  pub mode_ok : s.mode < 2 ^ 32
  pub uid_ok : s.uid < 2 ^ 32
  pub gid_ok : s.gid < 2 ^ 32
  pub rdev_ok : s.rdev < 2 ^ 64
  pub size_ok : s.size < 2 ^ 64
  pub blksize_ok : s.blksize < 2 ^ 64
  pub blocks_ok : s.blocks < 2 ^ 64
  pub atime_ok : s.atime < 2 ^ 64
  pub atime_nsec_ok : s.atime_nsec < 2 ^ 64
  pub mtime_ok : s.mtime < 2 ^ 64
  pub mtime_nsec_ok : s.mtime_nsec < 2 ^ 64
  pub ctime_ok : s.ctime < 2 ^ 64
  pub ctime_nsec_ok : s.ctime_nsec < 2 ^ 64

-- The encoding has 120 bytes.
pub length-encode : (s : Stat) → length (encode s) ≡ 120
unfolding encode to_le
length-encode s = refl

-- The structure is read back, and what stands at the offset 108.
pub record Encodes (s : Stat) (bs : List ℕ) : Type 0 where
  pub read_back : decode bs ≡ s
  pub at_108 : field bs 108 8 ≡ s.ctime / 2 ^ 32 + s.ctime_nsec % 2 ^ 32 * 2 ^ 32

decode-encode : (s : Stat) → IsStat s → decode (encode s) ≡ s
unfolding encode to_le
decode-encode s h = λ i. record {
  dev = from_le-to_le 8 s.dev h.dev_ok i;
  ino = from_le-to_le 8 s.ino h.ino_ok i;
  nlink = from_le-to_le 8 s.nlink h.nlink_ok i;
  mode = from_le-to_le 4 s.mode h.mode_ok i;
  uid = from_le-to_le 4 s.uid h.uid_ok i;
  gid = from_le-to_le 4 s.gid h.gid_ok i;
  rdev = from_le-to_le 8 s.rdev h.rdev_ok i;
  size = from_le-to_le 8 s.size h.size_ok i;
  blksize = from_le-to_le 8 s.blksize h.blksize_ok i;
  blocks = from_le-to_le 8 s.blocks h.blocks_ok i;
  atime = from_le-to_le 8 s.atime h.atime_ok i;
  atime_nsec = from_le-to_le 8 s.atime_nsec h.atime_nsec_ok i;
  mtime = from_le-to_le 8 s.mtime h.mtime_ok i;
  mtime_nsec = from_le-to_le 8 s.mtime_nsec h.mtime_nsec_ok i;
  ctime = from_le-to_le 8 s.ctime h.ctime_ok i;
  ctime_nsec = from_le-to_le 8 s.ctime_nsec h.ctime_nsec_ok i;
}

-- The upper half of one number and the lower half of the next, read as one.
halves_read :
    (c n : ℕ)
    → from_le (drop 4 (to_le 8 c) ++ take 4 (to_le 8 n)) ≡ c / 2 ^ 32 % 2 ^ 32 + n % 2 ^ 32 * 2 ^ 32
unfolding to_le from_le
halves_read c n = omega arith

-- Reading each field of an encoded structure at the offset that the source gives beside it, the
-- nanoseconds of the change at 112, gives the structure back, if its fields fit in their widths. At
-- 108, which the source gives for them, stand the upper half of the change's seconds and the lower
-- half of its nanoseconds.
pub encode-Encodes : (s : Stat) → IsStat s → Encodes s (encode s)
unfolding encode to_le
encode-Encodes s h = record {
  read_back = decode-encode s h;
  at_108 = halves_read s.ctime s.ctime_nsec ∙ (let c = h.ctime_ok in omega arith);
}
