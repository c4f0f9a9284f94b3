-- ===== src/Vfs/Dirent.antt =====
-- Directory listings: `Dirent64Record`, `readdir_all`, `getdents_at` and `getdents` of src/vfs.rs.
-- Lists of bytes are text; the order of names is that of their bytes, as `str::cmp` has it.
pub mod Parse
pub mod Order
pub mod Records
use edge_libos.Utf8.{from_utf8_lossy}
use edge_libos.Base.Result.{Result, and_then, err, map_ok, ok}
use edge_libos.Vfs.Stat.{or_else}
use edge_libos.Mem.Bytes.{to_le}
use edge_libos.Vfs.Host.{DirEntry, FileSystem, dirent_type, map_err}
use edge_libos.Paths.{PathBuf}
use edge_libos.Errno.{einval, to_ret}
use edge_libos.Base.{
  Bool, List, [], drop, false, if◌then◌else◌, leb, length, ltb, min, replicate, take, true, ℕ, ◌%◌,
  ◌&&◌, ◌++◌, ◌+◌, ◌-◌, ◌==◌, ◌^◌, ◌||◌, ◌∷◌,
}

-- `Dirent64Record`.
pub record Dirent64Record : Type 0 where
  pub ino : ℕ
  pub off : ℕ
  pub type : ℕ
  pub name : List ℕ

-- `FIXED + name_len + pad`, before it is cut to 16 bits.
abbrev pub name_size : List ℕ → ℕ
name_size name = length name + 1

abbrev pub pad : List ℕ → ℕ
pad name = (8 - name_size name % 8) % 8

abbrev pub record_size : List ℕ → ℕ
record_size name = 19 + name_size name + pad name

-- `Vec::resize(n, 0)`.
abbrev pub resize : ℕ → List ℕ → List ℕ
resize n bs = take n (bs ++ replicate n 0)

abbrev pub header : Dirent64Record → ℕ → List ℕ
header r reclen = to_le 8 r.ino ++ (to_le 8 r.off ++ (to_le 2 reclen ++ r.type ∷ []))

-- `Dirent64Record::encode`.
unfoldable pub encode_record : Dirent64Record → List ℕ
encode_record r =
    let reclen = record_size r.name % 2 ^ 16 in
    resize reclen (header r reclen ++ (r.name ++ 0 ∷ []))

-- The order of `str::cmp`: whether `s` does not come behind `t`.
abbrev pub leb_bytes : List ℕ → List ℕ → Bool
leb_bytes [] t = true
leb_bytes (x ∷ s) [] = false
leb_bytes (x ∷ s) (y ∷ t) = ltb x y || ((x == y) && leb_bytes s t)

-- `sort_by` on the names: stable.
abbrev pub insert_entry : DirEntry → List DirEntry → List DirEntry
insert_entry e [] = e ∷ []
insert_entry e (f ∷ fs) =
    let rest = insert_entry e fs in if leb_bytes e.name f.name then e ∷ f ∷ fs else f ∷ rest

abbrev pub sort_entries : List DirEntry → List DirEntry
sort_entries [] = []
sort_entries (e ∷ es) = insert_entry e (sort_entries es)

-- The record of an entry behind `len` bytes of other records.
abbrev pub record_at : ℕ → DirEntry → Dirent64Record
record_at len e = record {
  ino = or_else e.ino 0;
  off = len + length e.name + 24;
  type = dirent_type e.file_type;
  name = e.name;
}

-- The loop of `readdir_all` that packs the records.
unfoldable pub pack : List ℕ → List DirEntry → List ℕ
pack out [] = out
pack out (e ∷ es) = pack (out ++ encode_record (record_at (length out) e)) es

-- The names of the host, as strings.
abbrev pub shown : List DirEntry → List DirEntry
shown [] = []
shown (e ∷ es) = record e { name = from_utf8_lossy e.name } ∷ shown es

-- `Vfs::readdir_all`.
unfoldable pub readdir_all : FileSystem → PathBuf → Result (List ℕ)
readdir_all fs abs =
    map_ok (λ entries. pack [] (sort_entries (shown entries))) (map_err (fs.read_dir abs))

-- `Vfs::getdents_at`: the bytes, and the size of the whole listing.
abbrev pub slice_from : List ℕ → (start len : ℕ) → List ℕ × ℕ
slice_from all start len =
    if leb (length all) start
    then ([], length all)
    else (take (min (start + len) (length all) - start) (drop start all), length all)

unfoldable pub getdents_at : FileSystem → PathBuf → (start len : ℕ) → Result (List ℕ × ℕ)
getdents_at fs abs start len =
    if len == 0
    then err (to_ret einval)
    else and_then (readdir_all fs abs) (λ all. ok (slice_from all start len))

-- `Vfs::getdents`.
abbrev pub truncate : ℕ → List ℕ → List ℕ
truncate len out = if ltb len (length out) then take len out else out

unfoldable pub getdents : FileSystem → PathBuf → (len : ℕ) → Result (List ℕ)
getdents fs abs len = and_then (getdents_at fs abs 0 len) (λ r. ok (truncate len r.0))
