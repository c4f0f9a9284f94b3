-- ===== src/Vfs/Dirent/Parse.antt =====
-- A guest that steps through a listing by the size of each record.
use edge_libos.Vfs.Dirent.Order.{
  IsSorted, insert_entry-All, sort_entries-IsSorted, sort_entries-Perm,
}
use edge_libos.Base.Result.{map_ok, ok}
use edge_libos.Paths.{PathBuf}
use edge_libos.Vfs.Host.{
  DirEntry, FileSystem, FileType, block_device, char_device, dir, dirent_type, fifo, file, map_err,
  socket, symlink,
}
use edge_libos.Vfs.Dirent.Records.{
  IsFileName, IsRecord, file_name_size, first_record, first_record-encode_record,
  length-encode_record, reclen,
}
use edge_libos.Vfs.Dirent.{
  Dirent64Record, encode_record, insert_entry, leb_bytes, pack, readdir_all, record_at, record_size,
  shown, sort_entries,
}
use edge_libos.Vfs.Stat.{or_else}
use edge_libos.Base.{
  All, List, Option, [], ap, arith, drop, if-cases, if◌then◌else◌, inr, length, length-append, none,
  refl, some, subst, suc, sym, zero, ℕ, ◌++◌, ◌+◌, ◌<◌, ◌==◌, ◌^◌, ◌∙◌, ◌∷◌, ◌≡◌, ◌≤◌,
}
use mathlib.Core.List.{Perm, append-nil, append_assoc}

-- What a guest reads from a buffer, in at most `n` records.
abbrev pub read_records : ℕ → List ℕ → List Dirent64Record
read_records zero bs = []
read_records (suc n) [] = []
read_records (suc n) (b ∷ bs) =
    first_record (b ∷ bs) ∷ read_records n (drop (reclen (b ∷ bs)) (b ∷ bs))

-- The type that a guest takes a number for.
abbrev pub type_of : ℕ → Option FileType
type_of n =
    if n == 4
    then some dir
    else if n == 8
    then some file
    else if n == 10
    then some symlink
    else if n == 2
    then some char_device
    else if n == 6
    then some block_device
    else if n == 1
    then some fifo
    else if n == 12
    then some socket
    else none

type_of-dirent_type : (t : Option FileType) → type_of (dirent_type t) ≡ t
unfolding dirent_type
type_of-dirent_type none = refl
type_of-dirent_type (some dir) = refl
type_of-dirent_type (some file) = refl
type_of-dirent_type (some symlink) = refl
type_of-dirent_type (some char_device) = refl
type_of-dirent_type (some block_device) = refl
type_of-dirent_type (some fifo) = refl
type_of-dirent_type (some socket) = refl

-- The records of a listing behind `len` bytes.
abbrev pub records : ℕ → List DirEntry → List Dirent64Record
records len [] = []
records len (e ∷ es) = record_at len e ∷ records (len + record_size e.name) es

abbrev pub flat : List Dirent64Record → List ℕ
flat [] = []
flat (r ∷ rs) = encode_record r ++ flat rs

-- An entry whose name and inode the host can give.
pub record IsEntry (e : DirEntry) : Type 0 where
  pub name_ok : IsFileName e.name
  pub ino_ok : or_else e.ino 0 < 2 ^ 64

dirent_type-small : (t : Option FileType) → dirent_type t < 256
unfolding dirent_type
dirent_type-small none = omega arith
dirent_type-small (some dir) = omega arith
dirent_type-small (some file) = omega arith
dirent_type-small (some symlink) = omega arith
dirent_type-small (some char_device) = omega arith
dirent_type-small (some block_device) = omega arith
dirent_type-small (some fifo) = omega arith
dirent_type-small (some socket) = omega arith

-- The loop appends the records of the entries.
pub pack-flat :
    (out : List ℕ) (es : List DirEntry)
    → All IsEntry es
    → pack out es ≡ out ++ flat (records (length out) es)
unfolding pack
pack-flat out [] h = sym (append-nil out)
pack-flat out (e ∷ es) h =
    let r = record_at (length out) e in
    let size = name_size_of e h.0 in
    let next : length (out ++ encode_record r) ≡ length out + record_size e.name =
      (let sum = length-append out (encode_record r) in
        let own = (length-encode_record r size).0 in omega arith) in
    pack-flat (out ++ encode_record r) es h.1
    ∙ append_assoc out (encode_record r) (flat (records (length (out ++ encode_record r)) es))
    ∙ ap (λ n. out ++ (encode_record r ++ flat (records n es))) next
  where
    name_size_of : (e : DirEntry) → IsEntry e → length e.name ≤ 255
    name_size_of e h = file_name_size e.name h.name_ok

read_records-some :
    (n : ℕ) (bs : List ℕ)
    → 0 < length bs
    → read_records (suc n) bs ≡ first_record bs ∷ read_records n (drop (reclen bs) bs)
read_records-some n [] h = absurd (omega arith)
read_records-some n (b ∷ bs) h = refl

-- Reading a buffer of records that starts with one.
read_records-cons :
    (n : ℕ) (r : Dirent64Record) (rest : List ℕ)
    → IsRecord r
    → read_records (suc n) (encode_record r ++ rest) ≡ r ∷ read_records n rest
read_records-cons n r rest h =
    let (head, size, tail) = first_record-encode_record r rest h in
    let some_bytes : 0 < length (encode_record r ++ rest) =
      (let sum = length-append (encode_record r) rest in
        let own = (length-encode_record r (file_name_size r.name h.name_ok)).0 in omega arith) in
    read_records-some n (encode_record r ++ rest) some_bytes
    ∙ ap
        (λ x.
          x ∷ read_records n (drop (reclen (encode_record r ++ rest)) (encode_record r ++ rest)))
        head
    ∙ ap (λ t. r ∷ read_records n t) tail

-- The record of an entry is well formed where its offset fits.
record_at-IsRecord :
    (len : ℕ) (e : DirEntry)
    → IsEntry e
    → len + length e.name + 24 < 2 ^ 64
    → IsRecord (record_at len e)
record_at-IsRecord len e h fits = record {
  ino_ok = h.ino_ok;
  off_ok = fits;
  type_ok = dirent_type-small e.file_type;
  name_ok = h.name_ok;
}

read-flat :
    (n len : ℕ) (es : List DirEntry)
    → All IsEntry es
    → length es ≤ n
    → len + length (flat (records len es)) + 4 < 2 ^ 64
    → read_records n (flat (records len es)) ≡ records len es
read-flat zero len [] h enough small = refl
read-flat (suc n) len [] h enough small = refl
read-flat zero len (e ∷ es) h enough small = absurd (omega arith)
read-flat (suc n) len (e ∷ es) h enough small =
    let r = record_at len e in
    let rest = flat (records (len + record_size e.name) es) in
    let size = (length-encode_record r (file_name_size e.name h.0.name_ok)).0 in
    let sum = length-append (encode_record r) rest in
    read_records-cons n r rest (record_at-IsRecord len e h.0 (omega arith))
    ∙ ap (◌∷◌ r) (read-flat n (len + record_size e.name) es h.1 (omega arith) (omega arith))

length-insert_entry :
    (e : DirEntry) (es : List DirEntry) → length (insert_entry e es) ≡ suc (length es)
length-insert_entry e [] = refl
length-insert_entry e (f ∷ fs) =
    if-cases (λ xs. length xs ≡ suc (suc (length fs))) (leb_bytes e.name f.name) _ _ (λ x. refl)
      (λ x. ap suc (length-insert_entry e fs))

sort_entries-All : (es : List DirEntry) → All IsEntry es → All IsEntry (sort_entries es)
sort_entries-All [] h = tt
sort_entries-All (e ∷ es) h =
    insert_entry-All IsEntry e (sort_entries es) h.0 (sort_entries-All es h.1)

length-sort_entries : (es : List DirEntry) → length (sort_entries es) ≡ length es
length-sort_entries [] = refl
length-sort_entries (e ∷ es) =
    length-insert_entry e (sort_entries es) ∙ ap suc (length-sort_entries es)

length-shown : (es : List DirEntry) → length (shown es) ≡ length es
length-shown [] = refl
length-shown (e ∷ es) = ap suc (length-shown es)

-- An inode that the host does not tell is 0.
abbrev pub HasInode : Option ℕ → ℕ → Type 0
HasInode none n = n ≡ 0
HasInode (some i) n = n ≡ i

-- What a record must say of an entry.
pub record Tells (r : Dirent64Record) (e : DirEntry) : Type 0 where
  pub name : r.name ≡ e.name
  pub type : type_of r.type ≡ e.file_type
  pub inode : HasInode e.ino r.ino

abbrev pub TellAll : List Dirent64Record → List DirEntry → Type 0
TellAll [] [] = Unit
TellAll [] (e ∷ es) = ⊥
TellAll (r ∷ rs) [] = ⊥
TellAll (r ∷ rs) (e ∷ es) = Tells r e × TellAll rs es

records-TellAll : (len : ℕ) (es : List DirEntry) → TellAll (records len es) es
records-TellAll len [] = tt
records-TellAll len (e ∷ es) = (
  record { name = refl; type = type_of-dirent_type e.file_type; inode = inode e.ino },
  records-TellAll (len + record_size e.name) es,
)
  where
    inode : (i : Option ℕ) → HasInode i (or_else i 0)
    inode none = refl
    inode (some n) = refl

-- A guest that steps through a whole listing by the size of each record reads one record for each
-- entry of the directory, with the entry's name (as `to_string_lossy` gives it), type and inode,
-- in the order of the names' bytes: if these names have at most 255 bytes and no NUL, inodes fit in
-- 64 bits, and so does the listing's size and 4.
pub read_records-readdir_all :
    (fs : FileSystem) (abs : PathBuf) (entries : List DirEntry)
    → fs.read_dir abs ≡ inr entries
    → All IsEntry (shown entries)
    → length (pack [] (sort_entries (shown entries))) + 4 < 2 ^ 64
    → (listing : List ℕ) × (es : List DirEntry) × (readdir_all fs abs ≡ ok listing)
      × Perm es (shown entries)
      × IsSorted es
      × TellAll (read_records (length entries) listing) es
unfolding readdir_all
read_records-readdir_all fs abs entries e h small =
    let es = sort_entries (shown entries) in
    let sorted = sort_entries-All (shown entries) h in
    let text = pack-flat [] es sorted in
    let count = length-sort_entries (shown entries) ∙ length-shown entries in
    let size : length (pack [] es) ≡ length (flat (records 0 es)) = ap length text in
    let back : read_records (length entries) (pack [] es) ≡ records 0 es =
      ap (read_records (length entries)) text
      ∙ read-flat (length entries) 0 es sorted (omega arith) (omega arith) in
    (
      pack [] es,
      es,
      ap (λ r. map_ok (λ xs. pack [] (sort_entries (shown xs))) (map_err r)) e,
      sort_entries-Perm (shown entries),
      sort_entries-IsSorted (shown entries),
      subst (λ rs. TellAll rs es) (sym back) (records-TellAll 0 es),
    )
