-- ===== src/Vfs/Dirent/Records.antt =====
-- The size of a record, and what a reader finds at its offsets.
use edge_libos.Vfs.Stat.{field}
use edge_libos.Mem.{until_nul}
use mathlib.Core.List.{append_assoc}
use edge_libos.Vfs.Dirent.{
  Dirent64Record, encode_record, header, name_size, pad, record_size, resize,
}
use edge_libos.Mem.Bytes.{from_le, from_le-to_le, to_le}
use edge_libos.Base.{
  All, List, [], ap, arith, drop, drop-append_length, false, length, length-append,
  length-replicate, refl, replicate, suc, sym, take, zero, ℕ, ◌%◌, ◌++◌, ◌+◌, ◌-◌, ◌<◌, ◌==◌, ◌^◌,
  ◌∙◌, ◌∷◌, ◌≡◌, ◌≤◌,
}

pub header_size : (r : Dirent64Record) (n : ℕ) → length (header r n) ≡ 19
unfolding to_le
header_size r n = refl

-- A name that the host can give a file.
unfoldable pub IsFileName : List ℕ → Type 0
IsFileName name = (length name ≤ 255) × All (λ c. (c == 0) ≡ false) name

pad_small : (n : ℕ) → (8 - n % 8) % 8 < 8
pad_small n = omega arith

pub record_size-fits :
    (name : List ℕ) → length name ≤ 255 → record_size name % 2 ^ 16 ≡ record_size name
record_size-fits name h = let small = pad_small (name_size name) in omega arith

take-replicate : (m k : ℕ) → m ≤ k → take {A = ℕ} m (replicate k 0) ≡ replicate m 0
take-replicate zero k h = refl
take-replicate (suc m) zero h = absurd (omega arith)
take-replicate (suc m) (suc k) h = ap (◌∷◌ 0) (take-replicate m k (omega arith))

take-padded :
    (bs : List ℕ) (m k : ℕ)
    → m ≤ k
    → take (length bs + m) (bs ++ replicate k 0) ≡ bs ++ replicate m 0
take-padded [] m k h = let same : 0 + m ≡ m = omega arith in rw same (take-replicate m k h)
take-padded (b ∷ bs) m k h =
    let one : suc (length bs) + m ≡ suc (length bs + m) = omega arith in
    rw one (ap (◌∷◌ b) (take-padded bs m k h))

-- A buffer grows by zeros.
pub resize-grow : (n m : ℕ) (bs : List ℕ) → n ≡ length bs + m → resize n bs ≡ bs ++ replicate m 0
resize-grow n m bs h = ap (λ k. take k (bs ++ replicate n 0)) h ∙ take-padded bs m n (omega arith)

text_size :
    (r : Dirent64Record) (n : ℕ) → length (header r n ++ (r.name ++ 0 ∷ [])) ≡ 19 + name_size r.name
text_size r n =
    let outer = length-append (header r n) (r.name ++ 0 ∷ []) in
    let inner = length-append r.name (0 ∷ []) in
    let front = header_size r n in let one : length {A = ℕ} (0 ∷ []) ≡ 1 = refl in omega arith

-- The text of a record: its header, its name, and at least one NUL.
pub encode-text :
    (r : Dirent64Record)
    → length r.name ≤ 255
    → encode_record r ≡ header r (record_size r.name) ++ (r.name ++ replicate (suc (pad r.name)) 0)
unfolding encode_record
encode-text r h =
    ap (λ n. resize n (header r n ++ (r.name ++ 0 ∷ []))) (record_size-fits r.name h)
    ∙ resize-grow (record_size r.name) (pad r.name)
        (header r (record_size r.name) ++ (r.name ++ 0 ∷ []))
        (let size = text_size r (record_size r.name) in omega arith)
    ∙ append_assoc (header r (record_size r.name)) (r.name ++ 0 ∷ []) (replicate (pad r.name) 0)
    ∙ ap (λ t. header r (record_size r.name) ++ t)
        (append_assoc r.name (0 ∷ []) (replicate (pad r.name) 0))

-- A record is as long as its `reclen` says, which is 3 more than a multiple of 8.
pub length-encode_record :
    (r : Dirent64Record)
    → length r.name ≤ 255
    → (length (encode_record r) ≡ record_size r.name) × (length (encode_record r) % 8 ≡ 3)
length-encode_record r h =
    let size : length (encode_record r) ≡ record_size r.name =
      (ap length (encode-text r h)
        ∙ length-append (header r (record_size r.name)) (r.name ++ replicate (suc (pad r.name)) 0)
        ∙ (let front = header_size r (record_size r.name) in
            let back = length-append r.name (replicate (suc (pad r.name)) 0) in
            let zeros : length {A = ℕ} (replicate (suc (pad r.name)) 0) ≡ suc (pad r.name) =
              length-replicate (suc (pad r.name)) 0 in
            omega arith)) in
    (size, omega arith)

-- The first record of a buffer, as a guest reads it: by the offsets of `struct linux_dirent64`,
-- with the name up to its NUL.
abbrev pub first_record : List ℕ → Dirent64Record
first_record bs = record {
  ino = field bs 0 8;
  off = field bs 8 8;
  type = field bs 18 1;
  name = until_nul (drop 19 bs);
}

-- The offset of the next record.
abbrev pub reclen : List ℕ → ℕ
reclen bs = field bs 16 2

-- Every field fits in its width, and the name is one that a file can have.
pub record IsRecord (r : Dirent64Record) : Type 0 where
  pub ino_ok : r.ino < 2 ^ 64
  pub off_ok : r.off < 2 ^ 64
  pub type_ok : r.type < 256
  pub name_ok : IsFileName r.name

until_nul-name :
    (name rest : List ℕ) → All (λ c. (c == 0) ≡ false) name → until_nul (name ++ 0 ∷ rest) ≡ name
until_nul-name [] rest h = refl
until_nul-name (c ∷ name) rest h = rw h.0 (ap (◌∷◌ c) (until_nul-name name rest h.1))

-- Behind a header, the fields are those of the record and the name is read up to its NUL.
first_record-header :
    (r : Dirent64Record) (n : ℕ) (rest : List ℕ)
    → IsRecord r
    → first_record (header r n ++ (r.name ++ 0 ∷ rest)) ≡ r
unfolding to_le from_le IsFileName
first_record-header r n rest h = λ i. record {
  ino = from_le-to_le 8 r.ino h.ino_ok i;
  off = from_le-to_le 8 r.off h.off_ok i;
  type = one_byte i;
  name = until_nul-name r.name rest h.name_ok.1 i;
}
  where
    one_byte : from_le (r.type ∷ []) ≡ r.type
    one_byte = omega arith

reclen-header :
    (r : Dirent64Record) (n : ℕ) (rest : List ℕ) → n < 2 ^ 16 → reclen (header r n ++ rest) ≡ n
unfolding to_le
reclen-header r n rest h = from_le-to_le 2 n h

-- A buffer that starts with a record: its size, its fields and what follows.
pub first_record-encode_record :
    (r : Dirent64Record) (rest : List ℕ)
    → IsRecord r
    → (first_record (encode_record r ++ rest) ≡ r)
      × (reclen (encode_record r ++ rest) ≡ record_size r.name)
      × (drop (reclen (encode_record r ++ rest)) (encode_record r ++ rest) ≡ rest)
unfolding IsFileName
first_record-encode_record r rest h =
    let size = record_size r.name in
    let text : encode_record r ++ rest
        ≡ header r size ++ (r.name ++ 0 ∷ (replicate (pad r.name) 0 ++ rest)) =
      (ap (λ t. t ++ rest) (encode-text r h.name_ok.0)
        ∙ append_assoc (header r size) (r.name ++ replicate (suc (pad r.name)) 0) rest
        ∙ ap (λ t. header r size ++ t)
            (append_assoc r.name (replicate (suc (pad r.name)) 0) rest)) in
    let small : size < 2 ^ 16 = (let fits = record_size-fits r.name h.name_ok.0 in omega arith) in
    let len : reclen (encode_record r ++ rest) ≡ size =
      ap reclen text ∙ reclen-header r size _ small in
    (
      ap first_record text ∙ first_record-header r size _ h,
      len,
      drop-append_length (encode_record r) rest _
          (len ∙ sym (length-encode_record r h.name_ok.0).0),
    )

pub file_name_size : (name : List ℕ) → IsFileName name → length name ≤ 255
unfolding IsFileName
file_name_size name h = h.0
