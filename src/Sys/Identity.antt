-- ===== src/Sys/Identity.antt =====
-- Identity and limits: src/sys/identity.rs.
use edge_libos.Sys.Guest.{copy_out}
use edge_libos.Kernel.{Kernel}
use edge_libos.Mem.Bytes.{to_le}
use edge_libos.Errno.{einval, eopnotsupp, eperm, to_ret}
use edge_libos.Base.{
  List, [], eq_ℤ, if◌then◌else◌, is_neg, is_zero, length, not, pos, refl, replicate, ℕ, ℤ, ◌&&◌,
  ◌++◌, ◌-◌, ◌^◌, ◌∷◌, ◌≡◌,
}

-- `UID`: what getuid, geteuid, getgid and getegid return.
abbrev pub uid : ℤ
uid = pos 1000

-- `getppid` and `getsid`.
abbrev pub getppid : ℤ
getppid = pos 1

-- `setsid`.
abbrev pub setsid : ℤ
setsid = to_ret eperm

-- The six fields of `struct utsname`: "Linux", "edge-libos", "6.0.0", "#1 wasm32", "wasm32" and
-- "(none)".
abbrev pub uts_fields : List (List ℕ)
uts_fields =
    (76 ∷ 105 ∷ 110 ∷ 117 ∷ 120 ∷ [])
    ∷ (101 ∷ 100 ∷ 103 ∷ 101 ∷ 45 ∷ 108 ∷ 105 ∷ 98 ∷ 111 ∷ 115 ∷ [])
    ∷ (54 ∷ 46 ∷ 48 ∷ 46 ∷ 48 ∷ [])
    ∷ (35 ∷ 49 ∷ 32 ∷ 119 ∷ 97 ∷ 115 ∷ 109 ∷ 51 ∷ 50 ∷ [])
    ∷ (119 ∷ 97 ∷ 115 ∷ 109 ∷ 51 ∷ 50 ∷ [])
    ∷ (40 ∷ 110 ∷ 111 ∷ 110 ∷ 101 ∷ 41 ∷ [])
    ∷ []

-- A field of 65 bytes: the text, and NULs.
abbrev pub uts_field : List ℕ → List ℕ
uts_field text = text ++ replicate (65 - length text) 0

abbrev pub concat_fields : List (List ℕ) → List ℕ
concat_fields [] = []
concat_fields (t ∷ ts) = uts_field t ++ concat_fields ts

-- `uname`.
unfoldable pub uname : Kernel → (buf_ptr : ℤ) → Kernel × ℤ
uname k buf_ptr = copy_out k buf_ptr (concat_fields uts_fields)

-- `prlimit64`: no limits, of the process itself.
unfoldable pub prlimit64 : Kernel → (pid old_limit_ptr : ℤ) → Kernel × ℤ
prlimit64 k pid old_limit_ptr =
    if not (eq_ℤ pid (pos 0)) && not (eq_ℤ pid (pos 1))
    then (k, to_ret eperm)
    else if is_zero old_limit_ptr
    then (k, pos 0)
    else copy_out k old_limit_ptr (to_le 8 (2 ^ 64 - 1) ++ to_le 8 (2 ^ 64 - 1))

-- `getrlimit`.
abbrev pub getrlimit : Kernel → (rlim_ptr : ℤ) → Kernel × ℤ
getrlimit k rlim_ptr = prlimit64 k (pos 0) rlim_ptr

-- `getgroups`: no groups.
unfoldable pub getgroups : (size list_ptr : ℤ) → ℤ
getgroups size list_ptr =
    if is_neg size
    then to_ret einval
    else if is_zero size
    then pos 0
    else if is_zero list_ptr
    then to_ret eopnotsupp
    else pos 0

-- `uname` writes 390 bytes.
pub uts_size : length (concat_fields uts_fields) ≡ 390
uts_size = refl
