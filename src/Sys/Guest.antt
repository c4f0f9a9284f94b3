-- ===== src/Sys/Guest.antt =====
-- The end that many handlers of src/sys share: `guest_slice_mut`, then `copy_from_slice`.
use edge_libos.Mem.Bounds.{Access, guest_slice_mut-Access}
use edge_libos.Kernel.{Kernel}
use edge_libos.Mem.Bytes.{write_at}
use edge_libos.Mem.{Memory, copy_to, guest_slice_mut, owned}
use edge_libos.Base.Result.{IsNegative, Result, err, ok}
use edge_libos.Base.{
  List, ap, arith, as_usize, inl, inr, length, pos, refl, some, subst, sym, ℕ, ℤ, ◌+◌, ◌≡◌, ◌≤◌,
}

-- `copy_from_slice` of bytes to the guest, behind the check of the range.
abbrev pub copied_to : Kernel → List ℕ → Result ℕ → Kernel × ℤ
copied_to k bytes (ok p) = (record k { memory = copy_to k.memory p bytes }, pos 0)
copied_to k bytes (err e) = (k, e)

unfoldable pub copy_out : Kernel → (ptr : ℤ) → List ℕ → Kernel × ℤ
copy_out k ptr bytes = copied_to k bytes (guest_slice_mut k.memory ptr (pos (length bytes)))

-- What such an end may do: refuse, and change nothing, or write the bytes inside the guest's memory
-- and nothing else.
-- `k` is the state before.
pub data Copied (k : Kernel) (ptr : ℤ) (bytes : List ℕ) : Kernel × ℤ → Type 0 where
  refused : (e : ℤ) → IsNegative e → Copied k ptr bytes (k, e)
  written :
      (m : Memory) (p : ℕ)
      → k.memory ≡ some (owned m)
      → ptr ≡ pos p
      → p + length bytes ≤ m.size
      → Copied k ptr bytes
          (record k { memory = some (owned (record m { byte = write_at p bytes m.byte })) }, pos 0)

pub copy_out-Copied :
    (k : Kernel) (ptr : ℤ) (bytes : List ℕ) → Copied k ptr bytes (copy_out k ptr bytes)
unfolding copy_out
copy_out-Copied k ptr bytes =
    go (guest_slice_mut k.memory ptr (pos (length bytes)))
      (guest_slice_mut-Access k.memory ptr (pos (length bytes)))
  where
    go :
        (r : Result ℕ)
        → Access k.memory ptr (pos (length bytes)) r
        → Copied k ptr bytes (copied_to k bytes r)
    go (ok p) (m, mem, at, n, len, fits) =
        let size : length bytes ≡ n = ap as_usize len in
        subst (λ o. Copied k ptr bytes (record k { memory = copy_to o p bytes }, pos 0)) (sym mem)
          (written m p mem at (omega arith))
    go (err e) (inl x) = refused e (rw x.0 refl)
    go (err e) (inr x) = refused e (rw x.0 refl)
