-- ===== src/Sys/Vectors.antt =====
-- Scatter reads and gather writes: readv and writev of src/sys/file.rs.
pub mod Gather
use edge_libos.Sys.File.Write.{write}
use edge_libos.Sys.File.{HostFile, SocketOp, read}
use edge_libos.Kernel.{Kernel}
use edge_libos.Mem.Bytes.{from_le}
use edge_libos.Mem.{guest_slice}
use edge_libos.Errno.{efault, einval, to_ret}
use edge_libos.Base.Result.{Result, and_then, err, map_ok, ok}
use edge_libos.Base.{
  List, [], as_usize, drop, if◌then◌else◌, is_neg, leb, ltb, negsuc, pos, suc, take, zero, ℕ, ℤ,
  ◌*◌, ◌+◌, ◌==◌, ◌^◌, ◌∷◌,
}

-- A `struct iovec` of the guest: two u32, the address and the length of a buffer.
abbrev pub iovec_of : List ℕ → ℕ × ℕ
iovec_of b = (from_le (take 4 b), from_le (take 4 (drop 4 b)))

-- `chunks_exact(8)` of `n` chunks.
abbrev pub iovecs : ℕ → List ℕ → List (ℕ × ℕ)
iovecs zero b = []
iovecs (suc n) b = iovec_of b ∷ iovecs n (drop 8 b)

-- The loop over the buffers. Empty ones are skipped; an error ends it, and is the result if nothing
-- has been moved; a short read or write ends it.
abbrev pub vec_round : (len total : ℕ) → (skip r rest : Kernel × ℤ) → Kernel × ℤ
vec_round len total skip r rest =
    if len == 0
    then skip
    else if is_neg r.1
    then (r.0, (if total == 0 then r.1 else pos total))
    else if ltb (as_usize r.1) len
    then (r.0, pos (total + as_usize r.1))
    else rest

unfoldable pub vec_loop :
    (Kernel → (base len : ℤ) → Kernel × ℤ) → Kernel → List (ℕ × ℕ) → (total : ℕ) → Kernel × ℤ
vec_loop op k [] total = (k, pos total)
vec_loop op k ((base, len) ∷ es) total =
    let skip = vec_loop op k es total in
    let r = op k (pos base) (pos len) in
    let rest = vec_loop op r.0 es (total + as_usize r.1) in vec_round len total skip r rest

-- The array of buffers, of at most 2^63 bytes.
abbrev pub read_iovecs : Kernel → (iov_ptr : ℤ) → ℕ → Result (List (ℕ × ℕ))
read_iovecs k iov_ptr count =
    if leb (2 ^ 63) (count * 8)
    then err (to_ret efault)
    else map_ok (iovecs count) (guest_slice k.memory iov_ptr (pos (count * 8)))

abbrev pub count_arg : ℤ → Result ℕ
count_arg (pos n) = ok n
count_arg (negsuc n) = err (to_ret einval)

abbrev pub loop_over :
    (Kernel → (base len : ℤ) → Kernel × ℤ) → Kernel → Result (List (ℕ × ℕ)) → Kernel × ℤ
loop_over op k (err e) = (k, e)
loop_over op k (ok es) = vec_loop op k es 0

-- `readv`.
unfoldable pub readv : HostFile → SocketOp → Kernel → (fd iov_ptr iov_count : ℤ) → Kernel × ℤ
readv h recv k fd iov_ptr iov_count =
    loop_over (λ j base len. read h recv j fd base len) k
      (and_then (count_arg iov_count) (read_iovecs k iov_ptr))

-- `writev`.
unfoldable pub writev : HostFile → SocketOp → Kernel → (fd iov_ptr iov_count : ℤ) → Kernel × ℤ
writev h send k fd iov_ptr iov_count =
    loop_over (λ j base len. write h send j fd base len) k
      (and_then (count_arg iov_count) (read_iovecs k iov_ptr))
