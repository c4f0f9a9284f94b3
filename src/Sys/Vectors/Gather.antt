-- ===== src/Sys/Vectors/Gather.antt =====
-- A gather write to a pipe is one write of all the buffers' bytes.
use edge_libos.Sys.Vectors.{iovecs, loop_over, read_iovecs, vec_loop, writev}
use edge_libos.Sys.File.Write.{write, write_checked, write_pipe, write_resource}
use edge_libos.Sys.File.{HostFile, SocketOp}
use edge_libos.Fd.Table.{get_fd}
use edge_libos.Fd.Objects.{Pipe, Resource}
use edge_libos.Kernel.{Kernel}
use edge_libos.Mem.Bounds.{guest_slice_in}
use edge_libos.Mem.Bytes.{length-read_at, read_at, read_at-zero}
use edge_libos.Mem.{Memory, owned}
use edge_libos.Map.{get, get-insert, insert}
use edge_libos.Base.Result.{map_ok, ok}
use edge_libos.Base.{
  All, Bool, List, [], ap, arith, as_usize, false, if◌then◌else◌, is_neg, leb, length,
  length-append, ltb, lt→ltb, pos, refl, some, subst, sym, true, try_u32, ℕ, ℤ, ◌*◌, ◌++◌, ◌+◌, ◌<◌,
  ◌==◌, ◌^◌, ◌∙◌, ◌∷◌, ◌≡◌, ◌≤◌,
}
use mathlib.Core.List.{append-nil, append_assoc}

-- The descriptor `fd` is the write end of the pipe `p`, which holds `x`, and the guest's memory is
-- `m`.
pub record IsWriteEnd (fd p : ℕ) (m : Memory) (k : Kernel) (x : Pipe) : Type 0 where
  pub small : fd < 2 ^ 32
  pub bound : get_fd k.fds fd ≡ ok (Resource.pipe_write p)
  pub there : get p k.pipes ≡ some x
  pub owns : k.memory ≡ some (owned m)

-- The bytes of the buffers, one after the other, and how many they are.
abbrev pub gathered : Memory → List (ℕ × ℕ) → List ℕ
gathered m [] = []
gathered m ((base, len) ∷ es) = read_at base len m.byte ++ gathered m es

-- A buffer that lies in the memory.
unfoldable pub InMemory : Memory → ℕ × ℕ → Type 0
InMemory m (base, len) = base + len ≤ m.size

abbrev pub appended : Kernel → ℕ → Pipe → List ℕ → Kernel
appended k p x bytes = record k { pipes = insert p (record x { buf = x.buf ++ bytes }) k.pipes }

module _ (h : HostFile) (send : SocketOp) (fd p : ℕ) (m : Memory) where
  write-pipe :
      (k : Kernel) (x : Pipe) (base len : ℕ)
      → IsWriteEnd fd p m k x
      → base + len ≤ m.size
      → 0 < len
      → write h send k (pos fd) (pos base) (pos len)
        ≡ (appended k p x (read_at base len m.byte), pos len)
  unfolding write write_checked write_resource write_pipe
  write-pipe k x base len e fits some_len =
      let narrow : try_u32 (pos fd) ≡ some fd = rw (lt→ltb fd (2 ^ 32) e.small) refl in
      let bytes = read_at base len m.byte in
      let size = length-read_at base len m.byte in
      let full : (length bytes == 0) ≡ false = ground arith in
      rw
        (
          narrow,
          write,
          guest_slice_in k.memory m base len e.owns fits,
          full,
          write_checked,
          e.bound,
          e.there,
          write_pipe,
        )
        (ap (λ n. (appended k p x bytes, pos n)) size)

  -- All the bytes are behind what the pipe held, and counted.
  pub Sent : Pipe → (total : ℕ) → List ℕ → Kernel × ℤ → Type 0
  Sent x total bytes r =
      (n : Kernel) × (r ≡ (n, pos (total + length bytes)))
      × IsWriteEnd fd p m n (record x { buf = x.buf ++ bytes })

  Sent-bytes :
      (x : Pipe) (total : ℕ) (r : Kernel × ℤ) (as' bs : List ℕ)
      → as' ≡ bs
      → Sent x total as' r
      → Sent x total bs r
  Sent-bytes x total r as' bs e s = subst (λ b. Sent x total b r) e s

  after_write :
      (k : Kernel) (x : Pipe) (bytes : List ℕ)
      → IsWriteEnd fd p m k x
      → IsWriteEnd fd p m (appended k p x bytes) (record x { buf = x.buf ++ bytes })
  after_write k x bytes e = record {
    small = e.small;
    bound = e.bound;
    there = ground (arith, get-insert p p (record x { buf = x.buf ++ bytes }) k.pipes);
    owns = e.owns;
  }

  Sent-more :
      (x : Pipe) (total : ℕ) (first rest : List ℕ) (r : Kernel × ℤ)
      → Sent (record x { buf = x.buf ++ first }) (total + length first) rest r
      → Sent x total (first ++ rest) r
  unfolding Sent
  Sent-more x total first rest r (n, e, w) =
      let sum = length-append first rest in
      let count : total + length first + length rest ≡ total + length (first ++ rest) =
        omega arith in
      (
        n,
        e ∙ ap (λ c. (n, pos c)) count,
        subst (λ b. IsWriteEnd fd p m n (record x { buf = b })) (append_assoc x.buf first rest) w,
      )

  vec_loop-Sent :
      (k : Kernel) (x : Pipe) (es : List (ℕ × ℕ)) (total : ℕ)
      → IsWriteEnd fd p m k x
      → All (InMemory m) es
      → Sent x total
          (gathered m es)
          (vec_loop (λ j base len. write h send j (pos fd) base len) k es total)
  unfolding vec_loop InMemory Sent
  vec_loop-Sent k x [] total e fits =
      let same : total ≡ total + length {A = ℕ} [] = omega arith in
      (
        k,
        ap (λ n. (k, pos n)) same,
        subst (λ b. IsWriteEnd fd p m k (record x { buf = b })) (sym (append-nil x.buf)) e,
      )
  vec_loop-Sent k x ((base, len) ∷ es) total e fits =
      let bytes = read_at base len m.byte in
      if_zero (vec_loop-Sent k x es total e fits.1)
        (vec_loop-Sent (appended k p x bytes) (record x { buf = x.buf ++ bytes }) es (total + len)
          (after_write k x bytes e) fits.1)
        (len == 0) refl
    where
      op : Kernel → (base len : ℤ) → Kernel × ℤ
      op j b l = write h send j (pos fd) b l

      bytes : List ℕ
      bytes = read_at base len m.byte

      skip : Kernel × ℤ
      skip = vec_loop op k es total

      r : Kernel × ℤ
      r = op k (pos base) (pos len)

      tail : Kernel × ℤ → Kernel × ℤ
      tail q =
          if is_neg q.1
          then (q.0, (if total == 0 then q.1 else pos total))
          else if ltb (as_usize q.1) len
          then (q.0, pos (total + as_usize q.1))
          else vec_loop op q.0 es (total + as_usize q.1)

      More : Type 0
      More =
          Sent (record x { buf = x.buf ++ bytes }) (total + len) (gathered m es)
            (vec_loop op (appended k p x bytes) es (total + len))

      moved : More → Sent x total (bytes ++ gathered m es) (tail (appended k p x bytes, pos len))
      moved more =
          let whole : ltb len len ≡ false = ground arith in
          let size = length-read_at base len m.byte in
          rw whole (
            Sent-more x total bytes (gathered m es) _ (
              subst
                (λ n.
                  Sent (record x { buf = x.buf ++ bytes }) (total + n) (gathered m es)
                    (vec_loop op (appended k p x bytes) es (total + len)))
                (sym size) more))

      if_zero :
          Sent x total (gathered m es) skip
          → More
          → (b : Bool) → (len == 0) ≡ b
          → Sent x total (bytes ++ gathered m es) (if b then skip else tail r)
      if_zero none_sent more true z =
          let no_len : len ≡ 0 = ground arith in
          Sent-bytes x total skip (gathered m es) (bytes ++ gathered m es)
            (ap (λ t. t ++ gathered m es)
              (sym (ap (λ n. read_at base n m.byte) no_len ∙ read_at-zero base m.byte)))
            none_sent
      if_zero none_sent more false z =
          let some_len : 0 < len = ground arith in
          subst (λ q. Sent x total (bytes ++ gathered m es) (tail q))
            (sym (write-pipe k x base len e fits.0 some_len)) (moved more)

  -- A writev to the write end of a pipe, of buffers that lie in the guest's memory, some of them
  -- perhaps empty, is one write: it returns the sum of their lengths and appends their bytes, in
  -- order, to the pipe.
  pub writev-Sent :
      (k : Kernel) (x : Pipe) (iov_ptr count : ℕ)
      → IsWriteEnd fd p m k x
      → count * 8 < 2 ^ 63
      → iov_ptr + count * 8 ≤ m.size
      → All (InMemory m) (iovecs count (read_at iov_ptr (count * 8) m.byte))
      → Sent x 0
          (gathered m (iovecs count (read_at iov_ptr (count * 8) m.byte)))
          (writev h send k (pos fd) (pos iov_ptr) (pos count))
  unfolding writev
  writev-Sent k x iov_ptr count e small fits all =
      let es = iovecs count (read_at iov_ptr (count * 8) m.byte) in
      let op = λ (j : Kernel) (base : ℤ) (len : ℤ). write h send j (pos fd) base len in
      let short : leb (2 ^ 63) (count * 8) ≡ false = ground arith in
      let array : read_iovecs k (pos iov_ptr) count ≡ ok es =
        rw short (
          ap (map_ok (iovecs count)) (guest_slice_in k.memory m iov_ptr (count * 8) e.owns fits)) in
      subst (λ q. Sent x 0 (gathered m es) (loop_over op k q)) (sym array)
        (vec_loop-Sent k x es 0 e all)
