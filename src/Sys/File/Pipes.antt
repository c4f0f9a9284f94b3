-- ===== src/Sys/File/Pipes.antt =====
-- Pipes through read and write.
use edge_libos.Map.{get, get-insert, insert}
use edge_libos.Errno.{eagain, to_ret}
use edge_libos.Base.{
  Bool-cases, List, [], ap, arith, drop, false, inl, inr, length, length-take, pos, refl, some,
  subst, sym, take, true, ℕ, ℤ, ◌++◌, ◌<◌, ◌==◌, ◌∙◌, ◌≡◌,
}
use edge_libos.Fd.Objects.{Pipe}
use edge_libos.Kernel.{Kernel}
use edge_libos.Sys.Dup.{close, close_pipes}
use edge_libos.Sys.File.Write.{write_pipe}
use edge_libos.Sys.File.{data_of, deliver, read_pipe}

take_all : (bs : List ℕ) (n : ℕ) → 0 < n → 0 < length bs → (length (take n bs) == 0) ≡ false
take_all bs n p q = ground (arith, length-take n bs)

-- A pipe is a queue: after a write, a read of `len` bytes returns the first `len` of the old bytes
-- followed by the written ones, without end of file, and leaves the rest in the same pipe.
pub read_pipe-write_pipe :
    (k : Kernel) (p len : ℕ) (x : Pipe) (bytes : List ℕ)
    → get p k.pipes ≡ some x
    → 0 < len
    → 0 < length (x.buf ++ bytes)
    → (n : Kernel) × (read_pipe (write_pipe k p bytes).0 p len
        ≡ data_of n (take len (x.buf ++ bytes)) false)
      × (get p n.pipes ≡ some (record x { buf = drop len (x.buf ++ bytes) }))
unfolding read_pipe write_pipe
read_pipe-write_pipe k p len x bytes there some_len some_bytes =
    let y : Pipe = record x { buf = x.buf ++ bytes } in
    let written : write_pipe k p bytes
        ≡ (record k { pipes = insert p y k.pipes }, pos (length bytes)) =
      rw (there, write_pipe) refl in
    let found : get p (insert p y k.pipes) ≡ some y = ground (arith, get-insert p p y k.pipes) in
    let not_empty = take_all (x.buf ++ bytes) len some_len some_bytes in
    let n : Kernel = record k {
      pipes = insert p (record y { buf = drop len y.buf }) (insert p y k.pipes);
    } in
    (
      n,
      subst (λ w. read_pipe w.0 p len ≡ data_of n (take len (x.buf ++ bytes)) false) (sym written)
          (rw (found, not_empty, read_pipe) refl),
      ground (arith, get-insert p p (record y { buf = drop len y.buf }) (insert p y k.pipes)),
    )

-- Closing descriptors never ends a pipe: a read of an empty pipe that is not marked as closed
-- answers -EAGAIN after any `close`, also of its last write end.
pub read_pipe-close :
    (k : Kernel) (p q len : ℕ) (fd : ℤ) (x : Pipe)
    → get p k.pipes ≡ some x
    → x.buf ≡ []
    → x.closed ≡ false
    → (deliver q (read_pipe (close k fd).0 p len)).1 ≡ to_ret eagain
unfolding read_pipe deliver
read_pipe-close k p q len fd x there empty not_closed =
    let same : get p (close k fd).0.pipes ≡ some x = ap (get p) (close_pipes k fd) ∙ there in
    let nothing : (length (take len x.buf) == 0) ≡ true =
      ground (arith, length-take len x.buf, empty) in
    elim (Bool-cases x.nonblock) [
      | inl nonblock ↦ rw (same, nothing, not_closed, nonblock, read_pipe) refl
      | inr blocking ↦ rw (same, nothing, not_closed, blocking, read_pipe) (rw nothing refl)
    ]
