-- ===== src/Sys/File.antt =====
-- src/sys/file.rs: read, write and lseek. The host's file object is a parameter.
pub mod Pipes
pub mod Chunks
pub mod Write
use edge_libos.Fd.Table.{get_fd, set_fd}
use edge_libos.Map.{get, insert}
use edge_libos.Base.Result.{err, ok}
use edge_libos.Mem.Bytes.{to_le}
use edge_libos.Mem.{copy_to, guest_slice_mut}
use edge_libos.Errno.{eacces, eagain, ebadf, efault, to_ret}
use edge_libos.Base.{
  Bool, List, Option, [], drop, false, if◌then◌else◌, leb, length, ltb, negsuc, none, not, pos,
  some, suc, take, try_u32, zero, ℕ, ℤ, ◌&&◌, ◌++◌, ◌+◌, ◌-◌, ◌==◌, ◌∷◌,
}
use edge_libos.Fd.Objects.{EventFdInner, Resource}
use edge_libos.Kernel.{Kernel}
use edge_libos.Sys.EventFd.{eventfd_read, require_u64_buf}

-- The trait `HostFile`, on the state of a file object. `read` takes the size of the buffer.
pub record HostFile : Type 0 where
  pub seek_start : ℕ → ℕ → ℕ × Option ℕ
  pub seek_current : ℕ → ℤ → ℕ × Option ℕ
  pub read_chunk : ℕ → ℕ → ℕ × Option (List ℕ)
  pub write_bytes : ℕ → List ℕ → ℕ × Option ℕ
  pub metadata_len : ℕ → Option ℕ

-- What reading found in a resource.
pub data Found : Type 0 where
  -- The state, the bytes, and whether the writer has closed.
  data_of : Kernel → List ℕ → Bool → Found
  -- The handler returns at once.
  answer : Kernel → ℤ → Found

-- Up to `len` bytes of a pipe.
pub read_pipe : Kernel → ℕ → ℕ → Found
read_pipe k p len = elim (get p k.pipes) [
  | none ↦ answer k (to_ret ebadf)
  | some x ↦
      let tmp = take len x.buf in
      let eof = (length tmp == 0) && x.closed in
      if (length tmp == 0) && not eof && x.nonblock
      then answer k (to_ret eagain)
      else data_of (record k { pipes = insert p (record x { buf = drop len x.buf }) k.pipes }) tmp
          eof
]

-- One round of the `loop` after the host has read: it stops at the end, at an error, or with
-- enough bytes, and goes on with `next` otherwise.
pub after_chunk :
    (ℕ → List ℕ → ℕ × Option (List ℕ)) → ℕ → List ℕ → ℕ × Option (List ℕ) → ℕ × Option (List ℕ)
after_chunk next len got (inner, none) = (inner, none)
after_chunk next len got (inner, some []) = (inner, some got)
after_chunk next len got (inner, some (b ∷ bs)) =
    let remaining = len - length got in
    if ltb remaining (length (b ∷ bs))
    then (inner, some (got ++ take remaining (b ∷ bs)))
    else if leb len (length (got ++ b ∷ bs))
    then (inner, some (got ++ b ∷ bs))
    else next inner (got ++ b ∷ bs)

-- The `loop` that reads chunks of 4096 bytes, on fuel: the host's state, and the bytes.
pub read_chunks : HostFile → ℕ → ℕ → ℕ → List ℕ → ℕ × Option (List ℕ)
unfolding after_chunk
read_chunks h zero inner len got = (inner, some got)
read_chunks h (suc fuel) inner len got =
    after_chunk (λ next more. read_chunks h fuel next len more) len got (h.read_chunk inner 4096)

-- Each round but the last adds a byte, so that `len` rounds are enough.
pub read_file : HostFile → Kernel → ℕ → ℕ → Found
unfolding read_chunks
read_file h k f len = elim (get f k.files) [
  | none ↦ answer k (to_ret ebadf)
  | some fp ↦
      let (inner, r) = read_chunks h (suc len) (h.seek_start fp.inner fp.pos).0 len [] in
      elim r [
        | none ↦
            answer (record k { files = insert f (record fp { inner = inner }) k.files })
              (to_ret eacces)
        | some got ↦
            data_of
              (record k {
                files = insert f (record fp { inner = inner; pos = fp.pos + length got }) k.files;
              })
              got false
      ]
]

-- The counter is drained before the buffer is written.
pub read_event_fd : Kernel → ℕ → EventFdInner → (buf len : ℤ) → Kernel × ℤ
read_event_fd k fd e buf len = elim (require_u64_buf len) [
  | err x ↦ (k, x)
  | ok _ ↦
      let (drained, r) = eventfd_read e in
      let k' = record k { fds = set_fd k.fds fd (Resource.event_fd drained) } in
      elim r [
        | err x ↦ (k', x)
        | ok v ↦ if v == 0 then (k', pos 0) else elim (guest_slice_mut k'.memory buf (pos 8)) [
          | err x ↦ (k', x)
          | ok p ↦ (record k' { memory = copy_to k'.memory p (to_le 8 v) }, pos 8)
        ]
      ]
]

-- `recvfrom` and `sendto` are parameters: their handlers are not modelled.
abbrev pub SocketOp : Type 0
SocketOp = Kernel → ℕ → Kernel × ℤ

pub read_resource : HostFile → SocketOp → Kernel → (fd : ℕ) (buf : ℤ) (len : ℕ) → Resource → Found
unfolding read_pipe read_file read_event_fd
read_resource h recv k fd buf len (Resource.stdin p) = read_pipe k p len
read_resource h recv k fd buf len (Resource.pipe_read p) = read_pipe k p len
read_resource h recv k fd buf len (Resource.file f) = read_file h k f len
read_resource h recv k fd buf len (Resource.event_fd e) =
    let (n, r) = read_event_fd k fd e buf (pos len) in answer n r
read_resource h recv k fd buf len (Resource.socket s) = let (n, r) = recv k s in answer n r
read_resource h recv k fd buf len (Resource.stdout p) = answer k (to_ret ebadf)
read_resource h recv k fd buf len (Resource.stderr p) = answer k (to_ret ebadf)
read_resource h recv k fd buf len (Resource.pipe_write p) = answer k (to_ret ebadf)
read_resource h recv k fd buf len (Resource.epoll e) = answer k (to_ret ebadf)

-- The end of `read`: `p` is the checked offset of the buffer.
pub deliver : ℕ → Found → Kernel × ℤ
deliver p (answer k r) = (k, r)
deliver p (data_of k tmp eof) =
    if eof
    then (k, pos 0)
    else if length tmp == 0
    then (k, to_ret eagain)
    else (record k { memory = copy_to k.memory p tmp }, pos (length tmp))

pub read_checked : HostFile → SocketOp → Kernel → (fd : ℕ) (buf : ℤ) (len : ℕ) → Kernel × ℤ
unfolding read_resource deliver
read_checked h recv k fd buf len = elim (guest_slice_mut k.memory buf (pos len)) [
  | err e ↦ (k, e)
  | ok p ↦ if len == 0 then (k, pos 0) else elim (get_fd k.fds fd) [
    | err e ↦ (k, e)
    | ok r ↦ deliver p (read_resource h recv k fd buf len r)
  ]
]

-- `read(fd, buf, len)`.
pub read : HostFile → SocketOp → Kernel → (fd buf len : ℤ) → Kernel × ℤ
unfolding read_checked
read h recv k fd buf len = elim (try_u32 fd) [
  | none ↦ (k, to_ret ebadf)
  | some f ↦ elim len [ negsuc n ↦ (k, to_ret efault) | pos n ↦ read_checked h recv k f buf n ]
]
