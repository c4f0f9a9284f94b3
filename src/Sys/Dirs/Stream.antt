-- ===== src/Sys/Dirs/Stream.antt =====
-- A directory stream: the calls of getdents64 on one descriptor, put together, are the listing.
use edge_libos.Errno.{enotdir, to_ret}
use edge_libos.Mem.Bytes.{write_at}
use edge_libos.Sys.Dirs.{
  deliver_slice, getdents64, listing, next_slice, stream_dir, stream_listed, stream_on, stream_path,
  stream_resource,
}
use edge_libos.Vfs.Host.{FileSystem}
use edge_libos.Paths.{PathBuf}
use edge_libos.Kernel.{Kernel}
use edge_libos.Fd.Table.{get_fd}
use edge_libos.Fd.Objects.{FilePos, Resource}
use edge_libos.Mem.Bounds.{bytes_of-copy_to, guest_slice_mut_in}
use edge_libos.Mem.{Memory, bytes_of, copy_to, owned}
use edge_libos.Map.{get, get-insert, insert}
use edge_libos.Base.Result.{ok}
use edge_libos.Base.{
  Bool-cases, List, [], ap, arith, as_usize, drop, drop-drop, false, if◌then◌else◌, inl, inr,
  is_neg, is_zero, leb, leb→le, length, length-drop, length-take, lt→ltb, min, pos, refl, some, suc,
  sym, take, take-append-drop, true, try_u32, zero, ℕ, ℤ, ◌++◌, ◌+◌, ◌-◌, ◌<◌, ◌==◌, ◌^◌, ◌||◌, ◌∙◌,
  ◌∷◌, ◌≡◌, ◌≤◌,
}

-- The descriptor `fd` is bound to the open directory `o`, whose state is `fp` and whose listing is
-- `c`, and the guest's buffer lies in its memory `m`.
pub record IsStream (fs : FileSystem) (c : List ℕ) (fd o buf len : ℕ) (k : Kernel) (fp : FilePos)
    (m : Memory) : Type 0 where
  pub small : fd < 2 ^ 32
  pub bound : get_fd k.fds fd ≡ ok (Resource.file o)
  pub there : get o k.files ≡ some fp
  pub dir : fp.is_dir ≡ true
  pub path : PathBuf
  pub known : fp.path ≡ some path
  pub listed : listing fs fp path ≡ ok c
  pub owns : k.memory ≡ some (owned m)
  pub fits : buf + len ≤ m.size
  pub some_len : 0 < len

-- What a guest collects in at most `n` calls, until a call returns 0 or fails.
pub drain : ℕ → FileSystem → (fd buf len : ℕ) → Kernel → List ℕ
drain zero fs fd buf len k = []
drain (suc n) fs fd buf len k =
    let r = getdents64 fs k (pos fd) (pos buf) (pos len) in
    let rest = drain n fs fd buf len r.0 in
    if is_zero r.1 || is_neg r.1 then [] else bytes_of r.0.memory buf (as_usize r.1) ++ rest

module _ (fs : FileSystem) (c : List ℕ) (fd o buf len : ℕ) where
  -- The call gets as far as the slice.
  getdents64-stream_on :
      (k : Kernel) (fp : FilePos) (m : Memory)
      → IsStream fs c fd o buf len k fp m
      → getdents64 fs k (pos fd) (pos buf) (pos len) ≡ stream_on k o fp (pos buf) len c
  unfolding getdents64
  getdents64-stream_on k fp m s =
      let narrow : try_u32 (pos fd) ≡ some fd = rw (lt→ltb fd (2 ^ 32) s.small) refl in
      let not_zero : (len == 0) ≡ false = (let l = s.some_len in ground arith) in
      rw (narrow, getdents64, guest_slice_mut_in k.memory m buf len s.owns s.fits, not_zero) refl
      ∙ ap (stream_resource fs k (pos buf) len) s.bound
      ∙ ap (stream_dir fs k o (pos buf) len) s.there
      ∙ ap (λ b. if b then stream_path fs k o fp (pos buf) len fp.path else (k, to_ret enotdir))
          s.dir
      ∙ ap (stream_path fs k o fp (pos buf) len) s.known
      ∙ ap (stream_listed k o fp (pos buf) len) s.listed

  -- The bytes of the slice, in the guest's memory.
  deliver_slice-some :
      (k : Kernel) (m : Memory) (p : ℕ) (bs : List ℕ)
      → k.memory ≡ some (owned m)
      → p + length bs ≤ m.size
      → 0 < length bs
      → deliver_slice k (pos p) bs ≡ (record k { memory = copy_to k.memory p bs }, pos (length bs))
  deliver_slice-some k m p [] e h l = absurd (omega arith)
  deliver_slice-some k m p (b ∷ bs) e h l =
      rw (guest_slice_mut_in k.memory m p (length (b ∷ bs)) e h, deliver_slice) refl

  length-next_slice :
      (start : ℕ)
      → start < length c
      → length (next_slice c start len).0 ≡ min len (length c - start)
  length-next_slice start h =
      let more : leb (length c) start ≡ false = ground arith in
      rw more (
        length-take (min (start + len) (length c) - start) (drop start c)
        ∙ (let rest = length-drop start c in omega arith))

  -- The state after a call that returned bytes.
  moved : FilePos → FilePos
  moved fp = record fp { pos = (next_slice c fp.pos len).1; dir_cache = some c }

  stepped : Kernel → FilePos → Kernel
  unfolding moved
  stepped k fp = record k {
    files = insert o (moved fp) k.files;
    memory = copy_to k.memory buf (next_slice c fp.pos len).0;
  }

  stepped-IsStream :
      (k : Kernel) (fp : FilePos) (m : Memory)
      → IsStream fs c fd o buf len k fp m
      → (n : Memory) × IsStream fs c fd o buf len (stepped k fp) (moved fp) n
  unfolding moved stepped
  stepped-IsStream k fp m s =
      let bs = (next_slice c fp.pos len).0 in
      let n : Memory = record m { byte = write_at buf bs m.byte } in
      (
        n,
        record {
          small = s.small;
          bound = s.bound;
          there = ground (arith, get-insert o o (moved fp) k.files);
          dir = s.dir;
          path = s.path;
          known = s.known;
          listed = refl;
          owns = rw s.owns refl;
          fits = s.fits;
          some_len = s.some_len;
        },
      )

  getdents64-more :
      (k : Kernel) (fp : FilePos) (m : Memory)
      → IsStream fs c fd o buf len k fp m
      → fp.pos < length c
      → getdents64 fs k (pos fd) (pos buf) (pos len)
        ≡ (stepped k fp, pos (min len (length c - fp.pos)))
  unfolding moved stepped
  getdents64-more k fp m s h =
      let size = length-next_slice fp.pos h in
      let l = s.some_len in
      let f = s.fits in
      getdents64-stream_on k fp m s
      ∙ deliver_slice-some (record k { files = insert o (moved fp) k.files }) m buf
          (next_slice c fp.pos len).0 s.owns (omega arith) (omega arith)
      ∙ ap (λ x. (stepped k fp, pos x)) size

  getdents64-end :
      (k : Kernel) (fp : FilePos) (m : Memory)
      → IsStream fs c fd o buf len k fp m
      → length c ≤ fp.pos
      → (getdents64 fs k (pos fd) (pos buf) (pos len)).1 ≡ pos 0
  getdents64-end k fp m s h =
      let done : leb (length c) fp.pos ≡ true = ground arith in
      ap (λ r. r.1) (getdents64-stream_on k fp m s) ∙ rw (done, stream_on) refl

  drop-end : (n : ℕ) (bs : List ℕ) → length bs ≤ n → drop n bs ≡ []
  drop-end zero [] h = refl
  drop-end (suc n) [] h = refl
  drop-end zero (b ∷ bs) h = absurd (omega arith)
  drop-end (suc n) (b ∷ bs) h = drop-end n bs (omega arith)

  -- One round of the collection, by what the call returned.
  collect : (n : ℕ) → Kernel × ℤ → List ℕ
  collect n r =
      if is_zero r.1 || is_neg r.1
      then []
      else bytes_of r.0.memory buf (as_usize r.1) ++ drain n fs fd buf len r.0

  collect-more :
      (n : ℕ) (k : Kernel) (fp : FilePos) (m : Memory)
      → IsStream fs c fd o buf len k fp m
      → fp.pos < length c
      → collect n (stepped k fp, pos (min len (length c - fp.pos)))
        ≡ (next_slice c fp.pos len).0 ++ drain n fs fd buf len (stepped k fp)
  unfolding collect stepped
  collect-more n k fp m s h =
      let size = length-next_slice fp.pos h in
      let l = s.some_len in
      let some_bytes : (min len (length c - fp.pos) == 0) ≡ false = ground arith in
      rw some_bytes (
        ap (λ x. x ++ drain n fs fd buf len (stepped k fp))
          (ap (bytes_of (copy_to k.memory buf (next_slice c fp.pos len).0) buf) (sym size)
            ∙ bytes_of-copy_to k.memory m buf (next_slice c fp.pos len).0 s.owns))

  -- A slice, and what lies behind it.
  next_slice-rest :
      (start : ℕ)
      → start < length c
      → (next_slice c start len).0 ++ drop (next_slice c start len).1 c ≡ drop start c
  next_slice-rest start h =
      let more : leb (length c) start ≡ false = ground arith in
      let n = min (start + len) (length c) - start in
      let behind : min (start + len) (length c) ≡ start + n = omega arith in
      rw more (
        ap (λ x. take n (drop start c) ++ drop x c) behind
        ∙ ap (λ x. take n (drop start c) ++ x) (drop-drop start n c)
        ∙ take-append-drop n (drop start c))

  -- Calling getdents64 until it returns 0 collects exactly the listing of the directory from the
  -- stream's position on: if the descriptor is bound to an open directory whose listing the host
  -- gives or the descriptor has cached, the guest's buffer is not empty and lies in its memory, and
  -- there are more calls than bytes.
  pub drain-listing :
      (n : ℕ) (k : Kernel) (fp : FilePos) (m : Memory)
      → IsStream fs c fd o buf len k fp m
      → length c - fp.pos < n
      → drain n fs fd buf len k ≡ drop fp.pos c
  unfolding drain collect moved
  drain-listing zero k fp m s h = absurd (omega arith)
  drain-listing (suc n) k fp m s h = elim (Bool-cases (leb (length c) fp.pos)) [
    | inl e ↦
        let done = leb→le (length c) fp.pos e in
        let last : (getdents64 fs k (pos fd) (pos buf) (pos len)).1 ≡ pos 0 =
          getdents64-end k fp m s done in
        ap
          (λ x.
            if is_zero x || is_neg x
            then []
            else bytes_of (getdents64 fs k (pos fd) (pos buf) (pos len)).0.memory buf (as_usize x)
              ++ drain n fs fd buf len (getdents64 fs k (pos fd) (pos buf) (pos len)).0)
          last
        ∙ sym (drop-end fp.pos c done)
    | inr e ↦
        let more : fp.pos < length c = ground arith in
        let (m', s') = stepped-IsStream k fp m s in
        let l = s.some_len in
        let further : fp.pos < (next_slice c fp.pos len).1 = ground arith in
        ap (collect n) (getdents64-more k fp m s more)
        ∙ collect-more n k fp m s more
        ∙ ap (λ x. (next_slice c fp.pos len).0 ++ x)
            (drain-listing n (stepped k fp) (moved fp) m' s' (omega arith))
        ∙ next_slice-rest fp.pos more
  ]
