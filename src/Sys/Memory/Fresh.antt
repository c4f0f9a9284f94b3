-- ===== src/Sys/Memory/Fresh.antt =====
-- The mmap system call returns fresh zeroed memory, and what it loses on the way.
use edge_libos.Mem.Bytes.{write_at-outside, write_at-replicate}
use edge_libos.Sys.Memory.{Grow, mmap, mmap_answer, mmap_decided, mmap_owned, mmap_place, zero_fill}
use edge_libos.Mm.Allocator.Map.{IsValidAllocator, Mapped, Refusal, mmap-Mapped, mmap-Refusal}
use edge_libos.Mm.Allocator.Layout.{spare, spare-above, spare-le_one}
use edge_libos.Mm.Allocator
use edge_libos.Mm.Allocator.{LinearAllocator, MmapResult, first_arena_base, page_size}
use edge_libos.Mem.{Memory, owned, owned_memory}
use edge_libos.Kernel.{Kernel}
use edge_libos.Base.{
  Bool-cases, Option-cases, arith, as_u32, inl, inr, is_neg, leb, length-replicate, negsuc, pos,
  refl, replicate, some, subst, suc, sym, true, ℕ, ℤ, ◌%◌, ◌*◌, ◌+◌, ◌-◌, ◌<◌, ◌^◌, ◌∙◌, ◌≡◌, ◌≤◌,
  ◌⊎◌,
}

-- The allocator is valid, and what it can hand out lies in the linear memory.
pub record IsReady (mm : LinearAllocator) (m : Memory) : Type 0 where
  pub valid : IsValidAllocator mm
  pub backed : (x : ℕ) → 0 < spare mm.arenas x → x < m.size
  pub small : m.size < 2 ^ 32

-- What is asked of `Memory::grow`. Its documentation says that the pages asked for are added and the
-- old bytes stay. That the memory stays below 4 GiB is an assumption on top of it: the library itself
-- lets a memory grow to exactly 4 GiB.
pub record GrowLaws (grow : Grow) : Type 0 where
  pub grown_size :
      (m n : Memory) (pages : ℕ) → grow m pages ≡ some n → n.size ≡ m.size + pages * page_size
  pub grown_small : (m n : Memory) (pages : ℕ) → grow m pages ≡ some n → n.size < 2 ^ 32
  pub grown_byte :
      (m n : Memory) (pages q : ℕ) → grow m pages ≡ some n → q < m.size → n.byte q ≡ m.byte q

pub Mapped-IsReady :
    (mm : LinearAllocator) (m : Memory) (len : ℕ) (r : LinearAllocator × MmapResult)
    → IsReady mm m
    → Mapped mm m.size len r
    → IsReady r.0 m
Mapped-IsReady mm m len (n, MmapResult.ok addr) v h = record {
  valid = h.0;
  backed = λ x s. ground (arith, h.5 x, v.backed x);
  small = v.small;
}
Mapped-IsReady mm m len (n, MmapResult.need_grow pages) v h = subst (λ k. IsReady k m) (sym h.0) v
Mapped-IsReady mm m len (n, MmapResult.err e) v h = subst (λ k. IsReady k m) (sym h) v

-- The range that a successful decision returns.
pub record IsFresh (mm : LinearAllocator) (m : Memory) (addr len : ℕ) : Type 0 where
  pub inside : addr + len ≤ m.size
  pub aligned : addr % 8 ≡ 0
  pub taken : (x : ℕ) → addr ≤ x → x < addr + len → spare mm.arenas x ≡ 0

pub Mapped-IsFresh :
    (mm n : LinearAllocator) (m : Memory) (len addr : ℕ)
    → IsReady mm m
    → 0 < len
    → Mapped mm m.size len (n, MmapResult.ok addr)
    → IsFresh n m addr len
Mapped-IsFresh mm n m len addr v p h = record {
  inside = ground (arith, h.5 (addr + len - 1), v.backed (addr + len - 1));
  aligned = h.4;
  taken = λ x lo hi. ground (
    arith,
    h.5 x,
    spare-le_one first_arena_base mm.arenas mm.high_water x v.valid.stacked,
    spare-above first_arena_base mm.arenas mm.high_water x v.valid.stacked,
  );
}

-- The outcomes of the mmap system call on a linear memory `m`.
abbrev pub MmapOutcome : Memory → ℕ → Kernel × ℤ → Type 0
MmapOutcome m len (k, pos addr) =
    (n : Memory) × (k.memory ≡ some (owned n))
    × IsReady k.mm n
    × IsFresh k.mm n addr len
    × ((q : ℕ) → addr ≤ q → q < addr + len → n.byte q ≡ 0)
    × ((q : ℕ) → q < m.size → (q < addr) ⊎ (addr + len ≤ q) → n.byte q ≡ m.byte q)
MmapOutcome m len (k, negsuc e) =
    (n : Memory) × (k.memory ≡ some (owned n))
    × IsReady k.mm n
    × ((q : ℕ) → q < m.size → n.byte q ≡ m.byte q)

zero_fill-size : (m : Memory) (start len : ℕ) → (zero_fill m start len).size ≡ m.size
unfolding zero_fill
zero_fill-size m start len = ground arith

zero_fill-inside :
    (m : Memory) (start len q : ℕ)
    → start + len ≤ m.size
    → start ≤ q
    → q < start + len
    → (zero_fill m start len).byte q ≡ 0
unfolding zero_fill
zero_fill-inside m start len q fits lo hi =
    let inside : leb (start + len) m.size ≡ true = ground arith in
    rw inside (write_at-replicate start len 0 m.byte q lo hi)

zero_fill-outside :
    (m : Memory) (start len q : ℕ)
    → (q < start) ⊎ (start + len ≤ q)
    → (zero_fill m start len).byte q ≡ m.byte q
unfolding zero_fill
zero_fill-outside m start len q h = elim (Bool-cases (leb (start + len) m.size)) [
  | inl inside ↦ rw inside (
      write_at-outside start (replicate len 0) m.byte q
        (subst (λ l. (q < start) ⊎ (start + l ≤ q)) (sym (length-replicate len 0)) h))
  | inr over ↦ rw over refl
]

IsReady-size : (mm : LinearAllocator) (m n : Memory) → n.size ≡ m.size → IsReady mm m → IsReady mm n
IsReady-size mm m n e v = record {
  valid = v.valid;
  backed = λ x s. ground (arith, v.backed x s);
  small = ground (arith, v.small);
}

IsFresh-size :
    (mm : LinearAllocator) (m n : Memory) (addr len : ℕ)
    → n.size ≡ m.size
    → IsFresh mm m addr len
    → IsFresh mm n addr len
IsFresh-size mm m n addr len e v = record {
  inside = ground (arith, v.inside);
  aligned = v.aligned;
  taken = v.taken;
}

module _ (k : Kernel) (m : Memory) (len : ℕ) (v : IsReady k.mm m) (p : 0 < len) where
  decision-MmapOutcome :
      (r : LinearAllocator × MmapResult)
      → Mapped k.mm m.size len r
      → (neg : (n : LinearAllocator) (e : ℤ) → r ≡ (n, MmapResult.err e) → is_neg e ≡ true)
      → MmapOutcome m len (mmap_answer k m len r)
  unfolding mmap_answer
  decision-MmapOutcome (n, MmapResult.ok addr) h neg =
      let size = zero_fill-size m addr len in
      let fresh = Mapped-IsFresh k.mm n m len addr v p h in
      (
        zero_fill m addr len,
        refl,
        IsReady-size n m (zero_fill m addr len) size
            (Mapped-IsReady k.mm m len (n, MmapResult.ok addr) v h),
        IsFresh-size n m (zero_fill m addr len) addr len size fresh,
        λ q. zero_fill-inside m addr len q fresh.inside,
        λ q old. zero_fill-outside m addr len q,
      )
  decision-MmapOutcome (n, MmapResult.need_grow pages) h neg =
      (m, refl, Mapped-IsReady k.mm m len (n, MmapResult.need_grow pages) v h, λ q old. refl)
  decision-MmapOutcome (n, MmapResult.err (pos e)) h neg = absurd (cc (neg n (pos e) refl))
  decision-MmapOutcome (n, MmapResult.err (negsuc e)) h neg =
      (m, refl, Mapped-IsReady k.mm m len (n, MmapResult.err (negsuc e)) v h, λ q old. refl)

pub Refusal-is_neg : (len flags : ℕ) (fd off e : ℤ) → Refusal len flags fd off e → is_neg e ≡ true
Refusal-is_neg len flags fd off e (inl h) = rw h.1 refl
Refusal-is_neg len flags fd off e (inr h) = rw h.1 refl

mmap_place-MmapOutcome :
    (k : Kernel) (m : Memory) (len flags : ℕ) (fd off : ℤ)
    → IsReady k.mm m
    → 0 < len
    → MmapOutcome m len (mmap_place k m len flags fd off)
unfolding mmap_place
mmap_place-MmapOutcome k m len flags fd off v p =
    decision-MmapOutcome k m len v p (Allocator.mmap k.mm m.size len flags fd off)
      (mmap-Mapped k.mm m.size len flags fd off v.valid p v.small)
      (λ n e h. Refusal-is_neg len flags fd off e (mmap-Refusal k.mm n m.size len flags fd off e h))

-- Growth before the second decision keeps the old bytes.
MmapOutcome-grown :
    (m g : Memory) (len : ℕ)
    → m.size ≤ g.size
    → ((q : ℕ) → q < m.size → g.byte q ≡ m.byte q)
    → (r : Kernel × ℤ) → MmapOutcome g len r
    → MmapOutcome m len r
MmapOutcome-grown m g len larger same (k, pos addr) (n, mem, ready, fresh, zeroed, kept) =
    (n, mem, ready, fresh, zeroed, λ q old out. kept q (omega arith) out ∙ same q old)
MmapOutcome-grown m g len larger same (k, negsuc e) (n, mem, ready, kept) =
    (n, mem, ready, λ q old. kept q (omega arith) ∙ same q old)

mmap_decided-MmapOutcome :
    (grow : Grow) (k : Kernel) (m : Memory) (len flags : ℕ) (fd off : ℤ) (d : MmapResult)
    → GrowLaws grow
    → k.memory ≡ some (owned m)
    → IsReady k.mm m
    → 0 < len
    → MmapOutcome m len (mmap_decided grow k m len flags fd off d)
unfolding mmap_decided
mmap_decided-MmapOutcome grow k m len flags fd off (MmapResult.need_grow pages) laws mem v p =
    elim (Option-cases (grow m pages)) [
      | inl failed ↦ rw (failed, mmap_decided) (m, mem, v, λ q old. refl)
      | inr (g, grown) ↦
          let larger : m.size ≤ g.size = omega (arith, laws.grown_size m g pages grown) in
          rw (grown, mmap_decided)
            (MmapOutcome-grown m g len larger (λ q. laws.grown_byte m g pages q grown)
              (mmap_place k g len flags fd off)
              (mmap_place-MmapOutcome k g len flags fd off
                (record {
                  valid = v.valid;
                  backed = λ x s. omega (arith, v.backed x s, larger);
                  small = laws.grown_small m g pages grown;
                })
                p))
    ]
mmap_decided-MmapOutcome grow k m len flags fd off (MmapResult.ok addr) laws mem v p =
    mmap_place-MmapOutcome k m len flags fd off v p
mmap_decided-MmapOutcome grow k m len flags fd off (MmapResult.err e) laws mem v p =
    mmap_place-MmapOutcome k m len flags fd off v p

-- The mmap system call with a positive length, on a kernel that owns a linear memory, with a valid
-- allocator whose spare bytes lie in the memory, and with a memory growth that keeps old bytes and
-- stays below 4 GiB: either it returns a range inside the memory, 8-aligned, allocated to no later
-- request, all zero, every old byte outside it unchanged; or it returns an error and every byte is
-- unchanged. In both cases the allocator is valid and backed by the memory again.
pub mmap-MmapOutcome :
    (grow : Grow) (k : Kernel) (m : Memory) (n : ℕ) (flags fd off : ℤ)
    → GrowLaws grow
    → k.memory ≡ some (owned m)
    → IsReady k.mm m
    → MmapOutcome m (suc n) (mmap grow k (pos (suc n)) flags fd off)
unfolding mmap mmap_owned
mmap-MmapOutcome grow k m n flags fd off laws mem v =
    let f = as_u32 flags in
    let r = Allocator.mmap k.mm m.size (suc n) f fd off in
    subst (λ o. MmapOutcome m (suc n) (mmap_owned grow k (suc n) f fd off (owned_memory o)))
      (sym mem)
      (mmap_decided-MmapOutcome grow (record k { mm = r.0 }) m (suc n) f fd off r.1 laws mem
        (Mapped-IsReady k.mm m (suc n) r v
          (mmap-Mapped k.mm m.size (suc n) f fd off v.valid (omega arith) v.small))
        (omega arith))
