-- ===== src/Sys/Memory/Lost.antt =====
-- The range that the first decision of mmap takes.
use edge_libos.Base.{
  ap, arith, as_u32, is_neg, negsuc, pos, refl, some, subst, suc, sym, true, ℕ, ℤ, ◌+◌, ◌<◌, ◌∙◌,
  ◌≡◌, ◌≤◌, ◌⊎◌,
}
use edge_libos.Kernel.{Kernel}
use edge_libos.Mem.{Memory, owned, owned_memory}
use edge_libos.Mm.Allocator.Layout.{spare}
use edge_libos.Mm.Allocator.Map.{Mapped, mmap-Mapped, mmap-Refusal}
use edge_libos.Mm.Allocator.{LinearAllocator, MmapResult}
use edge_libos.Sys.Memory.Fresh.{IsReady, Mapped-IsFresh, Mapped-IsReady, Refusal-is_neg}
use edge_libos.Sys.Memory.{Grow, mmap_answer, mmap_decided, mmap_owned, mmap_place}
use edge_libos.Mm.Allocator
use edge_libos.Sys.Memory

-- The bytes from `a` on can be handed out no more, and the caller did not get them.
abbrev pub Lost : ℕ → ℕ → Kernel × ℤ → Type 0
Lost a len (k, pos b) =
    (x : ℕ) → a ≤ x → x < a + len → (spare k.mm.arenas x ≡ 0) × ((x < b) ⊎ (b + len ≤ x))
Lost a len (k, negsuc e) = (x : ℕ) → a ≤ x → x < a + len → spare k.mm.arenas x ≡ 0

module _ (k : Kernel) (m : Memory) (len a : ℕ)
    (taken : (x : ℕ) → a ≤ x → x < a + len → spare k.mm.arenas x ≡ 0)
    (below : a + len ≤ k.mm.high_water) where
  answer-Lost :
      (r : LinearAllocator × MmapResult)
      → Mapped k.mm m.size len r
      → ((n : LinearAllocator) (e : ℤ) → r ≡ (n, MmapResult.err e) → is_neg e ≡ true)
      → Lost a len (mmap_answer k m len r)
  unfolding mmap_answer
  answer-Lost (n, MmapResult.ok b) h neg =
      λ x lo hi. (ground (arith, h.5 x, taken x lo hi), ground (arith, h.5 x, taken x lo hi))
  answer-Lost (n, MmapResult.need_grow pages) h neg =
      λ x lo hi. ap (λ y. spare y.arenas x) h.0 ∙ taken x lo hi
  answer-Lost (n, MmapResult.err (pos e)) h neg = absurd (cc (neg n (pos e) refl))
  answer-Lost (n, MmapResult.err (negsuc e)) h neg =
      λ x lo hi. ap (λ y. spare y.arenas x) h ∙ taken x lo hi

mmap_place-Lost :
    (k : Kernel) (m : Memory) (len flags a : ℕ) (fd off : ℤ)
    → IsReady k.mm m
    → 0 < len
    → ((x : ℕ) → a ≤ x → x < a + len → spare k.mm.arenas x ≡ 0)
    → a + len ≤ k.mm.high_water
    → Lost a len (mmap_place k m len flags fd off)
unfolding mmap_place
mmap_place-Lost k m len flags a fd off v p taken below =
    answer-Lost k m len a taken below (Allocator.mmap k.mm m.size len flags fd off)
      (mmap-Mapped k.mm m.size len flags fd off v.valid p v.small)
      (λ n e h. Refusal-is_neg len flags fd off e (mmap-Refusal k.mm n m.size len flags fd off e h))

-- The mmap system call, on a kernel that owns a linear memory and has a valid, backed allocator,
-- when the allocator's first answer is a range: no byte of that range can be handed out afterwards,
-- and the caller gets another range or an error.
pub mmap-Lost :
    (grow : Grow) (k : Kernel) (m : Memory) (n a : ℕ) (flags fd off : ℤ) (mm : LinearAllocator)
    → k.memory ≡ some (owned m)
    → IsReady k.mm m
    → Allocator.mmap k.mm m.size (suc n) (as_u32 flags) fd off ≡ (mm, MmapResult.ok a)
    → Lost a (suc n) (Memory.mmap grow k (pos (suc n)) flags fd off)
unfolding Memory.mmap mmap_owned mmap_decided
mmap-Lost grow k m n a flags fd off mm mem v first =
    let f = as_u32 flags in
    let h =
      subst (Mapped k.mm m.size (suc n)) first
        (mmap-Mapped k.mm m.size (suc n) f fd off v.valid (omega arith) v.small) in
    let after = Mapped-IsReady k.mm m (suc n) (mm, MmapResult.ok a) v h in
    let fresh = Mapped-IsFresh k.mm mm m (suc n) a v (omega arith) h in
    subst (λ o. Lost a (suc n) (mmap_owned grow k (suc n) f fd off (owned_memory o))) (sym mem)
      (subst
        (λ r. Lost a (suc n) (mmap_decided grow (record k { mm = r.0 }) m (suc n) f fd off r.1))
        (sym first)
        (mmap_place-Lost (record k { mm = mm }) m (suc n) f a fd off after (omega arith) fresh.taken
          h.2))
