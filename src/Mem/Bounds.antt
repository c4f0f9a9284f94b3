-- ===== src/Mem/Bounds.antt =====
-- The EFAULT choke point: which guest ranges a handler gets to touch.
use edge_libos.Mem.Bytes.{read_at, read_at-write_at, write_at, write_at-outside}
use edge_libos.Base.Result.{IsNegative, Outcome, Outcome-map_ok, Result, err, map_ok, ok}
use edge_libos.Errno.{efault, einval, to_ret}
use edge_libos.Base.{
  Bool, Bool-cases, List, Option, ap, arith, as_usize, if-cases, if◌then◌else◌, inl, inr, is_neg,
  leb, leb→le, length, negsuc, none, pos, refl, some, true, ℕ, ℤ, ◌+◌, ◌<◌, ◌∙◌, ◌≡◌, ◌≤◌, ◌⊎◌,
}
use edge_libos.Mem.{
  Memory, MemoryKind, bytes_of, copy_to, get_range, guest_slice, guest_slice_mut, guest_str, owned,
  owned_memory, shared, until_nul,
}

-- The outcomes of the range check.
abbrev pub Access : Option MemoryKind → ℤ → ℤ → Result ℕ → Type 0
Access mem ptr len (ok p) =
    (m : Memory) × (mem ≡ some (owned m))
    × (ptr ≡ pos p)
    × (n : ℕ) × (len ≡ pos n)
    × (p + n ≤ m.size)
Access mem ptr len (err e) =
    ((e ≡ to_ret efault)
      × ((is_neg ptr ≡ true)
          ⊎ (is_neg len ≡ true)
          ⊎ (mem ≡ none)
          ⊎ ((m : Memory) × (mem ≡ some (owned m)) × (m.size < as_usize ptr + as_usize len))))
    ⊎ ((e ≡ to_ret einval) × (m : Memory) × (mem ≡ some (shared m)))

-- A guest range is handed out exactly if pointer and length are not negative and the range ends
-- inside the owned linear memory; it is refused with -EFAULT otherwise, and with -EINVAL for
-- shared memory.
pub guest_slice_mut-Access :
    (mem : Option MemoryKind) (ptr len : ℤ) → Access mem ptr len (guest_slice_mut mem ptr len)
unfolding guest_slice_mut
guest_slice_mut-Access mem (negsuc p) len = inl (refl, inl refl)
guest_slice_mut-Access mem (pos p) (negsuc n) = inl (refl, inr (inl refl))
guest_slice_mut-Access none (pos p) (pos n) = inl (refl, inr (inr (inl refl)))
guest_slice_mut-Access (some (shared m)) (pos p) (pos n) = inr (refl, m, refl)
guest_slice_mut-Access (some (owned m)) (pos p) (pos n) = elim (Bool-cases (leb (p + n) m.size)) [
  | inl fits ↦ rw fits (m, refl, refl, n, refl, leb→le _ _ fits)
  | inr out ↦ rw out (inl (refl, inr (inr (inr (m, refl, ground arith)))))
]

-- A range that ends outside the memory.
pub guest_slice_mut_out :
    (m : Memory) (p n : ℕ)
    → m.size < p + n
    → guest_slice_mut (some (owned m)) (pos p) (pos n) ≡ err (to_ret efault)
unfolding guest_slice_mut
guest_slice_mut_out m p n h = ground arith

-- A write of at most `len` bytes through a checked range changes no byte outside the range, and
-- the memory keeps its size.
pub copy_to_confined :
    (m : Memory) (p : ℕ) (bs : List ℕ) (n : ℕ)
    → length bs ≤ n
    → (k : Memory) × (copy_to (some (owned m)) p bs ≡ some (owned k))
      × (k.size ≡ m.size)
      × ((q : ℕ) → (q < p) ⊎ (p + n ≤ q) → k.byte q ≡ m.byte q)
      × (read_at p (length bs) k.byte ≡ bs)
copy_to_confined m p bs n h = (
  record m { byte = write_at p bs m.byte },
  refl,
  refl,
  λ q out.
      write_at-outside p bs m.byte q (elim out [ inl lo ↦ inl lo | inr hi ↦ inr (omega arith) ]),
  read_at-write_at p bs m.byte,
)

-- `guest_str` asks for the whole of `max_len` bytes: a string that ends before the end of memory is
-- refused with -EFAULT if fewer bytes than that follow its start.
pub guest_str_near_end :
    (is_utf8 : List ℕ → Bool) (m : Memory) (p n : ℕ)
    → m.size < p + n
    → guest_str is_utf8 (some (owned m)) (pos p) (pos n) ≡ err (to_ret efault)
unfolding guest_str guest_slice guest_slice_mut
guest_str_near_end is_utf8 m p n h = ground arith

-- A guest access that fails gives an error number.
owned_memory-IsNegative :
    (mem : Option MemoryKind) → Outcome (λ m. Unit {0}) IsNegative (owned_memory mem)
owned_memory-IsNegative none = refl
owned_memory-IsNegative (some (owned m)) = tt
owned_memory-IsNegative (some (shared m)) = refl

pub guest_slice_mut-IsNegative :
    (mem : Option MemoryKind) (ptr len : ℤ)
    → Outcome (λ p. Unit {0}) IsNegative (guest_slice_mut mem ptr len)
unfolding guest_slice_mut
guest_slice_mut-IsNegative mem (pos p) (pos l) =
    in_memory (owned_memory mem) (owned_memory-IsNegative mem)
  where
    in_memory :
        (r : Result Memory)
        → Outcome (λ m. Unit {0}) IsNegative r
        → Outcome (λ p. Unit {0}) IsNegative (elim r [ ok m ↦ get_range m p l | err e ↦ err e ])
    in_memory (ok m) h =
        if-cases (Outcome (λ p. Unit {0}) IsNegative) (leb (p + l) m.size) _ _ (λ e. tt) (λ e. refl)
    in_memory (err e) h = h
guest_slice_mut-IsNegative mem (pos p) (negsuc l) = refl
guest_slice_mut-IsNegative mem (negsuc p) len = refl

pub guest_slice-IsNegative :
    (mem : Option MemoryKind) (ptr len : ℤ)
    → Outcome (λ p. Unit {0}) IsNegative (guest_slice mem ptr len)
unfolding guest_slice
guest_slice-IsNegative mem ptr len =
    Outcome-map_ok _ (λ p. Unit {0}) _ (guest_slice_mut mem ptr len) _
      (guest_slice_mut-IsNegative mem ptr len) (λ a h. tt)

pub guest_str-IsNegative :
    (is_utf8 : List ℕ → Bool) (mem : Option MemoryKind) (ptr len : ℤ)
    → Outcome (λ p. Unit {0}) IsNegative (guest_str is_utf8 mem ptr len)
unfolding guest_str
guest_str-IsNegative is_utf8 mem ptr len =
    text (guest_slice mem ptr len) (guest_slice-IsNegative mem ptr len)
  where
    text :
        (r : Result (List ℕ))
        → Outcome (λ m. Unit {0}) IsNegative r
        → Outcome
            (λ p. Unit {0})
            IsNegative
            (elim r [
              | ok bs ↦ if is_utf8 (until_nul bs) then ok (until_nul bs) else err (to_ret einval)
              | err e ↦ err e
            ])
    text (ok bs) h =
        if-cases (Outcome (λ p. Unit {0}) IsNegative) (is_utf8 (until_nul bs)) _ _ (λ e. tt)
          (λ e. refl)
    text (err e) h = h

-- An access inside owned memory is let through, and the bytes written there are read back.
pub guest_slice_mut_in :
    (mem : Option MemoryKind) (m : Memory) (p n : ℕ)
    → mem ≡ some (owned m)
    → p + n ≤ m.size
    → guest_slice_mut mem (pos p) (pos n) ≡ ok p
unfolding guest_slice_mut
guest_slice_mut_in mem m p n e h = rw e (ground arith)

pub bytes_of-copy_to :
    (mem : Option MemoryKind) (m : Memory) (p : ℕ) (bs : List ℕ)
    → mem ≡ some (owned m)
    → bytes_of (copy_to mem p bs) p (length bs) ≡ bs
bytes_of-copy_to mem m p bs e = rw e (read_at-write_at p bs m.byte)

pub guest_slice_in :
    (mem : Option MemoryKind) (m : Memory) (p n : ℕ)
    → mem ≡ some (owned m)
    → p + n ≤ m.size
    → guest_slice mem (pos p) (pos n) ≡ ok (read_at p n m.byte)
unfolding guest_slice
guest_slice_in mem m p n e h =
    ap (map_ok (λ q. bytes_of mem q n)) (guest_slice_mut_in mem m p n e h)
    ∙ ap (λ o. ok (bytes_of o p n)) e
