-- ===== src/Tests/Memory.antt =====
-- Guest accesses and the mmap system call at concrete inputs.
use edge_libos.Sys.Memory.{brk}
use edge_libos.Paths.{root_dir}
use edge_libos.Sys.Memory.Lost.{Lost, mmap-Lost}
use edge_libos.Mm.Allocator.Tests.{mmap_fits, used, used-IsValidAllocator, used_more}
use edge_libos.Mm.Arena.Cover.{cover}
use edge_libos.Mm.Allocator.Layout.{spare}
use edge_libos.Sys.Memory.Fresh.{GrowLaws, IsReady, MmapOutcome, mmap-MmapOutcome}
use edge_libos.Kernel.{Kernel}
use edge_libos.Mem.Bounds.{Access, guest_slice_mut-Access}
use edge_libos.Mem.{Memory, guest_slice_mut, owned}
use edge_libos.Base.{
  Bool-cases, Option, [], ap, arith, if◌then◌else◌, inl, inr, ltb, negsuc, none, pos, refl, some,
  subst, sym, ℕ, ◌%◌, ◌*◌, ◌+◌, ◌<◌, ◌^◌, ◌∷◌, ◌≡◌,
}
use edge_libos.Sys.Memory

abbrev pub small : Memory
small = record { size = 65536; byte = λ q. q % 256 }

guest_slice_mut-Access_example :
    Access
      (some (owned small))
      (pos 65000)
      (pos 1000)
      (guest_slice_mut (some (owned small)) (pos 65000) (pos 1000))
guest_slice_mut-Access_example = guest_slice_mut-Access (some (owned small)) (pos 65000) (pos 1000)

abbrev pub a_kernel : Kernel
a_kernel = record {
  memory = some (owned small);
  fds = record { table = []; next_fd = 3; cloexec = [] };
  mm = record { arenas = []; high_water = 1048576 };
  signals = record { actions = []; mask = 0; alt_stack = none };
  exit_code = none;
  comm = [];
  tid = 1;
  tgid = 1;
  process_state = record {
    next_pid = 2;
    children = [];
    futex_table = [];
    signals_pending = [];
    tgid_registry = 1 ∷ [];
    tgid = 1;
  };
  cpu_ns = 0;
  brk = 0;
  args = [];
  env = [];
  rng_seed = [];
  boot_monotonic_ns = 0;
  vfs = record { root = root_dir ∷ []; cwd = root_dir ∷ [] };
  pipes = [];
  files = [];
  sockets = [];
  next_object = 0;
}

-- A growth that succeeds below 4 GiB; new bytes are 0.
abbrev pub add_pages : Memory → ℕ → Option Memory
add_pages m pages =
    if ltb (m.size + pages * 65536) (2 ^ 32)
    then some
        (record { size = m.size + pages * 65536; byte = λ q. if ltb q m.size then m.byte q else 0 })
    else none

abbrev larger : Memory → ℕ → Memory
larger m pages = record {
  size = m.size + pages * 65536;
  byte = λ q. if ltb q m.size then m.byte q else 0;
}

add_pages_lem :
    (m n : Memory) (pages : ℕ)
    → add_pages m pages ≡ some n
    → (m.size + pages * 65536 < 2 ^ 32) × (larger m pages ≡ n)
add_pages_lem m n pages h = elim (Bool-cases (ltb (m.size + pages * 65536) (2 ^ 32))) [
  | inl fits ↦ (ground arith, cc (rw fits at h))
  | inr over ↦ absurd (cc (rw over at h))
]

pub size-add_pages :
    (m n : Memory) (pages : ℕ) → add_pages m pages ≡ some n → n.size ≡ m.size + pages * 65536
size-add_pages m n pages h = ap (λ x. x.size) (sym (add_pages_lem m n pages h).1)

add_pages-GrowLaws : GrowLaws add_pages
add_pages-GrowLaws = record {
  grown_size = size-add_pages;
  grown_small = λ m n pages h.
      let (fits, is) = add_pages_lem m n pages h in subst (λ x. x.size < 2 ^ 32) is fits;
  grown_byte = λ m n pages q h old.
      let (fits, is) = add_pages_lem m n pages h in
      subst (λ x. x.byte q ≡ m.byte q) is (ground arith);
}

a_kernel-IsReady : IsReady a_kernel.mm small
unfolding spare
a_kernel-IsReady = record {
  valid = record { stacked = refl };
  backed = λ x s. absurd (omega arith);
  small = omega arith;
}

mmap-MmapOutcome_example :
    MmapOutcome small 100 (Memory.mmap add_pages a_kernel (pos 100) (pos 0x22) (negsuc 0) (pos 0))
mmap-MmapOutcome_example =
    mmap-MmapOutcome add_pages a_kernel small 99 (pos 0x22) (negsuc 0) (pos 0) add_pages-GrowLaws
      refl a_kernel-IsReady

abbrev large : Memory
large = record { size = 2097152; byte = λ q. 0 }

abbrev busy : Kernel
busy = record a_kernel { memory = some (owned large); mm = used }

busy-IsReady : IsReady busy.mm large
unfolding spare cover
busy-IsReady = record {
  valid = used-IsValidAllocator;
  backed = λ x s. ground arith;
  small = omega arith;
}

mmap-Lost_example :
    Lost 1048680 100 (Memory.mmap add_pages busy (pos 100) (pos 0x22) (negsuc 0) (pos 0))
mmap-Lost_example =
    mmap-Lost add_pages busy large 99 1048680 (pos 0x22) (negsuc 0) (pos 0) used_more refl
      busy-IsReady mmap_fits
