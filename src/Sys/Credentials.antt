-- ===== src/Sys/Credentials.antt =====
-- src/sys/process.rs: kill, tgkill, prctl and sched_getaffinity.
use edge_libos.Base.Result.{err, ok}
use edge_libos.Mem.{copy_to, guest_slice, guest_slice_mut, until_nul}
use edge_libos.Map.{member}
use edge_libos.Errno.{einval, esrch, to_ret}
use edge_libos.Base.{
  List, Option, [], arith, as_u32, as_usize, eq_ℤ, false, if◌then◌else◌, is_zero, leb, ltb, min,
  negsuc, none, not, pos, refl, replicate, signed32, some, subst, suc, sym, take, true, zero, ℕ, ℤ,
  ◌%◌, ◌&&◌, ◌++◌, ◌-◌, ◌<◌, ◌==◌, ◌^◌, ◌||◌, ◌∷◌, ◌≡◌, ◌≢◌, ◌≤◌,
}
use edge_libos.Kernel.{Kernel}

-- `signals_pending.push(sig)`.
abbrev pub push_signal : Kernel → ℕ → Kernel
push_signal k sig = record k {
  process_state = record k.process_state {
    signals_pending = k.process_state.signals_pending ++ sig ∷ [];
  };
}

abbrev pub kill_target : Kernel → ℤ → Option ℤ
kill_target k (pos zero) = if k.tgid == k.process_state.tgid then none else some (to_ret esrch)
kill_target k (pos (suc n)) = if (suc n) % 2 ^ 32 == k.tgid then none else some (to_ret esrch)
kill_target k (negsuc n) = some (to_ret einval)

-- `(0..=64).contains(&sig)`.
abbrev pub try_signal : ℤ → Option ℕ
try_signal (pos n) = if leb n 64 then some n else none
try_signal (negsuc n) = none

-- `kill(pid, sig)`.
pub kill : Kernel → (pid sig : ℤ) → Kernel × ℤ
kill k pid sig = elim (try_signal sig) [
  | none ↦ (k, to_ret einval)
  | some s ↦ elim (kill_target k pid) [ some e ↦ (k, e) | none ↦ (push_signal k s, pos 0) ]
]

abbrev pub or_own : ℤ → ℕ → ℕ
or_own x own = if is_zero x then own else as_u32 x

-- `tgkill(tgid, tid, sig)`.
pub tgkill : Kernel → (tgid tid sig : ℤ) → Kernel × ℤ
tgkill k tgid tid sig = elim (try_signal sig) [
  | none ↦ (k, to_ret einval)
  | some s ↦
      if not (or_own tgid k.tgid == k.tgid)
      then (k, to_ret esrch)
      else if not (member (or_own tid k.tid) k.process_state.tgid_registry)
      then (k, to_ret esrch)
      else (push_signal k s, pos 0)
]

-- `PR_SET_NAME`: the bytes before the first NUL, padded to 16.
pub comm_of : List ℕ → List ℕ
comm_of bytes = take 16 (until_nul (take 16 bytes) ++ replicate 16 0)

pub set_name : Kernel → ℤ → Kernel × ℤ
unfolding comm_of
set_name k ptr =
    if is_zero ptr then (k, to_ret einval) else elim (guest_slice k.memory ptr (pos 16)) [
      | err e ↦ (k, e)
      | ok bytes ↦ (record k { comm = comm_of bytes }, pos 0)
    ]

pub get_name : Kernel → ℤ → Kernel × ℤ
get_name k ptr =
    if is_zero ptr then (k, to_ret einval) else elim (guest_slice_mut k.memory ptr (pos 16)) [
      | err e ↦ (k, e)
      | ok p ↦ (record k { memory = copy_to k.memory p k.comm }, pos 0)
    ]

-- `prctl(option, arg2, ..)`.
pub prctl : Kernel → (option arg2 : ℤ) → Kernel × ℤ
unfolding set_name get_name
prctl k option arg2 =
    let o = as_u32 option in
    if o == 15
    then set_name k arg2
    else if o == 16
    then get_name k arg2
    else if (o == 3) || (o == 4) || (o == 38)
    then (k, pos 0)
    else if o == 39
    then (k, pos 1)
    else (k, to_ret einval)

-- `sched_getaffinity(pid, len, mask)`: one CPU, in a mask of at most 8 bytes.
pub sched_getaffinity : Kernel → (pid len mask : ℤ) → Kernel × ℤ
sched_getaffinity k pid len mask =
    if not (eq_ℤ pid (pos 0)) && not (eq_ℤ pid (pos 1))
    then (k, to_ret esrch)
    else (let n = min (as_usize len) 8 in
        if n == 0 then (k, to_ret einval) else elim (guest_slice_mut k.memory mask (pos n)) [
          | err e ↦ (k, e)
          | ok p ↦ (record k { memory = copy_to k.memory p (1 ∷ replicate (n - 1) 0) }, pos n)
        ])

-- A positive number that is not the caller's group.
pub kill_other :
    (k : Kernel) (pid sig : ℕ)
    → 0 < pid
    → pid < 2 ^ 31
    → pid ≢ k.tgid
    → sig ≤ 64
    → kill k (signed32 pid) (pos sig) ≡ (k, to_ret esrch)
unfolding kill
kill_other k zero sig p small other valid = absurd (omega arith)
kill_other k (suc n) sig p small other valid =
    let positive : ltb (suc n) (2 ^ 31) ≡ true = ground arith in
    let in_range : leb sig 64 ≡ true = ground arith in
    let differs : ((suc n) % 2 ^ 32 == k.tgid) ≡ false = ground arith in
    let s : signed32 (suc n) ≡ pos (suc n) = rw positive refl in
    subst (λ z. kill k z (pos sig) ≡ (k, to_ret esrch)) (sym s) (rw (in_range, differs, kill) refl)
