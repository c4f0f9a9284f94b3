-- ===== src/Sys/Signal.antt =====
-- src/sys/signal.rs: recorded dispositions, the mask and the alternate stack.
pub mod Action
use edge_libos.Base.Result.{err, ok}
use edge_libos.Mem.Bytes.{from_le, to_le}
use edge_libos.Mem.{MemoryKind, copy_to, guest_slice, guest_slice_mut}
use edge_libos.Map.{get, insert}
use edge_libos.Errno.{einval, to_ret}
use edge_libos.Base.{
  List, Option, as_u32, bit_and, bit_or, drop, eq_ℤ, if◌then◌else◌, is_zero, ltb, none, not, pos,
  replicate, set, some, take, ℕ, ℤ, ◌%◌, ◌+◌, ◌-◌, ◌==◌, ◌^◌, ◌||◌,
}
use edge_libos.Kernel.{Kernel, SigAction, SignalState}

abbrev pub no_action : SigAction
no_action = record { handler = 0; flags = 0; restorer = 0; mask = 0 }

abbrev pub action_of : SignalState → ℕ → SigAction
action_of s signum = elim (get signum s.actions) [ some a ↦ a | none ↦ no_action ]

-- The 32 bytes of a `struct sigaction`, as the handler writes them over the old bytes: the second
-- half of the mask and the padding keep their values.
pub write_action : Option MemoryKind → ℕ → SigAction → Option MemoryKind
write_action mem p a =
    copy_to
      (copy_to
        (copy_to (copy_to mem p (to_le 4 (a.handler % 2 ^ 32))) (p + 4)
          (to_le 4 (a.flags % 2 ^ 32)))
        (p + 8) (to_le 8 a.mask))
      (p + 24) (to_le 4 (a.restorer % 2 ^ 32))

pub parse_action : List ℕ → SigAction
parse_action bytes = record {
  handler = from_le (take 4 bytes);
  flags = from_le (take 4 (drop 4 bytes));
  restorer = from_le (take 4 (drop 24 bytes));
  mask = from_le (take 8 (drop 8 bytes));
}

-- A write of the old value through a pointer that is not NULL; `none` if it succeeds.
pub write_old :
    Kernel → (ptr len : ℤ) → (Option MemoryKind → ℕ → Option MemoryKind) → Kernel × Option ℤ
write_old k ptr len write =
    if is_zero ptr then (k, none) else elim (guest_slice_mut k.memory ptr len) [
      | err e ↦ (k, some e)
      | ok p ↦ (record k { memory = write k.memory p }, none)
    ]

abbrev pub set_signals : Kernel → SignalState → Kernel
set_signals k s = record k { signals = s }

pub record_action : Kernel → ℕ → ℤ → Kernel × ℤ
unfolding parse_action
record_action k signum act =
    if is_zero act then (k, pos 0) else elim (guest_slice k.memory act (pos 32)) [
      | err e ↦ (k, e)
      | ok bytes ↦ (
        set_signals k
            (record k.signals { actions = insert signum (parse_action bytes) k.signals.actions }),
        pos 0,
      )
    ]

pub or_return : (Kernel → Kernel × ℤ) → Kernel × Option ℤ → Kernel × ℤ
or_return next (k, some e) = (k, e)
or_return next (k, none) = next k

pub rt_sigaction : Kernel → (signum act oldact : ℤ) → Kernel × ℤ
unfolding write_action write_old record_action or_return
rt_sigaction k signum act oldact =
    let s = as_u32 signum in
    if (s == 0) || ltb 64 s
    then (k, to_ret einval)
    else or_return (λ n. record_action n s act)
        (write_old k oldact (pos 32) (λ mem p. write_action mem p (action_of k.signals s)))

-- `SIG_BLOCK`, `SIG_UNBLOCK` and `SIG_SETMASK`. `mask & !new_mask` is the mask less the bits of
-- both.
pub apply_mask : ℤ → (mask new_mask : ℕ) → Option ℕ
apply_mask how mask new_mask =
    if eq_ℤ how (pos 0)
    then some (bit_or mask new_mask)
    else if eq_ℤ how (pos 1)
    then some (mask - bit_and mask new_mask)
    else if eq_ℤ how (pos 2)
    then some new_mask
    else none

pub change_mask : Kernel → (how set : ℤ) → Kernel × ℤ
unfolding apply_mask
change_mask k how set =
    if is_zero set then (k, pos 0) else elim (guest_slice k.memory set (pos 8)) [
      | err e ↦ (k, e)
      | ok bytes ↦ elim (apply_mask how k.signals.mask (from_le bytes)) [
        | none ↦ (k, to_ret einval)
        | some m ↦ (set_signals k (record k.signals { mask = m }), pos 0)
      ]
    ]

pub rt_sigprocmask : Kernel → (how set oldset : ℤ) → Kernel × ℤ
unfolding write_old change_mask or_return
rt_sigprocmask k how set oldset =
    or_return (λ n. change_mask n how set)
      (write_old k oldset (pos 8) (λ mem p. copy_to mem p (to_le 8 k.signals.mask)))

abbrev pub alt_bytes : Option (List ℕ) → List ℕ
alt_bytes none = replicate 24 0
alt_bytes (some bs) = take 24 bs

pub record_stack : Kernel → ℤ → Kernel × ℤ
record_stack k ss = if is_zero ss then (k, pos 0) else elim (guest_slice k.memory ss (pos 24)) [
  | err e ↦ (k, e)
  | ok bytes ↦
      if not (bit_and (from_le (take 4 (drop 8 bytes))) 2 == 0)
      then (set_signals k (record k.signals { alt_stack = none }), pos 0)
      else (set_signals k (record k.signals { alt_stack = some bytes }), pos 0)
]

pub sigaltstack : Kernel → (ss old_ss : ℤ) → Kernel × ℤ
unfolding write_old record_stack or_return
sigaltstack k ss old_ss =
    or_return (λ n. record_stack n ss)
      (write_old k old_ss (pos 24) (λ mem p. copy_to mem p (alt_bytes k.signals.alt_stack)))

pub rt_sigreturn : ℤ
rt_sigreturn = pos 0
