-- ===== src/Sys/Signal/Action.antt =====
-- The layout of `struct sigaction`: what `rt_sigaction` writes, it reads.
-- The fields fit in their 4 and 8 bytes.
use edge_libos.Base.{
  ap, arith, drop, inl, refl, some, take, ℕ, ◌%◌, ◌+◌, ◌-◌, ◌<◌, ◌^◌, ◌∙◌, ◌≡◌, ◌≤◌,
}
use edge_libos.Mem.Bytes.{
  drop-read_at, from_le, from_le-read_at, read_at, read_at-outside, take-read_at, to_le, write_at,
}
use edge_libos.Mem.{Memory, bytes_of, owned}
use edge_libos.Kernel.{SigAction}
use edge_libos.Sys.Signal.{parse_action, write_action}

pub record Fits (a : SigAction) : Type 0 where
  pub handler : a.handler < 2 ^ 32
  pub flags : a.flags < 2 ^ 32
  pub restorer : a.restorer < 2 ^ 32
  pub mask : a.mask < 2 ^ 64

-- The bytes of the old action, on a memory.
pub action_byte : (ℕ → ℕ) → ℕ → SigAction → ℕ → ℕ
action_byte f p a = write_at (p + 24) (to_le 4 (a.restorer % 2 ^ 32)) (
    write_at (p + 8) (to_le 8 a.mask)
      (write_at (p + 4) (to_le 4 (a.flags % 2 ^ 32)) (write_at p (to_le 4 (a.handler % 2 ^ 32)) f)))

write_action_byte :
    (m : Memory) (p : ℕ) (a : SigAction)
    → write_action (some (owned m)) p a ≡ some (owned (record m { byte = action_byte m.byte p a }))
unfolding write_action action_byte
write_action_byte m p a = refl

module _ (f : ℕ → ℕ) (p : ℕ) (a : SigAction) (v : Fits a) where
  handler_back : from_le (read_at p 4 (action_byte f p a)) ≡ a.handler
  unfolding action_byte
  handler_back =
      let whole : a.handler % 2 ^ 32 ≡ a.handler = omega (arith, v.handler) in
      ap from_le (
        read_at-outside p 4 (p + 24) _ _ (inl (omega arith))
        ∙ read_at-outside p 4 (p + 8) _ _ (inl (omega arith))
        ∙ read_at-outside p 4 (p + 4) _ _ (inl (omega arith)))
      ∙ from_le-read_at p 4 (a.handler % 2 ^ 32) f (omega arith)
      ∙ whole

  flags_back : from_le (read_at (p + 4) 4 (action_byte f p a)) ≡ a.flags
  unfolding action_byte
  flags_back =
      let whole : a.flags % 2 ^ 32 ≡ a.flags = omega (arith, v.flags) in
      ap from_le (
        read_at-outside (p + 4) 4 (p + 24) _ _ (inl (omega arith))
        ∙ read_at-outside (p + 4) 4 (p + 8) _ _ (inl (omega arith)))
      ∙ from_le-read_at (p + 4) 4 (a.flags % 2 ^ 32) _ (omega arith)
      ∙ whole

  mask_back : from_le (read_at (p + 8) 8 (action_byte f p a)) ≡ a.mask
  unfolding action_byte
  mask_back =
      ap from_le (read_at-outside (p + 8) 8 (p + 24) _ _ (inl (omega arith)))
      ∙ from_le-read_at (p + 8) 8 a.mask _ (omega (arith, v.mask))

  restorer_back : from_le (read_at (p + 24) 4 (action_byte f p a)) ≡ a.restorer
  unfolding action_byte
  restorer_back =
      let whole : a.restorer % 2 ^ 32 ≡ a.restorer = omega (arith, v.restorer) in
      from_le-read_at (p + 24) 4 (a.restorer % 2 ^ 32) _ (omega arith) ∙ whole

field_of :
    (n d p : ℕ) (f : ℕ → ℕ) → d + n ≤ 32 → take n (drop d (read_at p 32 f)) ≡ read_at (p + d) n f
field_of n d p f h =
    ap (take n) (drop-read_at d 32 p f (omega arith))
    ∙ take-read_at n (32 - d) (p + d) f (omega arith)

-- An action whose fields fit in their bytes, written by `rt_sigaction` to a place in memory, is the
-- action that `rt_sigaction` reads from that place.
pub parse_action-write_action :
    (m : Memory) (p : ℕ) (a : SigAction)
    → Fits a
    → parse_action (bytes_of (write_action (some (owned m)) p a) p 32) ≡ a
unfolding parse_action
parse_action-write_action m p a v =
    let g = action_byte m.byte p a in
    let first = ap from_le (take-read_at 4 32 p g (omega arith)) ∙ handler_back m.byte p a v in
    let second = ap from_le (field_of 4 4 p g (omega arith)) ∙ flags_back m.byte p a v in
    let third = ap from_le (field_of 8 8 p g (omega arith)) ∙ mask_back m.byte p a v in
    let fourth = ap from_le (field_of 4 24 p g (omega arith)) ∙ restorer_back m.byte p a v in
    rw (write_action_byte m p a) (rw (first, second, third, fourth) refl)
