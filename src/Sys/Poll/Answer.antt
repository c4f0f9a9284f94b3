-- ===== src/Sys/Poll/Answer.antt =====
-- What poll writes and returns.
-- The bytes of a memory after the answers.
use edge_libos.Base.Result.{Result, err, ok}
use edge_libos.Mem.Bounds.{Access, guest_slice_mut-Access}
use edge_libos.Kernel.{Kernel}
use edge_libos.Base.{
  All, Bool-cases, List, [], ap, arith, false, inl, inr, is_zero, length, ltb, map, negsuc, pos,
  refl, some, suc, sym, zero, ℕ, ℤ, ◌*◌, ◌+◌, ◌<◌, ◌^◌, ◌||◌, ◌∙◌, ◌∷◌, ◌≡◌, ◌≤◌,
}
use edge_libos.Mem.Bytes.{
  from_le, from_le-read_at, length-to_le, read_at, read_at-eq, read_at-outside, to_le, write_at,
  write_at-outside,
}
use edge_libos.Mem.{Memory, owned}
use edge_libos.Sys.Poll.{
  Wait, count_ready, poll_one, poll_round, put_revents, write_revents, write_revents_at,
}

pub put_byte : (ℕ → ℕ) → ℕ → List ℕ → ℕ → ℕ
put_byte f p [] = f
put_byte f p (r ∷ rs) = put_byte (write_at (p + 6) (to_le 2 r) f) (p + 8) rs

put_revents_byte :
    (m : Memory) (p : ℕ) (rs : List ℕ)
    → put_revents (some (owned m)) p rs ≡ some (owned (record m { byte = put_byte m.byte p rs }))
unfolding put_revents put_byte
put_revents_byte m p [] = refl
put_revents_byte m p (r ∷ rs) =
    put_revents_byte (record m { byte = write_at (p + 6) (to_le 2 r) m.byte }) (p + 8) rs

put_byte-below : (f : ℕ → ℕ) (p q : ℕ) (rs : List ℕ) → q < p → put_byte f p rs q ≡ f q
unfolding put_byte
put_byte-below f p q [] h = refl
put_byte-below f p q (r ∷ rs) h =
    put_byte-below (write_at (p + 6) (to_le 2 r) f) (p + 8) q rs (omega arith)
    ∙ write_at-outside (p + 6) (to_le 2 r) f q (inl (omega arith))

-- The records of a `pollfd` array: descriptor, events and answer.
pub parse_fds : (ℕ → ℕ) → ℕ → ℕ → List (ℕ × ℕ × ℕ)
parse_fds f p zero = []
parse_fds f p (suc n) =
    (from_le (read_at p 4 f), from_le (read_at (p + 4) 2 f), from_le (read_at (p + 6) 2 f))
    ∷ parse_fds f (p + 8) n

-- The same records with other answers.
abbrev pub answered : List (ℕ × ℕ × ℕ) → List ℕ → List (ℕ × ℕ × ℕ)
answered [] rs = []
answered (e ∷ es) [] = e ∷ es
answered ((fd, events, old) ∷ es) (r ∷ rs) = (fd, events, r) ∷ answered es rs

abbrev pub IsShort : ℕ → Type 0
IsShort r = r < 2 ^ 16

parse_fds-eq :
    (f g : ℕ → ℕ) (p n : ℕ) → ((q : ℕ) → p ≤ q → f q ≡ g q) → parse_fds f p n ≡ parse_fds g p n
unfolding parse_fds
parse_fds-eq f g p zero h = refl
parse_fds-eq f g p (suc n) h =
    rw
      (
        read_at-eq p 4 f g (λ q lo hi. h q (omega arith)),
        read_at-eq (p + 4) 2 f g (λ q lo hi. h q (omega arith)),
        read_at-eq (p + 6) 2 f g (λ q lo hi. h q (omega arith)),
        parse_fds-eq f g (p + 8) n (λ q lo. h q (omega arith)),
      )
      refl

-- The answers of poll, written into the array and read back by its layout: each record has its
-- answer, and keeps its descriptor and events.
pub parse_fds-put_byte :
    (f : ℕ → ℕ) (p : ℕ) (rs : List ℕ)
    → All IsShort rs
    → parse_fds (put_byte f p rs) p (length rs) ≡ answered (parse_fds f p (length rs)) rs
unfolding parse_fds put_byte
parse_fds-put_byte f p [] h = refl
parse_fds-put_byte f p (r ∷ rs) (small, h) =
    let g = write_at (p + 6) (to_le 2 r) f in
    let whole = put_byte g (p + 8) rs in
    let same : (b n : ℕ) → b + n ≤ p + 8 → read_at b n whole ≡ read_at b n g =
      λ b n fits. read_at-eq b n whole g (λ q lo hi. put_byte-below g (p + 8) q rs (omega arith)) in
    let kept : (b n : ℕ) → b + n ≤ p + 6 → read_at b n g ≡ read_at b n f =
      λ b n fits. read_at-outside b n (p + 6) (to_le 2 r) f (inl fits) in
    let a = same p 4 (omega arith) ∙ kept p 4 (omega arith) in
    let b = same (p + 4) 2 (omega arith) ∙ kept (p + 4) 2 (omega arith) in
    let c =
      ap from_le (same (p + 6) 2 (omega arith))
      ∙ from_le-read_at (p + 6) 2 r f (omega (arith, small)) in
    let rest =
      parse_fds-put_byte g (p + 8) rs h
      ∙ ap (λ es. answered es rs)
          (parse_fds-eq g f (p + 8) (length rs) (λ q lo.
            write_at-outside (p + 6) (to_le 2 r) f q (inr (omega (arith, length-to_le 2 r))))) in
    rw (a, b, c, rest) refl

-- The outcomes of a round that answers, on memory `m`.
abbrev pub Answered : Kernel → Memory → ℤ → List ℕ → Kernel × ℤ → Type 0
Answered k m ptr rs (n, pos count) =
    (count ≡ count_ready rs)
    × (p : ℕ) × (f : ℕ → ℕ) × (ptr ≡ pos p)
    × (n ≡ record k { memory = some (owned (record m { byte = f })) })
    × (parse_fds f p (length rs) ≡ answered (parse_fds m.byte p (length rs)) rs)
Answered k m ptr rs (n, negsuc e) = n ≡ k

write_at_checked-Answered :
    (k : Kernel) (m : Memory) (ptr : ℤ) (rs : List ℕ) (r : Result ℕ)
    → k.memory ≡ some (owned m)
    → All IsShort rs
    → Access k.memory ptr (pos (length rs * 8)) r
    → Answered k m ptr rs (write_revents_at k rs r)
unfolding write_revents_at
write_at_checked-Answered k m ptr rs (ok p) mem small (o, is, at, n, whole, fits) = (
  refl,
  p,
  put_byte m.byte p rs,
  at,
  ap (λ x. record k { memory = put_revents x p rs }) mem
      ∙ ap (λ x. record k { memory = x }) (put_revents_byte m p rs),
  parse_fds-put_byte m.byte p rs small,
)
write_at_checked-Answered k m ptr rs (err (pos e)) mem small (inl h) = absurd (cc (h.0))
write_at_checked-Answered k m ptr rs (err (pos e)) mem small (inr h) = absurd (cc (h.0))
write_at_checked-Answered k m ptr rs (err (negsuc e)) mem small h = refl

-- The answers of poll, which are numbers of 16 bits, on owned memory: either the result is the
-- number of answers that are not 0, each record of the array has its answer and keeps its
-- descriptor and events, and nothing but memory changes; or the array is refused and nothing
-- changes.
pub write_revents-Answered :
    (k : Kernel) (m : Memory) (ptr : ℤ) (rs : List ℕ)
    → k.memory ≡ some (owned m)
    → All IsShort rs
    → Answered k m ptr rs (write_revents k ptr rs)
unfolding write_revents
write_revents-Answered k m ptr rs mem small =
    write_at_checked-Answered k m ptr rs _ mem small
      (guest_slice_mut-Access k.memory ptr (pos (length rs * 8)))

-- A round of poll that parks: the timeout is not 0 and no descriptor has an answer.
pub poll_round-parked :
    (k k' : Kernel) (ptr timeout_ms : ℤ) (entries held : List (ℕ × ℕ))
    → poll_round k ptr timeout_ms entries ≡ Wait.parked k' held
    → (count_ready (map (poll_one k) entries) ≡ 0)
      × (is_zero timeout_ms ≡ false)
      × (held ≡ entries)
      × (k' ≡ k)
unfolding poll_round
poll_round-parked k k' ptr timeout_ms entries held h =
    let n = count_ready (map (poll_one k) entries) in
    elim (Bool-cases (ltb 0 n || is_zero timeout_ms)) [
      | inl done ↦ absurd (cc (rw (done, poll_round) at h))
      | inr idle ↦
          let same = rw (idle, poll_round) at h in
          (ground arith, ground arith, ap held_of (sym same), ap kernel_of (sym same))
    ]
  where
    held_of : Wait → List (ℕ × ℕ)
    held_of (Wait.returned n r) = entries
    held_of (Wait.parked n es) = es

    kernel_of : Wait → Kernel
    kernel_of (Wait.returned n r) = n
    kernel_of (Wait.parked n es) = n
