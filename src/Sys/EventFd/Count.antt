-- ===== src/Sys/EventFd/Count.antt =====
-- An event counter counts: what reads return is what was written.
-- The counter after the writes, in order.
use edge_libos.Base.Result.{ok}
use edge_libos.Base.{List, [], ap, arith, false, min, refl, ℕ, ◌+◌, ◌-◌, ◌<◌, ◌==◌, ◌^◌, ◌∷◌, ◌≡◌}
use edge_libos.Fd.Objects.{EventFdInner}
use edge_libos.Sys.EventFd.{eventfd_read, eventfd_write}

pub write_all : EventFdInner → List ℕ → EventFdInner
unfolding eventfd_write
write_all e [] = e
write_all e (a ∷ as') = write_all (eventfd_write e a).0 as'

abbrev pub sum : List ℕ → ℕ
sum [] = 0
sum (a ∷ as') = a + sum as'

write_all-counter :
    (e : EventFdInner) (addends : List ℕ)
    → e.counter < 2 ^ 64
    → ((write_all e addends).counter ≡ min (e.counter + sum addends) (2 ^ 64 - 1))
      × ((write_all e addends).nonblock ≡ e.nonblock)
unfolding write_all eventfd_write
write_all-counter e [] h = (omega arith, refl)
write_all-counter e (a ∷ rest) h =
    let ih = write_all-counter (eventfd_write e a).0 rest (ground arith) in
    (ground (arith, ih.0), ih.1)

-- A read after any sequence of writes to a counter of 64 bits, in which something was written or
-- left over: it returns the old counter plus all that was written, cut off at 2^64 - 1, and the
-- counter is 0 afterwards.
pub eventfd_read-write_all :
    (e : EventFdInner) (addends : List ℕ)
    → e.counter < 2 ^ 64
    → 0 < e.counter + sum addends
    → eventfd_read (write_all e addends) ≡ (
      record (write_all e addends) { counter = 0 },
      ok (min (e.counter + sum addends) (2 ^ 64 - 1)),
    )
unfolding eventfd_read
eventfd_read-write_all e addends h p =
    let c = (write_all-counter e addends h).0 in
    let n = min (e.counter + sum addends) (2 ^ 64 - 1) in
    let some_left : ((write_all e addends).counter == 0) ≡ false = ground (arith, c) in
    rw some_left (ap (λ x. (record (write_all e addends) { counter = 0 }, ok x)) c)
