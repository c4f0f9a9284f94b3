-- ===== src/Sys/Time/Laws.antt =====
-- What sleeps and clocks promise.
use edge_libos.Sys.Time.{Clocks, answers, duration, nap_until, sleeps, timeval_of, total_ns}
use edge_libos.Base.{
  Bool-cases, arith, inl, inr, leb, leb→le, ltb, ltb→lt, pos, refl, some, ℕ, ◌%◌, ◌*◌, ◌+◌, ◌-◌,
  ◌/◌, ◌<◌, ◌^◌, ◌≡◌, ◌≤◌, ◌⊎◌,
}

-- gettimeofday gives microseconds below a million, but a time that is ahead of the wall clock by
-- the microseconds of the time since the kernel started.
pub timeval_of-ahead :
    (c : Clocks)
    → ((timeval_of c).1 < 1000000)
      × ((timeval_of c).0 * 1000000 + (timeval_of c).1 ≡ c.utc_us + c.elapsed_ns / 1000 % 1000000)
unfolding timeval_of
timeval_of-ahead c = (ground arith, ground arith)

-- An absolute sleep on a clock that shows `cur` ends at the requested time: it answers 0 at once
-- if that time has come, and sleeps for exactly the time that is left if not, where it is below
-- 2^64 nanoseconds.
pub nap_until-exact :
    (cur req : ℕ × ℕ)
    → total_ns req < 2 ^ 64
    → ((total_ns req ≤ total_ns cur) × (nap_until (some cur) req ≡ answers (pos 0)))
      ⊎ ((n : ℕ) × (nap_until (some cur) req ≡ sleeps n) × (total_ns cur + n ≡ total_ns req))
nap_until-exact cur req h = elim (Bool-cases (leb (total_ns req) (total_ns cur))) [
  | inl e ↦ inl (leb→le (total_ns req) (total_ns cur) e, rw e refl)
  | inr e ↦ inr ((total_ns req - total_ns cur) % 2 ^ 64, rw e refl, ground arith)
]

-- A relative sleep of a time below 2^64 nanoseconds lasts as long as was asked for. A longer one
-- lasts less than a second, or 2^64 - 1 nanoseconds.
pub duration-exact :
    (t : ℕ × ℕ)
    → t.1 < 1000000000
    → ((total_ns t < 2 ^ 64) × (duration t ≡ total_ns t))
      ⊎ ((2 ^ 64 ≤ total_ns t) × ((duration t < 1000000000) ⊎ (duration t ≡ 2 ^ 64 - 1)))
unfolding duration
duration-exact (sec, nsec) h = elim (Bool-cases (ltb (sec * 1000000000 + nsec) (2 ^ 64))) [
  | inl e ↦ let small = ltb→lt (sec * 1000000000 + nsec) (2 ^ 64) e in inl (small, omega arith)
  | inr e ↦
      let large : 2 ^ 64 ≤ sec * 1000000000 + nsec = ground arith in
      inr (
        large,
        elim (Bool-cases (ltb (duration (sec, nsec)) 1000000000)) [
          | inl f ↦ inl (ltb→lt (duration (sec, nsec)) 1000000000 f)
          | inr f ↦ let long : 1000000000 ≤ duration (sec, nsec) = ground arith in inr (omega arith)
        ],
      )
]
