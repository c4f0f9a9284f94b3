-- ===== src/Sys/Time.antt =====
-- The time system calls: src/sys/time.rs. The host's clocks are a parameter. A sleep is cut in two:
-- what comes before it, and what comes after.
pub mod Laws
use edge_libos.Sys.Guest.{copy_out}
use edge_libos.Kernel.{Kernel}
use edge_libos.Mem.Bytes.{from_le, to_le}
use edge_libos.Mem.{guest_slice}
use edge_libos.Errno.{efault, einval, to_ret}
use edge_libos.Base.Result.{Result, and_then, err, ok}
use edge_libos.Base.{
  Bool, List, Option, as_u32, bit_and, drop, false, if◌then◌else◌, is_zero, leb, ltb, min, negsuc,
  none, not, pos, replicate, signed64, some, take, ℕ, ℤ, ◌%◌, ◌*◌, ◌++◌, ◌+◌, ◌-◌, ◌/◌, ◌==◌, ◌^◌,
}

-- The clocks of the host at one moment: the wall clock, in seconds and nanoseconds and in
-- microseconds since the epoch, and the nanoseconds since the kernel started.
pub record Clocks : Type 0 where
  pub utc_sec : ℕ
  pub utc_nsec : ℕ
  pub utc_us : ℕ
  pub elapsed_ns : ℕ

-- The clocks that are known: CLOCK_REALTIME is 0, and 1 to 4 are the monotonic ones.
abbrev pub known_clock : ℤ → Bool
known_clock (pos n) = leb n 4
known_clock (negsuc n) = false

-- `compute_time`: seconds and nanoseconds.
unfoldable pub compute_time : Clocks → (clockid : ℤ) → Option (ℕ × ℕ)
compute_time c clockid =
    if is_zero clockid
    then some (c.utc_sec, c.utc_nsec)
    else if known_clock clockid
    then some (c.elapsed_ns / 1000000000, c.elapsed_ns % 1000000000)
    else none

abbrev pub timespec : ℕ × ℕ → List ℕ
timespec (sec, nsec) = to_le 8 sec ++ to_le 8 nsec

-- `clock_gettime`.
abbrev pub write_time : Kernel → (tp : ℤ) → Option (ℕ × ℕ) → Kernel × ℤ
write_time k tp none = (k, to_ret einval)
write_time k tp (some t) = copy_out k tp (timespec t)

unfoldable pub clock_gettime : Clocks → Kernel → (clockid tp : ℤ) → Kernel × ℤ
clock_gettime c k clockid tp = write_time k tp (compute_time c clockid)

-- `clock_getres`: one nanosecond.
unfoldable pub clock_getres : Kernel → (clockid tp : ℤ) → Kernel × ℤ
clock_getres k clockid tp =
    if not (known_clock clockid)
    then (k, to_ret einval)
    else if is_zero tp
    then (k, pos 0)
    else copy_out k tp (timespec (0, 1))

-- How a sleeping handler ends its first part: with a result, or with a sleep of some nanoseconds.
pub data Nap : Type 0 where
  answers : ℤ → Nap
  sleeps : ℕ → Nap

-- The two numbers of a request, where they are a time.
abbrev pub request : ℤ → ℤ → Result (ℕ × ℕ)
request (pos sec) (pos nsec) = if ltb nsec 1000000000 then ok (sec, nsec) else err (to_ret einval)
request (pos sec) (negsuc nsec) = err (to_ret einval)
request (negsuc sec) nsec = err (to_ret einval)

abbrev pub read_request : Kernel → (req : ℤ) → Result (ℕ × ℕ)
read_request k req =
    and_then (guest_slice k.memory req (pos 16))
      (λ b. request (signed64 (from_le (take 8 b))) (signed64 (from_le (drop 8 b))))

-- `Duration::from_nanos` of the seconds, saturating, plus the nanoseconds, wrapping.
unfoldable pub duration : ℕ × ℕ → ℕ
duration (sec, nsec) = (min (sec * 1000000000) (2 ^ 64 - 1) + nsec) % 2 ^ 64

abbrev pub nap_for : Result (ℕ × ℕ) → Nap
nap_for (err e) = answers e
nap_for (ok t) = sleeps (duration t)

-- `nanosleep`, up to the sleep.
unfoldable pub nanosleep : Kernel → (req : ℤ) → Nap
nanosleep k req = nap_for (read_request k req)

-- `nanosleep` and a relative `clock_nanosleep` after the sleep: nothing remains.
unfoldable pub after_sleep : Kernel → (rem : ℤ) → Kernel × ℤ
after_sleep k rem = if is_zero rem then (k, pos 0) else copy_out k rem (timespec (0, 0))

-- An absolute sleep, until `req`.
abbrev pub total_ns : ℕ × ℕ → ℕ
total_ns (sec, nsec) = sec * 1000000000 + nsec

abbrev pub nap_until : Option (ℕ × ℕ) → ℕ × ℕ → Nap
nap_until none req = answers (to_ret einval)
nap_until (some cur) req =
    if leb (total_ns req) (total_ns cur)
    then answers (pos 0)
    else sleeps ((total_ns req - total_ns cur) % 2 ^ 64)

abbrev pub nap_by : Clocks → (clockid : ℤ) → (flags : ℕ) → Result (ℕ × ℕ) → Nap
nap_by c clockid flags (err e) = answers e
nap_by c clockid flags (ok req) =
    if not (bit_and flags 1 == 0)
    then nap_until (compute_time c clockid) req
    else sleeps (duration req)

-- `clock_nanosleep`, up to the sleep. TIMER_ABSTIME is 1.
unfoldable pub clock_nanosleep : Clocks → Kernel → (clockid flags req : ℤ) → Nap
clock_nanosleep c k clockid flags req =
    if not (known_clock clockid)
    then answers (to_ret einval)
    else nap_by c clockid (as_u32 flags) (read_request k req)

-- `gettimeofday`: the wall clock, plus the microseconds of the elapsed time.
unfoldable pub timeval_of : Clocks → ℕ × ℕ
timeval_of c =
    let usec = c.utc_us % 1000000 + c.elapsed_ns / 1000 % 1000000 in
    let sec = c.utc_us / 1000000 in (if leb 1000000 usec then sec + 1 else sec, usec % 1000000)

unfoldable pub gettimeofday : Clocks → Kernel → (tp : ℤ) → Kernel × ℤ
gettimeofday c k tp = copy_out k tp (timespec (timeval_of c))

-- `sysinfo`: 128 bytes, with the uptime, the sizes of memory and the processes set.
abbrev pub sysinfo_bytes : List ℕ
sysinfo_bytes =
    to_le 8 1
    ++ (replicate 24 0
        ++ (to_le 8 1073741824
            ++ (to_le 8 1073741824 ++ (replicate 56 0 ++ (to_le 8 1 ++ replicate 16 0)))))

unfoldable pub sysinfo : Kernel → (info : ℤ) → Kernel × ℤ
sysinfo k info = if is_zero info then (k, to_ret efault) else copy_out k info sysinfo_bytes

-- `times`: 32 zeros.
unfoldable pub times : Kernel → (buf : ℤ) → Kernel × ℤ
times k buf = if is_zero buf then (k, to_ret efault) else copy_out k buf (replicate 32 0)
