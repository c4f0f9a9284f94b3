-- ===== src/Sys/Futex/Wake.antt =====
-- What a wake reports and takes from the count of waiters, and what a woken task takes again.
-- The count of an address; no entry counts as 0.
use edge_libos.Kernel.{FutexEntry, Kernel}
use edge_libos.Base.{
  ==_iff, Bool-cases, Option, Option-cases, ap, arith, if◌then◌else◌, inl, inr, min, none, refl,
  some, suc, sym, zero, ℕ, ◌*◌, ◌+◌, ◌-◌, ◌==◌, ◌∙◌, ◌≡◌,
}
use edge_libos.Map.{get, get-insert, get-remove, insert, remove}
use edge_libos.Sys.Futex.{FutexTable, clamp_i32, futex_wake, register_waiter, release_waiter}

abbrev count_of : Option FutexEntry → ℕ
count_of none = 0
count_of (some e) = e.waiters

pub waiters_at : FutexTable → ℕ → ℕ
waiters_at t a = count_of (get a t)

waiters_at-get :
    (t : FutexTable) (a : ℕ) (e : FutexEntry) → get a t ≡ some e → waiters_at t a ≡ e.waiters
unfolding waiters_at
waiters_at-get t a e h = ap count_of h

pub waiters_at-none : (t : FutexTable) (a : ℕ) → get a t ≡ none → waiters_at t a ≡ 0
unfolding waiters_at
waiters_at-none t a h = ap count_of h

waiters_at-insert :
    (t : FutexTable) (a b : ℕ) (e : FutexEntry)
    → waiters_at (insert a e t) b ≡ (if a == b then e.waiters else waiters_at t b)
unfolding waiters_at
waiters_at-insert t a b e =
    rw get-insert
      (elim (Bool-cases (a == b)) [ inl same ↦ rw same refl | inr other ↦ rw other refl ])

waiters_at-remove :
    (t : FutexTable) (a b : ℕ) → waiters_at (remove a t) b ≡ (if a == b then 0 else waiters_at t b)
unfolding waiters_at
waiters_at-remove t a b =
    rw get-remove
      (elim (Bool-cases (a == b)) [ inl same ↦ rw same refl | inr other ↦ rw other refl ])

-- A count that is written back, its entry pruned at 0.
waiters_at-prune :
    (t : FutexTable) (a b n : ℕ) (e : FutexEntry)
    → waiters_at (if n == 0 then remove a t else insert a (record e { waiters = n }) t) b
      ≡ (if a == b then n else waiters_at t b)
waiters_at-prune t a b n e = elim (Bool-cases (n == 0)) [
  | inl gone ↦
      rw gone
        (waiters_at-remove t a b ∙ ap (λ m. if a == b then m else waiters_at t b) (ground arith))
  | inr left ↦ rw left (waiters_at-insert t a b (record e { waiters = n }))
]

same_waiters :
    (t : FutexTable) (a b m : ℕ)
    → waiters_at t a ≡ m
    → waiters_at t b ≡ (if a == b then m else waiters_at t b)
same_waiters t a b m h = elim (Bool-cases (a == b)) [
  | inl same ↦ rw same (ap (waiters_at t) (sym ((==_iff a b).0 same)) ∙ h)
  | inr other ↦ rw other refl
]

-- `FUTEX_WAKE`: it reports the wanted number (0 if that is negative) cut down to the count of the
-- address, takes that from the count, and leaves the count of every other address.
pub futex_wake-waiters_at :
    (t : FutexTable) (a val : ℕ)
    → let (u, n) = futex_wake t a val in
      (n ≡ min (clamp_i32 val) (waiters_at t a))
      × ((b : ℕ) → waiters_at u b ≡ (if a == b then waiters_at t a - n else waiters_at t b))
unfolding futex_wake
futex_wake-waiters_at t a val = elim (Option-cases (get a t)) [
  | inl free ↦
      let none_there = waiters_at-none t a free in
      rw (free, futex_wake)
        (omega (arith, none_there), λ b. same_waiters t a b (waiters_at t a - 0) (omega arith))
  | inr (e, there) ↦
      let count = waiters_at-get t a e there in
      rw (there, futex_wake, count)
        (refl, λ b. waiters_at-prune t a b (e.waiters - min (clamp_i32 val) e.waiters) e)
]

pub release_waiter-waiters_at :
    (t : FutexTable) (a b : ℕ)
    → waiters_at (release_waiter t a) b ≡ (if a == b then waiters_at t a - 1 else waiters_at t b)
unfolding release_waiter
release_waiter-waiters_at t a b = elim (Option-cases (get a t)) [
  | inl free ↦
      let none_there = waiters_at-none t a free in
      rw (free, release_waiter)
        (same_waiters t a b (waiters_at t a - 1) (omega (arith, none_there)))
  | inr (e, there) ↦
      let count = waiters_at-get t a e there in
      rw (there, release_waiter, count) (waiters_at-prune t a b (e.waiters - 1) e)
]

abbrev pub futexes : Kernel → FutexTable
futexes k = k.process_state.futex_table

pub register_waiter-waiters_at :
    (k : Kernel) (a b : ℕ)
    → waiters_at (futexes (register_waiter k a).0) b
      ≡ (if a == b then waiters_at (futexes k) a + 1 else waiters_at (futexes k) b)
unfolding register_waiter
register_waiter-waiters_at k a b = elim (Option-cases (get a (futexes k))) [
  | inl free ↦
      let none_there = waiters_at-none (futexes k) a free in
      rw (free, register_waiter, none_there) (waiters_at-insert (futexes k) a b _)
  | inr (e, there) ↦
      let count = waiters_at-get (futexes k) a e there in
      rw (there, register_waiter, count) (waiters_at-insert (futexes k) a b _)
]

-- `n` tasks return from their wait.
pub release_all : ℕ → FutexTable → ℕ → FutexTable
release_all zero t a = t
release_all (suc n) t a = release_all n (release_waiter t a) a

release_all-waiters_at :
    (n : ℕ) (t : FutexTable) (a : ℕ) → waiters_at (release_all n t a) a ≡ waiters_at t a - n
unfolding release_all
release_all-waiters_at zero t a = omega arith
release_all-waiters_at (suc n) t a =
    ground (arith, release_all-waiters_at n (release_waiter t a) a, release_waiter-waiters_at t a a)

-- `FUTEX_WAKE` takes the tasks it wakes from the count, and each of them takes itself from it once
-- more: when all have returned, the count is short by twice their number.
pub release_all-futex_wake :
    (t : FutexTable) (a val : ℕ)
    → let (u, n) = futex_wake t a val in waiters_at (release_all n u a) a ≡ waiters_at t a - 2 * n
release_all-futex_wake t a val =
    let (u, n) = futex_wake t a val in
    let taken = (futex_wake-waiters_at t a val).1 a in
    ground (arith, release_all-waiters_at n u a, taken)
