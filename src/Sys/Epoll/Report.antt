-- ===== src/Sys/Epoll/Report.antt =====
-- What an epoll wait reports: the ready entries, and their events in memory.
-- An entry with its events, which are not 0.
use edge_libos.Base.Result.{Result, err, ok}
use edge_libos.Mem.Bounds.{Access, guest_slice_mut-Access}
use edge_libos.Mem.Bytes.{from_le, from_le-to_le, length-to_le, to_le, write_at}
use edge_libos.Mem.{Memory, copy_to, owned}
use edge_libos.Base.{
  All, Bool-cases, List, List-cases, Listed, [], ap, arith, drop, drop-append_length, drop-drop,
  false, inl, inr, length, length-append, length-take, map, min, negsuc, pos, refl, some, subst,
  suc, sym, take, take-append_length, zero, ℕ, ℤ, ◌*◌, ◌++◌, ◌+◌, ◌<◌, ◌==◌, ◌^◌, ◌∙◌, ◌∷◌, ◌≡◌,
  ◌≢◌, ◌≤◌,
}
use edge_libos.Kernel.{Kernel}
use edge_libos.Fd.Objects.{EpollEntry}
use edge_libos.Sys.Epoll.{
  Entries, Wait, compute_revents, epoll_wait_on, event_bytes, pack_at, pack_events,
  snapshot_readiness,
}

abbrev pub IsReady : Kernel → EpollEntry × ℕ → Type 0
IsReady k (e, r) = (r ≡ compute_revents k e.fd e.events) × (r ≢ 0)

abbrev pub IsRegistered : Entries → EpollEntry → Type 0
IsRegistered es e = (fd : ℕ) × Listed (fd, e) es

snapshot_readiness_sound :
    (k : Kernel) (es : Entries) (e : EpollEntry) (r : ℕ)
    → Listed (e, r) (snapshot_readiness k es)
    → IsReady k (e, r) × IsRegistered es e
unfolding snapshot_readiness
snapshot_readiness_sound k [] e r h = absurd h
snapshot_readiness_sound k ((fd, d) ∷ es) e r h =
    elim (Bool-cases (compute_revents k d.fd d.events == 0)) [
      | inl idle ↦
          let (ready, (f, there)) = snapshot_readiness_sound k es e r (rw idle at h) in
          (ready, (f, inr there))
      | inr active ↦ elim (rw active at h) [
        | inl same ↦
            let is : d ≡ e = ap (λ x. x.0) (sym same) in
            subst (λ c. IsReady k (c, r) × IsRegistered ((fd, d) ∷ es) c) is
              ((ap (λ x. x.1) same, ground (arith, ap (λ x. x.1) same, active)), (fd, inl refl))
        | inr later ↦
            let (ready, (f, there)) = snapshot_readiness_sound k es e r later in
            (ready, (f, inr there))
      ]
    ]

snapshot_readiness_complete :
    (k : Kernel) (es : Entries) (e : EpollEntry)
    → IsRegistered es e
    → compute_revents k e.fd e.events ≢ 0
    → Listed (e, compute_revents k e.fd e.events) (snapshot_readiness k es)
unfolding snapshot_readiness
snapshot_readiness_complete k [] e (fd, h) n = absurd h
snapshot_readiness_complete k ((fd, d) ∷ es) e (f, inl same) n =
    let is : e ≡ d = ap (λ x. x.1) same in
    let active : (compute_revents k d.fd d.events == 0) ≡ false =
      ground (arith, subst (λ c. compute_revents k c.fd c.events ≢ 0) is n) in
    rw active (inl (ap (λ c. (c, compute_revents k c.fd c.events)) is))
snapshot_readiness_complete k ((fd, d) ∷ es) e (f, inr later) n =
    let there = snapshot_readiness_complete k es e (f, later) n in
    elim (Bool-cases (compute_revents k d.fd d.events == 0)) [
      | inl idle ↦ rw idle there
      | inr active ↦ rw active (inr there)
    ]

-- One `struct epoll_event` of 12 bytes after the other: the events and the data.
pub parse_events : ℕ → List ℕ → List (ℕ × ℕ)
parse_events zero bs = []
parse_events (suc n) bs =
    (from_le (take 4 bs), from_le (take 8 (drop 4 bs))) ∷ parse_events n (drop 12 bs)

-- The numbers fit in their 4 and 8 bytes.
abbrev pub FitsEvent : EpollEntry × ℕ → Type 0
FitsEvent (e, r) = (r < 2 ^ 32) × (e.user_data < 2 ^ 64)

abbrev pub event_of : EpollEntry × ℕ → ℕ × ℕ
event_of (e, r) = (r, e.user_data)

length-event_bytes : (es : List (EpollEntry × ℕ)) → length (event_bytes es) ≡ length es * 12
unfolding event_bytes
length-event_bytes [] = omega arith
length-event_bytes ((e, r) ∷ es) =
    let tail = to_le 8 e.user_data ++ event_bytes es in
    let whole : length (to_le 4 r ++ tail) ≡ suc (length es) * 12 = omega (
      arith,
      length-append (to_le 4 r) tail,
      length-append (to_le 8 e.user_data) (event_bytes es),
      length-to_le 4 r,
      length-to_le 8 e.user_data,
      length-event_bytes es,
    ) in
    whole

-- The events that a wait writes are read back by their layout, each with the data word that the
-- guest registered.
pub parse_events-event_bytes :
    (es : List (EpollEntry × ℕ))
    → All FitsEvent es
    → parse_events (length es) (event_bytes es) ≡ map event_of es
unfolding parse_events event_bytes
parse_events-event_bytes [] h = refl
parse_events-event_bytes ((e, r) ∷ es) ((small, fits), h) =
    let tail = to_le 8 e.user_data ++ event_bytes es in
    let l4 = sym (length-to_le 4 r) in
    let l8 = sym (length-to_le 8 e.user_data) in
    let first =
      ap from_le (take-append_length (to_le 4 r) tail 4 l4)
      ∙ from_le-to_le 4 r (omega (arith, small)) in
    let rest : drop 4 (to_le 4 r ++ tail) ≡ tail = drop-append_length (to_le 4 r) tail 4 l4 in
    let second =
      ap (λ b. from_le (take 8 b)) rest
      ∙ ap from_le (take-append_length (to_le 8 e.user_data) (event_bytes es) 8 l8)
      ∙ from_le-to_le 8 e.user_data (omega (arith, fits)) in
    let third : drop 12 (to_le 4 r ++ tail) ≡ event_bytes es =
      drop-drop 4 8 (to_le 4 r ++ tail)
      ∙ ap (drop 8) rest
      ∙ drop-append_length (to_le 8 e.user_data) (event_bytes es) 8 l8 in
    let bytes = to_le 4 r ++ tail in
    let whole : (from_le (take 4 bytes), from_le (take 8 (drop 4 bytes)))
          ∷ parse_events (length es) (drop 12 bytes)
        ≡ (r, e.user_data) ∷ map event_of es =
      rw (first, second, third) (ap (◌∷◌ (r, e.user_data)) (parse_events-event_bytes es h)) in
    whole

-- The outcomes of writing `count` events, of these bytes, to memory `m`.
abbrev pub Packed : Kernel → Memory → ℤ → ℕ → List ℕ → Kernel × ℤ → Type 0
Packed k m ptr count bytes (n, pos c) =
    (c ≡ count)
    × (p : ℕ) × (ptr ≡ pos p)
    × (p + count * 12 ≤ m.size)
    × (n ≡ record k { memory = some (owned (record m { byte = write_at p bytes m.byte })) })
    × (length bytes ≡ count * 12)
Packed k m ptr count bytes (n, negsuc e) = n ≡ k

pack_at-Packed :
    (k : Kernel) (m : Memory) (ptr : ℤ) (count : ℕ) (bytes : List ℕ) (r : Result ℕ)
    → k.memory ≡ some (owned m)
    → length bytes ≡ count * 12
    → Access k.memory ptr (pos (count * 12)) r
    → Packed k m ptr count bytes (pack_at k count bytes r)
unfolding pack_at
pack_at-Packed k m ptr count bytes (ok p) mem len (o, is, at, n, whole, fits) = (
  refl,
  p,
  at,
  ground (arith, mem, is, whole, fits),
  ap (λ x. record k { memory = copy_to x p bytes }) mem,
  len,
)
pack_at-Packed k m ptr count bytes (err (pos e)) mem len (inl h) = absurd (cc (h.0))
pack_at-Packed k m ptr count bytes (err (pos e)) mem len (inr h) = absurd (cc (h.0))
pack_at-Packed k m ptr count bytes (err (negsuc e)) mem len h = refl

-- Writing the events of a wait, on owned memory: either as many events as there are ready entries,
-- cut down to `maxevents`, are reported, their bytes fill exactly 12 times that many places inside
-- the memory, and nothing else changes; or the range is refused and nothing changes.
pub pack_events-Packed :
    (k : Kernel) (m : Memory) (ptr : ℤ) (maxevents : ℕ) (ready : List (EpollEntry × ℕ))
    → k.memory ≡ some (owned m)
    → let count = min (length ready) maxevents in
      Packed k m ptr count (event_bytes (take count ready)) (pack_events k ptr maxevents ready)
unfolding pack_events
pack_events-Packed k m ptr maxevents ready mem =
    let count = min (length ready) maxevents in
    let taken : length (take count ready) ≡ count = omega (arith, length-take count ready) in
    pack_at-Packed k m ptr count (event_bytes (take count ready)) _ mem
      (length-event_bytes (take count ready) ∙ ap (λ n. n * 12) taken)
      (guest_slice_mut-Access k.memory ptr (pos (count * 12)))

-- A wait that parks had no ready entry: the readiness of every registered entry was 0.
pub epoll_wait_on-parked :
    (k k' : Kernel) (events timeout_ms : ℤ) (maxevents : ℕ) (es held : Entries) (e : EpollEntry)
    → epoll_wait_on k events maxevents timeout_ms es ≡ Wait.parked k' held
    → IsRegistered es e
    → compute_revents k e.fd e.events ≡ 0
unfolding epoll_wait_on
epoll_wait_on-parked k k' events timeout_ms maxevents [] held e h (fd, there) = absurd there
epoll_wait_on-parked k k' events timeout_ms maxevents (x ∷ es) held e h there =
    elim (List-cases (snapshot_readiness k (x ∷ es))) [
      | inl nothing ↦ elim (Bool-cases (compute_revents k e.fd e.events == 0)) [
        | inl idle ↦ ground arith
        | inr active ↦ absurd (
            subst (Listed (e, compute_revents k e.fd e.events)) nothing
              (snapshot_readiness_complete k (x ∷ es) e there (ground arith)))
      ]
      | inr (r, rs, found) ↦ absurd (cc (rw (found, epoll_wait_on) at h))
    ]
