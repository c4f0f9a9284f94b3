-- ===== src/Sys/Resolver.antt =====
-- The resolution of names: src/sys/resolver.rs. `resolve` is cut where it awaits the lookup, which
-- a third-party library answers.
use edge_libos.Sys.Addrinfo.{
  Hints, IpAddr, eai_again, eai_badflags, eai_fail, eai_family, eai_noname, eai_service,
  eai_socktype, eai_system, marshal_and_return,
}
use edge_libos.Paths.{eq_bytes}
use edge_libos.Mem.Bytes.{from_le}
use edge_libos.Mem.{guest_slice, guest_str}
use edge_libos.Kernel.{Kernel}
use edge_libos.Base.Result.{Result, and_then, err, map_ok, ok}
use edge_libos.Base.{
  Bool, List, Option, [], as_u32, bit_and, drop, if◌then◌else◌, leb, length, ltb, none, not, pos,
  some, take, ℕ, ℤ, ◌&&◌, ◌*◌, ◌+◌, ◌-◌, ◌==◌, ◌||◌, ◌∷◌,
}
pub mod Cache
mod Tests

-- `CacheEntry` and `ResolverState`; times count nanoseconds.
pub record CacheEntry : Type 0 where
  pub addrs : List IpAddr
  pub inserted : ℕ

pub record ResolverState : Type 0 where
  pub cache : List (List ℕ × CacheEntry)
  pub denylist : List IpAddr
  pub ttl_ms : ℕ
  pub timeout_ms : ℕ

abbrev pub cached_entry : List ℕ → List (List ℕ × CacheEntry) → Option CacheEntry
cached_entry name [] = none
cached_entry name ((n, e) ∷ c) = if eq_bytes name n then some e else cached_entry name c

abbrev pub forget : List ℕ → List (List ℕ × CacheEntry) → List (List ℕ × CacheEntry)
forget name [] = []
forget name ((n, e) ∷ c) =
    let rest = forget name c in if eq_bytes name n then rest else (n, e) ∷ rest

-- The name with the smallest time; of several, the first.
abbrev pub older : List ℕ × CacheEntry → List ℕ × CacheEntry → List ℕ × CacheEntry
older (n, e) (m, f) = if leb e.inserted f.inserted then (n, e) else (m, f)

abbrev pub oldest : List ℕ × CacheEntry → List (List ℕ × CacheEntry) → List ℕ × CacheEntry
oldest b [] = b
oldest b (e ∷ c) = oldest (older b e) c

abbrev pub evict : List (List ℕ × CacheEntry) → List (List ℕ × CacheEntry)
evict [] = []
evict (e ∷ c) = forget (oldest e c).0 (e ∷ c)

-- Step 8 of `resolve`.
unfoldable pub remember : (now : ℕ) → List ℕ → List IpAddr → ResolverState → ResolverState
remember now name addrs s =
    let room = if leb 1024 (length s.cache) then evict s.cache else s.cache in
    record s { cache = (name, record { addrs = addrs; inserted = now }) ∷ forget name room }

-- The arguments, read and checked: steps 1 to 4.
pub record Request : Type 0 where
  pub node : List ℕ
  pub hints : Hints
  pub port : ℕ

-- `AI_NUMERICHOST | AI_NUMERICSERV` is 0x404.
abbrev pub check_hints : Hints → Result Hints
check_hints h =
    if not (bit_and h.flags 1028 == 0)
    then err eai_badflags
    else if not (h.family == 0 || h.family == 2 || h.family == 10)
    then err eai_family
    else if ltb 2 h.socktype
    then err eai_socktype
    else ok h

abbrev pub hints_of : List ℕ → Hints
hints_of b = record {
  flags = from_le (take 4 b);
  family = from_le (take 4 (drop 4 b));
  socktype = from_le (take 4 (drop 8 b));
  protocol = from_le (take 4 (drop 12 b));
}

abbrev pub or_system {ℓ} : {A : Type ℓ} → Result A → Result A
or_system (ok a) = ok a
or_system (err e) = err eai_system

abbrev pub read_hints : Kernel → (hints_ptr : ℕ) → Result Hints
read_hints k hints_ptr =
    if hints_ptr == 0
    then ok (record { flags = 0; family = 0; socktype = 0; protocol = 0 })
    else and_then (or_system (guest_slice k.memory (pos hints_ptr) (pos 32)))
        (λ b. check_hints (hints_of b))

-- `str::parse::<u16>`: decimal digits behind at most one `+`.
abbrev pub digits : ℕ → List ℕ → Option ℕ
digits n [] = some n
digits n (b ∷ bs) = if leb 48 b && leb b 57 then digits (n * 10 + (b - 48)) bs else none

abbrev pub unsigned : List ℕ → Option ℕ
unsigned [] = none
unsigned (b ∷ bs) = digits 0 (b ∷ bs)

abbrev pub without_plus : List ℕ → List ℕ
without_plus [] = []
without_plus (b ∷ bs) = if b == 43 then bs else b ∷ bs

abbrev pub in_u16 : Option ℕ → Result ℕ
in_u16 none = err eai_service
in_u16 (some n) = if ltb n 65536 then ok n else err eai_service

-- Where `resolve` ends: in an answer, or in a lookup that it awaits for at most the timeout.
pub data Resolving : Type 0 where
  answers : Kernel × ℤ → Resolving
  looks_up : Request → Resolving

abbrev pub is_fresh : (now ttl_ms : ℕ) → CacheEntry → Bool
is_fresh now ttl_ms e = (ttl_ms == 0) || ltb (now - e.inserted) (ttl_ms * 1000000)

abbrev pub from_cache :
    (now : ℕ) → ResolverState → Kernel → (res_ptr_ptr : ℕ) → Request → Option CacheEntry → Resolving
from_cache now s k res_ptr_ptr r none = looks_up r
from_cache now s k res_ptr_ptr r (some e) =
    if is_fresh now s.ttl_ms e
    then answers (marshal_and_return k e.addrs r.hints r.port s.denylist res_ptr_ptr)
    else looks_up r

abbrev pub requested :
    (now : ℕ) → ResolverState → Kernel → (res_ptr_ptr : ℕ) → Result Request → Resolving
requested now s k res_ptr_ptr (err e) = answers (k, e)
requested now s k res_ptr_ptr (ok r) =
    from_cache now s k res_ptr_ptr r (cached_entry r.node s.cache)

module _ (is_utf8 : List ℕ → Bool) where
  abbrev pub read_name : Kernel → (ptr cap : ℕ) → Result (List ℕ)
  read_name k ptr cap = or_system (guest_str is_utf8 k.memory (pos ptr) (pos cap))

  abbrev pub read_port : Kernel → (service_ptr : ℕ) → Result ℕ
  read_port k service_ptr =
      if service_ptr == 0
      then ok 0
      else and_then (read_name k service_ptr 64) (λ s. in_u16 (unsigned (without_plus s)))

  -- An unspecified type of socket becomes a stream.
  abbrev pub or_stream : Hints → Hints
  or_stream h = record h { socktype = if h.socktype == 0 then 1 else h.socktype }

  unfoldable pub read_request : Kernel → (node_ptr service_ptr hints_ptr : ℕ) → Result Request
  read_request k node_ptr service_ptr hints_ptr =
      if node_ptr == 0 && service_ptr == 0
      then err eai_noname
      else and_then (if node_ptr == 0 then ok [] else read_name k node_ptr 256) (λ node.
        and_then (read_hints k hints_ptr) (λ h.
          map_ok (λ port. record { node = node; hints = or_stream h; port = port })
            (read_port k service_ptr)))

  -- `resolve`, up to the lookup.
  unfoldable pub resolve :
      (now : ℕ)
      → ResolverState
      → Kernel
      → (node_ptr service_ptr hints_ptr res_ptr_ptr : ℤ) → Resolving
  resolve now s k node_ptr service_ptr hints_ptr res_ptr_ptr =
      requested now s k (as_u32 res_ptr_ptr)
        (read_request k (as_u32 node_ptr) (as_u32 service_ptr) (as_u32 hints_ptr))

-- What the lookup comes to.
pub data Lookup : Type 0 where
  timed_out failed : Lookup
  found : List IpAddr → Lookup

-- `resolve`, behind the lookup.
unfoldable pub after_lookup :
    (now : ℕ)
    → ResolverState
    → Kernel
    → (res_ptr_ptr : ℕ) → Request
    → Lookup
    → ResolverState × (Kernel × ℤ)
after_lookup now s k res_ptr_ptr r timed_out = (s, (k, eai_again))
after_lookup now s k res_ptr_ptr r failed = (s, (k, eai_fail))
after_lookup now s k res_ptr_ptr r (found addrs) =
    (remember now r.node addrs s, marshal_and_return k addrs r.hints r.port s.denylist res_ptr_ptr)
