-- ===== src/Sys/Resolver/Cache.antt =====
-- The cache of the resolver.
use edge_libos.Vfs.Inside.{eq_bytes-eq}
use edge_libos.Sys.Resolver.{
  CacheEntry, Lookup, Request, ResolverState, after_lookup, answers, cached_entry, evict, failed,
  forget, found, is_fresh, oldest, read_request, remember, resolve, timed_out,
}
use edge_libos.Sys.Addrinfo.{IpAddr, marshal_and_return}
use edge_libos.Paths.{eq_bytes}
use edge_libos.Kernel.{Kernel}
use edge_libos.Base.Result.{ok}
use edge_libos.Base.{
  All, Bool, Bool-cases, List, [], ap, arith, as_u32, false, if-cases, if◌then◌else◌, inl, inr, leb,
  leb→le, length, ltb, refl, some, subst, sym, true, ℕ, ℤ, ◌*◌, ◌+◌, ◌-◌, ◌<◌, ◌==◌, ◌||◌, ◌∙◌, ◌∷◌,
  ◌≡◌, ◌≤◌, ◌⊎◌,
}

eq_bytes_self : (s : List ℕ) → eq_bytes s s ≡ true
eq_bytes_self [] = refl
eq_bytes_self (x ∷ xs) =
    let self : (x == x) ≡ true = ground arith in rw (self, eq_bytes_self xs) refl

abbrev named : List ℕ → List (List ℕ × CacheEntry) → Bool
named name [] = false
named name ((n, e) ∷ c) = eq_bytes name n || named name c

length-forget : (name : List ℕ) (c : List (List ℕ × CacheEntry)) → length (forget name c) ≤ length c
length-forget name [] = ground arith
length-forget name ((n, e) ∷ c) = ground (arith, length-forget name c)

-- A name that is there makes room.
forget-named :
    (name : List ℕ) (c : List (List ℕ × CacheEntry))
    → named name c ≡ true
    → length (forget name c) < length c
forget-named name [] h = absurd (ground arith)
forget-named name ((n, e) ∷ c) h = ground (arith, length-forget name c, forget-named name c)

named-oldest :
    (b : List ℕ × CacheEntry) (c : List (List ℕ × CacheEntry)) → named (oldest b c).0 (b ∷ c) ≡ true
named-oldest (n, e) [] = rw (eq_bytes_self n) refl
named-oldest (n, e) ((m, f) ∷ c) =
    if-cases (λ (x : List ℕ × CacheEntry). named (oldest x c).0 ((n, e) ∷ (m, f) ∷ c) ≡ true)
      (leb e.inserted f.inserted) (n, e) (m, f) (λ t. ground (arith, named-oldest (n, e) c))
      (λ t. ground (arith, named-oldest (m, f) c))

length-evict : (c : List (List ℕ × CacheEntry)) → 0 < length c → length (evict c) < length c
length-evict [] h = h
length-evict (e ∷ c) h = forget-named (oldest e c).0 (e ∷ c) (named-oldest e c)

room_left :
    (c : List (List ℕ × CacheEntry))
    → length c ≤ 1024
    → length (if leb 1024 (length c) then evict c else c) < 1024
room_left c h =
    if-cases (λ (x : List (List ℕ × CacheEntry)). length x < 1024) (leb 1024 (length c)) (evict c) c
      (λ t. ground (arith, length-evict c, leb→le 1024 (length c) t)) (λ t. ground arith)

-- Whatever a lookup comes to, the cache holds at most 1024 names behind it if it did before.
pub after_lookup-bounded :
    (now : ℕ) (s : ResolverState) (k : Kernel) (res_ptr_ptr : ℕ) (r : Request) (l : Lookup)
    → length s.cache ≤ 1024
    → length (after_lookup now s k res_ptr_ptr r l).0.cache ≤ 1024
unfolding after_lookup remember
after_lookup-bounded now s k res_ptr_ptr r timed_out h = h
after_lookup-bounded now s k res_ptr_ptr r failed h = h
after_lookup-bounded now s k res_ptr_ptr r (found addrs) h =
    let room = if leb 1024 (length s.cache) then evict s.cache else s.cache in
    let few : length room < 1024 = room_left s.cache h in
    let less = length-forget r.node room in omega arith

-- Forgetting a name leaves the entries of the others.
cached_entry-forget :
    (name other : List ℕ) (c : List (List ℕ × CacheEntry))
    → eq_bytes name other ≡ false
    → cached_entry name (forget other c) ≡ cached_entry name c
cached_entry-forget name other [] h = refl
cached_entry-forget name other ((n, e) ∷ c) h =
    let rest = cached_entry-forget name other c h in
    elim (Bool-cases (eq_bytes other n)) [
      | inl same ↦
          let absent : eq_bytes name n ≡ false =
            subst (λ x. eq_bytes name x ≡ false) (eq_bytes-eq other n same) h in
          rw (same, absent) rest
      | inr differ ↦ rw differ (ap (λ o. if eq_bytes name n then some e else o) rest)
    ]

-- What a lookup of another name changes of a cache with room: nothing that matters to this one.
record Spared (name : List ℕ) (s t : ResolverState) : Type 0 where
  same_entry : cached_entry name t.cache ≡ cached_entry name s.cache
  same_ttl : t.ttl_ms ≡ s.ttl_ms
  same_denylist : t.denylist ≡ s.denylist
  one_more : length t.cache ≤ length s.cache + 1

-- A lookup that ends: when, for which request, and how.
pub record Ended : Type 0 where
  pub now : ℕ
  pub kernel : Kernel
  pub res_ptr_ptr : ℕ
  pub request : Request
  pub lookup : Lookup

abbrev pub after : ResolverState → Ended → ResolverState
after s v = (after_lookup v.now s v.kernel v.res_ptr_ptr v.request v.lookup).0

abbrev pub after_all : ResolverState → List Ended → ResolverState
after_all s [] = s
after_all s (v ∷ vs) = after_all (after s v) vs

abbrev pub Others : List ℕ → List Ended → Type 0
Others name vs = All (λ v. eq_bytes name v.request.node ≡ false) vs

after_lookup-Spared :
    (name : List ℕ) (s : ResolverState) (now : ℕ) (k : Kernel) (res : ℕ) (r : Request) (l : Lookup)
    → eq_bytes name r.node ≡ false
    → length s.cache < 1024
    → Spared name s (after_lookup now s k res r l).0
unfolding after_lookup remember
after_lookup-Spared name s now k res r timed_out h room = record {
  same_entry = refl;
  same_ttl = refl;
  same_denylist = refl;
  one_more = omega arith;
}
after_lookup-Spared name s now k res r failed h room = record {
  same_entry = refl;
  same_ttl = refl;
  same_denylist = refl;
  one_more = omega arith;
}
after_lookup-Spared name s now k res r (found addrs) h room =
    let roomy : leb 1024 (length s.cache) ≡ false = ground arith in
    let fewer = length-forget r.node s.cache in
    record {
      same_entry = rw (roomy, h) (cached_entry-forget name r.node s.cache h);
      same_ttl = refl;
      same_denylist = refl;
      one_more = rw roomy (omega arith);
    }

after-Spared :
    (name : List ℕ) (s : ResolverState) (v : Ended)
    → eq_bytes name v.request.node ≡ false
    → length s.cache < 1024
    → Spared name s (after s v)
after-Spared name s v h room =
    after_lookup-Spared name s v.now v.kernel v.res_ptr_ptr v.request v.lookup h room

after_all-Spared :
    (name : List ℕ) (s : ResolverState) (vs : List Ended)
    → Others name vs
    → length s.cache + length vs ≤ 1024
    → (cached_entry name (after_all s vs).cache ≡ cached_entry name s.cache)
      × ((after_all s vs).ttl_ms ≡ s.ttl_ms)
      × ((after_all s vs).denylist ≡ s.denylist)
after_all-Spared name s [] h room = (refl, refl, refl)
after_all-Spared name s (v ∷ vs) h room =
    let x = after-Spared name s v h.0 (omega arith) in
    let more = x.one_more in
    let (a, b, c) = after_all-Spared name (after s v) vs h.1 (omega arith) in
    (a ∙ x.same_entry, b ∙ x.same_ttl, c ∙ x.same_denylist)

within_ttl :
    (later now ttl_ms : ℕ)
    → (ttl_ms ≡ 0) ⊎ (later - now < ttl_ms * 1000000)
    → ((ttl_ms == 0) || ltb (later - now) (ttl_ms * 1000000)) ≡ true
within_ttl later now ttl_ms h = ground arith

-- A name that a lookup has found is answered from the cache, with the addresses that were found and
-- without another lookup, by each resolution that asks for it within the time to live, which 0 makes
-- endless: whatever lookups of other names have ended in between, if the cache has had room for all
-- of them, so that nothing was evicted, and no other lookup of this name has.
pub resolve-after_lookup :
    (is_utf8 : List ℕ → Bool) (now : ℕ) (s : ResolverState) (k : Kernel) (res : ℕ) (r : Request)
    (addrs : List IpAddr) (between : List Ended) (later : ℕ) (n : Kernel)
    (node_ptr service_ptr hints_ptr res_ptr_ptr : ℤ) (q : Request)
    → length s.cache + length between < 1024
    → Others r.node between
    → read_request is_utf8 n (as_u32 node_ptr) (as_u32 service_ptr) (as_u32 hints_ptr) ≡ ok q
    → q.node ≡ r.node
    → (s.ttl_ms ≡ 0) ⊎ (later - now < s.ttl_ms * 1000000)
    → resolve is_utf8 later
        (after_all (after_lookup now s k res r (found addrs)).0 between)
        n
        node_ptr
        service_ptr
        hints_ptr
        res_ptr_ptr
      ≡ answers (marshal_and_return n addrs q.hints q.port s.denylist (as_u32 res_ptr_ptr))
unfolding resolve after_lookup remember
resolve-after_lookup is_utf8 now s k res r addrs between later n node_ptr service_ptr hints_ptr
      res_ptr_ptr q room others e same h =
    let t = (after_lookup now s k res r (found addrs)).0 in
    let roomy : leb 1024 (length s.cache) ≡ false = ground arith in
    let fewer : length t.cache ≤ length s.cache + 1 =
      rw roomy (let f = length-forget r.node s.cache in omega arith) in
    let (entry, ttl, deny) = after_all-Spared r.node t between others (omega arith) in
    let hit : eq_bytes r.node r.node ≡ true = eq_bytes_self r.node in
    let stored : cached_entry q.node (after_all t between).cache
        ≡ some (record { addrs = addrs; inserted = now }) =
      subst
        (λ x.
          cached_entry x (after_all t between).cache
          ≡ some (record { addrs = addrs; inserted = now }))
        (sym same) (entry ∙ rw hit refl) in
    let fresh : is_fresh later s.ttl_ms (record { addrs = addrs; inserted = now }) ≡ true =
      within_ttl later now s.ttl_ms h in
    rw (e, stored, ttl, deny, fresh) refl
