-- ===== src/Sys/Resolver/Tests.antt =====
-- Resolutions at concrete inputs.
use edge_libos.Mem.Bytes.{read_at}
use edge_libos.Tests.Memory.{a_kernel}
use edge_libos.Sys.Resolver.Cache.{Ended, after_all, after_lookup-bounded, resolve-after_lookup}
use edge_libos.Sys.Resolver.{
  Request, ResolverState, after_lookup, answers, found, read_request, resolve,
}
use edge_libos.Sys.Addrinfo.{IpAddr, ip_v4, marshal_and_return}
use edge_libos.Mem.{guest_slice, guest_slice_mut, guest_str, owned}
use edge_libos.Kernel.{Kernel}
use edge_libos.Base.Result.{ok}
use edge_libos.Base.{
  List, [], arith, if◌then◌else◌, inr, length, pos, refl, some, true, ◌==◌, ◌∷◌, ◌≡◌, ◌≤◌,
}

-- The name "a" at address 1.
abbrev asking : Kernel
asking = record a_kernel {
  memory = some (owned (record { size = 65536; byte = λ q. if q == 1 then 97 else 0 }));
}

abbrev for_a : Request
for_a = record {
  node = 97 ∷ [];
  hints = record { flags = 0; family = 0; socktype = 1; protocol = 0 };
  port = 0;
}

abbrev no_names : ResolverState
no_names = record { cache = []; denylist = []; ttl_ms = 60000; timeout_ms = 5000 }

abbrev home : List IpAddr
home = ip_v4 (127 ∷ 0 ∷ 0 ∷ 1 ∷ []) ∷ []

for_a_read : read_request (λ s. true) asking 1 0 0 ≡ ok for_a
unfolding read_request guest_str guest_slice guest_slice_mut read_at
for_a_read = refl

after_lookup-bounded_example :
    length (after_lookup 5 no_names asking 64 for_a (found home)).0.cache ≤ 1024
after_lookup-bounded_example =
    after_lookup-bounded 5 no_names asking 64 for_a (found home) (omega arith)

-- A lookup of "b" that ends in between.
abbrev for_b : Ended
for_b = record {
  now = 7;
  kernel = a_kernel;
  res_ptr_ptr = 64;
  request = record for_a { node = 98 ∷ [] };
  lookup = found [];
}

resolve-after_lookup_example :
    resolve
      (λ s. true)
      9
      (after_all (after_lookup 5 no_names a_kernel 64 for_a (found home)).0 (for_b ∷ []))
      asking
      (pos 1)
      (pos 0)
      (pos 0)
      (pos 64)
    ≡ answers (marshal_and_return asking home for_a.hints 0 [] 64)
resolve-after_lookup_example =
    resolve-after_lookup (λ s. true) 5 no_names a_kernel 64 for_a home (for_b ∷ []) 9 asking (pos 1)
      (pos 0) (pos 0) (pos 64) for_a (omega arith) (refl, tt) for_a_read refl (inr (omega arith))
