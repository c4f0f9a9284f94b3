-- ===== src/Sys/Addrinfo.antt =====
-- The answers of the resolver: the error numbers, filter_addrs, marshal_addrinfo_into_vec and
-- marshal_and_return of src/sys/resolver.rs.
use edge_libos.Paths.{eq_bytes}
use edge_libos.Mem.Bytes.{to_le}
use edge_libos.Mem.{copy_to, guest_slice_mut}
use edge_libos.Kernel.{Kernel}
use edge_libos.Base.Result.{Result, err, ok}
use edge_libos.Base.{
  Bool, List, [], false, if◌then◌else◌, length, ltb, negsuc, not, pos, replicate, true, ℕ, ℤ, ◌%◌,
  ◌&&◌, ◌++◌, ◌+◌, ◌/◌, ◌==◌, ◌^◌, ◌||◌, ◌∷◌,
}

-- `IpAddr`, by its octets.
pub data IpAddr : Type 0 where
  ip_v4 ip_v6 : (octets : List ℕ) → IpAddr

abbrev pub is_ipv4 : IpAddr → Bool
is_ipv4 (ip_v4 o) = true
is_ipv4 (ip_v6 o) = false

abbrev pub eq_ip : IpAddr → IpAddr → Bool
eq_ip (ip_v4 a) (ip_v4 b) = eq_bytes a b
eq_ip (ip_v4 a) (ip_v6 b) = false
eq_ip (ip_v6 a) (ip_v4 b) = false
eq_ip (ip_v6 a) (ip_v6 b) = eq_bytes a b

abbrev pub contains_ip : IpAddr → List IpAddr → Bool
contains_ip ip [] = false
contains_ip ip (d ∷ ds) = eq_ip ip d || contains_ip ip ds

-- The error numbers of the C library.
abbrev pub eai_badflags : ℤ
eai_badflags = negsuc 0

abbrev pub eai_noname : ℤ
eai_noname = negsuc 1

abbrev pub eai_again : ℤ
eai_again = negsuc 2

abbrev pub eai_fail : ℤ
eai_fail = negsuc 3

abbrev pub eai_family : ℤ
eai_family = negsuc 5

abbrev pub eai_socktype : ℤ
eai_socktype = negsuc 6

abbrev pub eai_service : ℤ
eai_service = negsuc 7

abbrev pub eai_memory : ℤ
eai_memory = negsuc 9

abbrev pub eai_system : ℤ
eai_system = negsuc 10

-- `filter_addrs`.
abbrev pub in_family : ℕ → IpAddr → Bool
in_family family ip =
    if family == 2 then is_ipv4 ip else if family == 10 then not (is_ipv4 ip) else true

unfoldable pub filter_addrs : List IpAddr → (family : ℕ) → (denylist : List IpAddr) → List IpAddr
filter_addrs [] family denylist = []
filter_addrs (ip ∷ ips) family denylist =
    let rest = filter_addrs ips family denylist in
    if in_family family ip && not (contains_ip ip denylist) then ip ∷ rest else rest

-- The hints of the guest, patterns of i32.
pub record Hints : Type 0 where
  pub flags : ℕ
  pub family : ℕ
  pub socktype : ℕ
  pub protocol : ℕ

-- `marshal_addrinfo_into_vec`: one `addrinfo` and its `sockaddr` after the other.
abbrev pub addrlen : IpAddr → ℕ
addrlen ip = if is_ipv4 ip then 16 else 28

abbrev pub family_number : IpAddr → ℕ
family_number ip = if is_ipv4 ip then 2 else 10

abbrev pub addrinfo : Hints → (off : ℕ) → IpAddr → (next : ℕ) → List ℕ
addrinfo h off ip next =
    to_le 4 h.flags
    ++ (to_le 4 (family_number ip)
        ++ (to_le 4 h.socktype
            ++ (to_le 4 h.protocol
                ++ (to_le 4 (addrlen ip)
                    ++ (to_le 4 ((off + 32) % 2 ^ 32) ++ (to_le 4 0 ++ to_le 4 next))))))

abbrev pub port_bytes : ℕ → List ℕ
port_bytes port = port / 256 ∷ port % 256 ∷ []

abbrev pub sockaddr : (port : ℕ) → IpAddr → List ℕ
sockaddr port (ip_v4 o) = to_le 2 2 ++ (port_bytes port ++ (o ++ replicate 8 0))
sockaddr port (ip_v6 o) = to_le 2 10 ++ (port_bytes port ++ (replicate 4 0 ++ (o ++ replicate 4 0)))

abbrev pub next_off : (behind : ℕ) → List IpAddr → ℕ
next_off behind [] = 0
next_off behind (ip ∷ ips) = behind % 2 ^ 32

unfoldable pub marshal_from : Hints → (port off : ℕ) → List IpAddr → List ℕ
marshal_from h port off [] = []
marshal_from h port off (ip ∷ ips) =
    addrinfo h off ip (next_off (off + 32 + addrlen ip) ips)
    ++ (sockaddr port ip ++ marshal_from h port (off + 32 + addrlen ip) ips)

abbrev pub marshal_addrinfo_into_vec : Hints → (port : ℕ) → List IpAddr → List ℕ × ℕ
marshal_addrinfo_into_vec h port addrs = (marshal_from h port 0 addrs, 0)

-- `marshal_and_return`.
abbrev pub written_then : Kernel → List ℕ → (Kernel → Kernel × ℤ) → Result ℕ → Kernel × ℤ
written_then k bytes after (ok p) = after (record k { memory = copy_to k.memory p bytes })
written_then k bytes after (err e) = (k, eai_system)

abbrev pub marshalled : Kernel → Hints → (port : ℕ) → (res_ptr_ptr : ℕ) → List IpAddr → Kernel × ℤ
marshalled k h port res_ptr_ptr [] = (k, eai_noname)
marshalled k h port res_ptr_ptr (ip ∷ ips) =
    let (bytes, head_off) = marshal_addrinfo_into_vec h port (ip ∷ ips) in
    if ltb 4096 (length bytes)
    then (k, eai_memory)
    else written_then k bytes
        (λ n.
          written_then n (to_le 4 head_off) (λ m. (m, pos (length (ip ∷ ips))))
            (guest_slice_mut n.memory (pos res_ptr_ptr) (pos 4)))
        (guest_slice_mut k.memory (pos 8192) (pos (length bytes)))

unfoldable pub marshal_and_return :
    Kernel
    → List IpAddr
    → Hints
    → (port : ℕ) → (denylist : List IpAddr) → (res_ptr_ptr : ℕ) → Kernel × ℤ
marshal_and_return k addrs h port denylist res_ptr_ptr =
    marshalled k h port res_ptr_ptr (filter_addrs addrs h.family denylist)
