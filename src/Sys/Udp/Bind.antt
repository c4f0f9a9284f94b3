-- ===== src/Sys/Udp/Bind.antt =====
-- Binding the host socket happens once.
use edge_libos.Errno.{eacces, eaddrinuse, eaddrnotavail, eio, to_ret}
use edge_libos.Fd.Objects.{SockAddr}
use edge_libos.Sys.Udp.{
  BindError, UdpHost, UdpSocketState, addr_in_use, addr_not_available, addr_or_eio, after_bind,
  bind_denied, bind_new, bind_other, ensure_bound, ensure_socket, install_socket, is_v6,
}
use edge_libos.Base.Result.{IsNegative, Result, err, ok}
use edge_libos.Base.{Option, ap, if-cases, inl, inr, none, refl, some, ℕ, ℤ, ◌&&◌, ◌∙◌, ◌≡◌, ◌⊎◌}

pub IsBound : UdpHost → UdpSocketState → SockAddr → Type 0
IsBound h s a = (sock : ℕ) × (s.socket ≡ some sock) × (h.local_addr_of sock ≡ some a)

-- Either an error, and the socket as it was, or an address that binding again returns too.
pub Once : UdpHost → UdpSocketState → SockAddr → UdpSocketState × Result SockAddr → Type 0
Once h s again x =
    ((e : ℤ) × (x ≡ (s, err e)) × IsNegative e)
    ⊎ ((a : SockAddr) × (x.1 ≡ ok a) × IsBound h x.0 a × (ensure_bound h x.0 again ≡ (x.0, ok a)))

module _ (h : UdpHost) (s : UdpSocketState) (requested again : SockAddr) where
  bound_already :
      (sock : ℕ) (o : Option SockAddr)
      → s.socket ≡ some sock
      → h.local_addr_of sock ≡ o
      → Once h s again (s, addr_or_eio o)
  unfolding Once IsBound ensure_bound
  bound_already sock none there told = inl (to_ret eio, refl, refl)
  bound_already sock (some a) there told = inr (
    a,
    refl,
    (sock, there, told),
    ap (ensure_socket h s again) there ∙ ap (λ o. (s, addr_or_eio o)) told,
  )

  installed :
      (sock : ℕ) (o : Option SockAddr)
      → h.local_addr_of sock ≡ o
      → Once h s again (install_socket s sock (addr_or_eio o))
  unfolding Once IsBound ensure_bound
  installed sock none told = inl (to_ret eio, refl, refl)
  installed sock (some a) told =
      let t : UdpSocketState = record s { socket = some sock; bound_addr = some a } in
      inr (a, refl, (sock, refl, told), ap (λ o. (t, addr_or_eio o)) told)

  bound_now : (sock : ℕ) (o : Option BindError) → Once h s again (after_bind h s sock o)
  unfolding Once
  bound_now sock (some addr_in_use) = inl (to_ret eaddrinuse, refl, refl)
  bound_now sock (some addr_not_available) = inl (to_ret eaddrnotavail, refl, refl)
  bound_now sock (some bind_denied) = inl (to_ret eacces, refl, refl)
  bound_now sock (some bind_other) = inl (to_ret eio, refl, refl)
  bound_now sock none =
      if-cases (Once h s again) (h.prepare sock) _ _
        (λ e. installed sock (h.local_addr_of sock) refl) (λ e. inl (to_ret eio, refl, refl))

  created : (r : BindError ⊎ ℕ) → Once h s again (bind_new h s requested r)
  unfolding Once
  created (inl addr_in_use) = inl (to_ret eio, refl, refl)
  created (inl addr_not_available) = inl (to_ret eio, refl, refl)
  created (inl bind_denied) = inl (to_ret eacces, refl, refl)
  created (inl bind_other) = inl (to_ret eio, refl, refl)
  created (inr sock) = bound_now sock (h.bind sock requested)

  -- Binding either fails with an error number and leaves the socket as it was, or returns the
  -- address of the socket's host socket, which the socket keeps: binding again, to whatever
  -- address, returns the same address and changes nothing.
  pub ensure_bound-Once : Once h s again (ensure_bound h s requested)
  unfolding ensure_bound
  ensure_bound-Once = by_socket s.socket refl
    where
      by_socket : (o : Option ℕ) → s.socket ≡ o → Once h s again (ensure_socket h s requested o)
      by_socket none e =
          created (h.create s.family s.so_reuseaddr (is_v6 s.family && s.ipv6_v6only))
      by_socket (some sock) e = bound_already sock (h.local_addr_of sock) e refl
