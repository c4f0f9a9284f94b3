-- ===== src/Sys/Udp/Tests.antt =====
-- A socket's queue at concrete inputs.
use edge_libos.Sys.Udp.Bind.{Once, ensure_bound-Once}
use edge_libos.Sys.Udp.Log.{arrives, receives, run_log, run_socket, run_socket-run_log}
use edge_libos.Sys.Udp.{UdpHost, enqueue, ensure_bound, family_v4, new_state, try_dequeue}
use edge_libos.Fd.Objects.{SockAddr, v4}
use edge_libos.Base.{[], false, inr, none, refl, some, true, ◌∷◌, ◌≡◌}

abbrev a_host : UdpHost
a_host = record {
  create = λ f r v. inr 7;
  bind = λ s a. none;
  prepare = λ s. true;
  local_addr_of = λ s. some (v4 40000 (127 ∷ 0 ∷ 0 ∷ 1 ∷ []));
}

abbrev an_addr : SockAddr
an_addr = v4 0 (127 ∷ 0 ∷ 0 ∷ 1 ∷ [])

run_socket-run_log_example :
    run_socket
      (new_state family_v4 false false)
      (arrives (1 ∷ []) an_addr ∷ receives ∷ receives ∷ [])
    ≡ run_log
        (record { arrived = []; next = 0 })
        (arrives (1 ∷ []) an_addr ∷ receives ∷ receives ∷ [])
run_socket-run_log_example =
    run_socket-run_log family_v4 false false (arrives (1 ∷ []) an_addr ∷ receives ∷ receives ∷ [])

ensure_bound-Once_example :
    Once a_host
      (new_state family_v4 false false)
      an_addr
      (ensure_bound a_host (new_state family_v4 false false) an_addr)
ensure_bound-Once_example =
    ensure_bound-Once a_host (new_state family_v4 false false) an_addr an_addr

-- Two arrivals come out in order.
two_in_order :
    run_socket
      (new_state family_v4 false false)
      (arrives (1 ∷ []) an_addr ∷ arrives (2 ∷ []) an_addr ∷ receives ∷ receives ∷ receives ∷ [])
    ≡ some (record { bytes = 1 ∷ []; addr = an_addr })
      ∷ some (record { bytes = 2 ∷ []; addr = an_addr })
      ∷ none
      ∷ []
unfolding run_socket new_state enqueue try_dequeue
two_in_order = refl
