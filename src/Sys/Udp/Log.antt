-- ===== src/Sys/Udp/Log.antt =====
-- The receive queue as a log: what has arrived, in order, and how much of it is delivered or lost.
use mathlib.Core.List.{cons≢nil, head-eq_of_cons-eq, tail-eq_of_cons-eq}
use edge_libos.Fd.Objects.{SockAddr}
use edge_libos.Sys.Udp.{
  Datagram, Family, UdpSocketState, enqueue, new_state, pop_front, recv_queue_cap, try_dequeue,
}
use edge_libos.Base.{
  Bool, List, Option, [], ap, arith, drop, drop-drop, get_elem?, if-cases, leb, leb→le, length,
  length-append, length-drop, max, none, refl, some, suc, sym, zero, ℕ, ◌++◌, ◌+◌, ◌-◌, ◌<◌, ◌∙◌,
  ◌∷◌, ◌≡◌, ◌≤◌,
}

-- The abstract queue. `next` is the number of the datagram that the next receive returns.
pub record Log : Type 0 where
  pub arrived : List Datagram
  pub next : ℕ

-- A datagram arrives. At most 4096 wait: older ones are lost.
abbrev pub arrive : Log → Datagram → Log
arrive l d = record {
  arrived = l.arrived ++ d ∷ [];
  next = max l.next (length l.arrived + 1 - recv_queue_cap);
}

-- A receive takes the next datagram, if there is one.
abbrev pub received : Log → Option Datagram → Log × Option Datagram
received l none = (l, none)
received l (some d) = (record l { next = l.next + 1 }, some d)

abbrev pub receive : Log → Log × Option Datagram
receive l = received l (get_elem? l.arrived l.next)

-- The queue holds what has arrived and is neither delivered nor lost.
pub record Refines (s : UdpSocketState) (l : Log) : Type 0 where
  pub queue : s.recv_queue ≡ drop l.next l.arrived
  pub next_ok : l.next ≤ length l.arrived
  pub waiting : length l.arrived ≤ l.next + recv_queue_cap

new_state-Refines :
    (f : Family) (v r : Bool) → Refines (new_state f v r) (record { arrived = []; next = 0 })
unfolding new_state
new_state-Refines f v r = record { queue = refl; next_ok = omega arith; waiting = omega arith }

drop-append_below {ℓ} :
    {A : Type ℓ} (n : ℕ) (xs ys : List A) → n ≤ length xs → drop n (xs ++ ys) ≡ drop n xs ++ ys
drop-append_below zero xs ys h = refl
drop-append_below (suc n) [] ys h = absurd (omega arith)
drop-append_below (suc n) (x ∷ xs) ys h = drop-append_below n xs ys (omega arith)

pub enqueue-Refines :
    (s : UdpSocketState) (l : Log) (bytes : List ℕ) (addr : SockAddr)
    → Refines s l
    → Refines (enqueue s bytes addr).0 (arrive l (record { bytes = bytes; addr = addr }))
unfolding enqueue
enqueue-Refines s l bytes addr r =
    let d : Datagram = record { bytes = bytes; addr = addr } in
    let left = ap length r.queue ∙ length-drop l.next l.arrived in
    let cap = r.waiting in
    let low = r.next_ok in
    if-cases (λ q. Refines (record s { recv_queue = q ++ d ∷ [] }) (arrive l d))
      (leb recv_queue_cap (length s.recv_queue)) _ _
      (λ e.
        let full = leb→le recv_queue_cap (length s.recv_queue) e in
        arrived_at d (drop 1 s.recv_queue) (l.next + 1)
          (ap (drop 1) r.queue ∙ sym (drop-drop l.next 1 l.arrived)) (omega arith) (omega arith)
          (omega arith))
      (λ e.
        let room : length s.recv_queue < recv_queue_cap = ground arith in
        arrived_at d s.recv_queue l.next r.queue (omega arith) (omega arith) (omega arith))
  where
    arrived_at :
        (d : Datagram) (q : List Datagram) (n : ℕ)
        → q ≡ drop n l.arrived
        → n ≤ length l.arrived
        → max l.next (length l.arrived + 1 - recv_queue_cap) ≡ n
        → length l.arrived + 1 ≤ n + recv_queue_cap
        → Refines (record s { recv_queue = q ++ d ∷ [] }) (arrive l d)
    arrived_at d q n eq low at cap = record {
      queue =
          ap (λ x. x ++ d ∷ []) eq
          ∙ sym (drop-append_below n l.arrived (d ∷ []) low)
          ∙ ap (λ m. drop m (l.arrived ++ d ∷ [])) (sym at);
      next_ok = (let sum = length-append l.arrived (d ∷ []) in omega arith);
      waiting = (let sum = length-append l.arrived (d ∷ []) in omega arith);
    }

drop-head {ℓ} :
    {A : Type ℓ} (n : ℕ) (xs : List A) (d : A) (ds : List A)
    → drop n xs ≡ d ∷ ds
    → (get_elem? xs n ≡ some d) × (drop (n + 1) xs ≡ ds) × (n < length xs)
drop-head zero [] d ds h = absurd (cons≢nil (sym h))
drop-head zero (x ∷ xs) d ds h = (ap some (head-eq_of_cons-eq h), tail-eq_of_cons-eq h, omega arith)
drop-head (suc n) [] d ds h = absurd (cons≢nil (sym h))
drop-head (suc n) (x ∷ xs) d ds h =
    let (e, f, g) = drop-head n xs d ds h in
    let next : suc n + 1 ≡ suc (n + 1) = omega arith in
    (e, ap (λ m. drop m (x ∷ xs)) next ∙ f, omega arith)

drop-none {ℓ} : {A : Type ℓ} (n : ℕ) (xs : List A) → drop n xs ≡ [] → get_elem? xs n ≡ none
drop-none zero [] h = refl
drop-none zero (x ∷ xs) h = absurd (cons≢nil h)
drop-none (suc n) [] h = refl
drop-none (suc n) (x ∷ xs) h = drop-none n xs h

pub try_dequeue-Refines :
    (s : UdpSocketState) (l : Log)
    → Refines s l
    → Refines (try_dequeue s).0 (receive l).0 × ((try_dequeue s).1 ≡ (receive l).1)
unfolding try_dequeue
try_dequeue-Refines s l r = go s.recv_queue refl
  where
    go :
        (q : List Datagram)
        → s.recv_queue ≡ q
        → Refines (pop_front s q).0 (receive l).0 × ((pop_front s q).1 ≡ (receive l).1)
    go [] e = let gone = drop-none l.next l.arrived (sym r.queue ∙ e) in rw gone (r, refl)
    go (d ∷ ds) e =
        let (head, rest, more) = drop-head l.next l.arrived d ds (sym r.queue ∙ e) in
        let cap = r.waiting in
        rw head (record { queue = sym rest; next_ok = omega arith; waiting = omega arith }, refl)

-- The operations of a socket's queue, and the datagrams that a run of them returns.
pub data Operation : Type 0 where
  arrives : List ℕ → SockAddr → Operation
  receives : Operation

unfoldable pub run_socket : UdpSocketState → List Operation → List (Option Datagram)
run_socket s [] = []
run_socket s (arrives bytes addr ∷ ops) = run_socket (enqueue s bytes addr).0 ops
run_socket s (receives ∷ ops) = (try_dequeue s).1 ∷ run_socket (try_dequeue s).0 ops

pub run_log : Log → List Operation → List (Option Datagram)
run_log l [] = []
run_log l (arrives bytes addr ∷ ops) =
    run_log (arrive l (record { bytes = bytes; addr = addr })) ops
run_log l (receives ∷ ops) = (receive l).1 ∷ run_log (receive l).0 ops

refined_run :
    (s : UdpSocketState) (l : Log) (ops : List Operation)
    → Refines s l
    → run_socket s ops ≡ run_log l ops
unfolding run_socket run_log
refined_run s l [] r = refl
refined_run s l (arrives bytes addr ∷ ops) r =
    refined_run _ _ ops (enqueue-Refines s l bytes addr r)
refined_run s l (receives ∷ ops) r =
    let (next, same) = try_dequeue-Refines s l r in
    ap (λ x. x ∷ run_socket (try_dequeue s).0 ops) same
    ∙ ap (◌∷◌ (receive l).1) (refined_run (try_dequeue s).0 (receive l).0 ops next)

-- A new socket's receive queue refines the log of all arrivals: after any sequence of arrivals and
-- receives, each receive returns what it returns of a log that delivers arrivals in order and loses
-- the oldest that wait when more than 4096 do.
pub run_socket-run_log :
    (f : Family) (v r : Bool) (ops : List Operation)
    → run_socket (new_state f v r) ops ≡ run_log (record { arrived = []; next = 0 }) ops
run_socket-run_log f v r ops =
    refined_run (new_state f v r) (record { arrived = []; next = 0 }) ops (new_state-Refines f v r)
