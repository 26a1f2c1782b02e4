-- ===== src/FirstSteps/Receive/Run.antt =====
-- What program 06 leaves open on each of its ways out.
use mathlib.Core.Option
use linux_network_programmin.Base.{
  ℕ, zero, suc, ◌-◌, ◌≤◌, ◌<◌, ◌≡◌, refl, ap, ◌∙◌, ◌≢◌, ◌⊎◌, inl, inr, ℤ, pos, negsuc, is_nonzero,
  true, List, [], ◌∷◌, ◌++◌, Option, none, some, arith, ltb, length, drop, take, length-append,
  length-take,
}
use linux_network_programmin.Sys.{
  Bytes, Kernel, Event, Trace, M, pure, report_error, connect, close, freeaddrinfo, getprotobyname,
  getservbyname, getaddrinfo, socket, send, recv,
}
use linux_network_programmin.Sys.Loop.{
  Loop, running, stopped, while_true, while_true-inv, Total, Total-bind, Total-if, Total-mono,
}
use linux_network_programmin.Sys.Partial.{Partial, Partial-both, Total-Partial}
use linux_network_programmin.Sys.Resources.{open_fds, open_addrs, erase_head}
use linux_network_programmin.CString.{text}
use linux_network_programmin.CString.Laws.{c_string-fill}
use linux_network_programmin.Socket.Port.{port_text_lem}
use linux_network_programmin.Socket.Listen.Laws.{SameOpen, OpenedOne, ResolvesSome}
use linux_network_programmin.Redirect.{request}
use linux_network_programmin.Redirect.Transfer.{message_size, recv_loop}
use linux_network_programmin.Redirect.Transfer.Laws.{read, ReadEnded, recv_loop_lem}
use linux_network_programmin.Redirect.Books.{recv_loop-SameOpen}
use linux_network_programmin.FirstSteps.Send.{cpp_hostname}
use linux_network_programmin.FirstSteps.Send.Laws.{PortsSmall}
use linux_network_programmin.FirstSteps.Receive.{
  fail_open, Progress, sent_so_far, send_failed, count_sent, sending_round, printed, after_sending,
  connect_stage, socket_result, resolve_result, service_result, protocol_result, receive_main,
}
use linux_network_programmin.FirstSteps.Receive.Laws.{get_request_lem}
use Prim.Native.String.{String}

-- The peer sends fewer bytes than the array has on a connection in all, so that a NUL is left.
abbrev pub BriefResponses : Kernel → Type 0
BriefResponses os =
    (t : Trace) (fd : ℕ) (bytes : Bytes)
    → os.on_recv t fd ≡ some bytes
    → length (read fd t ++ bytes) < message_size

module _ (os : Kernel) (brief : BriefResponses os) (fd : ℕ) where
  recv_loop-short :
      (rounds : ℕ) (got : Bytes) (t : Trace)
      → length got ≤ length (read fd t)
      → length got < message_size
      → Partial (λ r _. length r < message_size) (recv_loop os rounds fd got t)
  unfolding recv_loop recv
  recv_loop-short zero got t h k = k
  recv_loop-short (suc rounds) got t h k =
      reading (os.on_recv t fd) (λ bytes e. brief t fd bytes e)
        (λ x u. recv_loop-short rounds (got ++ x) u)
    where
      took :
          (ys : Bytes)
          → read fd (Event.recv fd (message_size - length got) (some ys) ∷ t) ≡ read fd t ++ ys
      took ys = ground arith

      Next : Type 0
      Next =
          (x : Bytes) (u : Trace)
          → length (got ++ x) ≤ length (read fd u)
          → length (got ++ x) < message_size
          → Partial (λ r' _. length r' < message_size) (recv_loop os rounds fd (got ++ x) u)

      more :
          (ys all : Bytes)
          → length ys ≤ length all
          → length (read fd t ++ all) < message_size
          → Next
          → Partial
              (λ r' _. length r' < message_size)
              ((elim ys as (λ _. M Bytes) [
                | [] ↦ pure got
                | b ∷ rest ↦ recv_loop os rounds fd (got ++ (b ∷ rest))
              ])
                (Event.recv fd (message_size - length got) (some ys) ∷ t))
      more [] all l f next = k
      more (b ∷ rest) all l f next =
          next (b ∷ rest) _
            (omega (
              arith,
              ap length (took (b ∷ rest)),
              length-append got (b ∷ rest),
              length-append (read fd t) (b ∷ rest),
            ))
            (omega (arith, length-append got (b ∷ rest), length-append (read fd t) all))

      reading :
          (r : Option Bytes)
          → ((bytes : Bytes) → r ≡ some bytes → length (read fd t ++ bytes) < message_size)
          → Next
          → Partial
              (λ r' _. length r' < message_size)
              ((elim (Option.map (take (message_size - length got)) r) as (λ _. M Bytes) [
                | none ↦ pure got
                | some bytes ↦ elim bytes [
                  | [] ↦ pure got
                  | b ∷ rest ↦ recv_loop os rounds fd (got ++ (b ∷ rest))
                ]
              ])
                (Event.recv fd
                    (message_size - length got)
                    (Option.map (take (message_size - length got)) r)
                  ∷ t))
      reading none fits next = k
      reading (some waiting) fits next =
          more (take (message_size - length got) waiting) waiting
            (omega (arith, length-take (message_size - length got) waiting)) (fits waiting refl)
            next

-- A run gave up just after a `connect` on the descriptor that failed.
abbrev pub ConnectFailed : ℕ → Trace → Type 0
ConnectFailed fd u =
    (addr : ℕ) × (rc : ℤ) × (v : Trace) × (is_nonzero rc ≡ true)
    × (u
        ≡ Event.report_error "connect() failed" ∷ Event.freeaddrinfo ∷ Event.connect fd addr rc ∷ v)

-- What `main` leaves open: nothing with status 0; the socket and the address list while the
-- sending loop goes on; and with status 1 nothing, or a socket, just after its `connect` failed.
abbrev pub Received : Trace → Option ℤ → Trace → Type 0
Received t none u = (fd : ℕ) × (open_fds u ≡ fd ∷ open_fds t) × (open_addrs u ≡ suc (open_addrs t))
Received t (some (pos zero)) u = SameOpen t u
Received t (some (pos (suc n))) u =
    (n ≡ 0)
    × (SameOpen t u
        ⊎ ((fd : ℕ) × (open_fds u ≡ fd ∷ open_fds t)
            × (open_addrs u ≡ open_addrs t)
            × ConnectFailed fd u))
Received t (some (negsuc n)) u = ⊥

module _ (os : Kernel) (brief : BriefResponses os) where
  fail_open_lem :
      (fd : ℕ) (message : String) (t u : Trace)
      → OpenedOne t (some fd) u
      → Total (Received t) (fail_open fd message u)
  unfolding fail_open close freeaddrinfo report_error
  fail_open_lem fd message t u q =
      (refl, inl (rw q.0 (erase_head fd (open_fds t)), omega (arith, q.1)))

  printed_lem :
      (fd : ℕ) (got : Bytes) (t u : Trace)
      → length got < message_size
      → OpenedOne t (some fd) u
      → Total (Received t) (printed os fd got u)
  unfolding printed close freeaddrinfo
  printed_lem fd [] t u h q = fail_open_lem fd "recv() failed" t u q
  printed_lem fd (b ∷ got) t u h q =
      rw (c_string-fill message_size (b ∷ got) h, printed)
        (rw q.0 (erase_head fd (open_fds t)), omega (arith, q.1))

  -- The receiving loop comes to its end with room for a NUL.
  received_lem :
      (fd : ℕ) (u : Trace)
      → Total
          (λ r v. SameOpen u v × (length r < message_size))
          (recv_loop os (suc message_size) fd [] u)
  received_lem fd u =
      let run = recv_loop os (suc message_size) fd [] u in
      let ended = recv_loop_lem os fd u in
      let same = recv_loop-SameOpen os (suc message_size) fd [] u in
      let small = recv_loop-short os brief fd (suc message_size) [] u (omega arith) (omega arith) in
      Total-mono
        (λ r v.
          ((read fd v ≡ read fd u ++ r) × (length r ≤ message_size) × ReadEnded v)
          × (SameOpen u v × (length r < message_size)))
        (λ r v. SameOpen u v × (length r < message_size)) run (λ r v x. x.1)
        (Total-Partial
          (λ r v. (read fd v ≡ read fd u ++ r) × (length r ≤ message_size) × ReadEnded v)
          (λ r v. SameOpen u v × (length r < message_size)) run ended
          (Partial-both (λ _ v. SameOpen u v) (λ r _. length r < message_size) run same small))

  after_sending_lem :
      (fd : ℕ) (l : Loop Progress) (t u : Trace)
      → OpenedOne t (some fd) u
      → Total (Received t) (after_sending os fd l u)
  unfolding after_sending
  after_sending_lem fd (running s) t u q = (fd, q.0, q.1)
  after_sending_lem fd (stopped send_failed) t u q = fail_open_lem fd "send() failed" t u q
  after_sending_lem fd (stopped (sent_so_far n)) t u q =
      Total-bind (λ r v. SameOpen u v × (length r < message_size)) (Received t)
        (recv_loop os (suc message_size) fd []) _ u (received_lem fd u)
        (λ r v (o, h). printed_lem fd r t v h (o.0 ∙ q.0, o.1 ∙ q.1))

  sending_round_lem :
      (fd : ℕ) (http_request : Bytes) (t : Trace) (s : Progress) (u : Trace)
      → OpenedOne t (some fd) u
      → Total (λ _. OpenedOne t (some fd)) (sending_round os fd http_request s u)
  unfolding sending_round send count_sent
  sending_round_lem fd http_request t send_failed u q = q
  sending_round_lem fd http_request t (sent_so_far n) u q =
      Total-if (λ _. OpenedOne t (some fd)) (ltb n (length http_request)) _
        (pure (stopped (sent_so_far n))) u (λ _. counted (os.on_send u fd (drop n http_request)))
        (λ _. q)
    where
      counted :
          (r : ℤ)
          → Total
              (λ _. OpenedOne t (some fd))
              (count_sent os fd n r (Event.send fd (drop n http_request) r ∷ u))
      counted (pos k) = q
      counted (negsuc k) = q

  module _ (rounds : ℕ) where
    connect_stage_lem :
        (fd addr : ℕ) (t u : Trace)
        → OpenedOne t (some fd) u
        → Total (Received t) (connect_stage os rounds fd addr u)
    unfolding connect_stage connect freeaddrinfo report_error
    connect_stage_lem fd addr t u q =
        Total-if (Received t) (is_nonzero (os.on_connect u fd addr)) _ _ _
          (λ e.
            (refl, inr (fd, q.0, omega (arith, q.1), (addr, os.on_connect u fd addr, u, e, refl))))
          (λ _. rw get_request_lem (
            Total-bind (λ _. OpenedOne t (some fd)) (Received t)
              (while_true rounds (sending_round os fd asked) (sent_so_far 0)) _ _
              (while_true-inv (λ _. OpenedOne t (some fd)) (sending_round os fd asked)
                (sending_round_lem fd asked t) rounds (sent_so_far 0) _ q)
              (λ l v o. after_sending_lem fd l t v o)))
      where
        asked : Bytes
        asked = request cpp_hostname (text "/200")

    -- A run of the program, for any number of rounds of its sending loop and from any trace, has
    -- no undefined behaviour. With status 0 it has released all; with status 1 it leaves nothing
    -- open, or its socket where it ends at a `connect` that failed. (A success of the resolver
    -- names an address, the port of the service has 16 bits, and the peer sends fewer bytes than
    -- the array has.)
    pub receive_main_lem :
        ResolvesSome os
        → PortsSmall os
        → (t : Trace) → Total (Received t) (receive_main os rounds t)
    unfolding receive_main getprotobyname getservbyname getaddrinfo socket report_error freeaddrinfo
    receive_main_lem some_addr small t = protocol (os.on_getprotobyname t)
      where
        made :
            (addr : ℕ) (r : ℤ) (u : Trace)
            → open_fds u ≡ open_fds t
            → open_addrs u ≡ suc (open_addrs t)
            → Total (Received t) (socket_result os rounds addr r (Event.socket r ∷ u))
        made addr (negsuc n) u h k = (refl, inl (h, omega (arith, k)))
        made addr (pos fd) u h k =
            connect_stage_lem fd addr t (Event.socket (pos fd) ∷ u) (ap (◌∷◌ fd) h, k)

        resolved :
            (r : Option (List ℕ)) (u : Trace) (host : Option Bytes) (port : Bytes)
            → r ≢ some []
            → SameOpen t u
            → Total (Received t) (resolve_result os rounds r (Event.getaddrinfo host port r ∷ u))
        resolved none u host port ne q = (refl, inl q)
        resolved (some []) u host port ne q = absurd (ne refl)
        resolved (some (a ∷ addrs)) u host port ne q = made a (os.on_socket _) _ q.0 (ap suc q.1)

        served :
            (r : Option ℕ) (u : Trace)
            → ((port : ℕ) → r ≡ some port → port < 65536)
            → SameOpen t u
            → Total (Received t) (service_result os rounds r (Event.getservbyname r ∷ u))
        served none u fits q = (refl, inl q)
        served (some port) u fits q =
            rw ((port_text_lem port (fits port refl)).0, service_result)
              (resolved _ _ _ _ (some_addr _ _ _) q)

        protocol :
            (r : Option ℕ)
            → Total (Received t) (protocol_result os rounds r (Event.getprotobyname r ∷ t))
        protocol none = (refl, inl (refl, refl))
        protocol (some proto) =
            served (os.on_getservbyname _) _ (λ port e. small _ port e) (refl, refl)
