-- ===== src/Udp/Client/Run.antt =====
-- The datagram client as a whole: what it leaves open.
use mathlib.Core.Option
use mathlib.Core.Option.{some-injective}
use linux_network_programmin.Base.{
  ℕ, suc, ◌<◌, ◌≡◌, ◌≢◌, refl, ap, ◌∙◌, ℤ, pos, negsuc, [], ◌∷◌, List, Option, none, some, arith,
  if◌then◌else◌, length, take, length-take,
}
use linux_network_programmin.Sys.{
  Bytes, Kernel, Event, Trace, pure, ◌>>=◌, ◌>>◌, report_error, freeaddrinfo, close, getprotobyname,
  getaddrinfo, socket, fgets, recvfrom, sendto,
}
use linux_network_programmin.Sys.Loop.{
  Loop, running, stopped, Total, Total-bind, Total-if, Total-mono, while_true, while_true-inv,
}
use linux_network_programmin.Sys.Resources.{open_fds, open_addrs, erase_head}
use linux_network_programmin.CString.{zeroed, c_string, put_nul, strcspn}
use linux_network_programmin.CString.Laws.{received_text-short}
use linux_network_programmin.Socket.Port.{port_text_lem}
use linux_network_programmin.Socket.Listen.Laws.{ResolvesSome, SameOpen}
use linux_network_programmin.Client.{command, sent_all}
use linux_network_programmin.Udp.{message_size, udp_port}
use linux_network_programmin.Udp.Laws.{ShortDatagrams}
use linux_network_programmin.Udp.Client.{
  socket_result, resolve_result, protocol_result, open_sender, responded, client_round, leave,
  started, run_client,
}
use linux_network_programmin.Udp.Client.Laws.{request_of, command-request_of}

command-end : command none ≡ some []
unfolding command c_string put_nul zeroed strcspn
command-end = refl

-- The socket and the address list.
abbrev pub Opened : Trace → Option (ℕ × ℕ) → Trace → Type 0
Opened t none u = SameOpen t u
Opened t (some (fd, addr)) u = (open_fds u ≡ fd ∷ open_fds t) × (open_addrs u ≡ suc (open_addrs t))

-- What is open after a client that started at `t`.
abbrev pub Asking : Trace → Option (Loop ℕ) → Trace → Type 0
Asking t none u = SameOpen t u
Asking t (some (running addr)) u =
    (fd : ℕ) × (open_fds u ≡ fd ∷ open_fds t) × (open_addrs u ≡ suc (open_addrs t))
Asking t (some (stopped addr)) u = SameOpen t u

module _ (os : Kernel) where
  open_sender_lem : ResolvesSome os → (t : Trace) → Total (Opened t) (open_sender os t)
  unfolding open_sender getprotobyname getaddrinfo report_error socket freeaddrinfo
  open_sender_lem some_addr t = protocol (os.on_getprotobyname t)
    where
      made :
          (addr : ℕ) (r : ℤ) (u : Trace)
          → open_fds u ≡ open_fds t
          → open_addrs u ≡ suc (open_addrs t)
          → Total (Opened t) (socket_result os addr r (Event.socket r ∷ u))
      made addr (negsuc n) u h k = (h, omega arith)
      made addr (pos fd) u h k = (ap (◌∷◌ fd) h, k)

      resolved :
          (r : Option (List ℕ)) (u : Trace) (host : Option Bytes) (port : Bytes)
          → r ≢ some []
          → SameOpen t u
          → Total (Opened t) (resolve_result os r (Event.getaddrinfo host port r ∷ u))
      resolved none u host port ne q = q
      resolved (some []) u host port ne q = absurd (ne refl)
      resolved (some (a ∷ addrs)) u host port ne q = made a (os.on_socket _) _ q.0 (ap suc q.1)

      protocol :
          (r : Option ℕ) → Total (Opened t) (protocol_result os r (Event.getprotobyname r ∷ t))
      protocol none = (refl, refl)
      protocol (some proto) =
          rw ((port_text_lem udp_port (omega arith)).0, protocol_result)
            (resolved _ _ _ _ (some_addr _ _ _) (refl, refl))

  responded-SameOpen :
      (request : Bytes) (addr : ℕ) (r : Option (Bytes × ℕ)) (t : Trace)
      → ((d : Bytes × ℕ) → r ≡ some d → length d.0 < message_size)
      → Total (λ _ u. SameOpen t u) (responded os request addr r t)
  unfolding responded report_error
  responded-SameOpen request addr none t fits = (refl, refl)
  responded-SameOpen request addr (some ([], sender)) t fits = (refl, refl)
  responded-SameOpen request addr (some (b ∷ bytes, sender)) t fits =
      rw (received_text-short message_size (b ∷ bytes) (fits (b ∷ bytes, sender) refl), responded)
        (refl, refl)

  module _ (short : ShortDatagrams os) (fd addr : ℕ) where
    asked :
        (request : Bytes) (t : Trace)
        → Total
            (λ _ u. SameOpen t u)
            ((do
              rc ← sendto os fd request addr
              if sent_all rc (length request)
                  then (do r ← recvfrom os fd message_size; responded os request addr r)
                  else (do report_error "Client sendto() failed"; pure (running addr)))
              t)
    unfolding sendto recvfrom report_error
    asked request t =
        Total-if (λ _ u. SameOpen t u) (sent_all rc (length request)) _ _ u
          (λ _.
            responded-SameOpen request addr _ (Event.recvfrom fd message_size _ ∷ u)
              (fits (os.on_recvfrom u fd) refl))
          (λ _. (refl, refl))
      where
        rc : ℤ
        rc = os.on_sendto t fd request addr

        u : Trace
        u = Event.sendto fd request addr rc ∷ t

        fits :
            (o : Option (Bytes × ℕ))
            → os.on_recvfrom u fd ≡ o
            → (d : Bytes × ℕ)
            → Option.map (λ (d : Bytes × ℕ). (take message_size d.0, d.1)) o ≡ some d
            → length d.0 < message_size
        fits none q d p = cc
        fits (some (got, sender)) q d p =
            rw (← some-injective _ _ p)
              (omega (arith, length-take message_size got, short u fd (got, sender) q))

    round-SameOpen :
        (o : Option Bytes) (t : Trace)
        → os.on_fgets t ≡ o
        → Total (λ _ u. SameOpen t u) (client_round os fd addr t)
    unfolding client_round fgets
    round-SameOpen none t e = rw (e, command-end, client_round) (asked [] _)
    round-SameOpen (some line) t e =
        rw (e, command-request_of line, client_round) (asked (request_of line) _)

  leave_lem :
      (fd addr : ℕ) (t : Trace) (l : Loop ℕ) (u : Trace)
      → Opened t (some (fd, addr)) u
      → Total (λ l'. Asking t (some l')) (leave os fd l u)
  unfolding leave freeaddrinfo close
  leave_lem fd addr t (running x) u q = (fd, q.0, q.1)
  leave_lem fd addr t (stopped x) u q = (rw q.0 (erase_head fd (open_fds t)), omega (arith, q.1))

-- The datagram client, for any number of commands and from any trace, has no undefined behaviour;
-- one that ended or could not start has released all that it opened, and one that runs holds its
-- socket and its address list. (A success of the resolver names an address, and no datagram fills
-- the buffer.)
pub udp_client_lem :
    (os : Kernel)
    → ResolvesSome os
    → ShortDatagrams os
    → (rounds : ℕ) (t : Trace) → Total (Asking t) (run_client os rounds t)
unfolding run_client started
udp_client_lem os some_addr short rounds t =
    Total-bind (Opened t) (Asking t) (open_sender os) _ t (open_sender_lem os some_addr t) begin
  where
    begin :
        (o : Option (ℕ × ℕ)) (u : Trace) → Opened t o u → Total (Asking t) (started os rounds o u)
    begin none u q = q
    begin (some (fd, addr)) u q =
        Total-bind (λ (_ : Loop ℕ). Opened t (some (fd, addr))) (Asking t)
          (while_true rounds (client_round os fd) addr) _ u
          (while_true-inv (λ _. Opened t (some (fd, addr))) (client_round os fd)
            (λ a v h.
              Total-mono (λ _ w. SameOpen v w) (λ _ w. Opened t (some (fd, addr)) w)
                (client_round os fd a v) (λ l w k. (k.0 ∙ h.0, k.1 ∙ h.1))
                (round-SameOpen os short fd a (os.on_fgets v) v refl))
            rounds addr u q)
          (λ l v h.
            Total-bind (λ l'. Asking t (some l')) (Asking t) (leave os fd l) _ v
              (leave_lem os fd addr t l v h) (λ l' w k. k))
