-- ===== src/Udp/Run.antt =====
-- The datagram server as a whole: what it leaves open.
use linux_network_programmin.Base.{
  ℕ, suc, ◌≡◌, ◌≢◌, refl, ap, ◌∙◌, ℤ, pos, negsuc, is_nonzero, [], ◌∷◌, List, Option, none, some,
  arith, if◌then◌else◌,
}
use linux_network_programmin.Sys.{
  Bytes, Kernel, Event, Trace, pure, ◌>>◌, report_error, freeaddrinfo, close, getprotobyname,
  getaddrinfo, socket,
}
use linux_network_programmin.Sys.Loop.{
  Loop, Total, Total-bind, Total-if, Total-mono, while_true, while_true-inv,
}
use linux_network_programmin.Sys.Resources.{open_fds, open_addrs, erase_head}
use linux_network_programmin.Socket.Port.{port_text_lem}
use linux_network_programmin.Socket.Listen.{bind_first}
use linux_network_programmin.Socket.Listen.Laws.{ResolvesSome, SameOpen, OpenedOne, bind_first_lem}
use linux_network_programmin.Udp.{
  udp_port, bind_stage, socket_result, resolve_result, protocol_result, open_receiver, server_round,
  started, run_server,
}
use linux_network_programmin.Udp.Laws.{ShortDatagrams, server_round-SameOpen}

module _ (os : Kernel) where
  bind_stage_lem :
      (fd : ℕ) (addrs : List ℕ) (t s : Trace)
      → OpenedOne s (some fd) t
      → Total (OpenedOne s) (bind_stage os fd addrs t)
  unfolding bind_stage report_error freeaddrinfo close
  bind_stage_lem fd addrs t s q =
      Total-bind (λ _. SameOpen t) (OpenedOne s) (bind_first os fd addrs (pos 0)) _ t
        (bind_first_lem os fd addrs (pos 0) t) (λ rc u p. bound rc u (p.0 ∙ q.0, p.1 ∙ q.1))
    where
      bound :
          (rc : ℤ) (u : Trace)
          → OpenedOne s (some fd) u
          → Total (OpenedOne s) (
              (if is_nonzero rc
                  then (do report_error "Server bind() failed"; freeaddrinfo; close fd; pure none)
                  else pure (some fd))
                u)
      bound rc u k =
          Total-if (OpenedOne s) (is_nonzero rc) _ _ u
            (λ _. (rw k.0 (erase_head fd (open_fds s)), omega (arith, k.1))) (λ _. k)

  open_receiver_lem : ResolvesSome os → (t : Trace) → Total (OpenedOne t) (open_receiver os t)
  unfolding open_receiver getprotobyname getaddrinfo report_error socket freeaddrinfo
  open_receiver_lem some_addr t = protocol (os.on_getprotobyname t)
    where
      made :
          (addrs : List ℕ) (r : ℤ) (u : Trace)
          → open_fds u ≡ open_fds t
          → open_addrs u ≡ suc (open_addrs t)
          → Total (OpenedOne t) (socket_result os addrs r (Event.socket r ∷ u))
      made addrs (negsuc n) u h k = (h, omega arith)
      made addrs (pos fd) u h k = bind_stage_lem fd addrs _ t (ap (◌∷◌ fd) h, k)

      resolved :
          (r : Option (List ℕ)) (u : Trace) (host : Option Bytes) (port : Bytes)
          → r ≢ some []
          → SameOpen t u
          → Total (OpenedOne t) (resolve_result os r (Event.getaddrinfo host port r ∷ u))
      resolved none u host port ne q = q
      resolved (some []) u host port ne q = absurd (ne refl)
      resolved (some (a ∷ addrs)) u host port ne q =
          made (a ∷ addrs) (os.on_socket _) _ q.0 (ap suc q.1)

      protocol :
          (r : Option ℕ) → Total (OpenedOne t) (protocol_result os r (Event.getprotobyname r ∷ t))
      protocol none = (refl, refl)
      protocol (some proto) =
          rw ((port_text_lem udp_port (omega arith)).0, protocol_result)
            (resolved _ _ _ _ (some_addr _ _ _) (refl, refl))

-- The socket and the address list of a server that was started at `t`.
abbrev pub Serving : Trace → Option (Loop (Unit {0})) → Trace → Type 0
Serving t none u = SameOpen t u
Serving t (some l) u = (sock : ℕ) × OpenedOne t (some sock) u

-- The datagram server, for any number of rounds and from any trace, has no undefined behaviour; all
-- that it holds is its socket and its address list, or nothing where its set-up fails. (A success
-- of the resolver names an address, and no datagram fills the buffer.)
pub udp_server_lem :
    (os : Kernel)
    → ResolvesSome os
    → ShortDatagrams os
    → (rounds : ℕ) (t : Trace) → Total (Serving t) (run_server os rounds t)
unfolding run_server started
udp_server_lem os addr short rounds t =
    Total-bind (OpenedOne t) (Serving t) (open_receiver os) _ t (open_receiver_lem os addr t) begin
  where
    begin : (o : Option ℕ) (u : Trace) → OpenedOne t o u → Total (Serving t) (started os rounds o u)
    begin none u q = q
    begin (some sock) u q =
        Total-bind (λ (_ : Loop (Unit {0})). OpenedOne t (some sock)) (Serving t)
          (while_true rounds (server_round os sock) tt) _ u
          (while_true-inv (λ _. OpenedOne t (some sock)) (server_round os sock)
            (λ _ v h.
              Total-mono (λ _ w. SameOpen v w) (λ _ w. OpenedOne t (some sock) w)
                (server_round os sock tt v) (λ l w k. (k.0 ∙ h.0, k.1 ∙ h.1))
                (server_round-SameOpen os short sock v))
            rounds tt u q)
          (λ l v h. (sock, h))
