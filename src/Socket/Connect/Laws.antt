-- ===== src/Socket/Connect/Laws.antt =====
-- What `open_connection` leaves open on each of its ways out.
use linux_network_programmin.Base.{
  ℕ, suc, ◌≡◌, refl, ap, ◌≢◌, ℤ, pos, negsuc, is_nonzero, [], ◌∷◌, List, Option, none, some, arith,
  ◌∙◌,
}
use linux_network_programmin.Sys.{
  Kernel, Event, Trace, Bytes, report_error, freeaddrinfo, close, getprotobyname, getaddrinfo,
  socket, connect,
}
use linux_network_programmin.Sys.Loop.{Total, Total-bind, Total-if}
use linux_network_programmin.Sys.Resources.{open_fds, open_addrs, erase_head}
use linux_network_programmin.Socket.Port.{tcp_port, port_text_lem}
use linux_network_programmin.Socket.Listen.Laws.{ResolvesSome, SameOpen, OpenedOne}
use linux_network_programmin.Socket.Connect.{
  socket_result, resolve_result, protocol_result, connect_first, connect_stage, socket_stage,
  open_connection,
}

module _ (os : Kernel) where
  pub connect_first_lem :
      (fd : ℕ) (addrs : List ℕ) (rc : ℤ) (t : Trace)
      → Total (λ _ t'. SameOpen t t') (connect_first os fd addrs rc t)
  unfolding connect_first connect
  connect_first_lem fd [] rc t = (refl, refl)
  connect_first_lem fd (a ∷ addrs) rc t =
      let rc' = os.on_connect t fd a in
      Total-if (λ _ t'. SameOpen t t') (is_nonzero rc') _ _ _
        (λ _. connect_first_lem fd addrs rc' (Event.connect fd a rc' ∷ t)) (λ _. (refl, refl))

  connect_stage_lem :
      (fd : ℕ) (addrs : List ℕ) (t s : Trace)
      → open_fds t ≡ fd ∷ open_fds s
      → open_addrs t ≡ suc (open_addrs s)
      → Total (OpenedOne s) (connect_stage os fd addrs t)
  unfolding connect_stage report_error freeaddrinfo close
  connect_stage_lem fd addrs t s h k =
      Total-bind (λ _. SameOpen t) (OpenedOne s) (connect_first os fd addrs (pos 0)) _ t
        (connect_first_lem fd addrs (pos 0) t)
        λ rc t₁ q.
          let h₁ : open_fds t₁ ≡ fd ∷ open_fds s = q.0 ∙ h in
          let k₁ : open_addrs t₁ ≡ suc (open_addrs s) = q.1 ∙ k in
          Total-if (OpenedOne s) (is_nonzero rc) _ _ _
            (λ _. (rw h₁ (erase_head fd (open_fds s)), omega arith)) (λ _. (h₁, k₁))

  socket_stage_lem :
      (addr : ℕ) (rest : List ℕ) (t s : Trace)
      → open_fds t ≡ open_fds s
      → open_addrs t ≡ suc (open_addrs s)
      → Total (OpenedOne s) (socket_stage os (addr ∷ rest) t)
  unfolding socket_stage socket report_error freeaddrinfo
  socket_stage_lem addr rest t s h k = go (os.on_socket t)
    where
      go : (r : ℤ) → Total (OpenedOne s) (socket_result os (addr ∷ rest) r (Event.socket r ∷ t))
      go (negsuc n) = (h, omega arith)
      go (pos fd) = connect_stage_lem fd (addr ∷ rest) _ s (ap (◌∷◌ fd) h) k

  -- From any trace, `run_client` comes to its loop with the connected socket and the address list
  -- as the only new resources, or returns with none, if the resolver keeps its word that a
  -- success names an address.
  pub open_connection_lem :
      ResolvesSome os → (t : Trace) → Total (OpenedOne t) (open_connection os t)
  unfolding open_connection getprotobyname getaddrinfo report_error
  open_connection_lem some_addr t = protocol (os.on_getprotobyname t)
    where
      resolved :
          (r : Option (List ℕ)) (u : Trace) (host : Option Bytes) (port : Bytes)
          → r ≢ some []
          → SameOpen t u
          → Total (OpenedOne t) (resolve_result os r (Event.getaddrinfo host port r ∷ u))
      resolved none u host port ne q = q
      resolved (some []) u host port ne q = absurd (ne refl)
      resolved (some (a ∷ addrs)) u host port ne q = socket_stage_lem a addrs _ t q.0 (ap suc q.1)

      protocol :
          (r : Option ℕ) → Total (OpenedOne t) (protocol_result os r (Event.getprotobyname r ∷ t))
      protocol none = (refl, refl)
      protocol (some proto) =
          rw ((port_text_lem tcp_port (omega arith)).0, protocol_result)
            (resolved _ _ _ _ (some_addr _ _ _) (refl, refl))
