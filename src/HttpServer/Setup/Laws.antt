-- ===== src/HttpServer/Setup/Laws.antt =====
-- What the set-up leaves open on each of its ways out.
use linux_network_programmin.Base.{
  ℕ, suc, ◌≡◌, refl, ap, ◌∙◌, ◌≢◌, ℤ, pos, negsuc, is_nonzero, [], ◌∷◌, List, Option, none, some,
  arith, if◌then◌else◌,
}
use linux_network_programmin.Sys.{
  Kernel, Event, Trace, Bytes, freeaddrinfo, close, getprotobyname, getaddrinfo, socket,
  fcntl_getfl, fcntl_setfl, listen,
}
use linux_network_programmin.Sys.Loop.{Total, Total-bind, Total-if}
use linux_network_programmin.Sys.Resources.{open_fds, open_addrs, erase_head}
use linux_network_programmin.Socket.Listen.{bind_first}
use linux_network_programmin.Socket.Listen.Laws.{ResolvesSome, SameOpen, OpenedOne, bind_first_lem}
use linux_network_programmin.HttpServer.Setup.{
  max_connection, set_flags, set_socket_nonblocking, give_up, listen_stage, bind_stage,
  socket_result, resolve_result, protocol_result, setup_socket,
}

-- The new socket is open, and no address list more than before.
abbrev pub Opened : Trace → Option ℕ → Trace → Type 0
Opened t none t' = SameOpen t t'
Opened t (some fd) t' = (open_fds t' ≡ fd ∷ open_fds t) × (open_addrs t' ≡ open_addrs t)

module _ (os : Kernel) where
  set_socket_nonblocking_lem :
      (fd : ℕ) (t : Trace) → Total (λ _ t'. SameOpen t t') (set_socket_nonblocking os fd t)
  unfolding set_socket_nonblocking set_flags fcntl_getfl fcntl_setfl
  set_socket_nonblocking_lem fd t = ground arith

  give_up_lem :
      (fd : ℕ) (t s : Trace) → OpenedOne s (some fd) t → Total (Opened s) (give_up os fd t)
  unfolding give_up freeaddrinfo close
  give_up_lem fd t s q = (rw q.0 (erase_head fd (open_fds s)), omega (arith, q.1))

  listen_stage_lem :
      (fd : ℕ) (t s : Trace) → OpenedOne s (some fd) t → Total (Opened s) (listen_stage os fd t)
  unfolding listen_stage listen freeaddrinfo
  listen_stage_lem fd t s q =
      Total-if (Opened s) (is_nonzero (os.on_listen t fd max_connection)) _ _ _
        (λ _. give_up_lem fd _ s q) (λ _. (q.0, omega (arith, q.1)))

  bind_stage_lem :
      (fd : ℕ) (addrs : List ℕ) (t s : Trace)
      → OpenedOne s (some fd) t
      → Total (Opened s) (bind_stage os fd addrs t)
  unfolding bind_stage
  bind_stage_lem fd addrs t s q =
      Total-bind (λ _. SameOpen t) (Opened s) (set_socket_nonblocking os fd) _ t
        (set_socket_nonblocking_lem fd t)
        (λ _ u p.
          Total-bind (λ _. SameOpen u) (Opened s) (bind_first os fd addrs (pos 0)) _ u
            (bind_first_lem os fd addrs (pos 0) u)
            (λ rc v r. bound rc v (r.0 ∙ p.0 ∙ q.0, r.1 ∙ p.1 ∙ q.1)))
    where
      bound :
          (rc : ℤ) (v : Trace)
          → OpenedOne s (some fd) v
          → Total (Opened s) ((if is_nonzero rc then give_up os fd else listen_stage os fd) v)
      bound rc v k =
          Total-if (Opened s) (is_nonzero rc) _ _ v (λ _. give_up_lem fd v s k)
            (λ _. listen_stage_lem fd v s k)

  -- From any trace and for any port, the set-up of the C++ server leaves its listening socket as
  -- the only new resource, or nothing where it fails, and is never undefined. (A success of the
  -- resolver names an address.)
  pub setup_socket_lem :
      ResolvesSome os → (port : ℤ) (t : Trace) → Total (Opened t) (setup_socket os port t)
  unfolding setup_socket getprotobyname getaddrinfo socket freeaddrinfo
  setup_socket_lem some_addr port t = protocol (os.on_getprotobyname t)
    where
      made :
          (addrs : List ℕ) (r : ℤ) (u : Trace)
          → open_fds u ≡ open_fds t
          → open_addrs u ≡ suc (open_addrs t)
          → Total (Opened t) (socket_result os addrs r (Event.socket r ∷ u))
      made addrs (negsuc n) u h k = (h, omega arith)
      made addrs (pos fd) u h k = bind_stage_lem fd addrs _ t (ap (◌∷◌ fd) h, k)

      resolved :
          (r : Option (List ℕ)) (u : Trace) (host : Option Bytes) (text : Bytes)
          → r ≢ some []
          → SameOpen t u
          → Total (Opened t) (resolve_result os r (Event.getaddrinfo host text r ∷ u))
      resolved none u host text ne q = q
      resolved (some []) u host text ne q = absurd (ne refl)
      resolved (some (a ∷ addrs)) u host text ne q =
          made (a ∷ addrs) (os.on_socket _) _ q.0 (ap suc q.1)

      protocol :
          (r : Option ℕ) → Total (Opened t) (protocol_result os port r (Event.getprotobyname r ∷ t))
      protocol none = (refl, refl)
      protocol (some proto) = resolved _ _ _ _ (some_addr _ _ _) (refl, refl)
