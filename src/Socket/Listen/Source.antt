-- ===== src/Socket/Listen/Source.antt =====
-- The listening socket is the one that `socket` gave.
use linux_network_programmin.Base.{
  ℕ, ◌<◌, ◌≡◌, refl, ◌≢◌, ℤ, pos, negsuc, is_nonzero, [], ◌∷◌, List, Option, none, some, arith,
}
use mathlib.Core.Option.{some-injective}
use linux_network_programmin.Sys.{
  Kernel, Event, Trace, Run, ok, fault, report_error, freeaddrinfo, close, getprotobyname,
  getaddrinfo, socket, listen,
}
use linux_network_programmin.Sys.Loop.{Total, Total-bind, Total-if}
use linux_network_programmin.Socket.Port.{tcp_port, port_text_lem}
use linux_network_programmin.Socket.Listen.{
  max_connection, socket_result, resolve_result, protocol_result, set_non_blocking, bind_first,
  listen_stage, bind_stage, socket_stage, open_listener,
}
use linux_network_programmin.Socket.Listen.Laws.{
  ResolvesSome, SameOpen, set_non_blocking_lem, bind_first_lem,
}

-- A socket that is returned is below the bound.
abbrev pub Below : ℕ → Option ℕ → Trace → Type 0
Below bound o t = (fd : ℕ) → o ≡ some fd → fd < bound

pub Total-both :
    {A : Type 0} (P Q : A → Trace → Type 0) (r : Run A)
    → Total P r
    → Total Q r
    → Total (λ a t. P a t × Q a t) r
Total-both P Q (ok a t) p q = (p, q)
Total-both P Q fault p q = p

module _ (os : Kernel) (bound : ℕ) where
  listen_stage-Below :
      (fd : ℕ) (t : Trace) → fd < bound → Total (Below bound) (listen_stage os fd t)
  unfolding listen_stage listen report_error freeaddrinfo close
  listen_stage-Below fd t h =
      Total-if (Below bound) (is_nonzero (os.on_listen t fd max_connection)) _ _ _ (λ _ k e. cc)
        (λ _ k e. rw (← some-injective _ _ e) h)

  bind_stage-Below :
      (fd : ℕ) (addrs : List ℕ) (t : Trace)
      → fd < bound
      → Total (Below bound) (bind_stage os fd addrs t)
  unfolding bind_stage report_error freeaddrinfo close
  bind_stage-Below fd addrs t h =
      Total-bind (λ _. SameOpen t) (Below bound) (set_non_blocking os fd) _ t
        (set_non_blocking_lem os fd t)
        λ _ u _.
          Total-bind (λ _. SameOpen u) (Below bound) (bind_first os fd addrs (pos 0)) _ u
            (bind_first_lem os fd addrs (pos 0) u)
            λ rc v _.
              Total-if (Below bound) (is_nonzero rc) _ _ _ (λ _ k e. cc)
                (λ _. listen_stage-Below fd v h)

  -- If the kernel's sockets are below a bound, so is the listening socket.
  pub open_listener-Below :
      ResolvesSome os
      → ((t : Trace) (fd : ℕ) → os.on_socket t ≡ pos fd → fd < bound)
      → (t : Trace) → Total (Below bound) (open_listener os t)
  unfolding open_listener getprotobyname getaddrinfo report_error socket_stage socket freeaddrinfo
  open_listener-Below some_addr small t = protocol (os.on_getprotobyname t)
    where
      made :
          (addrs : List ℕ) (u : Trace) (r : ℤ)
          → os.on_socket u ≡ r
          → Total (Below bound) (socket_result os addrs r (Event.socket r ∷ u))
      made addrs u (negsuc n) e = λ k p. cc
      made addrs u (pos fd) e = bind_stage-Below fd addrs _ (small u fd e)

      resolved :
          (r : Option (List ℕ)) (u : Trace)
          → r ≢ some []
          → Total (Below bound) (resolve_result os r u)
      resolved none u ne = λ k p. cc
      resolved (some []) u ne = absurd (ne refl)
      resolved (some (a ∷ addrs)) u ne = made (a ∷ addrs) u (os.on_socket u) refl

      protocol :
          (r : Option ℕ) → Total (Below bound) (protocol_result os r (Event.getprotobyname r ∷ t))
      protocol none = λ k p. cc
      protocol (some proto) =
          rw ((port_text_lem tcp_port (omega arith)).0, protocol_result)
            (resolved _ _ (some_addr _ _ _))
