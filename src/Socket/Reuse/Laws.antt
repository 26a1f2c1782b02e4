-- ===== src/Socket/Reuse/Laws.antt =====
-- What the set-up leaves open on each of its ways out.
use linux_network_programmin.Base.{
  ℕ, suc, ◌≡◌, refl, ap, ◌∙◌, ◌≢◌, ℤ, pos, negsuc, is_neg, is_nonzero, [], ◌∷◌, List, Option, none,
  some, arith, if◌then◌else◌,
}
use linux_network_programmin.Sys.{
  Kernel, Event, Trace, Bytes, M, pure, ◌>>◌, report_error, freeaddrinfo, close, getprotobyname,
  getaddrinfo, socket, setsockopt, listen,
}
use linux_network_programmin.Sys.Loop.{Total, Total-bind, Total-if}
use linux_network_programmin.Sys.Resources.{open_fds, open_addrs, erase_head}
use linux_network_programmin.Socket.Port.{tcp_port, port_text_lem}
use linux_network_programmin.Socket.Listen.{bind_first}
use linux_network_programmin.Socket.Listen.Laws.{ResolvesSome, SameOpen, OpenedOne, bind_first_lem}
use linux_network_programmin.Socket.Reuse.{
  Variant, simple, threaded, listen_stage, bind_stage, socket_result, resolve_result,
  protocol_result, open_reusable,
}

-- It closes the socket and frees the address list, and nothing more.
abbrev pub Releases : (ℕ → M (Unit {0})) → Type 0
Releases release =
    (fd : ℕ) (t s : Trace) → OpenedOne s (some fd) t → Total (λ _. SameOpen s) (release fd t)

pub simple-Releases : Releases simple.release
unfolding simple close freeaddrinfo
simple-Releases fd t s q = (rw q.0 (erase_head fd (open_fds s)), omega (arith, q.1))

pub threaded-Releases : Releases threaded.release
unfolding threaded close freeaddrinfo
threaded-Releases fd t s q = (rw q.0 (erase_head fd (open_fds s)), omega (arith, q.1))

module _ (os : Kernel) (v : Variant) (releases : Releases v.release) where
  listen_stage_lem :
      (fd : ℕ) (t s : Trace)
      → OpenedOne s (some fd) t
      → Total (OpenedOne s) (listen_stage os v fd t)
  unfolding listen_stage listen report_error
  listen_stage_lem fd t s q =
      Total-if (OpenedOne s) (is_neg (os.on_listen t fd v.backlog)) _ _ _
        (λ _.
          Total-bind (λ _. SameOpen s) (OpenedOne s) (v.release fd) _ _ (releases fd _ s q)
            (λ _ u k. k))
        (λ _. q)

  bind_stage_lem :
      (fd : ℕ) (addrs : List ℕ) (t s : Trace)
      → OpenedOne s (some fd) t
      → Total (OpenedOne s) (bind_stage os v fd addrs t)
  unfolding bind_stage setsockopt report_error
  bind_stage_lem fd addrs t s q =
      Total-bind (λ _. OpenedOne s (some fd)) (OpenedOne s)
        (if is_neg rc then report_error "Server setsockopt() failed" else pure tt) _
        (Event.setsockopt fd rc ∷ t)
        (Total-if (λ _. OpenedOne s (some fd)) (is_neg rc) _ _ (Event.setsockopt fd rc ∷ t) (λ _. q)
          (λ _. q))
        (λ _ u q'.
          Total-bind (λ _. SameOpen u) (OpenedOne s) (bind_first os fd addrs rc) _ u
            (bind_first_lem os fd addrs rc u) (λ rc' w k. bound rc' w (k.0 ∙ q'.0, k.1 ∙ q'.1)))
    where
      rc : ℤ
      rc = os.on_setsockopt t fd

      bound :
          (rc' : ℤ) (w : Trace)
          → OpenedOne s (some fd) w
          → Total (OpenedOne s) (
              (if is_nonzero rc'
                  then (do report_error "Server bind() failed"; v.release fd; pure none)
                  else listen_stage os v fd)
                w)
      bound rc' w k =
          Total-if (OpenedOne s) (is_nonzero rc') _ _ w
            (λ _.
              Total-bind (λ _. SameOpen s) (OpenedOne s) (v.release fd) _ _ (releases fd _ s k)
                (λ _ u h. h))
            (λ _. listen_stage_lem fd w s k)

  -- From any trace, the server comes to its loop with the listening socket and the address list as
  -- the only new resources, or returns with none, and is never undefined. (A success of the
  -- resolver names an address.)
  pub open_reusable_lem : ResolvesSome os → (t : Trace) → Total (OpenedOne t) (open_reusable os v t)
  unfolding open_reusable getprotobyname getaddrinfo report_error socket freeaddrinfo
  open_reusable_lem some_addr t = protocol (os.on_getprotobyname t)
    where
      made :
          (addrs : List ℕ) (r : ℤ) (u : Trace)
          → open_fds u ≡ open_fds t
          → open_addrs u ≡ suc (open_addrs t)
          → Total (OpenedOne t) (socket_result os v addrs r (Event.socket r ∷ u))
      made addrs (negsuc n) u h k = (h, omega arith)
      made addrs (pos fd) u h k = bind_stage_lem fd addrs _ t (ap (◌∷◌ fd) h, k)

      resolved :
          (r : Option (List ℕ)) (u : Trace) (host : Option Bytes) (port : Bytes)
          → r ≢ some []
          → SameOpen t u
          → Total (OpenedOne t) (resolve_result os v r (Event.getaddrinfo host port r ∷ u))
      resolved none u host port ne q = q
      resolved (some []) u host port ne q = absurd (ne refl)
      resolved (some (a ∷ addrs)) u host port ne q =
          made (a ∷ addrs) (os.on_socket _) _ q.0 (ap suc q.1)

      protocol :
          (r : Option ℕ) → Total (OpenedOne t) (protocol_result os v r (Event.getprotobyname r ∷ t))
      protocol none = (refl, refl)
      protocol (some proto) =
          rw ((port_text_lem tcp_port (omega arith)).0, protocol_result)
            (resolved _ _ _ _ (some_addr _ _ _) (refl, refl))
