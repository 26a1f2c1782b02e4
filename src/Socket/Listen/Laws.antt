-- ===== src/Socket/Listen/Laws.antt =====
-- What `open_listener` leaves open on each of its ways out.
use linux_network_programmin.Base.{
  ℕ, suc, ◌≡◌, refl, ap, ◌∙◌, ◌≢◌, ℤ, pos, negsuc, is_nonzero, [], ◌∷◌, List, Option, none, some,
  arith,
}
use linux_network_programmin.Sys.{
  Kernel, Event, Trace, Bytes, pure, report_error, freeaddrinfo, close, getprotobyname, getaddrinfo,
  socket, fcntl_getfl, fcntl_setfl, bind, listen,
}
use linux_network_programmin.Sys.Loop.{Total, Total-bind, Total-if}
use linux_network_programmin.Sys.Tls.{open_contexts, open_handles, refused}
use linux_network_programmin.Sys.Resources.{open_fds, open_addrs, erase_head}
use linux_network_programmin.Socket.Port.{tcp_port, port_text_lem}
use linux_network_programmin.Socket.Listen.{
  max_connection, set_flags, socket_result, resolve_result, protocol_result, set_non_blocking,
  bind_first, listen_stage, bind_stage, socket_stage, open_listener,
}

-- A successful `getaddrinfo` gives at least one address (its manual page).
abbrev pub ResolvesSome : Kernel → Type 0
ResolvesSome os =
    (t : Trace) (host : Option Bytes) (port : Bytes) → os.on_getaddrinfo t host port ≢ some []

-- No descriptor or address list more than after `t`, and none less.
abbrev pub SameOpen : Trace → Trace → Type 0
SameOpen t t' = (open_fds t' ≡ open_fds t) × (open_addrs t' ≡ open_addrs t)

-- Nothing of five kinds was opened or released, and no client found a server full.
abbrev pub SameBooks : Trace → Trace → Type 0
SameBooks t u =
    (open_fds u ≡ open_fds t)
    × (open_addrs u ≡ open_addrs t)
    × (open_contexts u ≡ open_contexts t)
    × (open_handles u ≡ open_handles t)
    × ((n : ℕ) → refused n u ≡ refused n t)

-- An early return has released all; else the new socket and the address list are open.
abbrev pub OpenedOne : Trace → Option ℕ → Trace → Type 0
OpenedOne t none t' = SameOpen t t'
OpenedOne t (some fd) t' = (open_fds t' ≡ fd ∷ open_fds t) × (open_addrs t' ≡ suc (open_addrs t))

module _ (os : Kernel) where
  pub set_non_blocking_lem :
      (fd : ℕ) (t : Trace) → Total (λ _ t'. SameOpen t t') (set_non_blocking os fd t)
  unfolding set_non_blocking fcntl_getfl fcntl_setfl report_error
  set_non_blocking_lem fd t = ground arith

  set_flags-contexts : (fd : ℕ) (r : ℤ) (t : Trace) → Total (λ _. SameBooks t) (set_flags os fd r t)
  unfolding set_flags fcntl_setfl report_error
  set_flags-contexts fd (negsuc n) t = (refl, refl, refl, refl, λ n. refl)
  set_flags-contexts fd (pos n) t =
      Total-if (λ _. SameBooks t) _ (report_error "fcntl(F_SETFL) failed") (pure tt) _
        (λ _. (refl, refl, refl, refl, λ n. refl)) (λ _. (refl, refl, refl, refl, λ n. refl))

  -- It makes and frees no TLS context or handle either, and no client comes.
  pub set_non_blocking-contexts :
      (fd : ℕ) (t : Trace) → Total (λ _. SameBooks t) (set_non_blocking os fd t)
  unfolding set_non_blocking fcntl_getfl
  set_non_blocking-contexts fd t = set_flags-contexts fd (os.on_getfl t fd) _

  pub bind_first_lem :
      (fd : ℕ) (addrs : List ℕ) (rc : ℤ) (t : Trace)
      → Total (λ _ t'. SameOpen t t') (bind_first os fd addrs rc t)
  unfolding bind_first bind
  bind_first_lem fd [] rc t = (refl, refl)
  bind_first_lem fd (a ∷ addrs) rc t =
      let rc' = os.on_bind t fd a in
      Total-if (λ _ t'. SameOpen t t') (is_nonzero rc') _ _ _
        (λ _. bind_first_lem fd addrs rc' (Event.bind fd a rc' ∷ t)) (λ _. (refl, refl))

  listen_stage_lem :
      (fd : ℕ) (t s : Trace)
      → open_fds t ≡ fd ∷ open_fds s
      → open_addrs t ≡ suc (open_addrs s)
      → Total (OpenedOne s) (listen_stage os fd t)
  unfolding listen_stage listen report_error freeaddrinfo close
  listen_stage_lem fd t s h k =
      Total-if (OpenedOne s) (is_nonzero (os.on_listen t fd max_connection)) _ _ _
        (λ _. (rw h (erase_head fd (open_fds s)), omega arith)) (λ _. (h, k))

  bind_stage_lem :
      (fd : ℕ) (addrs : List ℕ) (t s : Trace)
      → open_fds t ≡ fd ∷ open_fds s
      → open_addrs t ≡ suc (open_addrs s)
      → Total (OpenedOne s) (bind_stage os fd addrs t)
  unfolding bind_stage report_error freeaddrinfo close
  bind_stage_lem fd addrs t s h k =
      Total-bind (λ _. SameOpen t) (OpenedOne s) (set_non_blocking os fd) _ t
        (set_non_blocking_lem fd t)
        λ _ t₁ q₁.
          Total-bind (λ _. SameOpen t₁) (OpenedOne s) (bind_first os fd addrs (pos 0)) _ t₁
            (bind_first_lem fd addrs (pos 0) t₁)
            λ rc t₂ q₂.
              let h₂ : open_fds t₂ ≡ fd ∷ open_fds s = q₂.0 ∙ q₁.0 ∙ h in
              let k₂ : open_addrs t₂ ≡ suc (open_addrs s) = q₂.1 ∙ q₁.1 ∙ k in
              Total-if (OpenedOne s) (is_nonzero rc) _ _ _
                (λ _. (rw h₂ (erase_head fd (open_fds s)), omega arith))
                (λ _. listen_stage_lem fd t₂ s h₂ k₂)

  socket_stage_lem :
      (addr : ℕ) (rest : List ℕ) (t s : Trace)
      → open_fds t ≡ open_fds s
      → open_addrs t ≡ suc (open_addrs s)
      → Total (OpenedOne s) (socket_stage os (addr ∷ rest) t)
  unfolding socket_stage socket report_error freeaddrinfo
  socket_stage_lem addr rest t s h k = go (os.on_socket t)
    where
      go : (r : ℤ) → Total (OpenedOne s) (socket_result os (addr ∷ rest) r (Event.socket r ∷ t))
      go (negsuc n) = (h, omega arith)
      go (pos fd) = bind_stage_lem fd (addr ∷ rest) _ s (ap (◌∷◌ fd) h) k

  -- From any trace, `run_server` comes to its loop with the listening socket and the address list
  -- as the only new resources, or returns with none: no path leaks, and none is undefined.
  pub open_listener_lem : ResolvesSome os → (t : Trace) → Total (OpenedOne t) (open_listener os t)
  unfolding open_listener getprotobyname getaddrinfo report_error
  open_listener_lem some_addr t = protocol (os.on_getprotobyname t)
    where
      resolved :
          (r : Option (List ℕ)) (u : Trace) (host : Option Bytes) (port : Bytes)
          → r ≢ some []
          → SameOpen t u
          → Total (OpenedOne t) (resolve_result os r (Event.getaddrinfo host port r ∷ u))
      resolved none u host port ne q = q
      resolved (some []) u host port ne q = absurd (ne refl)
      resolved (some (a ∷ addrs)) u host port ne q = socket_stage_lem a addrs _ t q.0 (ap suc q.1)

      protocol :
          (r : Option ℕ) → Total (OpenedOne t) (protocol_result os r (Event.getprotobyname r ∷ t))
      protocol none = (refl, refl)
      protocol (some proto) =
          rw ((port_text_lem tcp_port (omega arith)).0, protocol_result)
            (resolved _ _ _ _ (some_addr _ _ _) (refl, refl))
