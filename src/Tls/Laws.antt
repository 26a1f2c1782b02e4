-- ===== src/Tls/Laws.antt =====
-- What the set-up of the TLS server leaves open on each of its ways out.
use linux_network_programmin.Base.{
  ℕ, suc, ◌+◌, ◌≡◌, refl, ap, ◌∙◌, ◌≢◌, ℤ, pos, negsuc, is_nonzero, is_nonpos, [], ◌∷◌, List,
  Option, none, some, arith,
}
use linux_network_programmin.Sys.{
  Bytes, Kernel, Event, Trace, report_error, freeaddrinfo, close, getprotobyname, getaddrinfo,
  socket, setsockopt, listen, bind,
}
use linux_network_programmin.Sys.Loop.{Total, Total-bind, Total-if, Total-mono}
use linux_network_programmin.Sys.Resources.{open_fds, open_addrs, erase_head}
use linux_network_programmin.Sys.Tls.{
  ssl_ctx_new, ssl_ctx_free, ssl_use_certificate, ssl_use_private_key, open_contexts, open_handles,
  refused,
}
use linux_network_programmin.CString.{text, zeroed, c_string}
use linux_network_programmin.CString.Decimal.{decimal, sprintf}
use linux_network_programmin.Socket.Listen.{max_connection, set_non_blocking, bind_first}
use linux_network_programmin.Socket.Listen.Laws.{ResolvesSome, set_non_blocking-contexts}
use linux_network_programmin.Tls.{
  port_server, give_up, give_up_context, key_stage, certificate_stage, context_result, listen_stage,
  bind_stage, socket_result, resolve_result, protocol_result, open_tls,
}

-- The descriptors, address lists, contexts and handles that are open, and the clients that found
-- no slot.
abbrev pub Open : List ℕ → ℕ → ℕ → List ℕ → (ℕ → List ℕ) → Trace → Type 0
Open fds addrs contexts handles clients u =
    (open_fds u ≡ fds)
    × (open_addrs u ≡ addrs)
    × (open_contexts u ≡ contexts)
    × (open_handles u ≡ handles)
    × ((n : ℕ) → refused n u ≡ clients n)

-- An early return has released all; else the socket, the address list and the context are open.
abbrev pub Opened : Trace → Option (ℕ × ℕ) → Trace → Type 0
Opened t none u =
    Open (open_fds t) (open_addrs t) (open_contexts t) (open_handles t) (λ n. refused n t) u
Opened t (some (fd, context)) u =
    Open (fd ∷ open_fds t) (suc (open_addrs t)) (suc (open_contexts t)) (open_handles t)
      (λ n. refused n t) u

-- With the socket and the address list open, and `n` contexts more.
abbrev Halfway : ℕ → Trace → ℕ → Trace → Type 0
Halfway n t fd u =
    (open_fds u ≡ fd ∷ open_fds t)
    × (open_addrs u ≡ suc (open_addrs t))
    × (open_contexts u ≡ n + open_contexts t)
    × (open_handles u ≡ open_handles t)
    × ((n : ℕ) → refused n u ≡ refused n t)

pub port_server_lem : port_server ≡ some (text "4443")
unfolding port_server sprintf zeroed decimal c_string
port_server_lem = refl

module _ (os : Kernel) where
  set_non_blocking-Halfway :
      (fd : ℕ) (t s : Trace)
      → Halfway 0 s fd t
      → Total (λ _. Halfway 0 s fd) (set_non_blocking os fd t)
  set_non_blocking-Halfway fd t s q =
      Total-mono _ (λ _. Halfway 0 s fd) (set_non_blocking os fd t)
        (λ x u p. (p.0 ∙ q.0, p.1 ∙ q.1, p.2 ∙ q.2, p.3 ∙ q.3, λ n. p.4 n ∙ q.4 n))
        (set_non_blocking-contexts os fd t)

  bind_first-Halfway :
      (fd : ℕ) (addrs : List ℕ) (rc : ℤ) (t s : Trace)
      → Halfway 0 s fd t
      → Total (λ _. Halfway 0 s fd) (bind_first os fd addrs rc t)
  unfolding bind_first bind
  bind_first-Halfway fd [] rc t s q = q
  bind_first-Halfway fd (a ∷ addrs) rc t s q =
      let rc' = os.on_bind t fd a in
      Total-if (λ _. Halfway 0 s fd) (is_nonzero rc') _ _ _
        (λ _. bind_first-Halfway fd addrs rc' (Event.bind fd a rc' ∷ t) s q) (λ _. q)

  give_up_lem : (fd : ℕ) (t s : Trace) → Halfway 0 s fd t → Total (Opened s) (give_up fd t)
  unfolding give_up freeaddrinfo close
  give_up_lem fd t s q =
      (rw q.0 (erase_head fd (open_fds s)), omega (arith, q.1), omega (arith, q.2), q.3, q.4)

  give_up_context_lem :
      (fd : ℕ) (t s : Trace) → Halfway 1 s fd t → Total (Opened s) (give_up_context fd t)
  unfolding give_up_context ssl_ctx_free freeaddrinfo close
  give_up_context_lem fd t s q =
      (rw q.0 (erase_head fd (open_fds s)), omega (arith, q.1), omega (arith, q.2), q.3, q.4)

  key_stage_lem :
      (fd context : ℕ) (t s : Trace)
      → Halfway 1 s fd t
      → Total (Opened s) (key_stage os fd context t)
  unfolding key_stage ssl_use_private_key report_error
  key_stage_lem fd context t s q =
      Total-if (Opened s) (is_nonpos (os.on_ssl_use_private_key t)) _ _ _
        (λ _. give_up_context_lem fd _ s q) (λ _. (q.0, q.1, omega (arith, q.2), q.3, q.4))

  certificate_stage_lem :
      (fd context : ℕ) (t s : Trace)
      → Halfway 1 s fd t
      → Total (Opened s) (certificate_stage os fd context t)
  unfolding certificate_stage ssl_use_certificate report_error
  certificate_stage_lem fd context t s q =
      Total-if (Opened s) (is_nonpos (os.on_ssl_use_certificate t)) _ _ _
        (λ _. give_up_context_lem fd _ s q)
        (λ _.
          key_stage_lem fd context (Event.ssl_use_certificate (os.on_ssl_use_certificate t) ∷ t) s
            q)

  context_result_lem :
      (fd : ℕ) (r : Option ℕ) (t s : Trace)
      → Halfway 0 s fd t
      → Total (Opened s) (context_result os fd r (Event.ssl_ctx_new r ∷ t))
  unfolding context_result report_error
  context_result_lem fd none t s q = give_up_lem fd _ s q
  context_result_lem fd (some context) t s q =
      certificate_stage_lem fd context (Event.ssl_ctx_new (some context) ∷ t) s
        (q.0, q.1, omega (arith, q.2), q.3, q.4)

  listen_stage_lem :
      (fd : ℕ) (t s : Trace) → Halfway 0 s fd t → Total (Opened s) (listen_stage os fd t)
  unfolding listen_stage listen report_error ssl_ctx_new
  listen_stage_lem fd t s q =
      Total-if (Opened s) (is_nonzero (os.on_listen t fd max_connection)) _ _ _
        (λ _. give_up_lem fd _ s q) (λ _. context_result_lem fd _ _ s q)

  bind_stage_lem :
      (fd : ℕ) (addrs : List ℕ) (t s : Trace)
      → Halfway 0 s fd t
      → Total (Opened s) (bind_stage os fd addrs t)
  unfolding bind_stage setsockopt report_error
  bind_stage_lem fd addrs t s q =
      Total-bind (λ _. Halfway 0 s fd) (Opened s) (set_non_blocking os fd) _ t
        (set_non_blocking-Halfway fd t s q)
        (λ _ u p.
          Total-bind (λ _. Halfway 0 s fd) (Opened s) (bind_first os fd addrs (pos 0)) _
            (Event.setsockopt fd (os.on_setsockopt u fd) ∷ u)
            (bind_first-Halfway fd addrs (pos 0) (Event.setsockopt fd (os.on_setsockopt u fd) ∷ u) s
              p)
            (λ rc v r.
              Total-if (Opened s) (is_nonzero rc) _ _ v (λ _. give_up_lem fd _ s r)
                (λ _. listen_stage_lem fd v s r)))

  -- From any trace, the set-up of the TLS server comes to its loop with the listening socket, the
  -- address list and one context as the only new resources, or returns with none, whichever step
  -- fails, and is never undefined. (A success of the resolver names an address.)
  pub open_tls_lem : ResolvesSome os → (t : Trace) → Total (Opened t) (open_tls os t)
  unfolding open_tls getprotobyname getaddrinfo report_error socket freeaddrinfo
  open_tls_lem some_addr t = protocol (os.on_getprotobyname t)
    where
      made :
          (addrs : List ℕ) (r : ℤ) (u : Trace)
          → Open
              (open_fds t)
              (suc (open_addrs t))
              (open_contexts t)
              (open_handles t)
              (λ n. refused n t)
              u
          → Total (Opened t) (socket_result os addrs r (Event.socket r ∷ u))
      made addrs (negsuc n) u q = (q.0, omega (arith, q.1), q.2, q.3, q.4)
      made addrs (pos fd) u q =
          bind_stage_lem fd addrs _ t (ap (◌∷◌ fd) (q.0), q.1, omega (arith, q.2), q.3, q.4)

      resolved :
          (r : Option (List ℕ)) (u : Trace) (host : Option Bytes) (port : Bytes)
          → r ≢ some []
          → Open (open_fds t) (open_addrs t) (open_contexts t) (open_handles t) (λ n. refused n t) u
          → Total (Opened t) (resolve_result os r (Event.getaddrinfo host port r ∷ u))
      resolved none u host port ne q = q
      resolved (some []) u host port ne q = absurd (ne refl)
      resolved (some (a ∷ addrs)) u host port ne q =
          made (a ∷ addrs) (os.on_socket _) _ (q.0, ap suc (q.1), q.2, q.3, q.4)

      protocol :
          (r : Option ℕ) → Total (Opened t) (protocol_result os r (Event.getprotobyname r ∷ t))
      protocol none = (refl, refl, refl, refl, λ n. refl)
      protocol (some proto) =
          rw (port_server_lem, protocol_result)
            (resolved _ _ _ _ (some_addr _ _ _) (refl, refl, refl, refl, λ n. refl))
