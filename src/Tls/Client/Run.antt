-- ===== src/Tls/Client/Run.antt =====
-- The TLS client as a whole: what it leaves open on each of its ways out.
use Prim.Native.String.{String}
use linux_network_programmin.Base.{
  ℕ, suc, ◌+◌, ◌≡◌, true, ◌-◌, refl, ap, ◌∙◌, ◌≢◌, ◌⊎◌, inl, inr, ℤ, pos, negsuc, is_nonzero,
  is_nonpos, List, [], ◌∷◌, ◌++◌, Option, none, some, arith, take,
}
use linux_network_programmin.Sys.{
  Bytes, Kernel, Event, Trace, report_error, freeaddrinfo, close, getprotobyname, getaddrinfo,
  socket, connect,
}
use linux_network_programmin.Sys.Loop.{
  Loop, running, stopped, while_true, while_true-inv, Total, Total-bind, Total-if, Total-mono,
}
use linux_network_programmin.Sys.Resources.{open_fds, open_addrs, erase_head}
use linux_network_programmin.Sys.Tls.{
  ssl_ctx_new, ssl_ctx_free, ssl_new, ssl_set_fd, ssl_connect, ssl_shutdown, ssl_free,
  open_contexts, open_handles, refused,
}
use linux_network_programmin.Socket.Listen.Laws.{ResolvesSome, SameBooks}
use linux_network_programmin.Socket.Connect.{connect_first}
use linux_network_programmin.Client.{message_size}
use linux_network_programmin.Client.Laws.{line_text}
use linux_network_programmin.Tls.Laws.{Open, port_server_lem}
use linux_network_programmin.Tls.Server.Events.{ShortRecords}
use linux_network_programmin.Tls.Client.{
  hang_up, tls_client_round, leave, handshake, handle_result, context_result, connect_stage,
  socket_result, resolve_result, protocol_result, run_tls_client,
}
use linux_network_programmin.Tls.Client.Laws.{Commanded, tls_client_round_lem, tls_client_round_end}
use linux_network_programmin.Base.{Option-cases}

-- With the socket `fd`, the address list, `n` contexts more and the handles `more` open.
abbrev pub Holding : ℕ → List ℕ → Trace → ℕ → Trace → Type 0
Holding n more t fd u =
    Open (fd ∷ open_fds t) (suc (open_addrs t)) (n + open_contexts t) (more ++ open_handles t)
      (λ k. refused k t) u

-- The last call was a `connect` on the descriptor, with this result.
abbrev pub LastConnect : ℕ → ℤ → Trace → Type 0
LastConnect fd rc u = (addr : ℕ) × (v : Trace) × (u ≡ Event.connect fd addr rc ∷ v)

-- A run gave up, with a message, just after a `connect` that failed.
abbrev pub ConnectFailed : String → ℕ → Trace → Type 0
ConnectFailed message fd u =
    (rc : ℤ) × (v : Trace) × (is_nonzero rc ≡ true)
    × LastConnect fd rc v
    × (u ≡ Event.report_error message ∷ v)

-- Nothing is left open, but by a client whose last `connect` failed, with which it ended: it
-- leaves its socket and the address list. A client that still runs holds a socket, the list, a
-- context and a handle.
abbrev pub Left : Trace → Option (Loop (Unit {0})) → Trace → Type 0
Left t none u =
    SameBooks t u ⊎ ((fd : ℕ) × Holding 0 [] t fd u × ConnectFailed "Client connect() failed" fd u)
Left t (some (running x)) u = (fd : ℕ) × (handle : ℕ) × Holding 1 (handle ∷ []) t fd u
Left t (some (stopped x)) u = SameBooks t u

-- A client that hangs up leaves nothing open.
pub hung_up :
    (fd handle : ℕ) (t u : Trace)
    → Holding 1 (handle ∷ []) t fd u
    → SameBooks t (
        Event.ssl_free handle
        ∷ Event.ssl_shutdown handle
        ∷ Event.ssl_ctx_free
        ∷ Event.close fd
        ∷ Event.freeaddrinfo
        ∷ u)
hung_up fd handle t u q = (
  rw q.0 (erase_head fd (open_fds t)),
  omega (arith, q.1),
  omega (arith, q.2),
  rw q.3 (erase_head handle (open_handles t)),
  q.4,
)

module _ (os : Kernel) where
  -- What holds after each `connect` holds after all of them, and a failure is that of the last.
  pub connect_first-keeps :
      (P : Trace → Type 0) (fd : ℕ)
      → ((u : Trace) (a : ℕ) (rc : ℤ) → P u → P (Event.connect fd a rc ∷ u))
      → (addrs : List ℕ) (rc : ℤ) (u : Trace) → P u
      → (is_nonzero rc ≡ true → LastConnect fd rc u)
      → Total
          (λ rc' v. P v × (is_nonzero rc' ≡ true → LastConnect fd rc' v))
          (connect_first os fd addrs rc u)
  unfolding connect_first connect
  connect_first-keeps P fd keep [] rc u q l = (q, l)
  connect_first-keeps P fd keep (a ∷ addrs) rc u q l =
      let rc' = os.on_connect u fd a in
      Total-if (λ rc'' v. P v × (is_nonzero rc'' ≡ true → LastConnect fd rc'' v)) (is_nonzero rc') _
        _ _
        (λ _.
          connect_first-keeps P fd keep addrs rc' (Event.connect fd a rc' ∷ u) (keep u a rc' q)
            (λ _. (a, u, refl)))
        (λ _. (keep u a rc' q, λ _. (a, u, refl)))

  -- No `connect` failed before the first.
  pub no_failure : (fd : ℕ) (u : Trace) → is_nonzero (pos 0) ≡ true → LastConnect fd (pos 0) u
  no_failure fd u e = cc

  hang_up_lem :
      (fd handle : ℕ) (t u : Trace)
      → Holding 1 (handle ∷ []) t fd u
      → Total (λ _. SameBooks t) (hang_up fd handle u)
  unfolding hang_up freeaddrinfo close ssl_ctx_free ssl_shutdown ssl_free
  hang_up_lem fd handle t u q = hung_up fd handle t u q

  pub SameBooks-Holding :
      (n : ℕ) (more : List ℕ) (fd : ℕ) (t u v : Trace)
      → SameBooks u v
      → Holding n more t fd u
      → Holding n more t fd v
  SameBooks-Holding n more fd t u v p q =
      (p.0 ∙ q.0, p.1 ∙ q.1, p.2 ∙ q.2, p.3 ∙ q.3, λ k. p.4 k ∙ q.4 k)

  -- A round holds what was held.
  round-Holding :
      ShortRecords os
      → (fd handle : ℕ) (t : Trace) (x : Unit {0}) (u : Trace) → Holding 1 (handle ∷ []) t fd u
      → Total (λ _. Holding 1 (handle ∷ []) t fd) (tls_client_round os handle x u)
  round-Holding short fd handle t x u q = elim (Option-cases (os.on_fgets u)) [
    | inl e ↦ over [] (tls_client_round_end os short handle u e)
    | inr (line, e) ↦
        over (line_text (take (message_size - 1) line))
          (tls_client_round_lem os short handle line u e)
  ]
    where
      each :
          (request : Bytes) (l : Loop (Unit {0})) (v : Trace)
          → Commanded handle request u l v
          → Holding 1 (handle ∷ []) t fd v
      each request (running y) v (_, _, p) = SameBooks-Holding 1 (handle ∷ []) fd t u v p q
      each request (stopped y) v (_, _, p) = SameBooks-Holding 1 (handle ∷ []) fd t u v p q

      over :
          (request : Bytes)
          → Total (Commanded handle request u) (tls_client_round os handle tt u)
          → Total (λ _. Holding 1 (handle ∷ []) t fd) (tls_client_round os handle tt u)
      over request p =
          Total-mono (Commanded handle request u) (λ _. Holding 1 (handle ∷ []) t fd)
            (tls_client_round os handle tt u) (each request) p

  module _ (short : ShortRecords os) (rounds : ℕ) where
    leave_lem :
        (fd handle : ℕ) (t : Trace) (l : Loop (Unit {0})) (u : Trace)
        → Holding 1 (handle ∷ []) t fd u
        → Total (Left t) (leave fd handle l u)
    unfolding leave
    leave_lem fd handle t (running x) u q = (fd, handle, q)
    leave_lem fd handle t (stopped x) u q =
        Total-bind (λ _. SameBooks t) (Left t) (hang_up fd handle) _ u (hang_up_lem fd handle t u q)
          (λ _ v p. p)

    handshake_lem :
        (fd handle : ℕ) (t u : Trace)
        → Holding 1 (handle ∷ []) t fd u
        → Total (Left t) (handshake os rounds fd handle u)
    unfolding handshake ssl_set_fd ssl_connect report_error
    handshake_lem fd handle t u q =
        Total-if (Left t) (is_nonpos (os.on_ssl_connect _ handle)) _ _ _
          (λ _.
            Total-bind (λ _. SameBooks t) (Left t) (hang_up fd handle) _ _
              (hang_up_lem fd handle t _ q) (λ _ v p. inl p))
          (λ _.
            Total-bind (λ _. H) (Left t) (while_true rounds (tls_client_round os handle) tt) _ _
              (while_true-inv (λ _. H) (tls_client_round os handle)
                (round-Holding short fd handle t) rounds tt _ q)
              (λ l v p. leave_lem fd handle t l v p))
      where
        H : Trace → Type 0
        H = Holding 1 (handle ∷ []) t fd

    handle_result_lem :
        (fd : ℕ) (r : Option ℕ) (t u : Trace)
        → Holding 1 [] t fd u
        → Total (Left t) (handle_result os rounds fd r (Event.ssl_new r ∷ u))
    unfolding handle_result report_error ssl_ctx_free freeaddrinfo close
    handle_result_lem fd none t u q =
        inl (rw q.0 (erase_head fd (open_fds t)), omega (arith, q.1), omega (arith, q.2), q.3, q.4)
    handle_result_lem fd (some handle) t u q =
        handshake_lem fd handle t (Event.ssl_new (some handle) ∷ u)
          (q.0, q.1, q.2, ap (◌∷◌ handle) q.3, q.4)

    context_result_lem :
        (fd : ℕ) (r : Option ℕ) (t u : Trace)
        → Holding 0 [] t fd u
        → Total (Left t) (context_result os rounds fd r (Event.ssl_ctx_new r ∷ u))
    unfolding context_result report_error freeaddrinfo close ssl_new
    context_result_lem fd none t u q =
        inl (rw q.0 (erase_head fd (open_fds t)), omega (arith, q.1), omega (arith, q.2), q.3, q.4)
    context_result_lem fd (some context) t u q =
        handle_result_lem fd _ t (Event.ssl_ctx_new (some context) ∷ u)
          (q.0, q.1, omega (arith, q.2), q.3, q.4)

    connect_stage_lem :
        (fd : ℕ) (addrs : List ℕ) (t u : Trace)
        → Holding 0 [] t fd u
        → Total (Left t) (connect_stage os rounds fd addrs u)
    unfolding connect_stage report_error ssl_ctx_new
    connect_stage_lem fd addrs t u q =
        Total-bind (λ rc v. Holding 0 [] t fd v × (is_nonzero rc ≡ true → LastConnect fd rc v))
          (Left t) (connect_first os fd addrs (pos 0)) _ u
          (connect_first-keeps (Holding 0 [] t fd) fd (λ v a rc p. p) addrs (pos 0) u q
            (no_failure fd u))
          (λ rc v (p, l).
            Total-if (Left t) (is_nonzero rc) _ _ v (λ e. inr (fd, p, (rc, v, e, l e, refl)))
              (λ _. context_result_lem fd (os.on_ssl_ctx_new v) t v p))

    -- From any trace and for any number of commands, the TLS client has no undefined behaviour and
    -- leaves nothing open when it ends or gives up, with one exception: a client that gives up
    -- just after its last `connect` failed leaves its socket and its address list. While it runs
    -- it holds a socket, the list, a context and a handle. (A success of the resolver names an
    -- address, and records are shorter than the buffer.)
    pub run_tls_client_lem :
        ResolvesSome os → (t : Trace) → Total (Left t) (run_tls_client os rounds t)
    unfolding run_tls_client getprotobyname getaddrinfo socket report_error freeaddrinfo
    run_tls_client_lem some_addr t = protocol (os.on_getprotobyname t)
      where
        made :
            (addrs : List ℕ) (r : ℤ) (u : Trace)
            → Open
                (open_fds t)
                (suc (open_addrs t))
                (open_contexts t)
                (open_handles t)
                (λ k. refused k t)
                u
            → Total (Left t) (socket_result os rounds addrs r (Event.socket r ∷ u))
        made addrs (negsuc n) u q = inl (q.0, omega (arith, q.1), q.2, q.3, q.4)
        made addrs (pos fd) u q =
            connect_stage_lem fd addrs t (Event.socket (pos fd) ∷ u)
              (ap (◌∷◌ fd) q.0, q.1, omega (arith, q.2), q.3, q.4)

        resolved :
            (r : Option (List ℕ)) (u : Trace) (host : Option Bytes) (port : Bytes)
            → r ≢ some []
            → SameBooks t u
            → Total (Left t) (resolve_result os rounds r (Event.getaddrinfo host port r ∷ u))
        resolved none u host port ne q = inl q
        resolved (some []) u host port ne q = absurd (ne refl)
        resolved (some (a ∷ addrs)) u host port ne q =
            made (a ∷ addrs) (os.on_socket _) _ (q.0, ap suc q.1, q.2, q.3, q.4)

        protocol :
            (r : Option ℕ)
            → Total (Left t) (protocol_result os rounds r (Event.getprotobyname r ∷ t))
        protocol none = inl (refl, refl, refl, refl, λ k. refl)
        protocol (some proto) =
            rw (port_server_lem, protocol_result)
              (resolved _ _ _ _ (some_addr _ _ _) (refl, refl, refl, refl, λ k. refl))
