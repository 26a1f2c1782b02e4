-- ===== src/NonBlocking/Laws.antt =====
-- What the non-blocking server opens and closes, and that it serves its first client for ever.
use mathlib.Core.List.{erase}
use mathlib.Core.List.Perm
use mathlib.Core.Path.{subst}
use native.Mathlib.Decide.{ℕ_discrete}
use linux_network_programmin.Base.{
  ℕ, zero, suc, sym, ◌≡◌, refl, ap, ◌∙◌, ◌<◌, ℤ, pos, negsuc, List, [], ◌∷◌, ◌++◌, Option, none,
  some, arith, Perm, length, take, length-take,
}
use mathlib.Core.Option
use mathlib.Core.Option.{some-injective}
use linux_network_programmin.Sys.{
  Bytes, Kernel, Event, Trace, report_error, freeaddrinfo, close, accept, recv, send,
  errno_would_block,
}
use linux_network_programmin.Sys.Loop.{
  Loop, running, stopped, state_of, Total, Total-bind, Total-if, Total-mono, while_true,
  while_true-inv,
}
use linux_network_programmin.Sys.Resources.{open_fds, open_addrs, erase_head}
use linux_network_programmin.CString.{text}
use linux_network_programmin.CString.Laws.{received_text-short}
use linux_network_programmin.Socket.Listen.{open_listener, set_non_blocking}
use linux_network_programmin.Socket.Listen.Laws.{
  ResolvesSome, SameOpen, OpenedOne, open_listener_lem, set_non_blocking_lem,
}
use linux_network_programmin.Poll.Clients.{ShortMessages}
use linux_network_programmin.NonBlocking.{
  message_size, is_ten, received, serve, accepted, server_round, close_client, leave, started,
  run_server,
}

-- The client's descriptor, if there is one.
abbrev pub client_fds : ℤ → List ℕ
client_fds (pos fd) = fd ∷ []
client_fds (negsuc n) = []

-- How many calls of `accept` there were.
abbrev accepts : Event → ℕ → ℕ
accepts (Event.accept fd r) n = suc n
accepts _ n = n

abbrev pub accept_calls : Trace → ℕ
accept_calls [] = 0
accept_calls (e ∷ t) = accepts e (accept_calls t)

-- The state has not changed, nor what is open, and `accept` was not called.
abbrev pub Unmoved : ℤ → Trace → ℤ → Trace → Type 0
Unmoved s t s' t' = (s' ≡ s) × SameOpen t t' × (accept_calls t' ≡ accept_calls t)

module _ (os : Kernel) (short : ShortMessages os) where
  received_lem :
      (fd : ℕ) (s : ℤ) (r : Option Bytes) (t u : Trace)
      → ((bytes : Bytes) → r ≡ some bytes → length bytes < message_size)
      → SameOpen t u
      → accept_calls u ≡ accept_calls t
      → Total (λ l. Unmoved s t (state_of l)) (received os fd s r u)
  unfolding received errno_would_block report_error send
  received_lem fd s none t u fits q c =
      Total-if (λ l. Unmoved s t (state_of l)) (os.would_block u) _ _ u (λ _. (refl, q, c))
        (λ _. (refl, q, c))
  received_lem fd s (some []) t u fits q c = (refl, q, c)
  received_lem fd s (some (b ∷ bytes)) t u fits q c =
      rw (received_text-short message_size (b ∷ bytes) (fits (b ∷ bytes) refl), received)
        (Total-if (λ l. Unmoved s t (state_of l)) (is_ten sent) _ _ _ (λ _. (refl, q, c))
          (λ _. (refl, q, c)))
    where
      sent : ℤ
      sent = os.on_send u fd (text "Status OK" ++ (0 ∷ []))

  -- A round of `serve` keeps its client.
  serve_lem : (s : ℤ) (t : Trace) → Total (λ l. Unmoved s t (state_of l)) (serve os s t)
  unfolding serve recv received
  serve_lem (negsuc n) t = (refl, (refl, refl), refl)
  serve_lem (pos zero) t = (refl, (refl, refl), refl)
  serve_lem (pos (suc n)) t =
      received_lem (suc n) (pos (suc n)) _ t _ (fits (os.on_recv t (suc n)) refl) (refl, refl) refl
    where
      fits :
          (r : Option Bytes)
          → os.on_recv t (suc n) ≡ r
          → (bytes : Bytes) → Option.map (take message_size) r ≡ some bytes
          → length bytes < message_size
      fits none e bytes p = cc
      fits (some got) e bytes p =
          rw (← some-injective _ _ p)
            (omega (arith, length-take message_size got, short t (suc n) got e))

  -- Once a client has been accepted, any number of rounds keeps it, also after it has
  -- disconnected: they open and close nothing and never call `accept` again. (Messages are shorter
  -- than the buffer.)
  pub server_rounds_lem :
      (sock fd rounds : ℕ) (t : Trace)
      → Total
          (λ l. Unmoved (pos fd) t (state_of l))
          (while_true rounds (server_round os sock) (pos fd) t)
  unfolding server_round
  server_rounds_lem sock fd rounds t =
      while_true-inv (λ s u. Unmoved (pos fd) t s u) (server_round os sock) keep rounds (pos fd) t
        (refl, (refl, refl), refl)
    where
      step :
          (s : ℤ) (u : Trace)
          → s ≡ pos fd
          → Total (λ l. Unmoved s u (state_of l)) (server_round os sock s u)
      step (pos n) u e = serve_lem (pos n) u
      step (negsuc n) u e = cc

      keep :
          (s : ℤ) (u : Trace)
          → Unmoved (pos fd) t s u
          → Total (λ l. Unmoved (pos fd) t (state_of l)) (server_round os sock s u)
      keep s u (e, q, c) =
          Total-mono (λ l. Unmoved s u (state_of l)) (λ l. Unmoved (pos fd) t (state_of l))
            (server_round os sock s u)
            (λ l v (e', q', c'). (e' ∙ e, (q'.0 ∙ q.0, q'.1 ∙ q.1), c' ∙ c)) (step s u e)

-- The client, the listening socket and what was open at `t`.
abbrev Holds : ℕ → Trace → ℤ → Trace → Type 0
Holds sock t s t' =
    (open_fds t' ≡ client_fds s ++ (sock ∷ open_fds t)) × (open_addrs t' ≡ suc (open_addrs t))

-- What is open after a server that started at `t`.
abbrev pub Holding : Trace → Option (Loop ℤ) → Trace → Type 0
Holding t none t' = SameOpen t t'
Holding t (some (running s)) t' = (sock : ℕ) × Holds sock t s t'
Holding t (some (stopped s)) t' = Perm (open_fds t') (open_fds t) × (open_addrs t' ≡ open_addrs t)

module _ (os : Kernel) (short : ShortMessages os) (sock : ℕ) (t : Trace) where
  served :
      (s : ℤ) (u : Trace) → Holds sock t s u → Total (λ l. Holds sock t (state_of l)) (serve os s u)
  served s u h =
      Total-mono (λ l. Unmoved s u (state_of l)) (λ l. Holds sock t (state_of l)) (serve os s u)
        (λ l v (e, q, c). rw e (q.0 ∙ h.0, q.1 ∙ h.1)) (serve_lem os short s u)

  accepted_lem :
      (r : ℤ) (u : Trace)
      → Holds sock t r u
      → Total (λ l. Holds sock t (state_of l)) (accepted os r u)
  unfolding accepted errno_would_block report_error
  accepted_lem (negsuc n) u h =
      Total-if (λ l. Holds sock t (state_of l)) (os.would_block u) _ _ u
        (λ _. served (negsuc n) u h) (λ _. h)
  accepted_lem (pos fd) u h =
      Total-bind (λ _. SameOpen u) (λ l. Holds sock t (state_of l)) (set_non_blocking os fd) _ u
        (set_non_blocking_lem os fd u) (λ _ v q. served (pos fd) v (q.0 ∙ h.0, q.1 ∙ h.1))

  round_lem :
      (s : ℤ) (u : Trace)
      → Holds sock t s u
      → Total (λ l. Holds sock t (state_of l)) (server_round os sock s u)
  unfolding server_round accept
  round_lem (pos fd) u h = served (pos fd) u h
  round_lem (negsuc n) u h = accepted_lem (os.on_accept u sock) _ (new (os.on_accept u sock))
    where
      new : (r : ℤ) → Holds sock t r (Event.accept sock r ∷ u)
      new (pos fd) = (ap (λ xs. fd ∷ xs) h.0, h.1)
      new (negsuc n) = h

  leave_lem :
      (l : Loop ℤ) (u : Trace)
      → Holds sock t (state_of l) u
      → Total (λ l'. Holding t (some l')) (leave os sock l u)
  unfolding leave close_client freeaddrinfo close
  leave_lem (running s) u h = (sock, h)
  leave_lem (stopped (pos fd)) u h = (released, omega (arith, h.1))
    where
      others : Perm (erase ℕ_discrete (open_fds u) sock) (fd ∷ open_fds t)
      others =
          subst (λ xs. Perm (erase ℕ_discrete (open_fds u) sock) xs)
            (erase_head sock (fd ∷ open_fds t))
            (Perm.erase ℕ_discrete sock (
              subst (λ xs. Perm xs (sock ∷ fd ∷ open_fds t)) (sym h.0)
                (Perm.swap sock fd (open_fds t))))

      released : Perm (erase ℕ_discrete (erase ℕ_discrete (open_fds u) sock) fd) (open_fds t)
      released =
          subst (λ xs. Perm (erase ℕ_discrete (erase ℕ_discrete (open_fds u) sock) fd) xs)
            (erase_head fd (open_fds t)) (Perm.erase ℕ_discrete fd others)
  leave_lem (stopped (negsuc n)) u h =
      (rw (h.0, erase_head sock (open_fds t)) (Perm.refl (open_fds t)), omega (arith, h.1))

  started_lem :
      (u : Trace)
      → OpenedOne t (some sock) u
      → (rounds : ℕ) → Total (Holding t) (started os rounds (some sock) u)
  unfolding started
  started_lem u q rounds =
      Total-bind (λ l. Holds sock t (state_of l)) (Holding t)
        (while_true rounds (server_round os sock) (negsuc 0)) _ u
        (while_true-inv (Holds sock t) (server_round os sock) round_lem rounds (negsuc 0) u q)
        (λ l v h.
          Total-bind (λ l'. Holding t (some l')) (Holding t) (leave os sock l) _ v (leave_lem l v h)
            (λ l' w k. k))

-- A non-blocking server, for any number of rounds and from any trace, has no undefined behaviour.
-- While it runs, what is open is its client, if it has one, the listening socket and what was open
-- at the start; one that stopped or could not start has released all that it opened. (A success of
-- the resolver names an address, and messages are shorter than the buffer.)
pub run_server_resources :
    (os : Kernel)
    → ResolvesSome os
    → ShortMessages os
    → (rounds : ℕ) (t : Trace) → Total (Holding t) (run_server os rounds t)
unfolding run_server started
run_server_resources os addr short rounds t =
    Total-bind (OpenedOne t) (Holding t) (open_listener os) _ t (open_listener_lem os addr t) start
  where
    start : (o : Option ℕ) (u : Trace) → OpenedOne t o u → Total (Holding t) (started os rounds o u)
    start none u q = q
    start (some sock) u q = started_lem os short sock t u q rounds
