-- ===== src/Https/Laws.antt =====
-- What the HTTPS client sends and prints, and what it leaves open on each of its ways out.
use linux_network_programmin.Base.{
  ℕ, zero, suc, true, ◌≤◌, ◌<◌, ◌≡◌, refl, ap, ◌∙◌, ◌≢◌, ◌⊎◌, inl, inr, ℤ, pos, negsuc, is_nonzero,
  is_nonpos, List, [], ◌∷◌, ◌++◌, Option, none, some, arith, length, length-append,
}
use linux_network_programmin.Sys.{
  Bytes, Kernel, Event, Trace, report_error, freeaddrinfo, close, getprotobyname, getaddrinfo,
  socket,
}
use linux_network_programmin.Sys.Loop.{Total, Total-bind, Total-if}
use linux_network_programmin.Sys.Resources.{open_fds, open_addrs, writes, erase_head}
use linux_network_programmin.Sys.Tls.{
  ssl_ctx_new, ssl_ctx_free, ssl_new, ssl_set_fd, ssl_connect, ssl_write, ssl_shutdown, ssl_free,
  open_contexts, open_handles, refused,
}
use linux_network_programmin.CString.{text, upto_nul}
use linux_network_programmin.CString.Decimal.{sprintf-zeroed, upto_nul-append}
use linux_network_programmin.Socket.Listen.Laws.{ResolvesSome, SameBooks}
use linux_network_programmin.Socket.Connect.{connect_first}
use linux_network_programmin.Tls.Laws.{Open}
use linux_network_programmin.Redirect.Location.{crlf}
use linux_network_programmin.Tls.Client.{hang_up}
use linux_network_programmin.Tls.Client.Run.{
  Holding, LastConnect, ConnectFailed, no_failure, hung_up, connect_first-keeps, SameBooks-Holding,
}
use linux_network_programmin.Https.{
  request_size, response_size, https_request, read_loop, written, transfer, secure, handle_result,
  context_result, connect_stage, socket_result, resolve_result, protocol_result,
  perform_https_request,
}
use linux_network_programmin.Https.Transfer.{records, ReadEnded, read_loop_lem, response_text_lem}

-- The request has no NUL if the host name has none, and the array has room for the name.
abbrev pub IsHost : Bytes → Type 0
IsHost hostname = (upto_nul hostname ≡ hostname) × (length hostname < 979)

https_request_lem :
    (hostname : Bytes)
    → IsHost hostname
    → (upto_nul (https_request hostname) ≡ https_request hostname)
      × (length (https_request hostname) < request_size)
unfolding upto_nul
https_request_lem hostname h =
    let tail = crlf ++ (text "Connection: close" ++ (crlf ++ crlf)) in
    (
      ap (λ xs. text "GET / HTTP/1.1" ++ (crlf ++ (text "Host: " ++ xs)))
          (upto_nul-append hostname tail h.0 refl),
      omega (arith, length-append hostname tail, h.1),
    )

-- With the socket `fd`, the address list, `n` contexts more and the handles `more` open, before
-- anything was read or written.
abbrev Unread : ℕ → List ℕ → Trace → ℕ → Trace → Type 0
Unread n more t fd u =
    Holding n more t fd u
    × ((handle : ℕ) → records handle u ≡ records handle t)
    × (writes u ≡ writes t)

-- A run that prints has written its request in one `SSL_write`, and prints what it read from that
-- handle, at most `RESPONSE_SIZE` bytes, up to the first NUL; nothing is left open. One that gives
-- up leaves nothing open, but the address list if it ends at a `socket` that failed, and the list
-- and its socket if it ends at a `connect` that failed.
abbrev pub Fetched : Bytes → Trace → Option Bytes → Trace → Type 0
Fetched hostname t none u =
    SameBooks t u
    ⊎ (Open (open_fds t) (suc (open_addrs t)) (open_contexts t) (open_handles t) (λ k. refused k t)
          u
        × ((n : ℕ) × (v : Trace) × (u
              ≡ Event.report_error "socket() failed" ∷ Event.socket (negsuc n) ∷ v)))
    ⊎ ((fd : ℕ) × Holding 0 [] t fd u × ConnectFailed "connect() failed" fd u)
Fetched hostname t (some printed) u =
    (handle : ℕ) × (bytes : Bytes) × (n : ℕ) × (writes u
      ≡ (handle, https_request hostname, pos (suc n)) ∷ writes t)
    × (records handle u ≡ records handle t ++ bytes)
    × (length bytes ≤ response_size)
    × (printed ≡ upto_nul bytes)
    × SameBooks t u

module _ (os : Kernel) (hostname : Bytes) (spare : ℕ) (host : IsHost hostname) where
  abbrev F : Trace → Option Bytes → Trace → Type 0
  F = Fetched hostname

  -- What follows the result of `SSL_write`.
  written_lem :
      (fd handle : ℕ) (rc : ℤ) (t u : Trace)
      → Unread 1 (handle ∷ []) t fd u
      → Total
          (F t)
          (written os spare fd handle rc (Event.ssl_write handle (https_request hostname) rc ∷ u))
  unfolding written hang_up report_error freeaddrinfo close ssl_ctx_free ssl_shutdown ssl_free
  written_lem fd handle (negsuc n) t u q = inl (hung_up fd handle t u q.0)
  written_lem fd handle (pos zero) t u q = inl (hung_up fd handle t u q.0)
  written_lem fd handle (pos (suc n)) t u q =
      let v = Event.ssl_write handle (https_request hostname) (pos (suc n)) ∷ u in
      Total-bind
        (λ r w.
          (records handle w ≡ records handle v ++ r)
          × (length r ≤ response_size)
          × ReadEnded w
          × (writes w ≡ writes v)
          × SameBooks v w)
        (F t) (read_loop os (suc response_size) handle []) _ v (read_loop_lem os handle v)
        (λ got w (p, l, e, z, b). rw (response_text_lem spare got l) (
          handle,
          got,
          n,
          z ∙ ap (◌∷◌ (handle, https_request hostname, pos (suc n))) q.2,
          p ∙ ap (λ xs. xs ++ got) (q.1 handle),
          l,
          refl,
          hung_up fd handle t w (SameBooks-Holding os 1 (handle ∷ []) fd t u w b q.0),
        ))

  transfer_lem :
      (fd handle : ℕ) (t u : Trace)
      → Unread 1 (handle ∷ []) t fd u
      → Total (F t) (transfer os hostname spare fd handle u)
  unfolding transfer ssl_write
  transfer_lem fd handle t u q =
      let req = https_request_lem hostname host in
      let made = sprintf-zeroed request_size (https_request hostname) req.1 req.0 in
      rw (made.1, made.2, transfer) (written_lem fd handle _ t u q)

  secure_lem :
      (fd handle : ℕ) (t u : Trace)
      → Unread 1 (handle ∷ []) t fd u
      → Total (F t) (secure os hostname spare fd handle u)
  unfolding secure ssl_set_fd ssl_connect report_error hang_up freeaddrinfo close ssl_ctx_free
      ssl_shutdown ssl_free
  secure_lem fd handle t u q =
      Total-if (F t) (is_nonpos (os.on_ssl_connect _ handle)) _ _ _
        (λ _. inl (hung_up fd handle t u q.0)) (λ _. transfer_lem fd handle t _ q)

  handle_result_lem :
      (fd : ℕ) (r : Option ℕ) (t u : Trace)
      → Unread 1 [] t fd u
      → Total (F t) (handle_result os hostname spare fd r (Event.ssl_new r ∷ u))
  unfolding handle_result report_error ssl_ctx_free freeaddrinfo close
  handle_result_lem fd none t u (q, k, w) =
      inl (rw q.0 (erase_head fd (open_fds t)), omega (arith, q.1), omega (arith, q.2), q.3, q.4)
  handle_result_lem fd (some handle) t u (q, k, w) =
      secure_lem fd handle t (Event.ssl_new (some handle) ∷ u)
        ((q.0, q.1, q.2, ap (◌∷◌ handle) q.3, q.4), k, w)

  context_result_lem :
      (fd : ℕ) (r : Option ℕ) (t u : Trace)
      → Unread 0 [] t fd u
      → Total (F t) (context_result os hostname spare fd r (Event.ssl_ctx_new r ∷ u))
  unfolding context_result report_error freeaddrinfo close ssl_new
  context_result_lem fd none t u (q, k, w) =
      inl (rw q.0 (erase_head fd (open_fds t)), omega (arith, q.1), omega (arith, q.2), q.3, q.4)
  context_result_lem fd (some context) t u (q, k, w) =
      handle_result_lem fd _ t (Event.ssl_ctx_new (some context) ∷ u)
        ((q.0, q.1, omega (arith, q.2), q.3, q.4), k, w)

  connect_stage_lem :
      (fd : ℕ) (addrs : List ℕ) (t u : Trace)
      → Unread 0 [] t fd u
      → Total (F t) (connect_stage os hostname spare fd addrs u)
  unfolding connect_stage report_error ssl_ctx_new
  connect_stage_lem fd addrs t u q =
      Total-bind (λ rc v. Unread 0 [] t fd v × (is_nonzero rc ≡ true → LastConnect fd rc v)) (F t)
        (connect_first os fd addrs (pos 0)) _ u
        (connect_first-keeps os (Unread 0 [] t fd) fd (λ v a rc p. p) addrs (pos 0) u q
          (no_failure os fd u))
        (λ rc v (p, l).
          Total-if (F t) (is_nonzero rc) _ _ v (λ e. inr (inr (fd, p.0, (rc, v, e, l e, refl))))
            (λ _. context_result_lem fd (os.on_ssl_ctx_new v) t v p))

  -- A request to a host whose name fits the array has no undefined behaviour, from any trace. One
  -- that prints has written the request for the host in its one `SSL_write`, and prints all that
  -- it read from its handle, at most `RESPONSE_SIZE` bytes, up to the first NUL; it leaves nothing
  -- open. One that gives up leaves nothing open, but the address list where it ends at a `socket`
  -- that failed, and the list and the socket where it ends at a `connect` that failed. (A success
  -- of the resolver names an address.)
  pub perform_https_request_lem :
      ResolvesSome os
      → (port : Bytes) (t : Trace)
      → Total (Fetched hostname t) (perform_https_request os hostname spare port t)
  unfolding perform_https_request getprotobyname getaddrinfo socket report_error
  perform_https_request_lem some_addr port t = protocol (os.on_getprotobyname t)
    where
      made :
          (addrs : List ℕ) (r : ℤ) (u : Trace)
          → Open
              (open_fds t)
              (suc (open_addrs t))
              (open_contexts t)
              (open_handles t)
              (λ k. refused k t)
              u
          → ((handle : ℕ) → records handle u ≡ records handle t) × (writes u ≡ writes t)
          → Total (F t) (socket_result os hostname spare addrs r (Event.socket r ∷ u))
      made addrs (negsuc n) u q k = inr (inl (q, (n, u, refl)))
      made addrs (pos fd) u q k =
          connect_stage_lem fd addrs t (Event.socket (pos fd) ∷ u)
            ((ap (◌∷◌ fd) q.0, q.1, omega (arith, q.2), q.3, q.4), k.0, k.1)

      resolved :
          (r : Option (List ℕ)) (u : Trace) (asked : Option Bytes)
          → r ≢ some []
          → SameBooks t u
          → ((handle : ℕ) → records handle u ≡ records handle t) × (writes u ≡ writes t)
          → Total (F t) (resolve_result os hostname spare r (Event.getaddrinfo asked port r ∷ u))
      resolved none u asked ne q k = inl q
      resolved (some []) u asked ne q k = absurd (ne refl)
      resolved (some (a ∷ addrs)) u asked ne q k =
          made (a ∷ addrs) (os.on_socket _) _ (q.0, ap suc q.1, q.2, q.3, q.4) k

      protocol :
          (r : Option ℕ)
          → Total (F t) (protocol_result os hostname spare port r (Event.getprotobyname r ∷ t))
      protocol none = inl (refl, refl, refl, refl, λ k. refl)
      protocol (some proto) =
          resolved _ _ _ (some_addr _ _ _) (refl, refl, refl, refl, λ k. refl)
            ((λ handle. refl), refl)
