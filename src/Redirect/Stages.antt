-- ===== src/Redirect/Stages.antt =====
-- The stages of one call, when what a redirected call leaves open is known.
use linux_network_programmin.Base.{
  ℕ, suc, ◌+◌, ◌-◌, ◌≤◌, ◌≡◌, refl, ap, ◌∙◌, ℤ, pos, negsuc, is_nonzero, [], ◌∷◌, ◌++◌,
  if◌then◌else◌, List, Option, none, some, ltb, arith, length,
}
use linux_network_programmin.Sys.{
  Bytes, Kernel, Event, Trace, pure, ◌>>=◌, ◌>>◌, checked, report_error, freeaddrinfo, close,
  socket, connect,
}
use linux_network_programmin.Sys.Resources.{open_fds, open_addrs, erase_head}
use linux_network_programmin.Sys.Partial.{Partial, Partial-bind, Partial-if}
use linux_network_programmin.Socket.Listen.Laws.{SameOpen}
use linux_network_programmin.CString.{text, zeroed, fill, c_string, received_text}
use linux_network_programmin.CString.Decimal.{sprintf}
use linux_network_programmin.Redirect.Location.{location}
use linux_network_programmin.Redirect.Transfer.{message_size, send_loop, recv_loop}
use linux_network_programmin.Redirect.{
  http_unknown, Again, request, finish, receive_stage, send_stage, connect_stage, socket_result,
  resolve_result,
}
use linux_network_programmin.Redirect.Books.{
  Leaked, LeakedAtMost, send_loop-SameOpen, recv_loop-SameOpen,
}

module _ (s : Trace) (bound j : ℕ) (below : j ≤ bound) (again : Again)
    (next : (host response : Bytes) (u : Trace)
      → Leaked (suc j) s u
      → Partial (LeakedAtMost bound s) (again host response u)) where
  -- The socket and the address list of this call are open.
  Holding : ℕ → Trace → Type 0
  Holding fd t =
      (fds : List ℕ) × (open_fds t ≡ fd ∷ (fds ++ open_fds s))
      × (length fds ≡ j)
      × (open_addrs t ≡ suc (j + open_addrs s))

  Holding-SameOpen : (fd : ℕ) (t u : Trace) → Holding fd t → SameOpen t u → Holding fd u
  unfolding Holding
  Holding-SameOpen fd t u (fds, p, l, a) (q, b) = (fds, q ∙ p, l, b ∙ a)

  released :
      (fd : ℕ) (t u : Trace)
      → Holding fd t
      → open_fds u ≡ open_fds (Event.close fd ∷ t)
      → open_addrs u ≡ open_addrs t - 1
      → (k : ℕ) × (k ≤ bound) × Leaked k s u
  unfolding Holding
  released fd t u (fds, p, l, a) q b =
      (j, below, (fds, q ∙ rw p (erase_head fd (fds ++ open_fds s)), l, omega arith))

  finish_lem :
      (fd : ℕ) (response : Bytes) (o : Option Bytes) (t : Trace)
      → Holding fd t
      → Partial (LeakedAtMost bound s) (finish fd again response o t)
  unfolding finish freeaddrinfo close Holding
  finish_lem fd response none t h =
      released fd t (Event.close fd ∷ Event.freeaddrinfo ∷ t) h refl refl
  finish_lem fd response (some host) t (fds, p, l, a) = named (received_text message_size host)
    where
      named :
          (o : Option Bytes)
          → Partial
              (LeakedAtMost bound s)
              ((checked o >>= λ new_http_host. again new_http_host response) t)
      named none = tt
      named (some name) = next name response t (fd ∷ fds, p, ap suc l, omega arith)

  module _ (os : Kernel) where
    receive_stage_lem :
        (fd : ℕ) (response : Bytes) (t : Trace)
        → Holding fd t
        → Partial (LeakedAtMost bound s) (receive_stage os fd again response t)
    unfolding receive_stage
    receive_stage_lem fd response t h =
        Partial-bind (λ _. SameOpen t) (LeakedAtMost bound s)
          (recv_loop os (suc message_size) fd []) _ t (recv_loop-SameOpen os _ fd [] t)
          (λ got u q. searched got u q (c_string (fill (zeroed message_size) got)))
      where
        searched :
            (got : Bytes) (u : Trace)
            → SameOpen t u
            → (o : Option Bytes)
            → Partial (LeakedAtMost bound s) (
                (checked o >>= λ http_response.
                finish fd again (fill response got) (location http_response))
                  u)
        searched got u q none = tt
        searched got u q (some body) =
            finish_lem fd (fill response got) (location body) u (Holding-SameOpen fd t u h q)

    send_stage_lem :
        (fd : ℕ) (host path response : Bytes) (t : Trace)
        → Holding fd t
        → Partial (LeakedAtMost bound s) (send_stage os fd again host path response t)
    unfolding send_stage report_error freeaddrinfo close
    send_stage_lem fd host path response t h =
        built (sprintf (zeroed message_size) (request host path))
      where
        sent_lem :
            (body : Bytes) (sent : ℕ) (u : Trace)
            → SameOpen t u
            → Partial (LeakedAtMost bound s) (
                (if ltb sent (length body)
                    then (do
                      report_error "Can not send a complete http request"
                      freeaddrinfo
                      close fd
                      pure (http_unknown, response))
                    else receive_stage os fd again response)
                  u)
        sent_lem body sent u q =
            let h' = Holding-SameOpen fd t u h q in
            Partial-if (LeakedAtMost bound s) (ltb sent (length body)) _ _ u
              (λ _.
                released fd u
                  (Event.close fd
                    ∷ Event.freeaddrinfo
                    ∷ Event.report_error "Can not send a complete http request"
                    ∷ u)
                  h' refl refl)
              (λ _. receive_stage_lem fd response u h')

        read_back :
            (o : Option Bytes)
            → Partial (LeakedAtMost bound s) (
                (do
                  http_request ← checked o
                  sent ← send_loop os (length http_request) fd http_request 0
                  if ltb sent (length http_request)
                      then (do
                        report_error "Can not send a complete http request"
                        freeaddrinfo
                        close fd
                        pure (http_unknown, response))
                      else receive_stage os fd again response)
                  t)
        read_back none = tt
        read_back (some body) =
            Partial-bind (λ _. SameOpen t) (LeakedAtMost bound s)
              (send_loop os (length body) fd body 0) _ t
              (send_loop-SameOpen os (length body) fd 0 body t) (sent_lem body)

        built :
            (o : Option Bytes)
            → Partial (LeakedAtMost bound s) (
                (do
                  buffer ← checked o
                  http_request ← checked (c_string buffer)
                  sent ← send_loop os (length http_request) fd http_request 0
                  if ltb sent (length http_request)
                      then (do
                        report_error "Can not send a complete http request"
                        freeaddrinfo
                        close fd
                        pure (http_unknown, response))
                      else receive_stage os fd again response)
                  t)
        built none = tt
        built (some buffer) = read_back (c_string buffer)

    connect_stage_lem :
        (fd addr : ℕ) (host path response : Bytes) (t : Trace)
        → Holding fd t
        → Partial (LeakedAtMost bound s) (connect_stage os fd addr again host path response t)
    unfolding connect_stage connect report_error freeaddrinfo close
    connect_stage_lem fd addr host path response t h =
        let rc = os.on_connect t fd addr in
        let u = Event.connect fd addr rc ∷ t in
        let h' = Holding-SameOpen fd t u h (refl, refl) in
        Partial-if (LeakedAtMost bound s) (is_nonzero rc) _ _ u
          (λ _.
            released fd u
              (Event.close fd ∷ Event.freeaddrinfo ∷ Event.report_error "connect() failed" ∷ u) h'
              refl refl)
          (λ _. send_stage_lem fd host path response u h')

    pub resolve_result_lem :
        (o : Option (List ℕ)) (host path response host_text port : Bytes) (t : Trace)
        → Leaked j s t
        → Partial (LeakedAtMost bound s) (
            resolve_result os o again host path response
              (Event.getaddrinfo (some host_text) port o ∷ t))
    unfolding resolve_result socket report_error freeaddrinfo Holding
    resolve_result_lem none host path response host_text port t k =
        message (sprintf (zeroed message_size) (text "Failed to resolve hostname: " ++ host))
      where
        message :
            (o : Option Bytes)
            → Partial (LeakedAtMost bound s) (
                (do
                  message ← checked o
                  report_error "Failed to resolve hostname"
                  pure (http_unknown, response))
                  (Event.getaddrinfo (some host_text) port none ∷ t))
        message none = tt
        message (some m) = (j, below, k)
    resolve_result_lem (some []) host path response host_text port t k = tt
    resolve_result_lem (some (addr ∷ rest)) host path response host_text port t (fds, p, l, a) =
        opened (os.on_socket (Event.getaddrinfo (some host_text) port (some (addr ∷ rest)) ∷ t))
      where
        opened :
            (r : ℤ)
            → Partial (LeakedAtMost bound s) (
                socket_result os r addr again host path response (
                  Event.socket r
                  ∷ Event.getaddrinfo (some host_text) port (some (addr ∷ rest))
                  ∷ t))
        opened (negsuc n) = (j, below, (fds, p, l, omega arith))
        opened (pos fd) =
            connect_stage_lem fd addr host path response _ (fds, ap (◌∷◌ fd) p, l, omega arith)
