-- ===== src/Tls/Client.antt =====
-- `run_client` of 01_networking_libraries/openssl/src/ssl_client_server.c.
pub mod Laws
pub mod Run
use linux_network_programmin.Base.{
  ℕ, ◌-◌, ℤ, pos, negsuc, is_nonzero, is_nonpos, List, [], ◌∷◌, Option, none, some, if◌then◌else◌,
}
use linux_network_programmin.Sys.{
  Bytes, Kernel, M, pure, raise_fault, ◌>>=◌, ◌>>◌, checked, report_error, freeaddrinfo, close,
  getprotobyname, getaddrinfo, socket, fgets,
}
use linux_network_programmin.Sys.Tls.{
  ssl_ctx_new, ssl_ctx_free, ssl_new, ssl_set_fd, ssl_connect, ssl_read, ssl_write, ssl_shutdown,
  ssl_free,
}
use linux_network_programmin.Sys.Loop.{Loop, running, stopped, while_true}
use linux_network_programmin.CString.{received_text}
use linux_network_programmin.Socket.Port.{host_name}
use linux_network_programmin.Socket.Connect.{connect_first}
use linux_network_programmin.Session.{is_stop}
use linux_network_programmin.Client.{message_size, command}
use linux_network_programmin.Tls.{port_server}

-- The release of all that the client holds, in the order of the two places that do it.
unfoldable pub hang_up : ℕ → ℕ → M (Unit {0})
hang_up sock_client handle = do
  freeaddrinfo
  close sock_client
  ssl_ctx_free
  ssl_shutdown handle
  ssl_free handle

leave : ℕ → ℕ → Loop (Unit {0}) → M (Option (Loop (Unit {0})))
unfolding hang_up
leave sock_client handle (running x) = pure (some (running x))
leave sock_client handle (stopped x) = do hang_up sock_client handle; pure (some (stopped x))

-- What is printed for `SSL_read`.
response : Option Bytes → M (Loop (Unit {0}))
response none = do report_error "Client SSL_read() failed"; pure (running tt)
response (some []) = do report_error "Client SSL_read() failed"; pure (running tt)
response (some (b ∷ bytes)) = do
  text ← checked (received_text message_size (b ∷ bytes))
  pure (running tt)

module _ (os : Kernel) where
  unfoldable pub ask : ℕ → Bytes → M (Loop (Unit {0}))
  unfolding response
  ask handle request = do
    sent_bytes ← ssl_write os handle request
    if is_nonpos sent_bytes
        then (do report_error "Client SSL_write() failed"; pure (running tt))
        else (do r ← ssl_read os handle message_size; response r)

  -- One command.
  unfoldable pub tls_client_round : ℕ → Unit {0} → M (Loop (Unit {0}))
  unfolding ask
  tls_client_round handle _ = do
    line ← fgets os (message_size - 1)
    request ← checked (command line)
    if is_stop request then pure (stopped tt) else ask handle request

  module _ (rounds : ℕ) where
    unfoldable pub handshake : ℕ → ℕ → M (Option (Loop (Unit {0})))
    unfolding hang_up leave
    handshake sock_client handle = do
      ssl_set_fd handle sock_client
      rc ← ssl_connect os handle
      if is_nonpos rc
          then (do
            report_error "Client SSL_connect() failed"
            hang_up sock_client handle
            pure none)
          else (do l ← while_true rounds (tls_client_round handle) tt; leave sock_client handle l)

    handle_result : ℕ → Option ℕ → M (Option (Loop (Unit {0})))
    unfolding handshake
    handle_result sock_client none = do
      report_error "Client SSL_new() failed"
      ssl_ctx_free
      freeaddrinfo
      close sock_client
      pure none
    handle_result sock_client (some handle) = handshake sock_client handle

    context_result : ℕ → Option ℕ → M (Option (Loop (Unit {0})))
    unfolding handle_result
    context_result sock_client none = do
      report_error "Client is unable to create SSL context"
      freeaddrinfo
      close sock_client
      pure none
    context_result sock_client (some context) = do ssl ← ssl_new os; handle_result sock_client ssl

    -- A failure to connect returns with the socket and the address list open.
    unfoldable pub connect_stage : ℕ → List ℕ → M (Option (Loop (Unit {0})))
    unfolding context_result
    connect_stage sock_client addrs = do
      rc ← connect_first os sock_client addrs (pos 0)
      if is_nonzero rc
          then (do report_error "Client connect() failed"; pure none)
          else (do context ← ssl_ctx_new os; context_result sock_client context)

    socket_result : List ℕ → ℤ → M (Option (Loop (Unit {0})))
    unfolding connect_stage
    socket_result addrs (negsuc n) = do
      report_error "Client socket() failed"
      freeaddrinfo
      pure none
    socket_result addrs (pos sock_client) = connect_stage sock_client addrs

    -- `addr_server->ai_family` reads the first address.
    resolve_result : Option (List ℕ) → M (Option (Loop (Unit {0})))
    unfolding socket_result
    resolve_result none = do report_error "Clent getaddrinfo() failed"; pure none
    resolve_result (some []) = raise_fault
    resolve_result (some (addr ∷ rest)) = do fd ← socket os; socket_result (addr ∷ rest) fd

    protocol_result : Option ℕ → M (Option (Loop (Unit {0})))
    unfolding resolve_result
    protocol_result none = do report_error "TCP protocol is not supported"; pure none
    protocol_result (some proto) = do
      port ← checked port_server
      addrs ← getaddrinfo os (some host_name) port
      resolve_result addrs

    -- The client for a number of commands; `none` for an early return.
    unfoldable pub run_tls_client : M (Option (Loop (Unit {0})))
    unfolding protocol_result
    run_tls_client = do proto ← getprotobyname os; protocol_result proto
