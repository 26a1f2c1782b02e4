-- ===== src/Tls.antt =====
-- The set-up of `run_server` in 01_networking_libraries/openssl/src/ssl_client_server.c: a
-- listening socket, and a context with a certificate and a key. Its `report_error` also prints the
-- time.
pub mod Laws
pub mod Slots
pub mod Server
pub mod Client
use linux_network_programmin.Base.{
  ℕ, ℤ, pos, negsuc, is_nonzero, is_nonpos, [], ◌∷◌, List, Option, none, some, if◌then◌else◌,
}
use linux_network_programmin.Sys.{
  Bytes, Kernel, M, pure, raise_fault, ◌>>=◌, ◌>>◌, checked, report_error, freeaddrinfo, close,
  getprotobyname, getaddrinfo, socket, setsockopt, listen,
}
use linux_network_programmin.Sys.Tls.{
  ssl_ctx_new, ssl_ctx_free, ssl_use_certificate, ssl_use_private_key,
}
use linux_network_programmin.CString.{zeroed, c_string}
use linux_network_programmin.CString.Decimal.{decimal, sprintf}
use linux_network_programmin.Socket.Port.{host_name}
use linux_network_programmin.Socket.Listen.{max_connection, set_non_blocking, bind_first}

abbrev tcp_port : ℕ
tcp_port = 4443

-- `sprintf(port_server, "%d", TCP_PORT)`, and the string that the array then holds.
unfoldable pub port_server : Option Bytes
port_server = elim (sprintf (zeroed 6) (decimal tcp_port)) [
  | none ↦ none
  | some buffer ↦ c_string buffer
]

give_up : ℕ → M (Option (ℕ × ℕ))
give_up sock_server = do freeaddrinfo; close sock_server; pure none

give_up_context : ℕ → M (Option (ℕ × ℕ))
give_up_context sock_server = do ssl_ctx_free; freeaddrinfo; close sock_server; pure none

module _ (os : Kernel) where
  unfoldable pub key_stage : ℕ → ℕ → M (Option (ℕ × ℕ))
  unfolding give_up_context
  key_stage sock_server context = do
    rc ← ssl_use_private_key os
    if is_nonpos rc
        then (do
          report_error "Server SSL_CTX_use_PrivateKey_file() failed"
          give_up_context sock_server)
        else pure (some (sock_server, context))

  unfoldable pub certificate_stage : ℕ → ℕ → M (Option (ℕ × ℕ))
  unfolding give_up_context
  certificate_stage sock_server context = do
    rc ← ssl_use_certificate os
    if is_nonpos rc
        then (do
          report_error "Server SSL_CTX_use_certificate_file() failed"
          give_up_context sock_server)
        else key_stage sock_server context

  context_result : ℕ → Option ℕ → M (Option (ℕ × ℕ))
  unfolding give_up
  context_result sock_server none = do
    report_error "Server is unable to create SSL context"
    give_up sock_server
  context_result sock_server (some context) = certificate_stage sock_server context

  unfoldable pub listen_stage : ℕ → M (Option (ℕ × ℕ))
  unfolding context_result give_up
  listen_stage sock_server = do
    rc ← listen os sock_server max_connection
    if is_nonzero rc
        then (do report_error "Server listen() failed"; give_up sock_server)
        else (do context ← ssl_ctx_new os; context_result sock_server context)

  unfoldable pub bind_stage : ℕ → List ℕ → M (Option (ℕ × ℕ))
  unfolding give_up
  bind_stage sock_server addrs = do
    set_non_blocking os sock_server
    ignored ← setsockopt os sock_server
    rc ← bind_first os sock_server addrs (pos 0)
    if is_nonzero rc
        then (do report_error "Server bind() failed"; give_up sock_server)
        else listen_stage sock_server

  socket_result : List ℕ → ℤ → M (Option (ℕ × ℕ))
  socket_result addrs (negsuc n) = do report_error "Server socket() failed"; freeaddrinfo; pure none
  socket_result addrs (pos fd) = bind_stage fd addrs

  -- `addr_server->ai_family` reads the first address.
  resolve_result : Option (List ℕ) → M (Option (ℕ × ℕ))
  unfolding socket_result
  resolve_result none = do report_error "Server getaddrinfo() failed"; pure none
  resolve_result (some []) = raise_fault
  resolve_result (some (addr ∷ rest)) = do fd ← socket os; socket_result (addr ∷ rest) fd

  protocol_result : Option ℕ → M (Option (ℕ × ℕ))
  unfolding resolve_result
  protocol_result none = do report_error "TCP protocol is not supported"; pure none
  protocol_result (some proto) = do
    port ← checked port_server
    addrs ← getaddrinfo os (some host_name) port
    resolve_result addrs

  -- The socket and the context, or `none` for an early return.
  unfoldable pub open_tls : M (Option (ℕ × ℕ))
  unfolding protocol_result
  open_tls = do proto ← getprotobyname os; protocol_result proto
