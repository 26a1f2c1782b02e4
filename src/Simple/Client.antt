-- ===== src/Simple/Client.antt =====
-- `run_client` of 00_tutorials/08_simple_client_server.c. It cuts its line at a line feed only, and
-- takes a request for sent if any of it was.
pub mod Laws
use linux_network_programmin.Base.{
  ◌-◌, ℕ, ℤ, pos, negsuc, is_nonzero, is_nonpos, [], ◌∷◌, List, Option, none, some, if◌then◌else◌,
}
use linux_network_programmin.Sys.{
  Bytes, Kernel, M, pure, raise_fault, ◌>>=◌, ◌>>◌, checked, report_error, freeaddrinfo, close,
  getprotobyname, getaddrinfo, socket, recv, send, fgets,
}
use linux_network_programmin.Sys.Loop.{Loop, running, stopped, while_true}
use linux_network_programmin.CString.{zeroed, fill, put_nul, c_string, strcspn}
use linux_network_programmin.Socket.Port.{host_name, tcp_port, port_text}
use linux_network_programmin.Socket.Connect.{connect_first}
use linux_network_programmin.Session.{message_size, is_stop}
use linux_network_programmin.Client.{line_buffer}

-- `request_buffer[strcspn(request_buffer, "\n")] = 0`
cut_line : Bytes → Option Bytes
cut_line request_buffer = elim (c_string request_buffer) [
  | none ↦ none
  | some s ↦ put_nul request_buffer (strcspn s (10 ∷ []))
]

-- The string in the array after it.
unfoldable pub typed : Option Bytes → Option Bytes
unfolding cut_line
typed line = elim (cut_line (line_buffer line)) [
  | none ↦ none
  | some request_buffer ↦ c_string request_buffer
]

response : Option Bytes → M (Unit {0})
response none = report_error "Client recv() failed"
response (some []) = report_error "Client recv() failed"
response (some (b ∷ bytes)) = do
  response_buffer ← checked (c_string (fill (zeroed message_size) (b ∷ bytes)))
  pure tt

module _ (os : Kernel) where
  unfoldable pub connect_stage : ℕ → List ℕ → M (Option ℕ)
  connect_stage sock_client addrs = do
    rc ← connect_first os sock_client addrs (pos 0)
    if is_nonzero rc
        then (do report_error "client connect() failed"; close sock_client; freeaddrinfo; pure none)
        else pure (some sock_client)

  socket_result : List ℕ → ℤ → M (Option ℕ)
  socket_result addrs (negsuc n) = do report_error "client socket() failed"; freeaddrinfo; pure none
  socket_result addrs (pos fd) = connect_stage fd addrs

  -- `addr_server->ai_family` reads the first address.
  resolve_result : Option (List ℕ) → M (Option ℕ)
  unfolding socket_result
  resolve_result none = do report_error "Failed to resolve hostname"; pure none
  resolve_result (some []) = raise_fault
  resolve_result (some (addr ∷ rest)) = do fd ← socket os; socket_result (addr ∷ rest) fd

  protocol_result : Option ℕ → M (Option ℕ)
  unfolding resolve_result
  protocol_result none = do report_error "TCP protocol is not supported"; pure none
  protocol_result (some proto) = do
    port ← checked (port_text tcp_port)
    addrs ← getaddrinfo os (some host_name) port
    resolve_result addrs

  unfoldable pub open_client : M (Option ℕ)
  unfolding protocol_result
  open_client = do proto ← getprotobyname os; protocol_result proto

  unfoldable pub client_round : ℕ → Unit {0} → M (Loop (Unit {0}))
  unfolding response
  client_round sock_client _ = do
    line ← fgets os (message_size - 1)
    request_buffer ← checked (typed line)
    sent_bytes ← send os sock_client request_buffer
    if is_nonpos sent_bytes
        then (do report_error "Client sent request fail"; pure (running tt))
        else (do
          r ← recv os sock_client message_size
          response r
          pure (if is_stop request_buffer then stopped tt else running tt))

  leave : ℕ → Loop (Unit {0}) → M (Loop (Unit {0}))
  leave sock_client (running x) = pure (running x)
  leave sock_client (stopped x) = do close sock_client; freeaddrinfo; pure (stopped x)

  connected : ℕ → Option ℕ → M (Option (Loop (Unit {0})))
  unfolding leave
  connected rounds none = pure none
  connected rounds (some sock_client) = do
    l ← while_true rounds (client_round sock_client) tt
    l' ← leave sock_client l
    pure (some l')

  -- The client for a number of commands; `none` if its set-up failed.
  unfoldable pub run_client : ℕ → M (Option (Loop (Unit {0})))
  unfolding connected
  run_client rounds = do sock ← open_client; connected rounds sock
