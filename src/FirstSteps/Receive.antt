-- ===== src/FirstSteps/Receive.antt =====
-- `main` of 00_tutorials/06_receive_http_response.c. `on_func_failure` reports and exits with
-- EXIT_FAILURE, which is 1.
pub mod Laws
pub mod Run
use Prim.Native.String.{String}
use linux_network_programmin.Base.{
  ℕ, zero, suc, ◌+◌, ℤ, pos, negsuc, is_nonzero, List, [], ◌∷◌, ◌++◌, Option, none, some,
  if◌then◌else◌, ltb, length, drop,
}
use linux_network_programmin.Sys.{
  Bytes, Kernel, M, pure, raise_fault, ◌>>=◌, ◌>>◌, checked, report_error, freeaddrinfo, close,
  getprotobyname, getservbyname, getaddrinfo, socket, connect, send,
}
use linux_network_programmin.Sys.Loop.{Loop, running, stopped, while_true}
use linux_network_programmin.CString.{text, zeroed, fill, c_string}
use linux_network_programmin.CString.Decimal.{sprintf}
use linux_network_programmin.Socket.Port.{port_text}
use linux_network_programmin.Redirect.{request}
use linux_network_programmin.Redirect.Transfer.{message_size, recv_loop}
use linux_network_programmin.FirstSteps.Send.{cpp_hostname}

-- The request for the path "/200", as the array holds it.
unfoldable pub get_request : Option Bytes
unfolding request
get_request = elim (sprintf (zeroed message_size) (request cpp_hostname (text "/200"))) [
  | none ↦ none
  | some buffer ↦ c_string buffer
]

-- The exit status 1, with the socket and the address list released.
unfoldable pub fail_open : ℕ → String → M (Option ℤ)
fail_open sock_fd message = do
  close sock_fd
  freeaddrinfo
  report_error message
  pure (some (pos 1))

-- The sending loop: `sent_bytes`, or a `send` that failed.
pub data Progress : Type 0 where
  sent_so_far : ℕ → Progress
  send_failed : Progress

module _ (os : Kernel) (sock_fd : ℕ) where
  -- What the loop makes of the result of `send`.
  count_sent : ℕ → ℤ → M (Loop Progress)
  count_sent sent_bytes (negsuc n) = pure (stopped send_failed)
  count_sent sent_bytes (pos n) = pure (running (sent_so_far (sent_bytes + n)))

  -- `while (sent_bytes < http_request_len)`: each round sends from where the last one ended. A
  -- `send` that takes nothing leaves the state as it was.
  unfoldable pub sending_round : Bytes → Progress → M (Loop Progress)
  unfolding count_sent
  sending_round http_request send_failed = pure (stopped send_failed)
  sending_round http_request (sent_so_far sent_bytes) =
      if ltb sent_bytes (length http_request)
      then (do
        sent_rc ← send os sock_fd (drop sent_bytes http_request)
        count_sent sent_bytes sent_rc)
      else pure (stopped (sent_so_far sent_bytes))

  -- Nothing received is a failure; the response is printed as a string.
  printed : Bytes → M (Option ℤ)
  unfolding fail_open
  printed [] = fail_open sock_fd "recv() failed"
  printed (b ∷ received) = do
    http_response ← checked (c_string (fill (zeroed message_size) (b ∷ received)))
    close sock_fd
    freeaddrinfo
    pure (some (pos 0))

  -- The receiving loop is that of program 07.
  after_sending : Loop Progress → M (Option ℤ)
  unfolding printed fail_open
  after_sending (running s) = pure none
  after_sending (stopped send_failed) = fail_open sock_fd "send() failed"
  after_sending (stopped (sent_so_far sent_bytes)) = do
    received ← recv_loop os (suc message_size) sock_fd []
    printed received

module _ (os : Kernel) (rounds : ℕ) where
  -- A failure to connect leaves the socket open; the process ends with it.
  unfoldable pub connect_stage : ℕ → ℕ → M (Option ℤ)
  unfolding after_sending
  connect_stage sock_fd addr = do
    rc ← connect os sock_fd addr
    if is_nonzero rc
        then (do freeaddrinfo; report_error "connect() failed"; pure (some (pos 1)))
        else (do
          http_request ← checked get_request
          l ← while_true rounds (sending_round os sock_fd http_request) (sent_so_far 0)
          after_sending os sock_fd l)

  socket_result : ℕ → ℤ → M (Option ℤ)
  unfolding connect_stage
  socket_result addr (negsuc n) = do
    freeaddrinfo
    report_error "socket() failed"
    pure (some (pos 1))
  socket_result addr (pos sock_fd) = connect_stage sock_fd addr

  resolve_result : Option (List ℕ) → M (Option ℤ)
  unfolding socket_result
  resolve_result none = do report_error "Failed to resolve hostname"; pure (some (pos 1))
  resolve_result (some []) = raise_fault
  resolve_result (some (addr ∷ rest)) = do fd ← socket os; socket_result addr fd

  service_result : Option ℕ → M (Option ℤ)
  unfolding resolve_result
  service_result none = do report_error "HTTP service is not available"; pure (some (pos 1))
  service_result (some s_port) = do
    port ← checked (port_text s_port)
    addrs ← getaddrinfo os (some cpp_hostname) port
    resolve_result addrs

  protocol_result : Option ℕ → M (Option ℤ)
  unfolding service_result
  protocol_result none = do report_error "TCP protocol is not available"; pure (some (pos 1))
  protocol_result (some proto) = do service ← getservbyname os; service_result service

  -- The exit status, or `none` if the sending loop goes on after so many rounds.
  unfoldable pub receive_main : M (Option ℤ)
  unfolding protocol_result
  receive_main = do proto ← getprotobyname os; protocol_result proto
