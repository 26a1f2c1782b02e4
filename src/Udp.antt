-- ===== src/Udp.antt =====
-- 00_tutorials/10_peer_to_peer_client_server.c: the server answers each datagram with the time.
pub mod Laws
pub mod Run
pub mod Client
use linux_network_programmin.Base.{
  ℕ, ℤ, pos, negsuc, is_nonzero, [], ◌∷◌, ◌++◌, List, Option, none, some, if◌then◌else◌, length,
}
use linux_network_programmin.Sys.{
  Bytes, Kernel, M, pure, raise_fault, ◌>>=◌, ◌>>◌, checked, report_error, freeaddrinfo, close,
  getprotobyname, getaddrinfo, socket, time, recvfrom, sendto,
}
use linux_network_programmin.Sys.Loop.{Loop, running, stopped, while_true}
use linux_network_programmin.CString.{text, zeroed, c_string, received_text}
use linux_network_programmin.CString.Decimal.{int_text, sprintf}
use linux_network_programmin.Socket.Port.{tcp_port, port_text}
use linux_network_programmin.Socket.Listen.{bind_first}
use linux_network_programmin.Client.{sent_all}

abbrev pub message_size : ℕ
message_size = 1024

-- UDP_PORT
abbrev pub udp_port : ℕ
udp_port = tcp_port

abbrev pub reply_text : ℕ → Bytes
reply_text now = text "Server received request at " ++ int_text now

module _ (os : Kernel) where
  unfoldable pub bind_stage : ℕ → List ℕ → M (Option ℕ)
  bind_stage sock_server addrs = do
    rc ← bind_first os sock_server addrs (pos 0)
    if is_nonzero rc
        then (do report_error "Server bind() failed"; freeaddrinfo; close sock_server; pure none)
        else pure (some sock_server)

  socket_result : List ℕ → ℤ → M (Option ℕ)
  socket_result addrs (negsuc n) = do report_error "Server socket() failed"; freeaddrinfo; pure none
  socket_result addrs (pos fd) = bind_stage fd addrs

  -- `addr_server->ai_family` reads the first address.
  resolve_result : Option (List ℕ) → M (Option ℕ)
  unfolding socket_result
  resolve_result none = do report_error "Server can not resolve hostname"; pure none
  resolve_result (some []) = raise_fault
  resolve_result (some (addr ∷ rest)) = do fd ← socket os; socket_result (addr ∷ rest) fd

  protocol_result : Option ℕ → M (Option ℕ)
  unfolding resolve_result
  protocol_result none = do report_error "UDP protocol is not supported"; pure none
  protocol_result (some proto) = do
    port ← checked (port_text udp_port)
    addrs ← getaddrinfo os none port
    resolve_result addrs

  unfoldable pub open_receiver : M (Option ℕ)
  unfolding protocol_result
  open_receiver = do proto ← getprotobyname os; protocol_result proto

  check_sent : ℤ → ℕ → M (Loop (Unit {0}))
  check_sent rc len =
      if sent_all rc len
      then pure (running tt)
      else (do report_error "Server sendto() failed"; pure (running tt))

  -- The answer to a datagram goes to its sender.
  unfoldable pub answer : ℕ → Bytes → ℕ → M (Loop (Unit {0}))
  unfolding check_sent
  answer sock_server request addr_client = do
    now ← time os
    response_buffer ← checked (sprintf (zeroed message_size) (reply_text now))
    response ← checked (c_string response_buffer)
    rc ← sendto os sock_server response addr_client
    check_sent rc (length response)

  received : ℕ → Option (Bytes × ℕ) → M (Loop (Unit {0}))
  received sock_server none = do report_error "Server recvfrom() failed"; pure (running tt)
  received sock_server (some ([], addr_client)) = do
    report_error "Server recvfrom() failed"
    pure (running tt)
  received sock_server (some (b ∷ bytes, addr_client)) = do
    request_buffer ← checked (received_text message_size (b ∷ bytes))
    answer sock_server request_buffer addr_client

  unfoldable pub server_round : ℕ → Unit {0} → M (Loop (Unit {0}))
  unfolding received
  server_round sock_server _ = do r ← recvfrom os sock_server message_size; received sock_server r

  started : ℕ → Option ℕ → M (Option (Loop (Unit {0})))
  started rounds none = pure none
  started rounds (some sock_server) = do
    l ← while_true rounds (server_round sock_server) tt
    pure (some l)

  -- The server for a number of rounds; `none` if its set-up failed.
  unfoldable pub run_server : ℕ → M (Option (Loop (Unit {0})))
  unfolding started
  run_server rounds = do sock ← open_receiver; started rounds sock
