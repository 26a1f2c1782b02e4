-- ===== src/Udp/Client.antt =====
-- `run_client` of 00_tutorials/10_peer_to_peer_client_server.c: commands go out as datagrams. The
-- address that they go to is the state: `recvfrom` stores the sender of each response in it.
pub mod Laws
pub mod Run
use linux_network_programmin.Base.{
  ℕ, ◌-◌, ℤ, pos, negsuc, [], ◌∷◌, List, Option, none, some, if◌then◌else◌, length,
}
use linux_network_programmin.Sys.{
  Bytes, Kernel, M, pure, raise_fault, ◌>>=◌, ◌>>◌, checked, report_error, freeaddrinfo, close,
  getprotobyname, getaddrinfo, socket, fgets, recvfrom, sendto,
}
use linux_network_programmin.Sys.Loop.{Loop, running, stopped, while_true}
use linux_network_programmin.CString.{received_text}
use linux_network_programmin.Socket.Port.{host_name, port_text}
use linux_network_programmin.Session.{is_stop}
use linux_network_programmin.Client.{command, sent_all}
use linux_network_programmin.Udp.{message_size, udp_port}

module _ (os : Kernel) where
  -- The socket, and the first address of the server.
  socket_result : ℕ → ℤ → M (Option (ℕ × ℕ))
  socket_result addr (negsuc n) = do report_error "Client socket() failed"; freeaddrinfo; pure none
  socket_result addr (pos fd) = pure (some (fd, addr))

  resolve_result : Option (List ℕ) → M (Option (ℕ × ℕ))
  unfolding socket_result
  resolve_result none = do report_error "Client can not resolve hostname"; pure none
  resolve_result (some []) = raise_fault
  resolve_result (some (addr ∷ rest)) = do fd ← socket os; socket_result addr fd

  protocol_result : Option ℕ → M (Option (ℕ × ℕ))
  unfolding resolve_result
  protocol_result none = do report_error "UDP protocol is not supported"; pure none
  protocol_result (some proto) = do
    port ← checked (port_text udp_port)
    addrs ← getaddrinfo os (some host_name) port
    resolve_result addrs

  unfoldable pub open_sender : M (Option (ℕ × ℕ))
  unfolding protocol_result
  open_sender = do proto ← getprotobyname os; protocol_result proto

  -- `fd` is `sock_client`, `addr` is `*addr_server->ai_addr`.
  responded : Bytes → ℕ → Option (Bytes × ℕ) → M (Loop ℕ)
  responded request addr none = do report_error "Client recvfrom() failed"; pure (running addr)
  responded request addr (some ([], sender)) = do
    report_error "Client recvfrom() failed"
    pure (running sender)
  responded request addr (some (b ∷ bytes, sender)) = do
    response_buffer ← checked (received_text message_size (b ∷ bytes))
    pure (if is_stop request then stopped sender else running sender)

  unfoldable pub client_round : ℕ → ℕ → M (Loop ℕ)
  unfolding responded
  client_round fd addr = do
    line ← fgets os (message_size - 1)
    request ← checked (command line)
    rc ← sendto os fd request addr
    if sent_all rc (length request)
        then (do r ← recvfrom os fd message_size; responded request addr r)
        else (do report_error "Client sendto() failed"; pure (running addr))

  leave : ℕ → Loop ℕ → M (Loop ℕ)
  leave fd (running addr) = pure (running addr)
  leave fd (stopped addr) = do freeaddrinfo; close fd; pure (stopped addr)

  started : ℕ → Option (ℕ × ℕ) → M (Option (Loop ℕ))
  unfolding leave
  started rounds none = pure none
  started rounds (some (fd, addr)) = do
    l ← while_true rounds (client_round fd) addr
    l' ← leave fd l
    pure (some l')

  -- The client for a number of commands; `none` if its set-up failed.
  unfoldable pub run_client : ℕ → M (Option (Loop ℕ))
  unfolding started
  run_client rounds = do r ← open_sender; started rounds r
