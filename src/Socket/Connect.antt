-- ===== src/Socket/Connect.antt =====
-- The connected socket of `run_client` (the same lines in the TCP programs 09, 12 and 13 of
-- 00_tutorials), with each early return.
pub mod Laws
use linux_network_programmin.Base.{
  ℕ, ℤ, pos, negsuc, is_nonzero, [], ◌∷◌, List, Option, none, some, if◌then◌else◌,
}
use linux_network_programmin.Sys.{Kernel, M, pure, raise_fault, ◌>>=◌, ◌>>◌, checked}
use linux_network_programmin.Sys.{
  report_error, freeaddrinfo, close, getprotobyname, getaddrinfo, socket, connect,
}
use linux_network_programmin.Socket.Port.{host_name, tcp_port, port_text}

module _ (os : Kernel) where
  -- The addresses are tried in order, until one accepts the connection.
  unfoldable pub connect_first : ℕ → List ℕ → ℤ → M ℤ
  connect_first fd [] rc = pure rc
  connect_first fd (addr ∷ rest) rc = do
    rc' ← connect os fd addr
    if is_nonzero rc' then connect_first fd rest rc' else pure rc'

  unfoldable pub connect_stage : ℕ → List ℕ → M (Option ℕ)
  connect_stage fd addrs = do
    rc ← connect_first fd addrs (pos 0)
    if is_nonzero rc
        then (do report_error "Client connect() failed"; freeaddrinfo; close fd; pure none)
        else pure (some fd)

  socket_result : List ℕ → ℤ → M (Option ℕ)
  socket_result addrs (negsuc n) = do report_error "Client socket() failed"; freeaddrinfo; pure none
  socket_result addrs (pos fd) = connect_stage fd addrs

  -- `addr_server->ai_family` reads the first address.
  unfoldable pub socket_stage : List ℕ → M (Option ℕ)
  unfolding socket_result
  socket_stage [] = raise_fault
  socket_stage (addr ∷ rest) = do fd ← socket os; socket_result (addr ∷ rest) fd

  resolve_result : Option (List ℕ) → M (Option ℕ)
  resolve_result none = do report_error "Can not resolve hostname"; pure none
  resolve_result (some addrs) = socket_stage addrs

  protocol_result : Option ℕ → M (Option ℕ)
  unfolding resolve_result
  protocol_result none = do report_error "TCP protocol is not available"; pure none
  protocol_result (some proto) = do
    port ← checked (port_text tcp_port)
    addrs ← getaddrinfo os (some host_name) port
    resolve_result addrs

  -- The part of `run_client` before its loop: the connected descriptor, or `none` for an early
  -- return.
  unfoldable pub open_connection : M (Option ℕ)
  unfolding protocol_result
  open_connection = do proto ← getprotobyname os; protocol_result proto
