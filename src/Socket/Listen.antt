-- ===== src/Socket/Listen.antt =====
-- The listening socket of `run_server` (00_tutorials/12_multiplexing_select_client_server.c and
-- 00_tutorials/13_multiplexing_poll_client_server.c, which have the same lines), with each early
-- return, and what it leaves open.
pub mod Laws
pub mod Source
use linux_network_programmin.Base.{
  ℕ, ℤ, pos, negsuc, is_nonzero, Bool, false, [], ◌∷◌, List, Option, none, some, if◌then◌else◌,
  ◌==◌,
}
use Prim.Native.Nat.{bit_or}
use linux_network_programmin.Sys.{Kernel, M, pure, raise_fault, ◌>>=◌, ◌>>◌, checked}
use linux_network_programmin.Sys.{
  report_error, freeaddrinfo, close, getprotobyname, getaddrinfo, socket, fcntl_getfl, fcntl_setfl,
  bind, listen,
}
use linux_network_programmin.Socket.Port.{host_name, tcp_port, port_text}

abbrev pub max_connection : ℕ
max_connection = 100

-- O_NONBLOCK of Linux
abbrev pub o_nonblock : ℕ
o_nonblock = 2048

-- For a result that only has to be compared with -1.
abbrev is_minus_one : ℤ → Bool
is_minus_one (pos n) = false
is_minus_one (negsuc n) = n == 0

module _ (os : Kernel) where
  set_flags : ℕ → ℤ → M (Unit {0})
  set_flags fd (pos flags) = do
    rc ← fcntl_setfl os fd (bit_or flags o_nonblock)
    if is_minus_one rc then report_error "fcntl(F_SETFL) failed" else pure tt
  set_flags fd (negsuc n) = report_error "fcntl(F_GETFL) failed"

  unfoldable pub set_non_blocking : ℕ → M (Unit {0})
  unfolding set_flags
  set_non_blocking fd = do flags ← fcntl_getfl os fd; set_flags fd flags

  -- The addresses are tried in order, until one can be bound; the result is that of the last
  -- call, or `rc` as it was if there is no address.
  unfoldable pub bind_first : ℕ → List ℕ → ℤ → M ℤ
  bind_first fd [] rc = pure rc
  bind_first fd (addr ∷ rest) rc = do
    rc' ← bind os fd addr
    if is_nonzero rc' then bind_first fd rest rc' else pure rc'

  unfoldable pub listen_stage : ℕ → M (Option ℕ)
  listen_stage fd = do
    rc ← listen os fd max_connection
    if is_nonzero rc
        then (do report_error "Server listen() failed"; freeaddrinfo; close fd; pure none)
        else pure (some fd)

  unfoldable pub bind_stage : ℕ → List ℕ → M (Option ℕ)
  bind_stage fd addrs = do
    set_non_blocking fd
    rc ← bind_first fd addrs (pos 0)
    if is_nonzero rc
        then (do report_error "Server bind() failed"; freeaddrinfo; close fd; pure none)
        else listen_stage fd

  socket_result : List ℕ → ℤ → M (Option ℕ)
  socket_result addrs (negsuc n) = do report_error "Server socket() failed"; freeaddrinfo; pure none
  socket_result addrs (pos fd) = bind_stage fd addrs

  -- `addr_server->ai_family` reads the first address.
  unfoldable pub socket_stage : List ℕ → M (Option ℕ)
  unfolding socket_result
  socket_stage [] = raise_fault
  socket_stage (addr ∷ rest) = do fd ← socket os; socket_result (addr ∷ rest) fd

  resolve_result : Option (List ℕ) → M (Option ℕ)
  resolve_result none = do report_error "Server getaddrinfo() failed"; pure none
  resolve_result (some addrs) = socket_stage addrs

  protocol_result : Option ℕ → M (Option ℕ)
  unfolding resolve_result
  protocol_result none = do report_error "TCP protocol is not supported"; pure none
  protocol_result (some proto) = do
    port ← checked (port_text tcp_port)
    addrs ← getaddrinfo os (some host_name) port
    resolve_result addrs

  -- The part of `run_server` before its loop: the descriptor of the listening socket, or `none`
  -- for an early return.
  unfoldable pub open_listener : M (Option ℕ)
  unfolding protocol_result
  open_listener = do proto ← getprotobyname os; protocol_result proto
