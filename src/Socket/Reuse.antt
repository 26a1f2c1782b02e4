-- ===== src/Socket/Reuse.antt =====
-- The listening socket of `run_server` in 00_tutorials/08_simple_client_server.c and
-- 00_tutorials/09_multithread_client_server.c: any local address, and SO_REUSEADDR. The two
-- programs differ in the length of the queue and in the order in which a failure releases what is
-- open.
pub mod Laws
pub mod Quiet
use linux_network_programmin.Base.{
  ℕ, ℤ, pos, negsuc, is_neg, is_nonzero, [], ◌∷◌, List, Option, none, some, if◌then◌else◌,
}
use linux_network_programmin.Sys.{
  Kernel, M, pure, raise_fault, ◌>>=◌, ◌>>◌, checked, report_error, freeaddrinfo, close,
  getprotobyname, getaddrinfo, socket, setsockopt, listen,
}
use linux_network_programmin.Socket.Port.{tcp_port, port_text}
use linux_network_programmin.Socket.Listen.{max_connection, bind_first}

-- What differs between the programs.
pub record Variant : Type 0 where
  pub backlog : ℕ
  pub release : ℕ → M (Unit {0})

-- Program 08
unfoldable pub simple : Variant
simple = record { backlog = 3; release = λ fd. (do close fd; freeaddrinfo) }

-- Program 09
unfoldable pub threaded : Variant
threaded = record { backlog = max_connection; release = λ fd. (do freeaddrinfo; close fd) }

module _ (os : Kernel) (v : Variant) where
  unfoldable pub listen_stage : ℕ → M (Option ℕ)
  listen_stage fd = do
    rc ← listen os fd v.backlog
    if is_neg rc
        then (do report_error "Server listen() failed"; v.release fd; pure none)
        else pure (some fd)

  -- `rc` still is that of `setsockopt` where there is no address to bind.
  unfoldable pub bind_stage : ℕ → List ℕ → M (Option ℕ)
  bind_stage fd addrs = do
    rc ← setsockopt os fd
    (if is_neg rc then report_error "Server setsockopt() failed" else pure tt)
    rc' ← bind_first os fd addrs rc
    if is_nonzero rc'
        then (do report_error "Server bind() failed"; v.release fd; pure none)
        else listen_stage fd

  socket_result : List ℕ → ℤ → M (Option ℕ)
  socket_result addrs (negsuc n) = do report_error "Server socket() failed"; freeaddrinfo; pure none
  socket_result addrs (pos fd) = bind_stage fd addrs

  -- `addr_server->ai_family` reads the first address.
  resolve_result : Option (List ℕ) → M (Option ℕ)
  unfolding socket_result
  resolve_result none = do report_error "Can not resolve server hostname"; pure none
  resolve_result (some []) = raise_fault
  resolve_result (some (addr ∷ rest)) = do fd ← socket os; socket_result (addr ∷ rest) fd

  protocol_result : Option ℕ → M (Option ℕ)
  unfolding resolve_result
  protocol_result none = do report_error "TCP protocol is not supported"; pure none
  protocol_result (some proto) = do
    port ← checked (port_text tcp_port)
    addrs ← getaddrinfo os none port
    resolve_result addrs

  -- The descriptor of the listening socket, or `none` for an early return.
  unfoldable pub open_reusable : M (Option ℕ)
  unfolding protocol_result
  open_reusable = do proto ← getprotobyname os; protocol_result proto
