-- ===== src/HttpServer/Setup.antt =====
-- `HTTPServer::setup_socket` of 01_networking_libraries/my_http_server/http_server.cpp.
pub mod Laws
use Prim.Native.Nat.{bit_or}
use linux_network_programmin.Base.{
  ℕ, suc, ℤ, pos, negsuc, is_nonzero, List, [], ◌∷◌, Option, none, some, if◌then◌else◌, ◌==◌,
}
use linux_network_programmin.Sys.{
  Bytes, Kernel, M, pure, raise_fault, ◌>>=◌, ◌>>◌, freeaddrinfo, close, getprotobyname,
  getaddrinfo, socket, fcntl_getfl, fcntl_setfl, listen,
}
use linux_network_programmin.CString.{text}
use linux_network_programmin.CString.Decimal.{decimal}
use linux_network_programmin.Socket.Listen.{bind_first, o_nonblock}

-- MAX_CONNECTION
abbrev pub max_connection : ℕ
max_connection = 2

-- `std::to_string(port)`
unfoldable pub to_text : ℤ → Bytes
to_text (pos n) = decimal n
to_text (negsuc n) = b'-' ∷ decimal (suc n)

module _ (os : Kernel) where
  -- `F_GETFL` gives -1 or the flags.
  set_flags : ℕ → ℤ → M (Unit {0})
  set_flags sock (pos flags) = do rc ← fcntl_setfl os sock (bit_or flags o_nonblock); pure tt
  set_flags sock (negsuc n) = pure tt

  -- utils.cpp
  unfoldable pub set_socket_nonblocking : ℕ → M (Unit {0})
  unfolding set_flags
  set_socket_nonblocking sock = do flags ← fcntl_getfl os sock; set_flags sock flags

  give_up : ℕ → M (Option ℕ)
  give_up sock_server = do freeaddrinfo; close sock_server; pure none

  unfoldable pub listen_stage : ℕ → M (Option ℕ)
  unfolding give_up
  listen_stage sock_server = do
    rc ← listen os sock_server max_connection
    if is_nonzero rc then give_up sock_server else (do freeaddrinfo; pure (some sock_server))

  unfoldable pub bind_stage : ℕ → List ℕ → M (Option ℕ)
  unfolding give_up
  bind_stage sock_server addrs = do
    set_socket_nonblocking sock_server
    rc_bind ← bind_first os sock_server addrs (pos 0)
    if is_nonzero rc_bind then give_up sock_server else listen_stage sock_server

  socket_result : List ℕ → ℤ → M (Option ℕ)
  socket_result addrs (negsuc n) = do freeaddrinfo; pure none
  socket_result addrs (pos sock_server) = bind_stage sock_server addrs

  -- `addr_server->ai_family` reads the first address.
  resolve_result : Option (List ℕ) → M (Option ℕ)
  unfolding socket_result
  resolve_result none = pure none
  resolve_result (some []) = raise_fault
  resolve_result (some (addr ∷ rest)) = do fd ← socket os; socket_result (addr ∷ rest) fd

  protocol_result : ℤ → Option ℕ → M (Option ℕ)
  unfolding resolve_result
  protocol_result port none = pure none
  protocol_result port (some proto) = do
    addrs ← getaddrinfo os (some (text "localhost")) (to_text port)
    resolve_result addrs

  -- `sock_server` as the constructor leaves it; `none` is -1.
  unfoldable pub setup_socket : ℤ → M (Option ℕ)
  unfolding protocol_result
  setup_socket port = do proto ← getprotobyname os; protocol_result port proto
