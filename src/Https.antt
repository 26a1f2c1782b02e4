-- ===== src/Https.antt =====
-- 01_networking_libraries/openssl/src/https_client.c: one HTTPS request, and its response up to
-- the end of an array. Its `report_error` does not print the time.
pub mod Transfer
pub mod Laws
use linux_network_programmin.Base.{
  ℕ, zero, suc, ◌+◌, ◌-◌, ℤ, pos, negsuc, is_nonzero, is_nonpos, List, [], ◌∷◌, ◌++◌, Option, none,
  some, if◌then◌else◌, length,
}
use linux_network_programmin.Sys.{
  Bytes, Kernel, M, pure, raise_fault, ◌>>=◌, ◌>>◌, checked, report_error, print_usage,
  freeaddrinfo, close, getprotobyname, getaddrinfo, socket,
}
use linux_network_programmin.Sys.Tls.{
  ssl_ctx_new, ssl_ctx_free, ssl_new, ssl_set_fd, ssl_connect, ssl_read, ssl_write,
}
use linux_network_programmin.CString.{text, zeroed, fill, put_nul, c_string}
use linux_network_programmin.CString.Decimal.{sprintf}
use linux_network_programmin.Socket.Connect.{connect_first}
use linux_network_programmin.Tls.Client.{hang_up}
use linux_network_programmin.Redirect.Location.{crlf}

abbrev pub request_size : ℕ
request_size = 1024

abbrev pub response_size : ℕ
response_size = 4096

abbrev pub https_request : Bytes → Bytes
https_request hostname =
    text "GET / HTTP/1.1"
    ++ (crlf
        ++ (text "Host: " ++ (hostname ++ (crlf ++ (text "Connection: close" ++ (crlf ++ crlf))))))

-- `http_response[total_received_bytes] = 0`, and the string that the array then holds. Of its 4097
-- bytes `memset` has cleared all but the last.
unfoldable pub response_text : ℕ → Bytes → Option Bytes
response_text spare got =
    elim (put_nul (fill (zeroed response_size ++ (spare ∷ [])) got) (length got)) [
      | none ↦ none
      | some http_response ↦ c_string http_response
    ]

module _ (os : Kernel) where
  -- `do ... while (received_bytes > 0)`. The result is all that was received; a full array makes
  -- the next `SSL_read` one of length 0, which ends the loop.
  unfoldable pub read_loop : ℕ → ℕ → Bytes → M Bytes
  read_loop zero handle got = pure got
  read_loop (suc rounds) handle got = ssl_read os handle (response_size - length got) >>= λ r.
      elim r [
        | none ↦ pure got
        | some bytes ↦ elim bytes [
          | [] ↦ pure got
          | b ∷ rest ↦ read_loop rounds handle (got ++ (b ∷ rest))
        ]
      ]

  -- The text that is printed; `none` for an early return.
  written : ℕ → ℕ → ℕ → ℤ → M (Option Bytes)
  unfolding response_text
  written spare sock_client handle rc =
      if is_nonpos rc
      then (do report_error "SSL_write() failed"; hang_up sock_client handle; pure none)
      else (do
        got ← read_loop (suc response_size) handle []
        http_response ← checked (response_text spare got)
        hang_up sock_client handle
        pure (some http_response))

  module _ (hostname : Bytes) (spare : ℕ) where
    unfoldable pub transfer : ℕ → ℕ → M (Option Bytes)
    unfolding written
    transfer sock_client handle = do
      buffer ← checked (sprintf (zeroed request_size) (https_request hostname))
      http_request ← checked (c_string buffer)
      rc ← ssl_write os handle http_request
      written spare sock_client handle rc

    unfoldable pub secure : ℕ → ℕ → M (Option Bytes)
    unfolding transfer
    secure sock_client handle = do
      ssl_set_fd handle sock_client
      rc ← ssl_connect os handle
      if is_nonpos rc
          then (do report_error "SSL_connect() failed"; hang_up sock_client handle; pure none)
          else transfer sock_client handle

    handle_result : ℕ → Option ℕ → M (Option Bytes)
    unfolding secure
    handle_result sock_client none = do
      report_error "SSL_new() failed"
      freeaddrinfo
      close sock_client
      ssl_ctx_free
      pure none
    handle_result sock_client (some handle) = secure sock_client handle

    context_result : ℕ → Option ℕ → M (Option Bytes)
    unfolding handle_result
    context_result sock_client none = do
      report_error "Unable to create SSL context"
      freeaddrinfo
      close sock_client
      pure none
    context_result sock_client (some context) = do ssl ← ssl_new os; handle_result sock_client ssl

    -- A failure to connect returns with the socket and the address list open.
    unfoldable pub connect_stage : ℕ → List ℕ → M (Option Bytes)
    unfolding context_result
    connect_stage sock_client addrs = do
      rc ← connect_first os sock_client addrs (pos 0)
      if is_nonzero rc
          then (do report_error "connect() failed"; pure none)
          else (do context ← ssl_ctx_new os; context_result sock_client context)

    -- A failure of `socket` returns with the address list.
    socket_result : List ℕ → ℤ → M (Option Bytes)
    unfolding connect_stage
    socket_result addrs (negsuc n) = do report_error "socket() failed"; pure none
    socket_result addrs (pos sock_client) = connect_stage sock_client addrs

    resolve_result : Option (List ℕ) → M (Option Bytes)
    unfolding socket_result
    resolve_result none = do report_error "Resolve address failed"; pure none
    resolve_result (some []) = raise_fault
    resolve_result (some (addr ∷ rest)) = do fd ← socket os; socket_result (addr ∷ rest) fd

    protocol_result : Bytes → Option ℕ → M (Option Bytes)
    unfolding resolve_result
    protocol_result port none = do report_error "TCP protocol is not supported"; pure none
    protocol_result port (some proto) = do
      addrs ← getaddrinfo os (some hostname) port
      resolve_result addrs

    unfoldable pub perform_https_request : Bytes → M (Option Bytes)
    unfolding protocol_result
    perform_https_request port = do proto ← getprotobyname os; protocol_result port proto

  usage : M ℤ
  usage = do print_usage; pure (negsuc 0)

  -- `main`: a host name and a port.
  unfoldable pub https_main : ℕ → List Bytes → M ℤ
  unfolding usage
  https_main spare (program ∷ hostname ∷ port ∷ []) = do
    printed ← perform_https_request hostname spare port
    pure (pos 0)
  https_main spare [] = usage
  https_main spare (program ∷ []) = usage
  https_main spare (program ∷ a ∷ []) = usage
  https_main spare (program ∷ a ∷ b ∷ c ∷ argv) = usage
