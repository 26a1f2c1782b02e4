-- ===== src/Redirect.antt =====
-- 00_tutorials/07_http_redirection.c: an HTTP request that follows "301 Moved Permanently".
pub mod Location
pub mod Transfer
pub mod Books
pub mod Stages
pub mod Leaks
use linux_network_programmin.Base.{
  ℕ, zero, suc, ◌+◌, ℤ, pos, negsuc, is_nonzero, [], ◌∷◌, ◌++◌, List, Option, none, some,
  if◌then◌else◌, ltb, length,
}
use linux_network_programmin.Sys.{
  Bytes, Kernel, M, pure, raise_fault, ◌>>=◌, ◌>>◌, checked, report_error, freeaddrinfo, close,
  getprotobyname, getservbyname, getaddrinfo, socket, connect,
}
use linux_network_programmin.CString.{text, zeroed, fill, c_string, received_text}
use linux_network_programmin.CString.Decimal.{decimal, sprintf}
use linux_network_programmin.Socket.Port.{htons}
use Location.{location, crlf}
use Transfer.{message_size, send_loop, recv_loop}

abbrev pub max_redirection : ℕ
max_redirection = 5

pub data HttpResult : Type 0 where
  http_unknown http_successul http_redirect http_not_found : HttpResult

-- The result, and the caller's response buffer.
abbrev pub Reply : Type 0
Reply = HttpResult × Bytes

-- What a redirected call does: the new host and the response buffer.
abbrev pub Again : Type 0
Again = Bytes → Bytes → M Reply

unfoldable pub request : Bytes → Bytes → Bytes
request host path =
    text "GET "
    ++ (path
        ++ (text " HTTP/1.1"
            ++ (crlf
                ++ (text "Host: "
                    ++ (host ++ (crlf ++ (text "Connection: close" ++ (crlf ++ crlf))))))))

-- `strncpy` of the location, its NUL, and the call with it: neither the address list nor the
-- socket of this call is released.
follow : Again → Bytes → Bytes → M Reply
follow again host response = do
  new_http_host ← checked (received_text message_size host)
  again new_http_host response

finish : ℕ → Again → Bytes → Option Bytes → M Reply
unfolding follow
finish fd again response none = do freeaddrinfo; close fd; pure (http_successul, response)
finish fd again response (some host) = follow again host response

module _ (os : Kernel) where
  -- The response is read up to its end or the end of the array, copied to the caller, and
  -- searched for a redirection.
  unfoldable pub receive_stage : ℕ → Again → Bytes → M Reply
  unfolding finish
  receive_stage fd again response = do
    got ← recv_loop os (suc message_size) fd []
    http_response ← checked (c_string (fill (zeroed message_size) got))
    finish fd again (fill response got) (location http_response)

  unfoldable pub send_stage : ℕ → Again → Bytes → Bytes → Bytes → M Reply
  unfolding request
  send_stage fd again host path response = do
    buffer ← checked (sprintf (zeroed message_size) (request host path))
    http_request ← checked (c_string buffer)
    sent ← send_loop os (length http_request) fd http_request 0
    if ltb sent (length http_request)
        then (do
          report_error "Can not send a complete http request"
          freeaddrinfo
          close fd
          pure (http_unknown, response))
        else receive_stage fd again response

  -- `connect` is tried with the first address only.
  unfoldable pub connect_stage : ℕ → ℕ → Again → Bytes → Bytes → Bytes → M Reply
  connect_stage fd addr again host path response = do
    rc ← connect os fd addr
    if is_nonzero rc
        then (do
          report_error "connect() failed"
          freeaddrinfo
          close fd
          pure (http_unknown, response))
        else send_stage fd again host path response

  socket_result : ℤ → ℕ → Again → Bytes → Bytes → Bytes → M Reply
  socket_result (negsuc n) addr again host path response = do
    report_error "socket() failed"
    freeaddrinfo
    pure (http_unknown, response)
  socket_result (pos fd) addr again host path response =
      connect_stage fd addr again host path response

  unfoldable pub resolve_result : Option (List ℕ) → Again → Bytes → Bytes → Bytes → M Reply
  unfolding socket_result
  resolve_result none again host path response = do
    message ← checked (sprintf (zeroed message_size) (text "Failed to resolve hostname: " ++ host))
    report_error "Failed to resolve hostname"
    pure (http_unknown, response)
  resolve_result (some []) again host path response = raise_fault
  resolve_result (some (addr ∷ rest)) again host path response = do
    fd ← socket os
    socket_result fd addr again host path response

  service_result : Option ℕ → Again → Bytes → Bytes → Bytes → M Reply
  unfolding resolve_result
  service_result none again host path response = do
    report_error "HTTP service is not available"
    pure (http_unknown, response)
  service_result (some s_port) again host path response = do
    buffer ← checked (sprintf (zeroed 6) (decimal (htons s_port)))
    http_port ← checked (c_string buffer)
    addrs ← getaddrinfo os (some host) http_port
    resolve_result addrs again host path response

  protocol_result : Option ℕ → Again → Bytes → Bytes → Bytes → M Reply
  unfolding service_result
  protocol_result none again host path response = do
    report_error "TCP protocol is not supported"
    pure (http_unknown, response)
  protocol_result (some proto) again host path response = do
    service ← getservbyname os
    service_result service again host path response

  -- The recursion takes fuel; the test of `redirect_count` comes first, so that
  -- `max_redirection + 2 - redirect_count` is enough.
  unfoldable pub perform_http_request : ℕ → Bytes → Bytes → Bytes → ℕ → M Reply
  unfolding protocol_result
  perform_http_request zero host path response redirect_count = raise_fault
  perform_http_request (suc fuel) host path response redirect_count =
      if ltb max_redirection redirect_count then pure (http_not_found, response) else (do
        proto ← getprotobyname os
        protocol_result proto
            (λ new_host new_response.
              perform_http_request fuel new_host (text "/") new_response (redirect_count + 1))
            host path response)
