-- ===== src/FirstSteps/Send.antt =====
-- `main` of 00_tutorials/05_send_first_http_request.c.
pub mod Laws
use linux_network_programmin.Base.{
  ℕ, suc, ◌+◌, ◌-◌, ℤ, pos, negsuc, is_neg, is_nonzero, Bool, true, List, [], ◌∷◌, Option, none,
  some, if◌then◌else◌, ltb, leb, length,
}
use linux_network_programmin.Sys.{
  Bytes, Kernel, M, pure, raise_fault, ◌>>=◌, ◌>>◌, checked, report_error, freeaddrinfo, close,
  getprotobyname, getservbyname, getaddrinfo, socket, connect, send,
}
use linux_network_programmin.Sys.Loop.{Loop, running, stopped, while_true}
use linux_network_programmin.CString.{text, zeroed, c_string}
use linux_network_programmin.CString.Decimal.{sprintf}
use linux_network_programmin.Socket.Port.{port_text}
use linux_network_programmin.Https.{https_request}

abbrev pub cpp_hostname : Bytes
cpp_hostname = text "httpstat.us"

-- Two to the power 63: a `ssize_t` is at least its negative, and below it.
abbrev pub ssize_bound : ℕ
ssize_bound = 9223372036854775808

-- The integers `a - b` and `a + b`.
unfoldable pub difference : ℕ → ℕ → ℤ
difference a b = if leb b a then pos (a - b) else negsuc (b - a - 1)

unfoldable pub sum : ℤ → ℤ → ℤ
unfolding difference
sum (pos a) (pos b) = pos (a + b)
sum (pos a) (negsuc b) = difference a (suc b)
sum (negsuc a) (pos b) = difference b (suc a)
sum (negsuc a) (negsuc b) = negsuc (suc (a + b))

unfoldable pub in_ssize : ℤ → Option ℤ
in_ssize (pos n) = if ltb n ssize_bound then some (pos n) else none
in_ssize (negsuc n) = if ltb n ssize_bound then some (negsuc n) else none

-- `+` on `ssize_t`; an overflow is undefined.
unfoldable pub plus : ℤ → ℤ → Option ℤ
unfolding sum in_ssize
plus a b = in_ssize (sum a b)

-- `sent_bytes < request_len`
abbrev pub is_below : ℤ → ℕ → Bool
is_below (pos n) len = ltb n len
is_below (negsuc n) len = true

-- The request as the array holds it; it is `https_request` of the host name.
unfoldable pub http_request : Option Bytes
http_request = elim (sprintf (zeroed 1024) (https_request cpp_hostname)) [
  | none ↦ none
  | some request ↦ c_string request
]

-- The state of the loop: `sent_bytes`, or the exit in the loop.
pub data Sending : Type 0 where
  going : ℤ → Sending
  failed : Sending

-- The end of `main`: with the loop ended it releases all; `none` if the loop goes on.
leave : ℕ → Loop Sending → M (Option ℤ)
leave sock_fd (running s) = pure none
leave sock_fd (stopped failed) = pure (some (negsuc 0))
leave sock_fd (stopped (going sent_bytes)) = do close sock_fd; freeaddrinfo; pure (some (pos 0))

module _ (os : Kernel) where
  -- `while (sent_bytes < request_len)`: each round sends the whole request, and adds the result to
  -- `sent_bytes`. The test of a failure is on `rc`, the result of `connect`.
  unfoldable pub send_round : ℤ → ℕ → Bytes → Sending → M (Loop Sending)
  unfolding plus
  send_round rc sock_fd request failed = pure (stopped failed)
  send_round rc sock_fd request (going sent_bytes) =
      if is_below sent_bytes (length request)
      then (do
        sent ← send os sock_fd request
        if is_neg rc
            then (do report_error "send() failed"; close sock_fd; pure (stopped failed))
            else (do total ← checked (plus sent_bytes sent); pure (running (going total))))
      else pure (stopped (going sent_bytes))

  connect_stage : ℕ → ℕ → ℕ → M (Option ℤ)
  unfolding send_round leave
  connect_stage rounds sock_fd addr = do
    rc ← connect os sock_fd addr
    if is_nonzero rc then (do report_error "connect() failed"; pure (some (negsuc 0))) else (do
      request ← checked http_request
      l ← while_true rounds (send_round rc sock_fd request) (going (pos 0))
      leave sock_fd l)

  socket_result : ℕ → ℕ → ℤ → M (Option ℤ)
  unfolding connect_stage
  socket_result rounds addr (negsuc n) = do report_error "socket() failed"; pure (some (negsuc 0))
  socket_result rounds addr (pos sock_fd) = connect_stage rounds sock_fd addr

  resolve_result : ℕ → Option (List ℕ) → M (Option ℤ)
  unfolding socket_result
  resolve_result rounds none = do report_error "Can not resolve hostname"; pure (some (negsuc 0))
  resolve_result rounds (some []) = raise_fault
  resolve_result rounds (some (addr ∷ rest)) = do fd ← socket os; socket_result rounds addr fd

  service_result : ℕ → Option ℕ → M (Option ℤ)
  unfolding resolve_result
  service_result rounds none = do
    report_error "HTTP service is not available"
    pure (some (negsuc 0))
  service_result rounds (some s_port) = do
    port ← checked (port_text s_port)
    addrs ← getaddrinfo os (some cpp_hostname) port
    resolve_result rounds addrs

  protocol_result : ℕ → Option ℕ → M (Option ℤ)
  unfolding service_result
  protocol_result rounds none = do
    report_error "TCP protocol is not available"
    pure (some (negsuc 0))
  protocol_result rounds (some proto) = do service ← getservbyname os; service_result rounds service

  -- The exit status, or `none` if the loop goes on after so many rounds.
  unfoldable pub send_main : ℕ → M (Option ℤ)
  unfolding protocol_result
  send_main rounds = do proto ← getprotobyname os; protocol_result rounds proto
