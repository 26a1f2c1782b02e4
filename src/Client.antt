-- ===== src/Client.antt =====
-- `run_client` of 00_tutorials/09_multithread_client_server.c, which 12 and 13 share: commands from
-- standard input go to the server, and its responses are printed.
pub mod Laws
pub mod Run
use linux_network_programmin.Base.{
  ◌-◌, ℕ, ℤ, pos, negsuc, Bool, true, false, not, ◌||◌, ◌==◌, [], ◌∷◌, Option, none, some,
  if◌then◌else◌, length,
}
use linux_network_programmin.Sys.{
  Bytes, Kernel, M, pure, ◌>>=◌, ◌>>◌, checked, report_error, freeaddrinfo, close, recv, send,
  fgets,
}
use linux_network_programmin.Sys.Loop.{Loop, running, stopped, while_true}
use linux_network_programmin.CString.{text, zeroed, fill, put_nul, c_string, strcspn, same}
use linux_network_programmin.Socket.Connect.{open_connection}
use linux_network_programmin.Session.{is_stop}

abbrev pub message_size : ℕ
message_size = 1024

-- The array after `fgets`; at the end of the input it stays zeroed.
unfoldable pub line_buffer : Option Bytes → Bytes
line_buffer none = zeroed message_size
line_buffer (some line) = fill (zeroed message_size) line

-- `request_buffer[strcspn(request_buffer, "\r\n")] = 0`
trim : Bytes → Option Bytes
trim request_buffer = elim (c_string request_buffer) [
  | none ↦ none
  | some s ↦ put_nul request_buffer (strcspn s (13 ∷ 10 ∷ []))
]

-- The string in the array after these two steps.
unfoldable pub command : Option Bytes → Option Bytes
unfolding line_buffer trim
command line = elim (trim (line_buffer line)) [
  | none ↦ none
  | some request_buffer ↦ c_string request_buffer
]

-- `sent_bytes != request_buffer_len`
unfoldable pub sent_all : ℤ → ℕ → Bool
sent_all (pos n) len = n == len
sent_all (negsuc n) len = false

response : Option Bytes → M (Unit {0})
response none = report_error "Client recv() failed"
response (some []) = report_error "Client recv() failed"
response (some (b ∷ bytes)) = do
  response_buffer ← checked (c_string (fill (zeroed message_size) (b ∷ bytes)))
  pure tt

module _ (os : Kernel) (sock_client : ℕ) where
  unfoldable pub client_round : Unit {0} → M (Loop (Unit {0}))
  unfolding sent_all response
  client_round _ = do
    line ← fgets os (message_size - 1)
    request_buffer ← checked (command line)
    sent_bytes ← send os sock_client request_buffer
    if sent_all sent_bytes (length request_buffer)
        then (do
          r ← recv os sock_client message_size
          response r
          pure (if is_stop request_buffer then stopped tt else running tt))
        else (do report_error "Client sent request fail"; pure (running tt))

  leave : Loop (Unit {0}) → M (Loop (Unit {0}))
  leave (running x) = pure (running x)
  leave (stopped x) = do freeaddrinfo; close sock_client; pure (stopped x)

module _ (os : Kernel) where
  connected : ℕ → Option ℕ → M (Option (Loop (Unit {0})))
  unfolding leave
  connected rounds none = pure none
  connected rounds (some sock_client) = do
    l ← while_true rounds (client_round os sock_client) tt
    l' ← leave os sock_client l
    pure (some l')

  -- The client for a number of commands; `none` if its set-up failed.
  unfoldable pub run_client : ℕ → M (Option (Loop (Unit {0})))
  unfolding connected
  run_client rounds = do sock ← open_connection os; connected rounds sock
