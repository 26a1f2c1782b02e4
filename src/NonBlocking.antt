-- ===== src/NonBlocking.antt =====
-- `run_server` of 00_tutorials/11_non_blocking_sockets.c: one client at a time, polled without
-- blocking. Its set-up has the lines of the poll server's.
pub mod Laws
pub mod Client
use linux_network_programmin.Base.{
  ℕ, zero, suc, ℤ, pos, negsuc, Bool, true, false, [], ◌∷◌, ◌++◌, Option, none, some, ◌==◌,
  if◌then◌else◌,
}
use linux_network_programmin.Sys.{
  Bytes, Kernel, M, pure, ◌>>=◌, ◌>>◌, checked, report_error, freeaddrinfo, close, accept, recv,
  send, errno_would_block,
}
use linux_network_programmin.Sys.Loop.{Loop, running, stopped, while_true}
use linux_network_programmin.CString.{text, received_text}
use linux_network_programmin.Socket.Listen

abbrev pub message_size : ℕ
message_size = 1024

-- `sent_bytes != 10`
is_ten : ℤ → Bool
is_ten (pos n) = n == 10
is_ten (negsuc n) = false

module _ (os : Kernel) where
  -- The state is `sock_client`, -1 at first.
  answer : ℕ → ℤ → Bytes → M (Loop ℤ)
  unfolding is_ten
  answer fd sock_client bytes = do
    buffer ← checked (received_text message_size bytes)
    sent_bytes ← send os fd (text "Status OK" ++ (0 ∷ []))
    if is_ten sent_bytes
        then pure (running sock_client)
        else (do report_error "Server send() failed"; pure (running sock_client))

  received : ℕ → ℤ → Option Bytes → M (Loop ℤ)
  unfolding answer
  received fd sock_client none = do
    again ← errno_would_block os
    if again
        then pure (running sock_client)
        else (do report_error "Server recv() failed"; pure (stopped sock_client))
  received fd sock_client (some []) = pure (running sock_client)
  received fd sock_client (some (b ∷ bytes)) = answer fd sock_client (b ∷ bytes)

  -- `if (sock_client > 0)`: descriptor 0 is not served.
  unfoldable pub serve : ℤ → M (Loop ℤ)
  unfolding received
  serve (negsuc n) = pure (running (negsuc n))
  serve (pos zero) = pure (running (pos zero))
  serve (pos (suc n)) = do r ← recv os (suc n) message_size; received (suc n) (pos (suc n)) r

  accepted : ℤ → M (Loop ℤ)
  accepted (negsuc n) = do
    again ← errno_would_block os
    if again
        then serve (negsuc n)
        else (do report_error "Server accept() failed"; pure (stopped (negsuc n)))
  accepted (pos fd) = do Listen.set_non_blocking os fd; serve (pos fd)

  -- One round: `accept` while there is no client, and then the client, if there is one.
  unfoldable pub server_round : ℕ → ℤ → M (Loop ℤ)
  unfolding accepted
  server_round sock_server (negsuc n) = do fd ← accept os sock_server; accepted fd
  server_round sock_server (pos fd) = serve (pos fd)

  -- `close(sock_client)`; the close of -1 fails and changes nothing.
  close_client : ℤ → M (Unit {0})
  close_client (pos fd) = close fd
  close_client (negsuc n) = pure tt

  leave : ℕ → Loop ℤ → M (Loop ℤ)
  unfolding close_client
  leave sock_server (running s) = pure (running s)
  leave sock_server (stopped s) = do
    close sock_server
    close_client s
    freeaddrinfo
    pure (stopped s)

  started : ℕ → Option ℕ → M (Option (Loop ℤ))
  unfolding leave
  started rounds none = pure none
  started rounds (some sock_server) = do
    l ← while_true rounds (server_round sock_server) (negsuc 0)
    l' ← leave sock_server l
    pure (some l')

  -- The server for a number of rounds; `none` if its set-up failed.
  unfoldable pub run_server : ℕ → M (Option (Loop ℤ))
  unfolding started
  run_server rounds = do sock ← Listen.open_listener os; started rounds sock
