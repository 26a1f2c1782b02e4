-- ===== src/Session.antt =====
-- `server_handle_client` of 00_tutorials/09_multithread_client_server.c: the thread of one client.
pub mod Laws
pub mod Thread
pub mod Quiet
pub mod Effect
use linux_network_programmin.Base.{
  ℕ, ℤ, is_nonpos, Bool, ◌||◌, [], ◌∷◌, Option, none, some, if◌then◌else◌,
}
use linux_network_programmin.Sys.{
  Bytes, Kernel, M, pure, ◌>>=◌, ◌>>◌, checked, report_error, close, recv, send, time,
}
use linux_network_programmin.Sys.Loop.{Loop, running, stopped, while_true}
use linux_network_programmin.CString.{text, zeroed, same, received_text}
use linux_network_programmin.CString.Decimal.{int_text, sprintf}

abbrev pub message_size : ℕ
message_size = 1024

-- "exit", "quit" or "shutdown"
unfoldable pub is_stop : Bytes → Bool
is_stop request =
    same request (text "exit") || (same request (text "quit") || same request (text "shutdown"))

check_send : ℤ → M (Loop (Unit {0}))
check_send rc =
    if is_nonpos rc
    then (do report_error "Server send() failed"; pure (running tt))
    else pure (running tt)

module _ (os : Kernel) (sock_client : ℕ) where
  -- The whole response buffer is sent, the text and its NULs.
  send_text : Bytes → M ℤ
  send_text s = do
    response_buffer ← checked (sprintf (zeroed message_size) s)
    send os sock_client response_buffer

  unfoldable pub respond : Bytes → M (Loop (Unit {0}))
  unfolding send_text check_send
  respond request =
      if is_stop request
      then (do rc ← send_text (text "OK"); close sock_client; pure (stopped tt))
      else (if same request (text "time")
          then (do now ← time os; rc ← send_text (int_text now); check_send rc)
          else (do rc ← send_text (text "Unknown request"); check_send rc))

  unfoldable pub received : Option Bytes → M (Loop (Unit {0}))
  unfolding respond
  received none = do report_error "Client is disconnected"; pure (stopped tt)
  received (some []) = do report_error "Client is disconnected"; pure (stopped tt)
  received (some (b ∷ bytes)) = do
    request_buffer ← checked (received_text message_size (b ∷ bytes))
    respond request_buffer

  unfoldable pub session_round : Unit {0} → M (Loop (Unit {0}))
  unfolding received
  session_round _ = do r ← recv os sock_client message_size; received r

  -- The thread, for a number of rounds.
  unfoldable pub server_handle_client : ℕ → M (Loop (Unit {0}))
  unfolding session_round
  server_handle_client rounds = while_true rounds session_round tt
