-- ===== src/Simple.antt =====
-- `run_server` of 00_tutorials/08_simple_client_server.c: one client after another. The reply to a
-- request has the lines of program 09.
pub mod Laws
pub mod Client
use linux_network_programmin.Base.{ℕ, ℤ, pos, negsuc, [], ◌∷◌, Option, none, some}
use linux_network_programmin.Sys.{
  Bytes, Kernel, M, pure, ◌>>=◌, ◌>>◌, checked, report_error, accept, recv,
}
use linux_network_programmin.Sys.Loop.{Loop, running, stopped, while_true}
use linux_network_programmin.CString.{received_text}
use linux_network_programmin.Socket.Reuse.{simple, open_reusable}
use linux_network_programmin.Session.{message_size, respond}

-- The state is the connected client, for which the inner loop runs, or `none` in the outer loop.
next_state : ℕ → Loop (Unit {0}) → Option ℕ
next_state sock_client (running x) = some sock_client
next_state sock_client (stopped x) = none

module _ (os : Kernel) where
  received : ℕ → Option Bytes → M (Loop (Option ℕ))
  unfolding next_state
  received sock_client none = do report_error "Client is disconnected\n"; pure (running none)
  received sock_client (some []) = do report_error "Client is disconnected\n"; pure (running none)
  received sock_client (some (b ∷ bytes)) = do
    request ← checked (received_text message_size (b ∷ bytes))
    l ← respond os sock_client request
    pure (running (next_state sock_client l))

  accepted : ℤ → M (Loop (Option ℕ))
  accepted (negsuc n) = do report_error "Server accept() failed"; pure (running none)
  accepted (pos sock_client) = pure (running (some sock_client))

  -- A round of the loop that the server is in. Neither loop is left but by the inner `break`s.
  unfoldable pub server_round : ℕ → Option ℕ → M (Loop (Option ℕ))
  unfolding received accepted
  server_round sock_server none = do fd ← accept os sock_server; accepted fd
  server_round sock_server (some sock_client) = do
    r ← recv os sock_client message_size
    received sock_client r

  started : ℕ → Option ℕ → M (Option (Loop (Option ℕ)))
  started rounds none = pure none
  started rounds (some sock_server) = do
    l ← while_true rounds (server_round sock_server) none
    pure (some l)

  -- The server for a number of rounds; `none` if its set-up failed.
  unfoldable pub run_server : ℕ → M (Option (Loop (Option ℕ)))
  unfolding started
  run_server rounds = do sock ← open_reusable os simple; started rounds sock
