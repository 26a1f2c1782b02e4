-- ===== src/NonBlocking/Client.antt =====
-- `run_client` of 00_tutorials/11_non_blocking_sockets.c. Its set-up has the lines of the
-- interactive client's.
pub mod Laws
use mathlib.Core.Option
use Prim.Native.String.{String}
use linux_network_programmin.Base.{
  ℕ, ℤ, Bool, true, false, [], ◌∷◌, ◌++◌, Option, none, some, if◌then◌else◌, take, length,
}
use linux_network_programmin.Sys.{
  Bytes, Kernel, M, pure, ◌>>=◌, ◌>>◌, checked, report_error, freeaddrinfo, close, recv, send, time,
  errno_would_block,
}
use linux_network_programmin.Sys.Loop.{Loop, running, stopped, while_true}
use linux_network_programmin.CString.{text, zeroed, fill, put_nul, c_string, strcspn}
use linux_network_programmin.CString.Decimal.{int_text, sprintf}
use linux_network_programmin.Socket.Connect.{open_connection}
use linux_network_programmin.Client.{sent_all}
use linux_network_programmin.NonBlocking.{message_size}

abbrev pub client_time : ℕ → Bytes
client_time now = text "Client time: " ++ (int_text now ++ (10 ∷ []))

-- `buffer[buffer_len] = 0` for the length up to the line feed, and the bytes that are sent
cut : Bytes → Bytes → Option Bytes
cut buffer s = Option.map (take (strcspn s (10 ∷ []))) (put_nul buffer (strcspn s (10 ∷ [])))

unfoldable pub client_request : ℕ → Option Bytes
unfolding cut
client_request now = elim (sprintf (zeroed message_size) (client_time now)) [
  | none ↦ none
  | some buffer ↦ elim (c_string buffer) [ none ↦ none | some s ↦ cut buffer s ]
]

module _ (os : Kernel) where
  -- Whether the loop ends: a call that failed for another reason than that it would block.
  gave_up : String → M (Loop (Unit {0}))
  gave_up message = do
    again ← errno_would_block os
    if again then pure (running tt) else (do report_error message; pure (stopped tt))

  response : Option Bytes → M (Loop (Unit {0}))
  unfolding gave_up
  response none = gave_up "Client recv() failed"
  response (some []) = pure (running tt)
  response (some (b ∷ bytes)) = do
    buffer ← checked (c_string (fill (zeroed message_size) (b ∷ bytes)))
    pure (running tt)

  receive : ℕ → Loop (Unit {0}) → M (Loop (Unit {0}))
  unfolding response
  receive sock_client (stopped x) = pure (stopped x)
  receive sock_client (running x) = do r ← recv os sock_client message_size; response r

  unfoldable pub client_round : ℕ → Unit {0} → M (Loop (Unit {0}))
  unfolding receive
  client_round sock_client _ = do
    now ← time os
    request ← checked (client_request now)
    sent_bytes ← send os sock_client request
    l ←
        (if sent_all sent_bytes (length request)
          then pure (running tt)
          else gave_up "Client send() failed")
    receive sock_client l

  leave : ℕ → Loop (Unit {0}) → M (Loop (Unit {0}))
  leave sock_client (running x) = pure (running x)
  leave sock_client (stopped x) = do freeaddrinfo; close sock_client; pure (stopped x)

  connected : ℕ → Option ℕ → M (Option (Loop (Unit {0})))
  unfolding leave
  connected rounds none = pure none
  connected rounds (some sock_client) = do
    l ← while_true rounds (client_round sock_client) tt
    l' ← leave sock_client l
    pure (some l')

  -- The client for a number of rounds; `none` if its set-up failed.
  unfoldable pub run_client : ℕ → M (Option (Loop (Unit {0})))
  unfolding connected
  run_client rounds = do sock ← open_connection os; connected rounds sock
