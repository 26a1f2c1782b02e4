-- ===== src/Tls/Server.antt =====
-- The loop of `run_server` in 01_networking_libraries/openssl/src/ssl_client_server.c, and its end.
pub mod Books
pub mod Events
pub mod Pass
pub mod End
pub mod Laws
use linux_network_programmin.Base.{
  ℕ, zero, suc, ◌+◌, ℤ, pos, negsuc, is_nonpos, Bool, true, false, ◌||◌, List, [], ◌∷◌, Option,
  none, some, if◌then◌else◌, ltb, ◌==◌,
}
use linux_network_programmin.Sys.{
  Bytes, Kernel, M, pure, raise_fault, ◌>>=◌, ◌>>◌, checked, report_error, freeaddrinfo, close,
  accept, poll, time,
}
use linux_network_programmin.Sys.Tls.{
  ssl_new, ssl_set_fd, ssl_accept, ssl_read, ssl_write, ssl_shutdown, ssl_free, ssl_ctx_free,
}
use linux_network_programmin.Sys.Loop.{Loop, running, stopped, while_true}
use linux_network_programmin.CString.{text, same, upto_nul, received_text}
use linux_network_programmin.Poll.{message_size, server_time}
use linux_network_programmin.Socket.Listen.{max_connection, set_non_blocking}
use linux_network_programmin.Tls.{open_tls}
use linux_network_programmin.Tls.Slots.{
  Slot, Slots, slot_at, present, initial_slots, poll_slots, take_slot, undo_slot, drop_slot,
}

-- `close(fds[i].fd)`; of -1 it does nothing.
unfoldable pub close_fd : Option ℕ → M (Unit {0})
close_fd none = pure tt
close_fd (some fd) = close fd

-- Whether a slot has the descriptor.
abbrev pub is_fd : Option ℕ → ℕ → Bool
is_fd none fd = false
is_fd (some fd') fd = fd' == fd

-- `received_bytes <= 0`, or one of the two commands in the zeroed buffer.
unfoldable pub should_disconnect : Option Bytes → Bool
should_disconnect none = true
should_disconnect (some []) = true
should_disconnect (some (b ∷ bytes)) =
    let request = upto_nul (b ∷ bytes) in same request (text "quit") || same request (text "exit")

-- `if (fds[i].fd > 0) close(fds[i].fd)`
unfoldable pub close_positive : Option ℕ → M (Unit {0})
close_positive none = pure tt
close_positive (some zero) = pure tt
close_positive (some (suc n)) = close (suc n)

unfoldable pub end_ssl : Option ℕ → M (Unit {0})
end_ssl none = pure tt
end_ssl (some handle) = do ssl_shutdown handle; ssl_free handle

-- The loop over all slots after the server loop.
unfoldable pub end_slots : List Slot → M (Unit {0})
unfolding close_positive end_ssl
end_slots [] = pure tt
end_slots (p ∷ slots) = do close_positive p.fd; end_ssl p.ssl; end_slots slots

-- The end of `run_server`: the listening socket is closed here, and again with its slot.
unfoldable pub end_tls : ℕ → Loop Slots → M (Loop Slots)
unfolding end_slots
end_tls sock (running s) = pure (running s)
end_tls sock (stopped s) = do
  freeaddrinfo
  close sock
  ssl_ctx_free
  end_slots s.slots
  pure (stopped s)

module _ (os : Kernel) where
  -- A client that finds a free slot. `SSL_set_fd` reads through the handle.
  unfoldable pub greet : Slots → ℕ → M Slots
  greet s sock_client = do
    ssl ← ssl_new os
    handle ← checked ssl
    ssl_set_fd handle sock_client
    rc ← ssl_accept os handle
    if is_nonpos rc
        then (do
          report_error "Server SSL_accept() failed"
          close sock_client
          ssl_free handle
          pure (undo_slot s))
        else (do set_non_blocking os sock_client; pure (take_slot s sock_client handle))

  -- `sock_client > 0`; with a full array the client is neither kept nor closed.
  unfoldable pub admit : Slots → ℤ → M Slots
  unfolding greet
  admit s (negsuc n) = pure s
  admit s (pos zero) = pure s
  admit s (pos (suc n)) = if ltb s.nfds max_connection then greet s (suc n) else pure s

  -- `request_buffer[received_bytes] = 0`, and the reply.
  unfoldable pub reply : Slots → ℕ → Bytes → M Slots
  reply s handle bytes = do
    request ← checked (received_text message_size bytes)
    now ← time os
    sent_bytes ← ssl_write os handle (server_time now)
    if is_nonpos sent_bytes then (do report_error "Server SSL_write() failed"; pure s) else pure s

  got : Slots → ℕ → ℕ → Option Bytes → M Slots
  unfolding close_fd reply
  got s i handle r =
      if should_disconnect r
      then (do close_fd (slot_at s i).fd; ssl_free handle; pure (drop_slot s i))
      else elim r [ none ↦ pure s | some bytes ↦ reply s handle bytes ]

  -- A client with an event.
  unfoldable pub serve_slot : Slots → ℕ → M Slots
  unfolding got
  serve_slot s i = do
    handle ← checked (slot_at s i).ssl
    r ← ssl_read os handle message_size
    got s i handle r

  unfoldable pub serve_event : ℕ → Slots → ℕ → M Slots
  unfolding admit serve_slot
  serve_event sock s i =
      if (slot_at s i).revents
      then (if is_fd (slot_at s i).fd sock
          then (do r ← accept os sock; admit s r)
          else serve_slot s i)
      else pure s

  -- `for (int i = 0; i < nfds; i++)`; more rounds than the slots would be a fault.
  unfoldable pub serve_slots : ℕ → ℕ → ℕ → Slots → M Slots
  serve_slots sock zero i s = if ltb i s.nfds then raise_fault else pure s
  serve_slots sock (suc rounds) i s =
      if ltb i s.nfds
      then (serve_event sock s i >>= λ s'. serve_slots sock rounds (i + 1) s')
      else pure s

  -- One round of the server loop.
  unfoldable pub tls_round : ℕ → Slots → M (Loop Slots)
  unfolding serve_slots
  tls_round sock s = do
    activity ← poll os (present (λ p. p.fd) s.slots)
    if is_nonpos activity.0 then (do report_error "Server poll() failed"; pure (stopped s)) else (do
      s' ← serve_slots sock max_connection 0 (record s { slots = poll_slots activity.1 0 s.slots })
      pure (running s'))

  serve_tls : ℕ → Option (ℕ × ℕ) → M (Option (Loop Slots))
  unfolding end_tls tls_round
  serve_tls rounds none = pure none
  serve_tls rounds (some (sock, context)) = do
    ssl ← ssl_new os
    handle ← checked ssl
    ssl_set_fd handle sock
    l ← while_true rounds (tls_round sock) (initial_slots sock handle)
    l' ← end_tls sock l
    pure (some l')

  -- The server for a number of rounds; `none` if its set-up failed.
  unfoldable pub run_tls_server : ℕ → M (Option (Loop Slots))
  unfolding serve_tls
  run_tls_server rounds = do opened ← open_tls os; serve_tls rounds opened
