-- ===== src/HttpServer/Loop/Exchange.antt =====
-- A client of the C++ server that is alone.
use linux_network_programmin.Base.{
  ℕ, ◌≤◌, ◌<◌, ◌≡◌, refl, ◌∙◌, ℤ, pos, Bool, true, false, [], ◌∷◌, some, arith, ◌==◌, length,
}
use linux_network_programmin.Sys.{Bytes, Kernel, Event, Trace, ok, accept, close, poll}
use linux_network_programmin.Sys.Loop.{running, bind-ok}
use linux_network_programmin.Poll.{Server, refresh}
use linux_network_programmin.HttpServer.{Headers, returned}
use linux_network_programmin.HttpServer.Parser.{parse}
use linux_network_programmin.HttpServer.Parser.Lines.{lacks, stored}
use linux_network_programmin.HttpServer.Parser.Laws.{Message, IsMessage, print_message, Announces}
use linux_network_programmin.HttpServer.Response.Laws.{IsOrder}
use linux_network_programmin.HttpServer.Router.{Files}
use linux_network_programmin.HttpServer.Router.Laws.{Offers}
use linux_network_programmin.HttpServer.Handler.{
  message_size, ClientActivity, activity_of, handle_client,
}
use linux_network_programmin.HttpServer.Handler.Laws.{answer_of, handle_client-read}
use linux_network_programmin.HttpServer.Setup.{max_connection}
use linux_network_programmin.HttpServer.Loop.{
  add_client, drop_client, accepted, handled, serve_slot, after_slot, pass, after_pass,
  server_round,
}

-- The listening socket alone in the table; the memory of the second slot has no POLLIN in
-- `revents`.
abbrev pub idle : ℕ → Bool → ℕ → Bool → Server
idle sock revents fd events = record {
  fds =
      record { fd = sock; events = true; revents = revents }
      ∷ record { fd = fd; events = events; revents = false }
      ∷ [];
  nfds = 1;
}

-- What happens before the request is read.
abbrev pub arrival : ℕ → ℕ → ℕ → Trace → Trace
arrival n sock client t = Event.accept sock (pos client) ∷ Event.poll (pos n) ∷ t

==-refl : (n : ℕ) → (n == n) ≡ true
==-refl n = ground arith

-- The client in the second slot.
abbrev joined : ℕ → ℕ → Bool → Server
joined sock client revents = record {
  fds =
      record { fd = sock; events = true; revents = revents }
      ∷ record { fd = client; events = true; revents = false }
      ∷ [];
  nfds = 2;
}

module _ (os : Kernel) (order : Headers → Headers) (files : Files) (sock client : ℕ) where
  welcome :
      (fd : ℕ) (events : Bool) (t : Trace)
      → os.on_accept t sock ≡ pos client
      → serve_slot os order files sock 0 (idle sock true fd events) t
        ≡ ok (joined sock client true, false) (Event.accept sock (pos client) ∷ t)
  unfolding serve_slot accept accepted add_client
  welcome fd events t e = rw (==-refl sock) (rw e refl)

  farewell :
      (activity : ClientActivity) (t u : Trace)
      → handle_client os order files client t ≡ ok (returned activity) u
      → serve_slot os order files sock 1 (joined sock client true) t
        ≡ ok (idle sock true client true, false) (Event.close client ∷ u)
  unfolding serve_slot handled close drop_client
  farewell activity t u e =
      bind-ok (handle_client os order files client)
        (handled os order files 1 (joined sock client true)) e

  pass-exchange :
      (fd : ℕ) (events : Bool) (activity : ClientActivity) (t u : Trace)
      → os.on_accept t sock ≡ pos client
      → handle_client os order files client (Event.accept sock (pos client) ∷ t)
        ≡ ok (returned activity) u
      → pass os order files max_connection sock 0 (idle sock true fd events) t
        ≡ ok (idle sock true client true, false) (Event.close client ∷ u)
  unfolding pass after_slot
  pass-exchange fd events activity t u e h =
      bind-ok (serve_slot os order files sock 0 (idle sock true fd events))
        (after_slot os order files (pass os order files 1 sock 1)) (welcome fd events t e)
      ∙ bind-ok (serve_slot os order files sock 1 (joined sock client true))
          (after_slot os order files (pass os order files 0 sock 2))
          (farewell activity (Event.accept sock (pos client) ∷ t) u h)

-- While no client is connected, and the memory of the second slot has no POLLIN, a client that
-- connects and sends a request in the form of HTTP is served whole in one round: it is accepted,
-- its request is read at once, it gets one message from which the parser of the same program reads
-- the status and the content that the files offer for the path, and its connection is closed. The
-- server is then as before, ready for the next. (The request is shorter than the buffer and has no
-- NUL; it arrives in one piece, no call of the file system throws, and the content is shorter than
-- 2^31 bytes.)
pub server_round-exchange :
    (os : Kernel) (order : Headers → Headers) (files : Files) (sock client n fd : ℕ)
    (revents events : Bool) (m : Message) (t : Trace) (status : ℕ) (content : Bytes)
    → Offers files m.path status content
    → IsMessage m
    → Announces (stored [] m.fields) m.body
    → lacks 0 (print_message m) ≡ true
    → length (print_message m) < message_size
    → IsOrder order
    → length content ≤ 2147483647
    → os.on_poll t (sock ∷ []) ≡ pos n
    → os.poll_in t (sock ∷ []) 0 ≡ true
    → os.on_accept (Event.poll (pos n) ∷ t) sock ≡ pos client
    → os.on_recv (arrival n sock client t) client ≡ some (print_message m)
    → (message : Bytes) × (rc : ℤ) × (server_round os order files sock
          (idle sock revents fd events, false)
          t
        ≡ ok (running (idle sock true client true, false)) (
            Event.close client
            ∷ Event.send client message rc
            ∷ Event.recv client message_size (some (print_message m))
            ∷ arrival n sock client t))
      × (parse message ≡ returned (answer_of status content))
unfolding server_round after_pass poll refresh
server_round-exchange os order files sock client n fd revents events m t status content offered v a
      z s o small polled ready came got =
    (
      h.0,
      h.1,
      rw (polled, ready)
          (bind-ok (pass os order files max_connection sock 0 (idle sock true fd events))
            (after_pass os order files)
            (pass-exchange os order files sock client fd events (activity_of h.1) _ _ came h.2)),
      h.3,
    )
  where
    h :
        (message : Bytes) × (rc : ℤ) × (handle_client os order files client
            (arrival n sock client t)
          ≡ ok (returned (activity_of rc)) (
              Event.send client message rc
              ∷ Event.recv client message_size (some (print_message m))
              ∷ arrival n sock client t))
        × (parse message ≡ returned (answer_of status content))
    h =
        handle_client-read os order files client m (arrival n sock client t) status content offered
          v a z s o small got
