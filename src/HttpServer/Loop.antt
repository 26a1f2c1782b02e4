-- ===== src/HttpServer/Loop.antt =====
-- `HTTPServer::start` of 01_networking_libraries/my_http_server/http_server.cpp, and main.cpp. The
-- array `fds` is not initialised: what its memory holds is a parameter.
pub mod Laws
pub mod Books
pub mod Exchange
use linux_network_programmin.Base.{
  ℕ, zero, suc, ◌+◌, ◌-◌, ℤ, pos, negsuc, is_neg, Bool, true, false, List, [], ◌∷◌, Option, none,
  some, if◌then◌else◌, ltb, ◌==◌, set, take, map,
}
use linux_network_programmin.Sys.{
  Bytes, Kernel, M, pure, ◌>>=◌, ◌>>◌, close, accept, poll, print_usage,
}
use linux_network_programmin.Sys.Loop.{Loop, running, stopped, while_true}
use linux_network_programmin.Poll.{PollFd, Server, slot, refresh}
use linux_network_programmin.HttpServer.{Headers, Result, returned, thrown}
use linux_network_programmin.HttpServer.Parser.{stoi}
use linux_network_programmin.HttpServer.Router.{Files}
use linux_network_programmin.HttpServer.Handler.{ClientActivity, handle_client}
use linux_network_programmin.HttpServer.Setup.{max_connection, setup_socket}

-- The arrays and `nfds` before the loop. `junk` is the memory of the two slots.
unfoldable pub initial : ℕ → PollFd → PollFd → Server
initial sock_server junk junk' = record {
  fds = record { fd = sock_server; events = true; revents = junk.revents } ∷ junk' ∷ [];
  nfds = 1;
}

unfoldable pub add_client : Server → ℕ → Server
add_client s sock_client =
    if ltb s.nfds max_connection
    then record {
      fds = set s.fds s.nfds (record (slot s s.nfds) { fd = sock_client; events = true });
      nfds = s.nfds + 1;
    }
    else s

unfoldable pub drop_client : Server → ℕ → Server
drop_client s i = record {
  fds = set s.fds i (record {
    fd = (slot s (s.nfds - 1)).fd;
    events = (slot s (s.nfds - 1)).events;
    revents = (slot s i).revents;
  });
  nfds = s.nfds - 1;
}

-- The state, and whether an exception has left the loop.
abbrev pub State : Type 0
State = Server × Bool

module _ (os : Kernel) (order : Headers → Headers) (files : Files) where
  accepted : Server → ℤ → M State
  accepted s (negsuc n) = pure (s, false)
  accepted s (pos sock_client) = pure (add_client s sock_client, false)

  -- No activity that is returned is WAITING.
  handled : ℕ → Server → Result ClientActivity → M State
  handled i s thrown = pure (s, true)
  handled i s (returned activity) = do close (slot s i).fd; pure (drop_client s i, false)

  -- One slot of the table. Only the listening socket is looked at for POLLIN; a slot without it is
  -- taken for a client with a request.
  unfoldable pub serve_slot : ℕ → ℕ → Server → M State
  unfolding accepted handled
  serve_slot sock_server i s =
      if (slot s i).revents
      then (if (slot s i).fd == sock_server
          then (do fd ← accept os sock_server; accepted s fd)
          else pure (s, false))
      else (do a ← handle_client os order files (slot s i).fd; handled i s a)

  after_slot : (Server → M State) → State → M State
  after_slot next (s, true) = pure (s, true)
  after_slot next (s, false) = next s

  -- `for (int i = 0; i < nfds; i++)`
  unfoldable pub pass : ℕ → ℕ → ℕ → Server → M State
  unfolding after_slot
  pass zero sock_server i s = pure (s, false)
  pass (suc rounds) sock_server i s =
      if ltb i s.nfds
      then serve_slot sock_server i s >>= after_slot (pass rounds sock_server (i + 1))
      else pure (s, false)

  after_pass : State → M (Loop State)
  after_pass (s, true) = pure (stopped (s, true))
  after_pass (s, false) = pure (running (s, false))

  -- A round of the server loop. The table has at most MAX_CONNECTION entries.
  unfoldable pub server_round : ℕ → State → M (Loop State)
  unfolding after_pass
  server_round sock_server (s, escaped) = do
    r ← poll os (map (λ p. p.fd) (take s.nfds s.fds))
    if is_neg r.0
        then pure (stopped (s, escaped))
        else (pass max_connection sock_server 0 (record s { fds = refresh r.1 0 s.nfds s.fds })
            >>= after_pass)

  -- `start` for a number of rounds; `none` where there is no socket.
  unfoldable pub start : ℕ → PollFd → PollFd → Option ℕ → M (Option (Loop State))
  start rounds junk junk' none = pure none
  start rounds junk junk' (some sock_server) = do
    l ← while_true rounds (server_round sock_server) (initial sock_server junk junk', false)
    pure (some l)

  -- `HTTPServer server(port); server.start();`
  unfoldable pub serve : ℕ → PollFd → PollFd → ℤ → M (Option (Loop State))
  unfolding start
  serve rounds junk junk' port = do
    sock_server ← setup_socket os port
    start rounds junk junk' sock_server

  -- The `catch` of `main`, and the status; `none` while the loop goes on.
  finish : Option (Loop State) → M (Option ℤ)
  finish none = pure (some (pos 0))
  finish (some (running s)) = pure none
  finish (some (stopped (s, true))) = do print_usage; pure (some (pos 0))
  finish (some (stopped (s, false))) = pure (some (pos 0))

  served : ℕ → PollFd → PollFd → Option ℤ → M (Option ℤ)
  unfolding finish
  served rounds junk junk' none = do print_usage; pure (some (pos 0))
  served rounds junk junk' (some port) = do l ← serve rounds junk junk' port; finish l

  unfoldable pub http_main : ℕ → PollFd → PollFd → List Bytes → M (Option ℤ)
  unfolding served
  http_main rounds junk junk' (program ∷ argument ∷ []) = served rounds junk junk' (stoi argument)
  http_main rounds junk junk' _ = do print_usage; pure (some (negsuc 0))
