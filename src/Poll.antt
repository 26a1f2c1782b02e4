-- ===== src/Poll.antt =====
-- `run_server` of 00_tutorials/13_multiplexing_poll_client_server.c: an array of `pollfd`s, the
-- listening socket in its first slot, and the clients in the slots after it.
pub mod Slots
pub mod Clients
pub mod Accounts
pub mod Run
pub mod Ready
use linux_network_programmin.Base.{
  ℕ, zero, suc, ◌+◌, ◌-◌, ℤ, pos, negsuc, is_neg, is_nonpos, Bool, true, false, ◌&&◌, ◌||◌, List,
  [], ◌∷◌, ◌++◌, Option, none, some, if◌then◌else◌, ltb, ◌==◌, length, get_or, set, take, replicate,
  map,
}
use linux_network_programmin.Sys.{
  Bytes, Kernel, M, pure, raise_fault, ◌>>=◌, ◌>>◌, checked, report_error, freeaddrinfo, close,
  accept, poll, recv, send, time,
}
use linux_network_programmin.Sys.Loop.{Loop, running, stopped, while_true}
use linux_network_programmin.CString.{text, same, received_text}
use linux_network_programmin.CString.Decimal.{decimal}
use linux_network_programmin.Socket.Listen.{max_connection, open_listener}

abbrev pub message_size : ℕ
message_size = 1024

-- `struct pollfd`, with the POLLIN bit of its two masks.
pub record PollFd : Type 0 where
  pub fd : ℕ
  pub events : Bool
  pub revents : Bool

abbrev pub empty_slot : PollFd
empty_slot = record { fd = 0; events = false; revents = false }

pub record Server : Type 0 where
  pub fds : List PollFd
  pub nfds : ℕ

abbrev pub slot : Server → ℕ → PollFd
slot s i = get_or s.fds i empty_slot

-- The state at the head of the loop, with `memset(&fds, 0, sizeof(fds))`.
unfoldable pub initial : ℕ → Server
initial sock_server = record {
  fds =
      record { fd = sock_server; events = true; revents = false }
      ∷ replicate (max_connection - 1) empty_slot;
  nfds = 1;
}

-- What `poll` writes: `revents` of the first `n` entries, of the events that were asked for.
unfoldable pub refresh : (ℕ → Bool) → ℕ → ℕ → List PollFd → List PollFd
refresh ready i zero slots = slots
refresh ready i (suc n) [] = []
refresh ready i (suc n) (p ∷ slots) =
    record p { revents = p.events && ready i } ∷ refresh ready (i + 1) n slots

-- `fds[nfds].fd = sock_client; fds[nfds].events = POLLIN; nfds++`, if there is room.
unfoldable pub add_client : Server → ℕ → Server
add_client s fd =
    if ltb s.nfds max_connection
    then record {
      fds = set s.fds s.nfds (record { fd = fd; events = true; revents = (slot s s.nfds).revents });
      nfds = s.nfds + 1;
    }
    else s

-- `fds[i].fd = fds[nfds - 1].fd; nfds--`
unfoldable pub drop_client : Server → ℕ → Server
drop_client s i = record {
  fds = set s.fds i (record (slot s i) { fd = (slot s (s.nfds - 1)).fd });
  nfds = s.nfds - 1;
}

abbrev pub server_time : ℕ → Bytes
server_time now = text "Server time: " ++ decimal now

module _ (os : Kernel) where
  -- `accept` and what follows it; `none` is the `continue` that skips the clients.
  accepted : Server → ℤ → M (Option Server)
  accepted s (negsuc n) = do report_error "Server accept() failed"; pure none
  accepted s (pos fd) = pure (some (add_client s fd))

  unfoldable pub serve_listener : Server → M (Option Server)
  unfolding accepted
  serve_listener s =
      if (slot s 0).revents then (do fd ← accept os (slot s 0).fd; accepted s fd) else pure (some s)

  -- The answer to a request, and whether the client goes.
  unfoldable pub answer : ℕ → Bytes → M Bool
  answer fd request = do
    now ← time os
    sent ← send os fd (server_time now)
    if is_nonpos sent || (same request (text "quit") || same request (text "exit"))
        then (do close fd; pure true)
        else pure false

  received : ℕ → Option Bytes → M Bool
  received fd none = do report_error "Server recv() failed"; close fd; pure true
  received fd (some []) = do close fd; pure true
  received fd (some (b ∷ bytes)) = do
    request ← checked (received_text message_size (b ∷ bytes))
    answer fd request

  -- One ready client: whether its connection was closed.
  unfoldable pub exchange : ℕ → M Bool
  unfolding received
  exchange fd = do r ← recv os fd message_size; received fd r

  -- `for (int i = 1; i >= 1 && i < nfds; i++)`. With a client gone, `i--` meets the `i++`.
  unfoldable pub serve_clients : ℕ → ℕ → Server → M Server
  serve_clients zero i s = pure s
  serve_clients (suc rounds) i s = elim (ltb i s.nfds) [
    | false ↦ pure s
    | true ↦ elim (slot s i).revents [
      | false ↦ serve_clients rounds (i + 1) s
      | true ↦ exchange (slot s i).fd >>= λ gone. elim gone [
        | true ↦ serve_clients rounds i (drop_client s i)
        | false ↦ serve_clients rounds (i + 1) s
      ]
    ]
  ]

  after_listener : Option Server → Server → M (Loop Server)
  after_listener none s = pure (running s)
  after_listener (some s') s = do s'' ← serve_clients s'.nfds 1 s'; pure (running s'')

  -- One round of the server loop.
  unfoldable pub poll_round : Server → M (Loop Server)
  unfolding after_listener
  poll_round s = do
    r ← poll os (map (λ p. p.fd) (take s.nfds s.fds))
    if is_neg r.0
        then (do report_error "Server poll() failed"; pure (stopped s))
        else (let s' = record s { fds = refresh r.1 0 s.nfds s.fds } in
            serve_listener s' >>= λ o. after_listener o s')

  leave : ℕ → Loop Server → M (Loop Server)
  leave sock (running s) = pure (running s)
  leave sock (stopped s) = do freeaddrinfo; close sock; pure (stopped s)

  started : ℕ → Option ℕ → M (Option (Loop Server))
  unfolding leave
  started rounds none = pure none
  started rounds (some sock) = do
    l ← while_true rounds poll_round (initial sock)
    l' ← leave sock l
    pure (some l')

  -- The server for a number of rounds; `none` if its set-up failed.
  unfoldable pub run_server : ℕ → M (Option (Loop Server))
  unfolding started
  run_server rounds = do sock ← open_listener os; started rounds sock
