-- ===== src/HttpServer/Loop/Laws.antt =====
-- The C++ server for any number of rounds: what it leaves open.
use mathlib.Core.Option
use mathlib.Core.Option.{some-injective}
use mathlib.Core.List.Perm
use linux_network_programmin.Base.{
  ℕ, zero, suc, ◌+◌, ◌<◌, ◌≡◌, refl, ◌∙◌, ℤ, pos, negsuc, is_neg, Bool, true, false, List, [], ◌∷◌,
  Option, none, some, arith, ltb, ltb→lt, ◌==◌, length, take, map, length-take,
}
use linux_network_programmin.Sys.{Bytes, Kernel, Event, Trace, ok, accept, close, poll, recv, send}
use linux_network_programmin.Sys.Loop.{
  Loop, state_of, Total, Total-bind, Total-run, Total-if, while_true, while_true-inv,
}
use linux_network_programmin.Sys.Resources.{open_fds, open_addrs}
use linux_network_programmin.CString.Laws.{c_string-fill}
use linux_network_programmin.Socket.Listen.Laws.{ResolvesSome, SameOpen}
use linux_network_programmin.Poll.{PollFd, Server, slot, refresh}
use linux_network_programmin.Poll.Clients.{ShortMessages}
use linux_network_programmin.HttpServer.{Headers, HttpRequest, Result, returned, thrown}
use linux_network_programmin.HttpServer.Response.{HttpResponse}
use linux_network_programmin.HttpServer.Router.{Files, route}
use linux_network_programmin.HttpServer.Handler.{
  message_size, ClientActivity, respond_with, answered, received, handle_client,
}
use linux_network_programmin.HttpServer.Setup.{max_connection, setup_socket}
use linux_network_programmin.HttpServer.Setup.Laws.{Opened, setup_socket_lem}
use linux_network_programmin.HttpServer.Loop.{
  initial, State, accepted, handled, serve_slot, after_slot, pass, after_pass, server_round, start,
  serve,
}
use linux_network_programmin.HttpServer.Loop.Books.{
  Books, Untouched, drop_client-Books, add_client-Books, refresh-Books,
}

-- What is open after a server that started at `t`, with `v` the end of its set-up.
abbrev pub Serving : Kernel → ℤ → Trace → Option (Loop State) → Trace → Type 0
Serving os port t none u = SameOpen t u
Serving os port t (some l) u =
    (sock : ℕ) × (v : Trace) × (setup_socket os port t ≡ ok (some sock) v)
    × Books (open_fds t) (open_addrs t) v (state_of l).0 u

module _ (os : Kernel) (order : Headers → Headers) (files : Files) (short : ShortMessages os) where
  respond_with_lem :
      (fd : ℕ) (r : Result HttpResponse) (t : Trace)
      → Total (λ _ u. Untouched t u) (respond_with os order files fd r t)
  unfolding respond_with send
  respond_with_lem fd thrown t = (refl, refl, refl)
  respond_with_lem fd (returned response) t = (refl, refl, refl)

  answered_lem :
      (fd : ℕ) (r : Result HttpRequest) (t : Trace)
      → Total (λ _ u. Untouched t u) (answered os order files fd r t)
  unfolding answered
  answered_lem fd thrown t = (refl, refl, refl)
  answered_lem fd (returned request) t = respond_with_lem fd (route files request) t

  received_lem :
      (fd : ℕ) (r : Option Bytes) (t : Trace)
      → ((bytes : Bytes) → r ≡ some bytes → length bytes < message_size)
      → Total (λ _ u. Untouched t u) (received os order files fd r t)
  unfolding received
  received_lem fd none t fits = (refl, refl, refl)
  received_lem fd (some []) t fits = (refl, refl, refl)
  received_lem fd (some (b ∷ bytes)) t fits =
      rw (c_string-fill message_size (b ∷ bytes) (fits (b ∷ bytes) refl), received)
        (answered_lem fd _ t)

  handle_client-Untouched :
      (fd : ℕ) (t : Trace) → Total (λ _ u. Untouched t u) (handle_client os order files fd t)
  unfolding handle_client recv
  handle_client-Untouched fd t =
      received_lem fd _ (Event.recv fd message_size _ ∷ t) (fits (os.on_recv t fd) refl)
    where
      fits :
          (r : Option Bytes)
          → os.on_recv t fd ≡ r
          → (bytes : Bytes) → Option.map (take message_size) r ≡ some bytes
          → length bytes < message_size
      fits none q bytes p = cc
      fits (some got) q bytes p =
          rw (← some-injective _ _ p)
            (omega (arith, length-take message_size got, short t fd got q))

  module _ (rest : List ℕ) (addrs sock : ℕ) (v : Trace) where
    abbrev Kept : State → Trace → Type 0
    Kept r u = Books rest addrs v r.0 u

    accepted_lem :
        (s : Server) (r : ℤ) (t : Trace)
        → Books rest addrs v s t
        → Total Kept (accepted os order files s r (Event.accept sock r ∷ t))
    unfolding accepted
    accepted_lem s (negsuc n) t b = record {
      size = b.size;
      room = b.room;
      new = b.new;
      visitors = b.visitors;
      accounts = b.accounts;
      resolved = b.resolved;
    }
    accepted_lem s (pos fd) t b = add_client-Books rest addrs v fd sock s t b

    handled_lem :
        (i : ℕ) (s : Server) (r : Result ClientActivity) (t u : Trace)
        → i < s.nfds
        → Books rest addrs v s t
        → Untouched t u
        → Total Kept (handled os order files i s r u)
    unfolding handled close
    handled_lem i s thrown t u h b q = record {
      size = b.size;
      room = b.room;
      new = b.new;
      visitors = q.2 ∙ b.visitors;
      accounts = rw (q.0) b.accounts;
      resolved = q.1 ∙ b.resolved;
    }
    handled_lem i s (returned a) t u h b q = drop_client-Books rest addrs v i s t u h b q

    serve_slot_lem :
        (i : ℕ) (s : Server) (t : Trace)
        → i < s.nfds
        → Books rest addrs v s t
        → Total Kept (serve_slot os order files sock i s t)
    unfolding serve_slot accept
    serve_slot_lem i s t h b =
        Total-if Kept (slot s i).revents _ _ t
          (λ _.
            Total-if Kept ((slot s i).fd == sock) _ _ t
              (λ _. accepted_lem s (os.on_accept t sock) t b) (λ _. b))
          (λ _.
            Total-bind (λ _ u. Untouched t u) Kept (handle_client os order files (slot s i).fd) _ t
              (handle_client-Untouched (slot s i).fd t) (λ r u q. handled_lem i s r t u h b q))

    pass_lem :
        (rounds i : ℕ) (s : Server) (t : Trace)
        → Books rest addrs v s t
        → Total Kept (pass os order files rounds sock i s t)
    unfolding pass after_slot
    pass_lem zero i s t b = b
    pass_lem (suc rounds) i s t b =
        Total-if Kept (ltb i s.nfds) _ _ t
          (λ within.
            Total-bind Kept Kept (serve_slot os order files sock i s) _ t
              (serve_slot_lem i s t (ltb→lt i s.nfds within) b) (next (pass_lem rounds (i + 1))))
          (λ out. b)
      where
        next :
            ((s' : Server) (u : Trace)
              → Books rest addrs v s' u
              → Total Kept (pass os order files rounds sock (i + 1) s' u))
            → (r : State) (u : Trace) → Kept r u
            → Total Kept (after_slot os order files (pass os order files rounds sock (i + 1)) r u)
        next more (s', true) u k = k
        next more (s', false) u k = more s' u k

    server_round_lem :
        (r : State) (t : Trace)
        → Kept r t
        → Total (λ l. Kept (state_of l)) (server_round os order files sock r t)
    unfolding server_round poll after_pass
    server_round_lem (s, escaped) t b =
        Total-if (λ l. Kept (state_of l)) (is_neg rc) _ _ (Event.poll rc ∷ t)
          (λ _. record {
            size = b.size;
            room = b.room;
            new = b.new;
            visitors = b.visitors;
            accounts = b.accounts;
            resolved = b.resolved;
          })
          (λ _.
            Total-bind Kept (λ l. Kept (state_of l)) (pass os order files max_connection sock 0 s')
              _ (Event.poll rc ∷ t)
              (pass_lem max_connection 0 s' (Event.poll rc ∷ t)
                (refresh-Books rest addrs v ready s t rc b))
              after)
      where
        fds : List ℕ
        fds = map (λ p. p.fd) (take s.nfds s.fds)

        rc : ℤ
        rc = os.on_poll t fds

        ready : ℕ → Bool
        ready = os.poll_in t fds

        s' : Server
        s' = record s { fds = refresh ready 0 s.nfds s.fds }

        after :
            (r : State) (u : Trace)
            → Kept r u
            → Total (λ l. Kept (state_of l)) (after_pass os order files r u)
        after (s'', true) u k = k
        after (s'', false) u k = k

-- The C++ server, for any port, any number of rounds, any trace and whatever its array holds at
-- first, has no undefined behaviour, and what is open is its table, those clients that came since
-- the end of the set-up when the table was full, and what was open at the start: its set-up and
-- its loop leak no address list, and nothing that is in the table was closed. This holds also
-- where an exception of the parser or of the router has ended the loop. If its set-up fails,
-- nothing more is open. (A success of the resolver names an address, and requests are shorter than
-- the buffer.)
pub http_server_lem :
    (os : Kernel) (order : Headers → Headers) (files : Files)
    → ResolvesSome os
    → ShortMessages os
    → (rounds : ℕ) (junk junk' : PollFd) (port : ℤ) (t : Trace)
    → Total (Serving os port t) (serve os order files rounds junk junk' port t)
unfolding serve start initial
http_server_lem os order files addr short rounds junk junk' port t =
    Total-bind (λ o u. (setup_socket os port t ≡ ok o u) × Opened t o u) (Serving os port t)
      (setup_socket os port) _ t
      (Total-run (Opened t) (setup_socket os port t) (setup_socket_lem os addr port t)) begin
  where
    begin :
        (o : Option ℕ) (u : Trace)
        → (setup_socket os port t ≡ ok o u) × Opened t o u
        → Total (Serving os port t) (start os order files rounds junk junk' o u)
    begin none u (e, q) = q
    begin (some sock) u (e, q) =
        Total-bind (λ (l : Loop State). Books (open_fds t) (open_addrs t) u (state_of l).0)
          (Serving os port t)
          (while_true rounds (server_round os order files sock) (initial sock junk junk', false)) _
          u
          (while_true-inv (λ (r : State). Books (open_fds t) (open_addrs t) u r.0)
            (server_round os order files sock)
            (server_round_lem os order files short (open_fds t) (open_addrs t) sock u) rounds
            (initial sock junk junk', false) u
            (record {
              size = refl;
              room = omega arith;
              new = [];
              visitors = refl;
              accounts = rw (q.0) (Perm.refl (sock ∷ open_fds t));
              resolved = q.1;
            }))
          (λ l w h. (sock, u, e, h))
