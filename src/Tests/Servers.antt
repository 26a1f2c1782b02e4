-- ===== src/Tests/Servers.antt =====
-- The poll server and the threads of the multithreaded one.
use linux_network_programmin.Base.{
  ◌<◌, ℕ, ◌≡◌, refl, pos, true, false, [], ◌∷◌, none, some, arith, replicate, length-replicate,
}
use mathlib.Core.List.Perm
use linux_network_programmin.Sys.{Event, Trace, ok, fault, ◌>>=◌, recv, time, send, close}
use linux_network_programmin.Sys.Loop.{Total}
use linux_network_programmin.CString.{text, upto_nul, same, received_text}
use linux_network_programmin.CString.Decimal.{decimal, digits_value}
use linux_network_programmin.Socket.Port.{port_text, port_text_lem, htons}
use linux_network_programmin.Poll.{
  empty_slot, Server, initial, drop_client, message_size, exchange, answer, serve_clients,
  run_server,
}
use linux_network_programmin.Poll.Slots.{IsValid, initial-IsValid, table-initial}
use linux_network_programmin.Poll.Clients.{Replied, exchange_reply, exchange_overflow}
use linux_network_programmin.Poll.Accounts.{Balanced}
use linux_network_programmin.Poll.Run.{Serving, run_server_lem}
use linux_network_programmin.Poll.Ready.{rest_of_pass, serve_clients_moved}
use linux_network_programmin.Session.{session_round}
use linux_network_programmin.Session.Laws.{Served, session_round_lem}
use linux_network_programmin.Tests.Systems.{
  quitting, flooding, quitting-ResolvesSome, quitting-ShortMessages,
}

-- Client 4 in slot 1 is ready, and client 5 in slot 2 is not.
abbrev two_clients : Server
two_clients = record {
  fds =
      record { fd = 3; events = true; revents = false }
      ∷ record { fd = 4; events = true; revents = true }
      ∷ record { fd = 5; events = true; revents = false }
      ∷ replicate 97 empty_slot;
  nfds = 3;
}

two_clients-IsValid : IsValid 3 two_clients
two_clients-IsValid = record {
  size = refl;
  listener = refl;
  used = omega arith;
  room = omega arith;
}

-- What an exchange with client 4 leaves.
abbrev served_4 : Trace
served_4 =
    Event.close 4
    ∷ Event.send 4 (text "Server time: 1700000000") (pos 23)
    ∷ Event.time 1700000000
    ∷ Event.recv 4 message_size (some (text "quit"))
    ∷ []

exchange_quit : exchange quitting 4 [] ≡ ok true served_4
unfolding exchange received_text same decimal recv answer time send close
exchange_quit = refl

listening : Trace
listening = Event.getaddrinfo none [] (some (1 ∷ [])) ∷ Event.socket (pos 3) ∷ []

initial-Balanced : Balanced 3 1 [] [] (initial 3) listening
unfolding listening
initial-Balanced = record {
  valid = initial-IsValid 3;
  accounts = rw (table-initial 3) (Perm.refl (3 ∷ []));
  resolved = refl;
  visitors = refl;
}

run_server_lem_example : Total (Serving quitting []) (run_server quitting 3 [])
run_server_lem_example = run_server_lem quitting quitting-ResolvesSome quitting-ShortMessages 3 []

exchange_reply_example :
    Replied 4
      (upto_nul (text "quit"))
      (Event.recv 4 message_size (some (text "quit")) ∷ [])
      (exchange quitting 4 [])
exchange_reply_example = exchange_reply quitting 4 (text "quit") [] refl (omega arith) (omega arith)

exchange_overflow_example : exchange flooding 4 [] ≡ fault
exchange_overflow_example =
    exchange_overflow flooding 4 (replicate 1024 65) [] refl
      (omega (arith, length-replicate {A = ℕ} 1024 65))

serve_clients_moved_example :
    serve_clients quitting 2 1 two_clients []
    ≡ (exchange quitting 5 >>= rest_of_pass quitting 0 1 (drop_client two_clients 1)) served_4
serve_clients_moved_example =
    serve_clients_moved quitting 3 0 1 two_clients [] served_4 two_clients-IsValid (omega arith)
      refl exchange_quit

session_round_lem_example :
    Total
      (Served 4 (upto_nul (text "quit")) (Event.recv 4 message_size (some (text "quit")) ∷ []))
      (session_round quitting 4 tt [])
session_round_lem_example =
    session_round_lem quitting 4 (text "quit") [] refl (omega arith) (omega arith)

port_text_lem_example :
    (port_text 45123 ≡ some (decimal 17328))
    × (digits_value 0 (decimal 17328) ≡ 17328)
    × (17328 < 65536)
    × (htons 17328 ≡ 45123)
port_text_lem_example = port_text_lem 45123 (omega arith)
