-- ===== src/Tests/Datagrams.antt =====
-- The programs on datagrams, on a system where every datagram says "hello".
use linux_network_programmin.Base.{ℕ, ◌≡◌, refl, ℤ, pos, [], ◌∷◌, ◌++◌, some, arith, length}
use mathlib.Core.Option.{some-injective}
use linux_network_programmin.Sys.{Event, ok}
use linux_network_programmin.Sys.Loop.{running, stopped}
use linux_network_programmin.CString.{text, same}
use linux_network_programmin.Session.{is_stop}
use linux_network_programmin.Udp.{message_size, reply_text, server_round}
use linux_network_programmin.Udp.Laws.{ShortDatagrams, complaint, server_round-reply}
use linux_network_programmin.Udp.Client.{client_round}
use linux_network_programmin.Udp.Client.Laws.{client_round-redirected}
use linux_network_programmin.Tests.Systems.{quitting}

pub quitting-ShortDatagrams : ShortDatagrams quitting
quitting-ShortDatagrams t fd d e = rw (← some-injective _ _ e) (omega arith)

server_round-reply_example :
    (now : ℕ) × (rc : ℤ) × (server_round quitting 3 tt []
      ≡ ok (running tt) (
          complaint rc (length (reply_text now)) (
            Event.sendto 3 (reply_text now) 9 rc
            ∷ Event.time now
            ∷ Event.recvfrom 3 message_size (some (text "hello", 9))
            ∷ [])))
server_round-reply_example =
    server_round-reply quitting 3 (text "hello") 9 [] refl (omega arith) (omega arith)

-- The first request goes to address 1; the response comes from address 9.
client_round-redirected_example :
    client_round quitting 3 1 []
    ≡ ok (stopped 9) (
        Event.recvfrom 3 message_size (some (text "hello", 9))
        ∷ Event.sendto 3 (text "quit") 1 (pos 4)
        ∷ Event.fgets 1023 (some (text "quit" ++ (13 ∷ 10 ∷ [])))
        ∷ [])
unfolding is_stop same
client_round-redirected_example =
    client_round-redirected quitting 3 1 (text "quit" ++ (13 ∷ 10 ∷ [])) (text "hello") 9 [] refl
      refl refl (omega arith) (omega arith)
