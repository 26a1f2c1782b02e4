-- ===== src/Tests/FirstSteps.antt =====
-- The programs that send a request and receive a response.
use linux_network_programmin.Base.{
  ◌≡◌, refl, arith, pos, negsuc, [], none, some, length, length-append, if◌then◌else◌, ltb,
}
use linux_network_programmin.Sys.Partial.{Partial}
use linux_network_programmin.Sys.{Kernel, ◌>>=◌}
use linux_network_programmin.Sys.Loop.{Total, running, while_true}
use linux_network_programmin.CString.{text}
use linux_network_programmin.Redirect.Transfer.{send_loop}
use linux_network_programmin.Redirect.Transfer.Laws.{read}
use linux_network_programmin.FirstSteps.Send.{going, send_round, send_main}
use linux_network_programmin.FirstSteps.Send.Laws.{
  PortsSmall, Sent, negative, endless_loop, send_main_lem,
}
use linux_network_programmin.FirstSteps.Receive.{sending_round, sent_so_far, receive_main}
use linux_network_programmin.FirstSteps.Receive.Laws.{as_result, sending-send_loop}
use linux_network_programmin.FirstSteps.Receive.Run.{BriefResponses, Received, receive_main_lem}
use linux_network_programmin.Tests.Systems.{quitting, quitting-ResolvesSome}
use mathlib.Core.Option.{some-injective}

-- Every `send` fails.
abbrev broken : Kernel
broken = record quitting { on_send = λ t fd bytes. negsuc 0 }

-- Every `send` takes one byte.
abbrev slow : Kernel
slow = record quitting { on_send = λ t fd bytes. pos 1 }

-- A peer that sends two bytes and no more.
abbrev brief : Kernel
brief = record quitting {
  on_recv = λ t fd. if ltb 0 (length (read fd t)) then none else some (text "ok");
}

quitting-PortsSmall : PortsSmall quitting
quitting-PortsSmall t port e = omega (arith, some-injective _ _ e)

brief-BriefResponses : BriefResponses brief
brief-BriefResponses t fd bytes e = ground (arith, length-append (read fd t) bytes, e)

endless_loop_example :
    Total
      (λ l _. l ≡ running (going (negative 5)))
      (while_true 5 (send_round broken (pos 0) 3 (text "GET")) (going (negative 0)) [])
endless_loop_example =
    endless_loop broken 3 (text "GET") (λ t bytes. refl) (omega arith) 5 0 [] (omega arith)

send_main_lem_example : Partial (Sent []) (send_main quitting 3 [])
send_main_lem_example = send_main_lem quitting quitting-ResolvesSome quitting-PortsSmall 3 []

sending-send_loop_example :
    while_true 4 (sending_round slow 3 (text "GET")) (sent_so_far 0) []
    ≡ (send_loop slow 3 3 (text "GET") 0 >>= as_result) []
sending-send_loop_example =
    sending-send_loop slow 3 (text "GET") (λ t bytes. (0, refl)) 3 0 [] (omega arith)

receive_main_lem_example : Total (Received []) (receive_main brief 3 [])
receive_main_lem_example =
    receive_main_lem brief brief-BriefResponses 3 quitting-ResolvesSome quitting-PortsSmall []
