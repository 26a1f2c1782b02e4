-- ===== src/Tests/Programs.antt =====
-- Concrete runs of whole programs and of the non-blocking server.
use linux_network_programmin.Base.{pos, [], ◌∷◌}
use linux_network_programmin.Sys.Loop.{Total, state_of, while_true}
use linux_network_programmin.CString.{text}
use linux_network_programmin.Poll.Run.{Serving}
use linux_network_programmin.Client.Run.{Asking}
use linux_network_programmin.NonBlocking.{server_round}
use linux_network_programmin.NonBlocking.Laws.{Unmoved, Holding, server_rounds_lem}
use linux_network_programmin.Programs.{
  poll_client, poll_main, non_blocking_main, simple_main, udp_main,
}
use linux_network_programmin.Programs.Others.{simple_main_lem, udp_main_lem}
use linux_network_programmin.Poll
use linux_network_programmin.NonBlocking
use linux_network_programmin.Simple
use linux_network_programmin.Udp
use linux_network_programmin.Tests.Datagrams.{quitting-ShortDatagrams}
use linux_network_programmin.Programs.Laws.{Exited, poll_main_lem, non_blocking_main_lem}
use linux_network_programmin.Tests.Systems.{quitting, quitting-ResolvesSome, quitting-ShortMessages}

server_rounds_lem_example :
    Total (λ l. Unmoved (pos 4) [] (state_of l)) (while_true 3 (server_round quitting 3) (pos 4) [])
server_rounds_lem_example = server_rounds_lem quitting quitting-ShortMessages 3 4 3 []

poll_main_lem_example :
    Total
      (Exited
        (Poll.run_server quitting 2)
        (poll_client quitting 2)
        (Serving quitting [])
        (Asking [])
        (text "poll" ∷ text "server" ∷ [])
        [])
      (poll_main quitting 2 (text "poll" ∷ text "server" ∷ []) [])
poll_main_lem_example =
    poll_main_lem quitting quitting-ResolvesSome quitting-ShortMessages 2
      (text "poll" ∷ text "server" ∷ []) []

non_blocking_main_lem_example :
    Total
      (Exited
        (NonBlocking.run_server quitting 2)
        (NonBlocking.Client.run_client quitting 2)
        (Holding [])
        (Asking [])
        (text "tcp" ∷ text "server" ∷ [])
        [])
      (non_blocking_main quitting 2 (text "tcp" ∷ text "server" ∷ []) [])
non_blocking_main_lem_example =
    non_blocking_main_lem quitting quitting-ResolvesSome quitting-ShortMessages 2
      (text "tcp" ∷ text "server" ∷ []) []

simple_main_lem_example :
    Total
      (Exited
        (Simple.run_server quitting 2)
        (Simple.Client.run_client quitting 2)
        (Simple.Laws.Serving [])
        (Asking [])
        (text "tcp" ∷ text "server" ∷ [])
        [])
      (simple_main quitting 2 (text "tcp" ∷ text "server" ∷ []) [])
simple_main_lem_example =
    simple_main_lem quitting quitting-ResolvesSome quitting-ShortMessages 2
      (text "tcp" ∷ text "server" ∷ []) []

udp_main_lem_example :
    Total
      (Exited
        (Udp.run_server quitting 2)
        (Udp.Client.run_client quitting 2)
        (Udp.Run.Serving [])
        (Udp.Client.Run.Asking [])
        (text "udp" ∷ text "client" ∷ [])
        [])
      (udp_main quitting 2 (text "udp" ∷ text "client" ∷ []) [])
udp_main_lem_example =
    udp_main_lem quitting quitting-ResolvesSome quitting-ShortDatagrams 2
      (text "udp" ∷ text "client" ∷ []) []
