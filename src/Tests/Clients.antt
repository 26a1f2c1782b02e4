-- ===== src/Tests/Clients.antt =====
-- The client and its command line.
use linux_network_programmin.Base.{◌≡◌, refl, [], ◌∷◌, ◌++◌, some, arith, take}
use linux_network_programmin.Sys.Loop.{Total}
use linux_network_programmin.CString.{text}
use linux_network_programmin.Client.{command, client_round}
use linux_network_programmin.Client.Laws.{line_text, Asked, command_lem, client_round_lem}
use linux_network_programmin.Tests.Systems.{quitting, quitting-ShortMessages}

-- A line of Windows.
command_quit : command (some (text "quit" ++ (13 ∷ 10 ∷ []))) ≡ some (text "quit")
command_quit = command_lem (text "quit" ++ (13 ∷ 10 ∷ [])) (omega arith)

client_round_lem_example :
    Total
      (Asked 3 (line_text (take 1023 (text "quit" ++ (13 ∷ 10 ∷ [])))) [])
      (client_round quitting 3 tt [])
client_round_lem_example =
    client_round_lem quitting quitting-ShortMessages 3 (text "quit" ++ (13 ∷ 10 ∷ [])) [] refl
