-- ===== src/Tests/Secure.antt =====
-- The TLS server and client, and the HTTPS client.
use linux_network_programmin.Base.{refl, arith, [], ◌∷◌, ◌++◌, take, ◌-◌}
use linux_network_programmin.Sys.Loop.{Total}
use linux_network_programmin.CString.{text, upto_nul}
use linux_network_programmin.Client.{message_size}
use linux_network_programmin.Client.Laws.{line_text}
use linux_network_programmin.Tls.Server.{run_tls_server}
use linux_network_programmin.Tls.Server.Laws.{Served, run_tls_server_lem}
use linux_network_programmin.Tls.Client.{tls_client_round, run_tls_client}
use linux_network_programmin.Tls.Client.Laws.{Commanded, tls_client_round_lem}
use linux_network_programmin.Tls.Client.Run.{Left, run_tls_client_lem}
use linux_network_programmin.Https.{perform_https_request}
use linux_network_programmin.Https.Laws.{IsHost, Fetched, perform_https_request_lem}
use linux_network_programmin.Tests.Systems.{
  quitting, quitting-ResolvesSome, quitting-HandlesMade, quitting-ShortRecords,
}

run_tls_server_lem_example : Total (Served []) (run_tls_server quitting 3 [])
run_tls_server_lem_example =
    run_tls_server_lem quitting quitting-HandlesMade quitting-ShortRecords quitting-ResolvesSome 3
      []

run_tls_client_lem_example : Total (Left []) (run_tls_client quitting 3 [])
run_tls_client_lem_example =
    run_tls_client_lem quitting quitting-ShortRecords 3 quitting-ResolvesSome []

tls_client_round_lem_example :
    Total
      (Commanded 8 (line_text (take (message_size - 1) (text "quit" ++ (13 ∷ 10 ∷ [])))) [])
      (tls_client_round quitting 8 tt [])
tls_client_round_lem_example =
    tls_client_round_lem quitting quitting-ShortRecords 8 (text "quit" ++ (13 ∷ 10 ∷ [])) [] refl

localhost-IsHost : IsHost (text "localhost")
unfolding upto_nul
localhost-IsHost = (refl, omega arith)

perform_https_request_lem_example :
    Total
      (Fetched (text "localhost") [])
      (perform_https_request quitting (text "localhost") 7 (text "443") [])
perform_https_request_lem_example =
    perform_https_request_lem quitting (text "localhost") 7 localhost-IsHost quitting-ResolvesSome
      (text "443") []
