-- ===== src/Programs.antt =====
-- `main` of the programs 08 to 13 of 00_tutorials and of the TLS program, which have the same
-- lines, with the server and the client of each that is modelled.
pub mod Laws
pub mod Others
use linux_network_programmin.Base.{
  ℕ, ℤ, pos, negsuc, List, [], ◌∷◌, Option, none, some, if◌then◌else◌,
}
use linux_network_programmin.Sys.{Bytes, Kernel, M, pure, ◌>>=◌, ◌>>◌, print_usage}
use linux_network_programmin.Sys.Loop.{Loop, running, stopped}
use linux_network_programmin.CString.{text, same}
use linux_network_programmin.Poll
use linux_network_programmin.Client
use linux_network_programmin.Select
use linux_network_programmin.NonBlocking
use linux_network_programmin.Simple
use linux_network_programmin.Udp
use linux_network_programmin.Tls

usage : M (Option ℤ)
usage = do print_usage; pure (some (negsuc 0))

-- The exit status after a part of the program: none while its loop goes on, and 0 after a return.
abbrev pub exit_status : {S : Type 0} → Option (Loop S) → Option ℤ
exit_status none = some (pos 0)
exit_status (some (running s)) = none
exit_status (some (stopped s)) = some (pos 0)

-- The exit status, from the command line; `none` if the program has not ended.
unfoldable pub main :
    {S C : Type 0} → M (Option (Loop S)) → M (Option (Loop C)) → List Bytes → M (Option ℤ)
unfolding usage
main run_server run_client (program ∷ argument ∷ []) =
    if same argument (text "server")
    then (do s ← run_server; pure (exit_status s))
    else (if same argument (text "client")
        then (do c ← run_client; pure (exit_status c))
        else usage)
main run_server run_client [] = usage
main run_server run_client (program ∷ []) = usage
main run_server run_client (program ∷ a ∷ b ∷ argv) = usage

module _ (os : Kernel) (rounds : ℕ) where
  -- The client of the poll program: the interactive client.
  unfoldable pub poll_client : M (Option (Loop (Unit {0})))
  poll_client = Client.run_client os rounds

  unfoldable pub poll_main : List Bytes → M (Option ℤ)
  poll_main argv = main (Poll.run_server os rounds) poll_client argv

  -- The client of the select program has the same lines.
  unfoldable pub select_client : M (Option (Loop (Unit {0})))
  select_client = Client.run_client os rounds

  unfoldable pub select_main : List Bytes → M (Option ℤ)
  select_main argv = main (Select.run_server os rounds) select_client argv

  unfoldable pub non_blocking_main : List Bytes → M (Option ℤ)
  non_blocking_main argv =
      main (NonBlocking.run_server os rounds) (NonBlocking.Client.run_client os rounds) argv

  unfoldable pub simple_main : List Bytes → M (Option ℤ)
  simple_main argv = main (Simple.run_server os rounds) (Simple.Client.run_client os rounds) argv

  unfoldable pub udp_main : List Bytes → M (Option ℤ)
  udp_main argv = main (Udp.run_server os rounds) (Udp.Client.run_client os rounds) argv

  unfoldable pub tls_main : List Bytes → M (Option ℤ)
  tls_main argv =
      main (Tls.Server.run_tls_server os rounds) (Tls.Client.run_tls_client os rounds) argv
