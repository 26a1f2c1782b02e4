-- ===== src/Tests/Select.antt =====
-- Concrete runs of the select server.
use mathlib.Core.List.Perm
use linux_network_programmin.Base.{◌≡◌, true, [], ◌∷◌, ◌==◌, replicate, arith, if◌then◌else◌}
use linux_network_programmin.Sys.Loop.{Total}
use linux_network_programmin.Select.{Server, run_server, scan}
use linux_network_programmin.Select.Scan.{scan_rounds}
use linux_network_programmin.Select.Run.{Outcome, select_server_lem}
use linux_network_programmin.Tests.Systems.{
  quitting, quitting-ResolvesSome, quitting-ShortMessages, quitting-AcceptsSmall,
  quitting-SocketsSmall,
}

-- The listening socket 3 and the client 7.
abbrev one_client : Server
one_client = record {
  fds_client = 7 ∷ replicate 99 0;
  master_set = λ k. if k == 3 then true else k == 7;
  global_max_fd = 7;
}

select_server_lem_example : Total (Outcome quitting []) (run_server quitting 2 [])
select_server_lem_example =
    select_server_lem quitting quitting-ResolvesSome quitting-SocketsSmall quitting-AcceptsSmall
      quitting-ShortMessages 2 []

scan_rounds_example :
    scan quitting 3 1024 0 one_client.master_set one_client []
    ≡ scan quitting 3 2000 0 one_client.master_set one_client []
scan_rounds_example =
    scan_rounds quitting 3 1024 2000 0 one_client.master_set one_client [] (omega arith)
      (omega arith) (omega arith)
