-- ===== src/Programs/Others.antt =====
-- The simple program, that on datagrams and the TLS program as a whole.
use linux_network_programmin.Base.{ℕ, List}
use linux_network_programmin.Sys.{Bytes, Kernel, Trace}
use linux_network_programmin.Sys.Loop.{Total}
use linux_network_programmin.Socket.Listen.Laws.{ResolvesSome}
use linux_network_programmin.Poll.Clients.{ShortMessages}
use linux_network_programmin.Client.Run.{Asking}
use linux_network_programmin.Simple.Laws.{Serving, simple_server_lem}
use linux_network_programmin.Simple.Client.Laws.{simple_client_lem}
use linux_network_programmin.Simple
use linux_network_programmin.Udp
use linux_network_programmin.Udp.Laws.{ShortDatagrams}
use linux_network_programmin.Udp.Run.{udp_server_lem}
use linux_network_programmin.Udp.Client.Run.{udp_client_lem}
use linux_network_programmin.Programs.{simple_main, udp_main}
use linux_network_programmin.Programs.Laws.{Exited, main_lem}

-- A run of the simple program has no undefined behaviour, for any command line. With the one
-- argument "server" or "client" it does what its server or its client does, and its status is 0
-- where that returns, and none while its loop goes on; else it prints its usage, does nothing
-- more, and its status is -1. (A success of the resolver
-- names an address, and messages are shorter than the buffers.)
pub simple_main_lem :
    (os : Kernel)
    → ResolvesSome os
    → ShortMessages os
    → (rounds : ℕ) (argv : List Bytes) (t : Trace)
    → Total
        (Exited
          (Simple.run_server os rounds)
          (Simple.Client.run_client os rounds)
          (Serving t)
          (Asking t)
          argv
          t)
        (simple_main os rounds argv t)
unfolding simple_main
simple_main_lem os addr short rounds argv t =
    main_lem (Serving t) (Asking t) _ _ t (simple_server_lem os addr short rounds t)
      (simple_client_lem os addr short rounds t) argv

-- A run of the program on datagrams has no undefined behaviour, for any command line. With the one
-- argument "server" or "client" it does what its server or its client does, and its status is 0
-- where that returns, and none while its loop goes on; else it prints its usage, does nothing
-- more, and its status is -1. (A success of the resolver
-- names an address, and no datagram fills a buffer.)
pub udp_main_lem :
    (os : Kernel)
    → ResolvesSome os
    → ShortDatagrams os
    → (rounds : ℕ) (argv : List Bytes) (t : Trace)
    → Total
        (Exited
          (Udp.run_server os rounds)
          (Udp.Client.run_client os rounds)
          (Udp.Run.Serving t)
          (Udp.Client.Run.Asking t)
          argv
          t)
        (udp_main os rounds argv t)
unfolding udp_main
udp_main_lem os addr short rounds argv t =
    main_lem (Udp.Run.Serving t) (Udp.Client.Run.Asking t) _ _ t
      (udp_server_lem os addr short rounds t) (udp_client_lem os addr short rounds t) argv
