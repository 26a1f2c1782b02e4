-- ===== src/Programs/Laws.antt =====
-- What a program does with its command line.
use linux_network_programmin.Base.{
  ℕ, ◌≡◌, refl, ap, ◌⊎◌, inl, inr, ℤ, negsuc, false, List, [], ◌∷◌, arith, Option, some,
}
use linux_network_programmin.Sys.{Bytes, Kernel, Event, Trace, M, ok, print_usage}
use linux_network_programmin.Sys.Loop.{Loop, Total, Total-bind, Total-run, Total-if}
use linux_network_programmin.CString.{text, same}
use linux_network_programmin.CString.Laws.{same_iff}
use linux_network_programmin.Socket.Listen.Laws.{ResolvesSome}
use linux_network_programmin.Poll.Clients.{ShortMessages}
use linux_network_programmin.Poll.Run.{Serving, run_server_lem}
use linux_network_programmin.Client.Run.{Asking, run_client_lem}
use linux_network_programmin.Select.Accounts.{AcceptsSmall}
use linux_network_programmin.Select.Run.{SocketsSmall, Outcome, select_server_lem}
use linux_network_programmin.NonBlocking.Laws.{Holding, run_server_resources}
use linux_network_programmin.NonBlocking.Client.Laws.{time_client_lem}
use linux_network_programmin.Poll
use linux_network_programmin.Select
use linux_network_programmin.NonBlocking
use linux_network_programmin.Programs.{
  exit_status, main, poll_client, poll_main, select_client, select_main, non_blocking_main,
}

-- The one argument of a command line names a part of the program.
abbrev pub Names : Bytes → List Bytes → Type 0
Names name argv = (program : Bytes) × (argv ≡ program ∷ name ∷ [])

-- The program did what its part does, which leaves `P`, and it has the status of that run: none
-- while the part goes on, and 0 if it has returned.
abbrev pub Ran :
    {S : Type 0}
    → M (Option (Loop S))
    → (Option (Loop S) → Trace → Type 0)
    → Trace
    → Option ℤ
    → Trace
    → Type 0
Ran {S} part P t status t' =
    (r : Option (Loop S)) × (part t ≡ ok r t') × P r t' × (status ≡ exit_status r)

-- What a program does, by its command line: a run of the server, which leaves `P`, or of the
-- client, which leaves `Q`; or else the usage, with the status -1.
abbrev pub Exited :
    {S C : Type 0}
    → M (Option (Loop S))
    → M (Option (Loop C))
    → (Option (Loop S) → Trace → Type 0)
    → (Option (Loop C) → Trace → Type 0)
    → List Bytes
    → Trace
    → Option ℤ
    → Trace
    → Type 0
Exited server client P Q argv t status t' =
    (Names (text "server") argv × Ran server P t status t')
    ⊎ (Names (text "client") argv × Ran client Q t status t')
    ⊎ ((¬ Names (text "server") argv)
        × (¬ Names (text "client") argv)
        × (t' ≡ Event.print_usage ∷ t)
        × (status ≡ some (negsuc 0)))

pub main_lem :
    {S C : Type 0} (P : Option (Loop S) → Trace → Type 0) (Q : Option (Loop C) → Trace → Type 0)
    (server : M (Option (Loop S))) (client : M (Option (Loop C))) (t : Trace)
    → Total P (server t)
    → Total Q (client t)
    → (argv : List Bytes) → Total (Exited server client P Q argv t) (main server client argv t)
unfolding main print_usage
main_lem P Q server client t h k [] = inr (inr ((λ (p, e). cc), (λ (p, e). cc), refl, refl))
main_lem P Q server client t h k (program ∷ []) =
    inr (inr ((λ (p, e). cc), (λ (p, e). cc), refl, refl))
main_lem P Q server client t h k (program ∷ a ∷ b ∷ argv) =
    inr (inr ((λ (p, e). cc), (λ (p, e). cc), refl, refl))
main_lem P Q server client t h k (program ∷ argument ∷ []) =
    Total-if (Exited server client P Q (program ∷ argument ∷ []) t) (same argument (text "server"))
      _ _ t
      (λ e.
        Total-bind (λ r u. (server t ≡ ok r u) × P r u)
          (Exited server client P Q (program ∷ argument ∷ []) t) server _ t
          (Total-run P (server t) h)
          (λ r t' (e', p). inl (
            (program, ap (λ x. program ∷ x ∷ []) ((same_iff argument (text "server")).0 e)),
            (r, e', p, refl),
          )))
      (λ e.
        Total-if (Exited server client P Q (program ∷ argument ∷ []) t)
          (same argument (text "client")) _ _ t
          (λ e'.
            Total-bind (λ r u. (client t ≡ ok r u) × Q r u)
              (Exited server client P Q (program ∷ argument ∷ []) t) client _ t
              (Total-run Q (client t) k)
              (λ r t' (e'', q). inr (
                inl (
                  (program, ap (λ x. program ∷ x ∷ []) ((same_iff argument (text "client")).0 e')),
                  (r, e'', q, refl),
                ))))
          (λ e'. inr (inr (other (text "server") e, other (text "client") e', refl, refl))))
  where
    other : (name : Bytes) → same argument name ≡ false → ¬ Names name (program ∷ argument ∷ [])
    other name e (p, q) = ground (arith, same_iff argument name, q)

-- A run of the poll program has no undefined behaviour, for any command line. With the one argument
-- "server" or "client" it does what its server or its client does, and its status is 0 where that
-- returns, and none while its loop goes on; else it prints its usage, does nothing more, and its
-- status is -1. (A success of the resolver names
-- an address, and no message fills its buffer.)
pub poll_main_lem :
    (os : Kernel)
    → ResolvesSome os
    → ShortMessages os
    → (rounds : ℕ) (argv : List Bytes) (t : Trace)
    → Total
        (Exited
          (Poll.run_server os rounds)
          (poll_client os rounds)
          (Serving os t)
          (Asking t)
          argv
          t)
        (poll_main os rounds argv t)
unfolding poll_main poll_client
poll_main_lem os addr short rounds argv t =
    main_lem (Serving os t) (Asking t) _ _ t (run_server_lem os addr short rounds t)
      (run_client_lem os addr short rounds t) argv

-- The same of the select program, where also the descriptors of sockets and clients fit an
-- `fd_set`, and none is that of the standard input.
pub select_main_lem :
    (os : Kernel)
    → ResolvesSome os
    → ShortMessages os
    → SocketsSmall os
    → AcceptsSmall os
    → (rounds : ℕ) (argv : List Bytes) (t : Trace)
    → Total
        (Exited
          (Select.run_server os rounds)
          (select_client os rounds)
          (Outcome os t)
          (Asking t)
          argv
          t)
        (select_main os rounds argv t)
unfolding select_main select_client
select_main_lem os addr short sockets small rounds argv t =
    main_lem (Outcome os t) (Asking t) _ _ t
      (select_server_lem os addr sockets small short rounds t)
      (run_client_lem os addr short rounds t) argv

-- The same of the non-blocking program, under the hypotheses of the poll program.
pub non_blocking_main_lem :
    (os : Kernel)
    → ResolvesSome os
    → ShortMessages os
    → (rounds : ℕ) (argv : List Bytes) (t : Trace)
    → Total
        (Exited
          (NonBlocking.run_server os rounds)
          (NonBlocking.Client.run_client os rounds)
          (Holding t)
          (Asking t)
          argv
          t)
        (non_blocking_main os rounds argv t)
unfolding non_blocking_main
non_blocking_main_lem os addr short rounds argv t =
    main_lem (Holding t) (Asking t) _ _ t (run_server_resources os addr short rounds t)
      (time_client_lem os addr short rounds t) argv
