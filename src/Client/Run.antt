-- ===== src/Client/Run.antt =====
-- The client as a whole: what it leaves open.
use linux_network_programmin.Base.{ℕ, ◌≡◌, refl, ◌∙◌, Option, none, some, arith}
use linux_network_programmin.Sys.{Bytes, Kernel, Trace, freeaddrinfo, close}
use linux_network_programmin.Sys.Loop.{
  Loop, running, stopped, Total, Total-bind, Total-mono, while_true, while_true-inv,
}
use linux_network_programmin.Sys.Resources.{open_fds, erase_head}
use linux_network_programmin.Socket.Listen.Laws.{ResolvesSome, SameOpen, OpenedOne}
use linux_network_programmin.Socket.Connect.{open_connection}
use linux_network_programmin.Socket.Connect.Laws.{open_connection_lem}
use linux_network_programmin.Poll.Clients.{ShortMessages}
use linux_network_programmin.Client.{client_round, leave, connected, run_client}
use linux_network_programmin.Client.Laws.{Asked, client_round_lem, client_round_end}

-- What is open after a client that started at `t`: one that still runs has its connection and its
-- address list.
abbrev pub Asking : Trace → Option (Loop (Unit {0})) → Trace → Type 0
Asking t none t' = SameOpen t t'
Asking t (some (running x)) t' = (fd : ℕ) × OpenedOne t (some fd) t'
Asking t (some (stopped x)) t' = SameOpen t t'

module _ (os : Kernel) (short : ShortMessages os) (fd : ℕ) where
  round-SameOpen :
      (t : Trace) (o : Option Bytes)
      → os.on_fgets t ≡ o
      → Total (λ _ t'. SameOpen t t') (client_round os fd tt t)
  round-SameOpen t none e =
      Total-mono (Asked fd _ t) (λ _ t'. SameOpen t t') (client_round os fd tt t)
        (λ l t' (sent, last, end, q). q) (client_round_end os short fd t e)
  round-SameOpen t (some line) e =
      Total-mono (Asked fd _ t) (λ _ t'. SameOpen t t') (client_round os fd tt t)
        (λ l t' (sent, last, end, q). q) (client_round_lem os short fd line t e)

  leave_lem :
      (t : Trace) (l : Loop (Unit {0})) (u : Trace)
      → OpenedOne t (some fd) u
      → Total (λ l'. Asking t (some l')) (leave os fd l u)
  unfolding leave freeaddrinfo close
  leave_lem t (running x) u q = (fd, q)
  leave_lem t (stopped x) u q = (rw q.0 (erase_head fd (open_fds t)), omega (arith, q.1))

  connected_lem :
      (rounds : ℕ) (t u : Trace)
      → OpenedOne t (some fd) u
      → Total (Asking t) (connected os rounds (some fd) u)
  unfolding connected
  connected_lem rounds t u q =
      Total-bind (λ _. OpenedOne t (some fd)) (Asking t) (while_true rounds (client_round os fd) tt)
        _ u
        (while_true-inv (λ _. OpenedOne t (some fd)) (client_round os fd)
          (λ _ v h.
            Total-mono (λ _ w. SameOpen v w) (λ _ w. OpenedOne t (some fd) w)
              (client_round os fd tt v) (λ l w k. (k.0 ∙ h.0, k.1 ∙ h.1))
              (round-SameOpen v (os.on_fgets v) refl))
          rounds tt u q)
        (λ l v h.
          Total-bind (λ l'. Asking t (some l')) (Asking t) (leave os fd l) _ v (leave_lem t l v h)
            (λ l' w k. k))

-- A client, for any number of commands and from any trace, has no undefined behaviour; one that
-- ended or could not start has released all that it opened, and one that runs holds its connection
-- and its address list. (A success of the resolver names an address, and no response fills the
-- buffer.)
pub run_client_lem :
    (os : Kernel)
    → ResolvesSome os
    → ShortMessages os
    → (rounds : ℕ) (t : Trace) → Total (Asking t) (run_client os rounds t)
unfolding run_client connected
run_client_lem os addr short rounds t =
    Total-bind (OpenedOne t) (Asking t) (open_connection os) _ t (open_connection_lem os addr t)
      start
  where
    start :
        (o : Option ℕ) (u : Trace) → OpenedOne t o u → Total (Asking t) (connected os rounds o u)
    start none u q = q
    start (some fd) u q = connected_lem os short fd rounds t u q
