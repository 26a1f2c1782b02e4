-- ===== src/Session/Thread.antt =====
-- The whole thread of a client: how it ends, and whether its descriptor is closed then.
use mathlib.Core.Option
use linux_network_programmin.Base.{ℕ, ◌≡◌, ◌⊎◌, ◌∷◌, Option}
use linux_network_programmin.Sys.{Kernel, Event, Trace, report_error}
use linux_network_programmin.Sys.Loop.{Loop}
use linux_network_programmin.Sys.Resources.{open_fds}
use linux_network_programmin.Poll.Clients.{ShortMessages}

-- After a stop request the descriptor is closed. After a disconnection it is still open.
abbrev pub Left : ℕ → Trace → Trace → Type 0
Left fd t t' =
    (open_fds t' ≡ open_fds (Event.close fd ∷ t))
    ⊎ ((u : Trace) × (t' ≡ Event.report_error "Client is disconnected" ∷ u)
        × (open_fds t' ≡ open_fds t))

module _ (os : Kernel) (short : ShortMessages os) (fd : ℕ) (t : Trace) where
  -- While the thread runs, and when it has ended.
  abbrev Open : Unit {0} → Trace → Type 0
  Open _ u = open_fds u ≡ open_fds t

  abbrev Over : Unit {0} → Trace → Type 0
  Over _ u = Left fd t u
