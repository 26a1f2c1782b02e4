-- ===== src/Sys/Arrivals.antt =====
-- The clients that have come to a server, and those that it had no room for.
use linux_network_programmin.Base.{ℕ, ◌+◌, pos, List, [], ◌∷◌, leb, length, if◌then◌else◌}
use linux_network_programmin.Sys.Types.{Event, Trace}
use linux_network_programmin.Sys.Resources.{open_fds}

-- Every client that was accepted, newest first, with how many descriptors were open before it.
abbrev pub arrivals : Trace → List (ℕ × ℕ)
arrivals [] = []
arrivals (Event.accept sock (pos fd) ∷ t) = (fd, length (open_fds t)) ∷ arrivals t
arrivals (e ∷ t) = arrivals t

-- The clients for which a server has no room: each came when as many descriptors were open as
-- there are places, `room`, and clients that were turned away before.
abbrev pub turned_away : ℕ → List (ℕ × ℕ) → List ℕ
turned_away room [] = []
turned_away room ((fd, n) ∷ came) =
    let away = turned_away room came in if leb (room + length away) n then fd ∷ away else away
