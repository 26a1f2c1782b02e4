-- ===== src/Sys/Resources.antt =====
-- What a trace leaves open: descriptors that were opened and not closed, in the order of opening,
-- newest first, and address lists that were resolved and not freed; and what it has sent, and the
-- times that it has read.
use native.Mathlib.Decide.{ℕ_discrete}
use mathlib.Core.List.{erase}
use mathlib.Core.Logic.{if_pos}
use linux_network_programmin.Base.{ℕ, suc, ◌-◌, ℤ, pos, List, [], ◌∷◌, some, ◌≡◌, refl}
use linux_network_programmin.Sys.Types.{Event, Trace, Bytes}

abbrev opens : Event → List ℕ → List ℕ
opens (Event.socket (pos fd)) fds = fd ∷ fds
opens (Event.accept l (pos fd)) fds = fd ∷ fds
opens (Event.close fd) fds = erase ℕ_discrete fds fd
opens _ fds = fds

abbrev pub open_fds : Trace → List ℕ
open_fds [] = []
open_fds (e ∷ t) = opens e (open_fds t)

abbrev allocates : Event → ℕ → ℕ
allocates (Event.getaddrinfo host port (some addrs)) n = suc n
allocates Event.freeaddrinfo n = n - 1
allocates _ n = n

abbrev pub open_addrs : Trace → ℕ
open_addrs [] = 0
open_addrs (e ∷ t) = allocates e (open_addrs t)

-- Every `send`, newest first: its descriptor, its bytes and its result.
abbrev pub sends : Trace → List (ℕ × Bytes × ℤ)
sends [] = []
sends (Event.send fd bytes r ∷ t) = (fd, bytes, r) ∷ sends t
sends (e ∷ t) = sends t

-- Every `SSL_write`, with its handle.
abbrev pub writes : Trace → List (ℕ × Bytes × ℤ)
writes [] = []
writes (Event.ssl_write handle bytes r ∷ t) = (handle, bytes, r) ∷ writes t
writes (e ∷ t) = writes t

-- The results of `time`.
abbrev pub times : Trace → List ℕ
times [] = []
times (Event.time now ∷ t) = now ∷ times t
times (e ∷ t) = times t

-- Closing the newest descriptor leaves the older ones.
pub erase_head : (fd : ℕ) (fds : List ℕ) → erase ℕ_discrete (fd ∷ fds) fd ≡ fds
erase_head fd fds = rw (if_pos (ℕ_discrete fd fd) refl) refl
