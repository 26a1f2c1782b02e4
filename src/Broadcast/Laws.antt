-- ===== src/Broadcast/Laws.antt =====
-- What the sending thread broadcasts.
use linux_network_programmin.Base.{
  ℕ, ◌+◌, ◌≤◌, ◌≡◌, [], ◌∷◌, ◌++◌, List, Option, none, some, arith, length, length-replicate,
  replicate,
}
use linux_network_programmin.Sys.{Bytes, Kernel, Event, Trace, fault, ◌>>=◌, ◌>>◌, sendto, sleep}
use linux_network_programmin.Sys.Loop.{Loop}
use linux_network_programmin.CString.{zeroed, c_string}
use linux_network_programmin.CString.Decimal.{sprintf}
use linux_network_programmin.Broadcast.{message_size, broadcast_text, sender_round}

-- The datagrams that were sent, newest first.
abbrev pub datagrams : Trace → List (ℕ × Bytes × ℕ)
datagrams [] = []
datagrams (Event.sendto fd bytes addr rc ∷ t) = (fd, bytes, addr) ∷ datagrams t
datagrams (e ∷ t) = datagrams t

-- The seconds that were slept.
abbrev pub slept : Trace → ℕ
slept [] = 0
slept (Event.sleep n ∷ t) = n + slept t
slept (e ∷ t) = slept t

-- Since `t`, `n` datagrams with the array `message` were sent from `fd`, with a second after each.
abbrev pub Announced : ℕ → ℕ → Bytes → ℕ → Trace → Trace → Type 0
Announced n fd message addr t u =
    (datagrams u ≡ replicate n (fd, message, addr) ++ datagrams t) × (slept u ≡ n + slept t)

-- After a number of rounds: one datagram for each, with a second after it.
abbrev pub Broadcasts : ℕ → Bytes → ℕ → Trace → Option (Loop (Unit {0})) → Trace → Type 0
Broadcasts rounds s addr t none u = datagrams u ≡ datagrams t
Broadcasts rounds s addr t (some l) u =
    (fd : ℕ) × (message : Bytes) × (c_string message ≡ some s)
    × (length message ≡ message_size)
    × Announced rounds fd message addr t u

-- A nickname that leaves no room makes the first round write past the array.
pub sender_round_overflow :
    (os : Kernel) (addr fd : ℕ) (nick_name : Bytes) (t : Trace)
    → message_size ≤ length (broadcast_text nick_name)
    → sender_round os addr nick_name fd tt t ≡ fault
unfolding sender_round sprintf zeroed
sender_round_overflow os addr fd nick_name t h =
    ground (arith, length-replicate {A = ℕ} message_size 0)
