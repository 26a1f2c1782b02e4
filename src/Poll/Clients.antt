-- ===== src/Poll/Clients.antt =====
-- One ready client: when its connection is closed, and what of the server's books changes.
use mathlib.Core.Option
use mathlib.Core.Option.{some-injective}
use linux_network_programmin.Base.{
  ℕ, ◌<◌, ◌≡◌, refl, ap, ◌∙◌, Bool, true, false, [], ◌∷◌, Option, none, some, arith, length, take,
  length-take, ◌≤◌, ◌++◌, ◌⊎◌, ◌↔◌, ℤ, is_nonpos, if◌then◌else◌, take_of_length_le, ◌||◌,
}
use linux_network_programmin.Sys.{
  ok, fault, Run, pure, ◌>>◌, Kernel, Event, Trace, Bytes, report_error, close, recv, send, time,
}
use linux_network_programmin.Sys.Loop.{Total, Total-mono}
use linux_network_programmin.Sys.Resources.{open_fds, open_addrs}
use linux_network_programmin.Sys.Arrivals.{arrivals}
use linux_network_programmin.CString.Laws.{received_text-short, received_text-full, same_iff}
use linux_network_programmin.CString.{text, same, upto_nul}
use linux_network_programmin.Poll.{message_size, server_time, received, answer, exchange}

-- No message fills the request buffer, so that `request_buffer[received_bytes] = 0` is in bounds.
abbrev pub ShortMessages : Kernel → Type 0
ShortMessages os =
    (t : Trace) (fd : ℕ) (bytes : Bytes)
    → os.on_recv t fd ≡ some bytes
    → length bytes < message_size

-- The client's descriptor is closed if it is said to be gone, and nothing else is; none comes.
abbrev pub ClosedIf : ℕ → Trace → Bool → Trace → Type 0
ClosedIf fd t true t' =
    (open_fds t' ≡ open_fds (Event.close fd ∷ t))
    × (open_addrs t' ≡ open_addrs t)
    × (arrivals t' ≡ arrivals t)
ClosedIf fd t false t' =
    (open_fds t' ≡ open_fds t) × (open_addrs t' ≡ open_addrs t) × (arrivals t' ≡ arrivals t)

-- The reply to a request: the time, one `send`, and the close of a client that goes.
abbrev pub Replied : ℕ → Bytes → Trace → Run Bool → Type 0
Replied fd request u r =
    (now : ℕ) × (sent : ℤ) × (gone : Bool) × (r
      ≡ ok gone (
          (if gone then Event.close fd ∷ [] else [])
          ++ (Event.send fd (server_time now) sent ∷ Event.time now ∷ u)))
    × ((gone ≡ true)
        ↔ ((is_nonpos sent ≡ true) ⊎ (request ≡ text "quit") ⊎ (request ≡ text "exit")))

module _ (os : Kernel) (fd : ℕ) where
  answer_lem : (request : Bytes) (t : Trace) → Total (ClosedIf fd t) (answer os fd request t)
  unfolding answer time send close
  answer_lem request t = ground arith

  received_lem :
      (r : Option Bytes) (t u : Trace)
      → ((bytes : Bytes) → r ≡ some bytes → length bytes < message_size)
      → open_fds u ≡ open_fds t
      → open_addrs u ≡ open_addrs t
      → arrivals u ≡ arrivals t
      → Total (ClosedIf fd t) (received os fd r u)
  unfolding received report_error close
  received_lem none t u short h k w = (rw h, k, w)
  received_lem (some []) t u short h k w = (rw h, k, w)
  received_lem (some (b ∷ bytes)) t u short h k w =
      rw (received_text-short message_size (b ∷ bytes) (short _ refl), received)
        (Total-mono (ClosedIf fd u) (ClosedIf fd t) (answer os fd _ u) change (answer_lem _ u))
    where
      change : (gone : Bool) (t' : Trace) → ClosedIf fd u gone t' → ClosedIf fd t gone t'
      change true t' c = (rw (← h) c.0, c.1 ∙ k, c.2 ∙ w)
      change false t' c = (c.0 ∙ h, c.1 ∙ k, c.2 ∙ w)

  -- A ready client costs no undefined behaviour, and its connection is closed exactly if it is
  -- said to be gone.
  pub exchange_lem : ShortMessages os → (t : Trace) → Total (ClosedIf fd t) (exchange os fd t)
  unfolding exchange recv received
  exchange_lem short t = received_lem _ t _ (fits (os.on_recv t fd) refl) refl refl refl
    where
      fits :
          (r : Option Bytes)
          → os.on_recv t fd ≡ r
          → (bytes : Bytes) → Option.map (take message_size) r ≡ some bytes
          → length bytes < message_size
      fits none e bytes p = cc
      fits (some got) e bytes p =
          rw (← some-injective _ _ p)
            (omega (arith, length-take message_size got, short t fd got e))

  delivered :
      (bytes : Bytes) (t : Trace)
      → os.on_recv t fd ≡ some bytes
      → length bytes ≤ message_size
      → Option.map (take message_size) (os.on_recv t fd) ≡ some bytes
  delivered bytes t e h = rw e (ap some (take_of_length_le message_size bytes h))

  answer_reply : (request : Bytes) (u : Trace) → Replied fd request u (answer os fd request u)
  unfolding answer time send close
  answer_reply request u = (now, sent, gone, closes gone, goes)
    where
      now : ℕ
      now = os.on_time u

      sent : ℤ
      sent = os.on_send (Event.time now ∷ u) fd (server_time now)

      gone : Bool
      gone = is_nonpos sent || (same request (text "quit") || same request (text "exit"))

      closes :
          (b : Bool)
          → ◌≡◌ {A = Run Bool}
              ((if b then (close fd >> pure true) else pure false)
                (Event.send fd (server_time now) sent ∷ Event.time now ∷ u))
              (ok b (
                (if b then Event.close fd ∷ [] else [])
                ++ (Event.send fd (server_time now) sent ∷ Event.time now ∷ u)))
      closes true = refl
      closes false = refl

      goes :
          (gone ≡ true)
          ↔ ((is_nonpos sent ≡ true) ⊎ (request ≡ text "quit") ⊎ (request ≡ text "exit"))
      goes = ground (arith, same_iff request (text "quit"), same_iff request (text "exit"))

  received_reply :
      (bytes : Bytes) (u : Trace)
      → 0 < length bytes
      → length bytes < message_size
      → Replied fd (upto_nul bytes) u (received os fd (some bytes) u)
  unfolding received
  received_reply [] u h k = absurd (omega arith)
  received_reply (b ∷ bytes) u h k =
      rw (received_text-short message_size (b ∷ bytes) k, received)
        (answer_reply (upto_nul (b ∷ bytes)) u)

  -- A request that fits the buffer is answered with the time, once, and the connection is closed
  -- exactly if the answer could not be sent or the request (up to its first NUL) is "quit" or
  -- "exit".
  pub exchange_reply :
      (bytes : Bytes) (t : Trace)
      → os.on_recv t fd ≡ some bytes
      → 0 < length bytes
      → length bytes < message_size
      → Replied fd (upto_nul bytes) (Event.recv fd message_size (some bytes) ∷ t) (exchange os fd t)
  unfolding exchange recv received
  exchange_reply bytes t e h k = rw (delivered bytes t e (omega arith)) (received_reply bytes _ h k)

  -- One that fills the buffer makes the server store the final NUL outside it.
  pub exchange_overflow :
      (bytes : Bytes) (t : Trace)
      → os.on_recv t fd ≡ some bytes
      → message_size ≤ length bytes
      → exchange os fd t ≡ fault
  unfolding exchange recv received
  exchange_overflow bytes t e h =
      rw e (full (take message_size bytes) (omega (arith, length-take message_size bytes)))
    where
      full :
          (got : Bytes)
          → length got ≡ message_size
          → received os fd (some got) (Event.recv fd message_size (some got) ∷ t) ≡ fault
      full [] q = absurd (omega arith)
      full (b ∷ got) q = rw (received_text-full message_size (b ∷ got) q, received)
