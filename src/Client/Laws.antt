-- ===== src/Client/Laws.antt =====
-- What a command line becomes, and when the client ends.
use mathlib.Core.Option
use mathlib.Core.Option.{some-injective}
use linux_network_programmin.Base.{
  ℕ, zero, suc, ◌-◌, ◌≤◌, ◌<◌, ◌≡◌, refl, ℤ, Bool, true, false, ◌||◌, ◌&&◌, ◌==◌, [], ◌∷◌, Option,
  none, some, arith, if◌then◌else◌, length, take, set, length-take,
}
use linux_network_programmin.Sys.{
  Bytes, Kernel, Event, Trace, pure, ◌>>=◌, ◌>>◌, report_error, recv, send, fgets,
}
use linux_network_programmin.Sys.Loop.{Loop, running, stopped, Total, Total-bind, Total-if}
use linux_network_programmin.Socket.Listen.Laws.{SameOpen}
use linux_network_programmin.Sys.Resources.{sends}
use linux_network_programmin.CString.{zeroed, fill, put_nul, c_string, upto_nul, occurs, strcspn}
use linux_network_programmin.CString.Laws.{c_string-fill}
use linux_network_programmin.Session.{is_stop}
use linux_network_programmin.Poll.Clients.{ShortMessages}
use linux_network_programmin.Client.{message_size, command, sent_all, response, client_round}

-- A line up to its first NUL, carriage return or line feed.
abbrev pub line_text : Bytes → Bytes
line_text [] = []
line_text (c ∷ line) = if c == 0 || (c == 13 || c == 10) then [] else c ∷ line_text line

-- A NUL inside the string cuts it there.
pub put_nul-c_string :
    (b s : Bytes) (n : ℕ)
    → c_string b ≡ some s
    → n ≤ length s
    → (n < length b) × (c_string (set b n 0) ≡ some (take n s))
unfolding c_string
put_nul-c_string [] s n h k = cc
put_nul-c_string (c ∷ b) s zero h k = (omega arith, refl)
put_nul-c_string (c ∷ b) [] (suc n) h k = absurd (omega arith)
put_nul-c_string (c ∷ b) (d ∷ s) (suc n) h k = ground (arith, put_nul-c_string b s n)

take-strcspn :
    (line : Bytes)
    → (strcspn (upto_nul line) (13 ∷ 10 ∷ []) ≤ length (upto_nul line))
      × (take (strcspn (upto_nul line) (13 ∷ 10 ∷ [])) (upto_nul line) ≡ line_text line)
unfolding strcspn occurs upto_nul
take-strcspn [] = (omega arith, refl)
take-strcspn (c ∷ line) = ground (arith, take-strcspn line)

-- The command that is sent for a line shorter than the array is the line up to its first NUL,
-- carriage return or line feed.
pub command_lem :
    (line : Bytes) → length line < message_size → command (some line) ≡ some (line_text line)
unfolding command put_nul
command_lem line h = ground (
  arith,
  c_string-fill message_size line h,
  take-strcspn line,
  put_nul-c_string (fill (zeroed message_size) line) (upto_nul line)
      (strcspn (upto_nul line) (13 ∷ 10 ∷ [])) (c_string-fill message_size line h)
      (take-strcspn line).0,
)

-- At the end of the input, the command is empty.
pub command_end : command none ≡ some []
unfolding command c_string put_nul zeroed strcspn
command_end = refl

abbrev ended : Loop (Unit {0}) → Bool
ended (running x) = false
ended (stopped x) = true

-- One `send` was called, on the descriptor and with the request, and the client ends exactly if
-- all of it was taken and it is a stop command; nothing was opened, closed or freed.
abbrev pub Asked : ℕ → Bytes → Trace → Loop (Unit {0}) → Trace → Type 0
Asked fd request t l t' =
    (sent : ℤ) × (sends t' ≡ (fd, request, sent) ∷ sends t)
    × (ended l ≡ (sent_all sent (length request) && is_stop request))
    × SameOpen t t'

module _ (os : Kernel) (short : ShortMessages os) (fd : ℕ) where
  -- What `response` leaves of the trace.
  abbrev Quiet : Trace → Unit {0} → Trace → Type 0
  Quiet t _ t' = (sends t' ≡ sends t) × SameOpen t t'

  response_lem :
      (r : Option Bytes) (t : Trace)
      → ((bytes : Bytes) → r ≡ some bytes → length bytes < message_size)
      → Total (Quiet t) (response r t)
  unfolding response report_error
  response_lem none t fits = (refl, (refl, refl))
  response_lem (some []) t fits = (refl, (refl, refl))
  response_lem (some (b ∷ bytes)) t fits =
      rw (c_string-fill message_size (b ∷ bytes) (fits (b ∷ bytes) refl), response)
        (refl, (refl, refl))

  asked :
      (request : Bytes) (t : Trace)
      → Total (Asked fd request t) (
          (do
            sent_bytes ← send os fd request
            if sent_all sent_bytes (length request)
                then (do
                  r ← recv os fd message_size
                  response r
                  pure (if is_stop request then stopped tt else running tt))
                else (do report_error "Client sent request fail"; pure (running tt)))
            t)
  unfolding send recv report_error
  asked request t =
      Total-if (Asked fd request t) (sent_all rc (length request)) _ _ u
        (λ all.
          Total-bind (Quiet v) (Asked fd request t) (response r) _ v
            (response_lem r v (fits (os.on_recv u fd) refl)) (λ x w q. done all w q))
        (λ part. (rc, refl, rw part refl, (refl, refl)))
    where
      rc : ℤ
      rc = os.on_send t fd request

      u : Trace
      u = Event.send fd request rc ∷ t

      r : Option Bytes
      r = Option.map (take message_size) (os.on_recv u fd)

      v : Trace
      v = Event.recv fd message_size r ∷ u

      fits :
          (o : Option Bytes)
          → os.on_recv u fd ≡ o
          → (bytes : Bytes) → Option.map (take message_size) o ≡ some bytes
          → length bytes < message_size
      fits none q bytes p = cc
      fits (some got) q bytes p =
          rw (← some-injective _ _ p)
            (omega (arith, length-take message_size got, short u fd got q))

      stop : (b : Bool) → ended (if b then stopped tt else running tt) ≡ b
      stop true = refl
      stop false = refl

      done :
          sent_all rc (length request) ≡ true
          → (w : Trace) → Quiet v tt w
          → Asked fd request t (if is_stop request then stopped tt else running tt) w
      done all w q = (rc, q.0, rw all (stop (is_stop request)), q.1)

  -- One round of the client sends its line, cut at the first NUL, carriage return or line feed, in
  -- one `send`, and ends the loop exactly if all of it was taken and it is "exit", "quit" or
  -- "shutdown". (At most `MESSAGE_SIZE - 1` bytes of the line are read, and no response fills the
  -- buffer.)
  pub client_round_lem :
      (line : Bytes) (t : Trace)
      → os.on_fgets t ≡ some line
      → Total (Asked fd (line_text (take (message_size - 1) line)) t) (client_round os fd tt t)
  unfolding client_round fgets
  client_round_lem line t e =
      rw
        (
          e,
          command_lem (take (message_size - 1) line)
              (omega (arith, length-take (message_size - 1) line)),
          client_round,
        )
        (asked (line_text (take (message_size - 1) line)) _)

  -- At the end of the input, the client sends an empty line.
  pub client_round_end :
      (t : Trace) → os.on_fgets t ≡ none → Total (Asked fd [] t) (client_round os fd tt t)
  unfolding client_round fgets command c_string put_nul send zeroed strcspn
  client_round_end t e = rw (e, client_round) (asked [] _)
