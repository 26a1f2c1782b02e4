-- ===== src/NonBlocking/Client/Laws.antt =====
-- What the non-blocking client sends and leaves open.
use mathlib.Core.Option
use Prim.Native.String.{String}
use mathlib.Core.Option.{some-injective}
use linux_network_programmin.Base.{
  ℕ, ◌≤◌, ◌<◌, ◌≡◌, refl, ap, ◌∙◌, ℤ, true, [], ◌∷◌, ◌++◌, Option, none, some, arith, if◌then◌else◌,
  length, length-append, take, length-take, ltb, set,
}
use linux_network_programmin.Sys.{
  Bytes, Kernel, Event, Trace, pure, report_error, freeaddrinfo, close, recv, send, time,
  errno_would_block,
}
use linux_network_programmin.Sys.Loop.{
  Loop, running, stopped, Total, Total-bind, Total-if, Total-mono, while_true, while_true-inv,
}
use linux_network_programmin.Sys.Resources.{open_fds, erase_head}
use linux_network_programmin.CString.{text, zeroed, put_nul, upto_nul, strcspn, c_string}
use linux_network_programmin.CString.Laws.{c_string-fill}
use linux_network_programmin.CString.Decimal.{
  int_text, int_text_lem, sprintf, sprintf-zeroed, upto_nul-append,
}
use linux_network_programmin.Socket.Listen.Laws.{ResolvesSome, SameOpen, OpenedOne}
use linux_network_programmin.Socket.Connect.{open_connection}
use linux_network_programmin.Socket.Connect.Laws.{open_connection_lem}
use linux_network_programmin.Poll.Clients.{ShortMessages}
use linux_network_programmin.Client.{sent_all}
use linux_network_programmin.Client.Run.{Asking}
use linux_network_programmin.NonBlocking.{message_size}
use linux_network_programmin.NonBlocking.Client.{
  client_time, cut, client_request, gave_up, response, receive, client_round, leave, connected,
  run_client,
}

strcspn-bound : (s reject : Bytes) → strcspn s reject ≤ length s
unfolding strcspn
strcspn-bound [] reject = omega arith
strcspn-bound (c ∷ s) reject = ground (arith, strcspn-bound s reject)

client_time-whole : (now : ℕ) → upto_nul (client_time now) ≡ client_time now
unfolding upto_nul
client_time-whole now =
    ap (λ x. text "Client time: " ++ x)
      (upto_nul-append (int_text now) (10 ∷ []) (int_text_lem now).1 refl)

client_time-length : (now : ℕ) → length (client_time now) ≤ 25
client_time-length now = omega (arith, length-append (int_text now) (10 ∷ []), (int_text_lem now).0)

client_request_lem : (now : ℕ) → (request : Bytes) × (client_request now ≡ some request)
unfolding client_request cut put_nul
client_request_lem now = go (
    sprintf-zeroed message_size (client_time now) (omega (arith, client_time-length now))
      (client_time-whole now))
  where
    len : ℕ
    len = strcspn (client_time now) (10 ∷ [])

    go :
        (b : Bytes) × (sprintf (zeroed message_size) (client_time now) ≡ some b)
          × (c_string b ≡ some (client_time now))
          × (length b ≡ message_size)
        → (request : Bytes) × (client_request now ≡ some request)
    go (b, e, c, l) = (take len (set b len 0), rw (e, client_request, c, cut, within, put_nul) refl)
      where
        within : ltb len (length b) ≡ true
        within = ground (arith, strcspn-bound (client_time now) (10 ∷ []), client_time-length now)

module _ (os : Kernel) (short : ShortMessages os) where
  gave_up_lem : (message : String) (t : Trace) → Total (λ _ u. SameOpen t u) (gave_up os message t)
  unfolding gave_up errno_would_block report_error
  gave_up_lem message t =
      Total-if (λ _ u. SameOpen t u) (os.would_block t) _ _ t (λ _. (refl, refl))
        (λ _. (refl, refl))

  response_lem :
      (r : Option Bytes) (t : Trace)
      → ((bytes : Bytes) → r ≡ some bytes → length bytes < message_size)
      → Total (λ _ u. SameOpen t u) (response os r t)
  unfolding response
  response_lem none t fits = gave_up_lem "Client recv() failed" t
  response_lem (some []) t fits = (refl, refl)
  response_lem (some (b ∷ bytes)) t fits =
      rw (c_string-fill message_size (b ∷ bytes) (fits (b ∷ bytes) refl), response) (refl, refl)

  receive_lem :
      (fd : ℕ) (l : Loop (Unit {0})) (t : Trace) → Total (λ _ u. SameOpen t u) (receive os fd l t)
  unfolding receive recv response
  receive_lem fd (stopped x) t = (refl, refl)
  receive_lem fd (running x) t =
      Total-mono (λ _ u. SameOpen v u) (λ _ u. SameOpen t u) (response os r v) (λ _ u q. q)
        (response_lem r v (fits (os.on_recv t fd) refl))
    where
      r : Option Bytes
      r = Option.map (take message_size) (os.on_recv t fd)

      v : Trace
      v = Event.recv fd message_size r ∷ t

      fits :
          (o : Option Bytes)
          → os.on_recv t fd ≡ o
          → (bytes : Bytes) → Option.map (take message_size) o ≡ some bytes
          → length bytes < message_size
      fits none e bytes p = cc
      fits (some got) e bytes p =
          rw (← some-injective _ _ p)
            (omega (arith, length-take message_size got, short t fd got e))

  client_round_lem : (fd : ℕ) (t : Trace) → Total (λ _ u. SameOpen t u) (client_round os fd tt t)
  unfolding client_round time send
  client_round_lem fd t = go (client_request_lem (os.on_time t))
    where
      go :
          (request : Bytes) × (client_request (os.on_time t) ≡ some request)
          → Total (λ _ u. SameOpen t u) (client_round os fd tt t)
      go (request, e) =
          rw (e, client_round)
            (Total-bind (λ _ u. SameOpen t u) (λ _ u. SameOpen t u)
              (if sent_all rc (length request)
                then pure (running tt)
                else gave_up os "Client send() failed")
              (receive os fd) v
              (Total-if (λ _ u. SameOpen t u) (sent_all rc (length request)) _ _ v
                (λ _. (refl, refl)) (λ _. gave_up_lem "Client send() failed" v))
              (λ l u q.
                Total-mono (λ _ w. SameOpen u w) (λ _ w. SameOpen t w) (receive os fd l u)
                  (λ _ w k. (k.0 ∙ q.0, k.1 ∙ q.1)) (receive_lem fd l u)))
        where
          rc : ℤ
          rc = os.on_send (Event.time (os.on_time t) ∷ t) fd request

          v : Trace
          v = Event.send fd request rc ∷ Event.time (os.on_time t) ∷ t

  leave_lem :
      (fd : ℕ) (t : Trace) (l : Loop (Unit {0})) (u : Trace)
      → OpenedOne t (some fd) u
      → Total (λ l'. Asking t (some l')) (leave os fd l u)
  unfolding leave freeaddrinfo close
  leave_lem fd t (running x) u q = (fd, q)
  leave_lem fd t (stopped x) u q = (rw q.0 (erase_head fd (open_fds t)), omega (arith, q.1))

  connected_lem :
      (fd rounds : ℕ) (t u : Trace)
      → OpenedOne t (some fd) u
      → Total (Asking t) (connected os rounds (some fd) u)
  unfolding connected
  connected_lem fd rounds t u q =
      Total-bind (λ _. OpenedOne t (some fd)) (Asking t) (while_true rounds (client_round os fd) tt)
        _ u
        (while_true-inv (λ _. OpenedOne t (some fd)) (client_round os fd)
          (λ _ v h.
            Total-mono (λ _ w. SameOpen v w) (λ _ w. OpenedOne t (some fd) w)
              (client_round os fd tt v) (λ l w k. (k.0 ∙ h.0, k.1 ∙ h.1)) (client_round_lem fd v))
          rounds tt u q)
        (λ l v h.
          Total-bind (λ l'. Asking t (some l')) (Asking t) (leave os fd l) _ v
            (leave_lem fd t l v h) (λ l' w k. k))

-- The non-blocking client, for any number of rounds and from any trace, has no undefined
-- behaviour; one that ended or could not start has released all that it opened, and one that runs
-- holds its connection and its address list. (A success of the resolver names an address, and no
-- response fills the buffer.)
pub time_client_lem :
    (os : Kernel)
    → ResolvesSome os
    → ShortMessages os
    → (rounds : ℕ) (t : Trace) → Total (Asking t) (run_client os rounds t)
unfolding run_client connected
time_client_lem os addr short rounds t =
    Total-bind (OpenedOne t) (Asking t) (open_connection os) _ t (open_connection_lem os addr t)
      start
  where
    start :
        (o : Option ℕ) (u : Trace) → OpenedOne t o u → Total (Asking t) (connected os rounds o u)
    start none u q = q
    start (some fd) u q = connected_lem os short fd rounds t u q
