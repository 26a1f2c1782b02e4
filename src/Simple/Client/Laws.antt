-- ===== src/Simple/Client/Laws.antt =====
-- What the client of the simple server sends, and what it leaves open.
use mathlib.Core.Option
use mathlib.Core.Option.{some-injective}
use linux_network_programmin.Base.{
  ℕ, suc, ◌-◌, ◌≤◌, ◌<◌, ◌≡◌, ◌≢◌, refl, ap, ◌∙◌, ℤ, pos, negsuc, is_nonzero, is_nonpos, ◌||◌, ◌==◌,
  [], ◌∷◌, List, Option, none, some, arith, if◌then◌else◌, length, take, length-take,
}
use linux_network_programmin.Sys.{
  Bytes, Kernel, Event, Trace, pure, ◌>>=◌, ◌>>◌, report_error, freeaddrinfo, close, getprotobyname,
  getaddrinfo, socket, recv, send, fgets,
}
use linux_network_programmin.Sys.Loop.{
  Loop, running, stopped, Total, Total-bind, Total-if, Total-mono, while_true, while_true-inv,
}
use linux_network_programmin.Sys.Resources.{open_fds, open_addrs, erase_head}
use linux_network_programmin.CString.{zeroed, fill, put_nul, c_string, upto_nul, occurs, strcspn}
use linux_network_programmin.CString.Laws.{c_string-fill}
use linux_network_programmin.Socket.Port.{tcp_port, port_text_lem}
use linux_network_programmin.Socket.Connect.{connect_first}
use linux_network_programmin.Socket.Connect.Laws.{connect_first_lem}
use linux_network_programmin.Socket.Listen.Laws.{ResolvesSome, SameOpen, OpenedOne}
use linux_network_programmin.Poll.Clients.{ShortMessages}
use linux_network_programmin.Session.{message_size, is_stop}
use linux_network_programmin.Client.{line_buffer}
use linux_network_programmin.Client.Laws.{put_nul-c_string}
use linux_network_programmin.Client.Run.{Asking}
use linux_network_programmin.Simple.Client.{
  typed, response, connect_stage, socket_result, resolve_result, protocol_result, open_client,
  client_round, leave, connected, run_client,
}

-- A line up to its first NUL or line feed.
abbrev pub first_line : Bytes → Bytes
first_line [] = []
first_line (c ∷ line) = if c == 0 || c == 10 then [] else c ∷ first_line line

take-strcspn :
    (line : Bytes)
    → (strcspn (upto_nul line) (10 ∷ []) ≤ length (upto_nul line))
      × (take (strcspn (upto_nul line) (10 ∷ [])) (upto_nul line) ≡ first_line line)
unfolding strcspn occurs upto_nul
take-strcspn [] = (omega arith, refl)
take-strcspn (c ∷ line) = ground (arith, take-strcspn line)

typed_lem : (line : Bytes) → length line < message_size → typed (some line) ≡ some (first_line line)
unfolding typed put_nul line_buffer
typed_lem line h = ground (
  arith,
  c_string-fill message_size line h,
  take-strcspn line,
  put_nul-c_string (fill (zeroed message_size) line) (upto_nul line)
      (strcspn (upto_nul line) (10 ∷ [])) (c_string-fill message_size line h) (take-strcspn line).0,
)

typed-end : typed none ≡ some []
unfolding typed line_buffer c_string put_nul zeroed strcspn
typed-end = refl

module _ (os : Kernel) where
  connect_stage_lem :
      (fd : ℕ) (addrs : List ℕ) (t s : Trace)
      → OpenedOne s (some fd) t
      → Total (OpenedOne s) (connect_stage os fd addrs t)
  unfolding connect_stage report_error freeaddrinfo close
  connect_stage_lem fd addrs t s q =
      Total-bind (λ _. SameOpen t) (OpenedOne s) (connect_first os fd addrs (pos 0)) _ t
        (connect_first_lem os fd addrs (pos 0) t) (λ rc u p. joined rc u (p.0 ∙ q.0, p.1 ∙ q.1))
    where
      joined :
          (rc : ℤ) (u : Trace)
          → OpenedOne s (some fd) u
          → Total (OpenedOne s) (
              (if is_nonzero rc
                  then (do
                    report_error "client connect() failed"
                    close fd
                    freeaddrinfo
                    pure none)
                  else pure (some fd))
                u)
      joined rc u k =
          Total-if (OpenedOne s) (is_nonzero rc) _ _ u
            (λ _. (rw k.0 (erase_head fd (open_fds s)), omega (arith, k.1))) (λ _. k)

  open_client_lem : ResolvesSome os → (t : Trace) → Total (OpenedOne t) (open_client os t)
  unfolding open_client getprotobyname getaddrinfo report_error socket freeaddrinfo
  open_client_lem some_addr t = protocol (os.on_getprotobyname t)
    where
      made :
          (addrs : List ℕ) (r : ℤ) (u : Trace)
          → open_fds u ≡ open_fds t
          → open_addrs u ≡ suc (open_addrs t)
          → Total (OpenedOne t) (socket_result os addrs r (Event.socket r ∷ u))
      made addrs (negsuc n) u h k = (h, omega arith)
      made addrs (pos fd) u h k = connect_stage_lem fd addrs _ t (ap (◌∷◌ fd) h, k)

      resolved :
          (r : Option (List ℕ)) (u : Trace) (host : Option Bytes) (port : Bytes)
          → r ≢ some []
          → SameOpen t u
          → Total (OpenedOne t) (resolve_result os r (Event.getaddrinfo host port r ∷ u))
      resolved none u host port ne q = q
      resolved (some []) u host port ne q = absurd (ne refl)
      resolved (some (a ∷ addrs)) u host port ne q =
          made (a ∷ addrs) (os.on_socket _) _ q.0 (ap suc q.1)

      protocol :
          (r : Option ℕ) → Total (OpenedOne t) (protocol_result os r (Event.getprotobyname r ∷ t))
      protocol none = (refl, refl)
      protocol (some proto) =
          rw ((port_text_lem tcp_port (omega arith)).0, protocol_result)
            (resolved _ _ _ _ (some_addr _ _ _) (refl, refl))

  response-SameOpen :
      (r : Option Bytes) (t : Trace)
      → ((bytes : Bytes) → r ≡ some bytes → length bytes < message_size)
      → Total (λ _ u. SameOpen t u) (response r t)
  unfolding response report_error
  response-SameOpen none t fits = (refl, refl)
  response-SameOpen (some []) t fits = (refl, refl)
  response-SameOpen (some (b ∷ bytes)) t fits =
      rw (c_string-fill message_size (b ∷ bytes) (fits (b ∷ bytes) refl), response) (refl, refl)

  module _ (short : ShortMessages os) (fd : ℕ) where
    asked :
        (request : Bytes) (t : Trace)
        → Total
            (λ _ u. SameOpen t u)
            ((do
              sent_bytes ← send os fd request
              if is_nonpos sent_bytes
                  then (do report_error "Client sent request fail"; pure (running tt))
                  else (do
                    r ← recv os fd message_size
                    response r
                    pure (if is_stop request then stopped tt else running tt)))
              t)
    unfolding send recv report_error
    asked request t =
        Total-if (λ _ u. SameOpen t u) (is_nonpos rc) _ _ u (λ _. (refl, refl))
          (λ _.
            Total-bind (λ _ w. SameOpen v w) (λ _ w. SameOpen t w) (response r) _ v
              (response-SameOpen r v (fits (os.on_recv u fd) refl)) (λ x w q. q))
      where
        rc : ℤ
        rc = os.on_send t fd request

        u : Trace
        u = Event.send fd request rc ∷ t

        r : Option Bytes
        r = Option.map (take message_size) (os.on_recv u fd)

        v : Trace
        v = Event.recv fd message_size r ∷ u

        fits :
            (o : Option Bytes)
            → os.on_recv u fd ≡ o
            → (bytes : Bytes) → Option.map (take message_size) o ≡ some bytes
            → length bytes < message_size
        fits none q bytes p = cc
        fits (some got) q bytes p =
            rw (← some-injective _ _ p)
              (omega (arith, length-take message_size got, short u fd got q))

    round-SameOpen :
        (o : Option Bytes) (t : Trace)
        → os.on_fgets t ≡ o
        → Total (λ _ u. SameOpen t u) (client_round os fd tt t)
    unfolding client_round fgets
    round-SameOpen none t e = rw (e, typed-end, client_round) (asked [] _)
    round-SameOpen (some line) t e =
        rw
          (
            e,
            typed_lem (take (message_size - 1) line)
                (omega (arith, length-take (message_size - 1) line)),
            client_round,
          )
          (asked (first_line (take (message_size - 1) line)) _)

    leave_lem :
        (t : Trace) (l : Loop (Unit {0})) (u : Trace)
        → OpenedOne t (some fd) u
        → Total (λ l'. Asking t (some l')) (leave os fd l u)
    unfolding leave freeaddrinfo close
    leave_lem t (running x) u q = (fd, q)
    leave_lem t (stopped x) u q = (rw q.0 (erase_head fd (open_fds t)), omega (arith, q.1))

-- The client of the simple server, for any number of commands and from any trace, has no undefined
-- behaviour; one that ended or could not start has released all that it opened, and one that runs
-- holds its connection and its address list. (A success of the resolver names an address, and no
-- response fills the buffer.)
pub simple_client_lem :
    (os : Kernel)
    → ResolvesSome os
    → ShortMessages os
    → (rounds : ℕ) (t : Trace) → Total (Asking t) (run_client os rounds t)
unfolding run_client connected
simple_client_lem os addr short rounds t =
    Total-bind (OpenedOne t) (Asking t) (open_client os) _ t (open_client_lem os addr t) start
  where
    start :
        (o : Option ℕ) (u : Trace) → OpenedOne t o u → Total (Asking t) (connected os rounds o u)
    start none u q = q
    start (some fd) u q =
        Total-bind (λ _. OpenedOne t (some fd)) (Asking t)
          (while_true rounds (client_round os fd) tt) _ u
          (while_true-inv (λ _. OpenedOne t (some fd)) (client_round os fd)
            (λ _ v h.
              Total-mono (λ _ w. SameOpen v w) (λ _ w. OpenedOne t (some fd) w)
                (client_round os fd tt v) (λ l w k. (k.0 ∙ h.0, k.1 ∙ h.1))
                (round-SameOpen os short fd (os.on_fgets v) v refl))
            rounds tt u q)
          (λ l v h.
            Total-bind (λ l'. Asking t (some l')) (Asking t) (leave os fd l) _ v
              (leave_lem os short fd t l v h) (λ l' w k. k))
