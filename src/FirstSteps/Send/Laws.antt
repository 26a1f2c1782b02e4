-- ===== src/FirstSteps/Send/Laws.antt =====
-- When the sending loop of program 05 ends, and when it does not.
use linux_network_programmin.Base.{
  ℕ, zero, suc, ◌+◌, ◌<◌, ◌≤◌, ◌≡◌, refl, ap, ◌≢◌, ◌⊎◌, inl, inr, ℤ, pos, negsuc, is_nonzero, List,
  [], ◌∷◌, Option, none, some, arith, if◌then◌else◌, length, ltb, lt→ltb,
}
use linux_network_programmin.Sys.{
  Bytes, Kernel, Event, Trace, ok, pure, send, ◌>>=◌, ◌>>◌, checked, report_error, connect, close,
  freeaddrinfo, getprotobyname, getservbyname, getaddrinfo, socket,
}
use linux_network_programmin.Sys.Loop.{
  Loop, running, stopped, while_true, Total, bind-ok, resume, state_of,
}
use linux_network_programmin.Sys.Partial.{
  Partial, Partial-bind, Partial-if, Partial-checked, while_true-Partial,
}
use linux_network_programmin.Sys.Resources.{open_fds, open_addrs, erase_head}
use linux_network_programmin.Socket.Port.{port_text_lem}
use linux_network_programmin.Socket.Listen.Laws.{SameOpen, OpenedOne, ResolvesSome}
use mathlib.Core.Path.{subst}
use linux_network_programmin.CString.{zeroed, c_string}
use linux_network_programmin.CString.Decimal.{sprintf}
use linux_network_programmin.Https.{https_request}
use linux_network_programmin.FirstSteps.Send.{
  cpp_hostname, ssize_bound, difference, sum, in_ssize, plus, is_below, http_request, Sending,
  going, failed, send_round, leave, connect_stage, socket_result, resolve_result, service_result,
  protocol_result, send_main,
}

pub http_request_lem : http_request ≡ some (https_request cpp_hostname)
unfolding http_request sprintf zeroed c_string
http_request_lem = refl

-- Every `send` on the descriptor fails.
abbrev pub Broken : Kernel → ℕ → Type 0
Broken os fd = (t : Trace) (bytes : Bytes) → os.on_send t fd bytes ≡ negsuc 0

-- `0 - n`
abbrev pub negative : ℕ → ℤ
negative zero = pos 0
negative (suc n) = negsuc n

-- The sum of the results so far.
abbrev pub sent_of : Sending → ℤ
sent_of (going n) = n
sent_of failed = pos 0

module _ (os : Kernel) (fd : ℕ) (request : Bytes) where
  failing_round :
      Broken os fd
      → 0 < length request
      → (n : ℕ) (t : Trace) → n < ssize_bound
      → send_round os (pos 0) fd request (going (negative n)) t
        ≡ ok (running (going (negative (suc n)))) (Event.send fd request (negsuc 0) ∷ t)
  unfolding send_round plus sum difference in_ssize send
  failing_round broken long zero t h = rw (lt→ltb 0 (length request) long, broken t request) refl
  failing_round broken long (suc n) t h =
      rw (broken t request, counted (n + 0) (omega arith) h) refl
    where
      counted :
          (k : ℕ)
          → k ≡ n
          → suc n < ssize_bound
          → (if ltb (suc k) ssize_bound then some (negsuc (suc k)) else none)
            ≡ some (negsuc (suc n))
      counted k e l = rw (e, lt→ltb (suc n) ssize_bound l) refl

  -- Where every `send` fails, the loop goes on: after any number of rounds that leaves the count in
  -- the range of `ssize_t` it has counted down by one for each. (The request is not empty.)
  pub endless_loop :
      Broken os fd
      → 0 < length request
      → (rounds n : ℕ) (t : Trace) → rounds + n ≤ ssize_bound
      → Total
          (λ l _. l ≡ running (going (negative (rounds + n))))
          (while_true rounds (send_round os (pos 0) fd request) (going (negative n)) t)
  unfolding while_true
  endless_loop broken long zero n t h = ap (λ k. running (going (negative k))) (omega arith)
  endless_loop broken long (suc rounds) n t h =
      rw
        (bind-ok (send_round os (pos 0) fd request (going (negative n)))
          (resume (while_true rounds (send_round os (pos 0) fd request)))
          (failing_round broken long n t (omega arith)))
        (subst
          (λ m.
            Total (λ l _. l ≡ running (going (negative m)))
              (while_true rounds (send_round os (pos 0) fd request) (going (negative (suc n)))
                (Event.send fd request (negsuc 0) ∷ t)))
          (shift rounds n)
          (endless_loop broken long rounds (suc n) (Event.send fd request (negsuc 0) ∷ t)
            (omega arith)))
    where
      shift : (a b : ℕ) → a + suc b ≡ suc a + b
      shift a b = omega arith

  -- Where every `send` takes all that it is given, the loop ends in its second round, and the
  -- request has gone out once.
  pub whole_lem :
      ((t : Trace) (bytes : Bytes) → os.on_send t fd bytes ≡ pos (length bytes))
      → 0 < length request
      → length request < ssize_bound
      → (rounds : ℕ) (t : Trace)
      → while_true (suc (suc rounds)) (send_round os (pos 0) fd request) (going (pos 0)) t
        ≡ ok
            (stopped (going (pos (length request))))
            (Event.send fd request (pos (length request)) ∷ t)
  unfolding while_true send_round plus sum in_ssize send
  whole_lem full long fits rounds t = ground (arith, full t request)

-- What `main` leaves open: nothing where the request was sent; the socket and the address list
-- while the loop goes on; and where it gives up nothing, the list, or both.
abbrev pub Sent : Trace → Option ℤ → Trace → Type 0
Sent t none u = (fd : ℕ) × (open_fds u ≡ fd ∷ open_fds t) × (open_addrs u ≡ suc (open_addrs t))
Sent t (some (pos status)) u = (status ≡ 0) × SameOpen t u
Sent t (some (negsuc n)) u =
    (n ≡ 0)
    × (SameOpen t u
        ⊎ ((open_fds u ≡ open_fds t) × (open_addrs u ≡ suc (open_addrs t)))
        ⊎ ((fd : ℕ) × (open_fds u ≡ fd ∷ open_fds t) × (open_addrs u ≡ suc (open_addrs t))))

-- A port has 16 bits.
abbrev pub PortsSmall : Kernel → Type 0
PortsSmall os = (t : Trace) (port : ℕ) → os.on_getservbyname t ≡ some port → port < 65536

module _ (os : Kernel) where
  -- In the loop only `send` is called, since `rc` is 0.
  round_lem :
      (fd : ℕ) (request : Bytes) (t u₀ : Trace) (s : Sending)
      → (s ≢ failed)
      → OpenedOne t (some fd) u₀
      → Partial
          (λ l u. (state_of l ≢ failed) × OpenedOne t (some fd) u)
          (send_round os (pos 0) fd request s u₀)
  unfolding send_round send
  round_lem fd request t u₀ failed ne q = absurd (ne refl)
  round_lem fd request t u₀ (going n) ne q =
      Partial-if (λ l u. (state_of l ≢ failed) × OpenedOne t (some fd) u)
        (is_below n (length request)) _ (pure (stopped (going n))) u₀ (λ _. added)
        (λ _. ((λ e. cc), q))
    where
      rc : ℤ
      rc = os.on_send u₀ fd request

      added :
          Partial
            (λ l u. (state_of l ≢ failed) × OpenedOne t (some fd) u)
            ((do total ← checked (plus n rc); pure (running (going total)))
              (Event.send fd request rc ∷ u₀))
      added =
          Partial-bind (λ _ u. OpenedOne t (some fd) u)
            (λ l u. (state_of l ≢ failed) × OpenedOne t (some fd) u) (checked (plus n rc)) _ _
            (Partial-checked (λ _ u. OpenedOne t (some fd) u) (plus n rc) _ (λ a. q))
            (λ total u o. ((λ e. cc), o))

  connect_stage_lem :
      (rounds fd addr : ℕ) (t u : Trace)
      → OpenedOne t (some fd) u
      → Partial (Sent t) (connect_stage os rounds fd addr u)
  unfolding connect_stage connect report_error leave close freeaddrinfo
  connect_stage_lem rounds fd addr t u q = tried (os.on_connect u fd addr)
    where
      K : Sending → Trace → Type 0
      K s v = (s ≢ failed) × OpenedOne t (some fd) v

      left : (l : Loop Sending) (v : Trace) → K (state_of l) v → Partial (Sent t) (leave fd l v)
      left (running s) v (ne, o) = (fd, o.0, o.1)
      left (stopped failed) v (ne, o) = absurd (ne refl)
      left (stopped (going n)) v (ne, o) =
          (refl, (rw o.0 (erase_head fd (open_fds t)), omega (arith, o.1)))

      tried :
          (rc : ℤ)
          → Partial (Sent t) (
              (if is_nonzero rc
                  then (do report_error "connect() failed"; pure (some (negsuc 0)))
                  else (do
                    request ← checked http_request
                    l ← while_true rounds (send_round os rc fd request) (going (pos 0))
                    leave fd l))
                (Event.connect fd addr rc ∷ u))
      tried (negsuc n) = (refl, inr (inr (fd, q.0, q.1)))
      tried (pos (suc n)) = (refl, inr (inr (fd, q.0, q.1)))
      tried (pos zero) = rw http_request_lem (
          Partial-bind (λ l v. K (state_of l) v) (Sent t)
            (while_true rounds (send_round os (pos 0) fd (https_request cpp_hostname))
              (going (pos 0)))
            _ _
            (while_true-Partial K (send_round os (pos 0) fd (https_request cpp_hostname))
              (λ s v k. round_lem fd (https_request cpp_hostname) t v s k.0 k.1) rounds
              (going (pos 0)) _ ((λ e. cc), q))
            left)

  -- A run of the program, for any number of rounds of its loop and from any trace, that is defined:
  -- with status 0 it has released all; with the status -1 of an early return it leaves nothing
  -- open, or the address list, or the list and the socket. (A success of the resolver names an
  -- address, and the port of the service has 16 bits.)
  pub send_main_lem :
      ResolvesSome os
      → PortsSmall os
      → (rounds : ℕ) (t : Trace) → Partial (Sent t) (send_main os rounds t)
  unfolding send_main getprotobyname getservbyname getaddrinfo socket report_error
  send_main_lem some_addr small rounds t = protocol (os.on_getprotobyname t)
    where
      made :
          (addr : ℕ) (r : ℤ) (u : Trace)
          → open_fds u ≡ open_fds t
          → open_addrs u ≡ suc (open_addrs t)
          → Partial (Sent t) (socket_result os rounds addr r (Event.socket r ∷ u))
      made addr (negsuc n) u h k = (refl, inr (inl (h, k)))
      made addr (pos fd) u h k = connect_stage_lem rounds fd addr t _ (ap (◌∷◌ fd) h, k)

      resolved :
          (r : Option (List ℕ)) (u : Trace) (host : Option Bytes) (port : Bytes)
          → r ≢ some []
          → SameOpen t u
          → Partial (Sent t) (resolve_result os rounds r (Event.getaddrinfo host port r ∷ u))
      resolved none u host port ne q = (refl, inl q)
      resolved (some []) u host port ne q = absurd (ne refl)
      resolved (some (a ∷ addrs)) u host port ne q = made a (os.on_socket _) _ q.0 (ap suc q.1)

      served :
          (r : Option ℕ) (u : Trace)
          → ((port : ℕ) → r ≡ some port → port < 65536)
          → SameOpen t u
          → Partial (Sent t) (service_result os rounds r (Event.getservbyname r ∷ u))
      served none u fits q = (refl, inl q)
      served (some port) u fits q =
          rw ((port_text_lem port (fits port refl)).0, service_result)
            (resolved _ _ _ _ (some_addr _ _ _) q)

      protocol :
          (r : Option ℕ)
          → Partial (Sent t) (protocol_result os rounds r (Event.getprotobyname r ∷ t))
      protocol none = (refl, inl (refl, refl))
      protocol (some proto) =
          served (os.on_getservbyname _) _ (λ port e. small _ port e) (refl, refl)
