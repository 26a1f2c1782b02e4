-- ===== src/Simple/Laws.antt =====
-- What the simple server leaves open: a descriptor for each client that hung up.
use mathlib.Core.Option
use mathlib.Core.Option.{some-injective}
use linux_network_programmin.Base.{
  ℕ, suc, ◌+◌, ◌<◌, ◌≡◌, refl, sym, ap, ◌∙◌, ℤ, pos, negsuc, List, [], ◌∷◌, ◌++◌, Option, none,
  some, arith, length, take, length-take,
}
use linux_network_programmin.Sys.{Bytes, Kernel, Event, Trace, pure, report_error, accept, recv}
use linux_network_programmin.Sys.Loop.{
  Loop, running, stopped, state_of, Total, Total-bind, while_true, while_true-inv,
}
use linux_network_programmin.Sys.Resources.{open_fds, open_addrs, erase_head}
use linux_network_programmin.CString.{upto_nul}
use linux_network_programmin.CString.Laws.{received_text-short}
use linux_network_programmin.Socket.Listen.Laws.{ResolvesSome, SameOpen, OpenedOne}
use linux_network_programmin.Socket.Reuse.{simple, open_reusable}
use linux_network_programmin.Socket.Reuse.Laws.{simple-Releases, open_reusable_lem}
use linux_network_programmin.Socket.Reuse.Quiet.{Same, simple-IsQuiet, open_reusable-Same}
use linux_network_programmin.Sys.Partial.{Total-Partial}
use linux_network_programmin.Poll.Clients.{ShortMessages}
use linux_network_programmin.Session.{message_size, respond}
use linux_network_programmin.Session.Quiet.{forsaken}
use linux_network_programmin.Session.Effect.{Effect, respond-Effect}
use linux_network_programmin.Simple.{
  next_state, received, accepted, server_round, started, run_server,
}

abbrev pub client_fds : Option ℕ → List ℕ
client_fds none = []
client_fds (some fd) = fd ∷ []

-- Since `t`, as many descriptors were lost as clients have hung up; the others that are open are
-- the client, the listening socket and what was open at `t`.
abbrev pub Holds : ℕ → Trace → Option ℕ → Trace → Type 0
Holds sock t s u =
    (lost : List ℕ) × (open_fds u ≡ client_fds s ++ (lost ++ (sock ∷ open_fds t)))
    × (length lost + forsaken t ≡ forsaken u)
    × (open_addrs u ≡ suc (open_addrs t))

abbrev pub Serving : Trace → Option (Loop (Option ℕ)) → Trace → Type 0
Serving t none u = SameOpen t u
Serving t (some l) u = (sock : ℕ) × Holds sock t (state_of l) u

module _ (os : Kernel) (short : ShortMessages os) (sock : ℕ) (t : Trace) where
  accepted_lem :
      (r : ℤ) (u : Trace)
      → Holds sock t none u
      → Total (λ l. Holds sock t (state_of l)) (accepted os r (Event.accept sock r ∷ u))
  unfolding accepted report_error
  accepted_lem (negsuc n) u h = h
  accepted_lem (pos fd) u (lost, o, c, a) = (lost, ap (λ xs. fd ∷ xs) o, c, a)

  received_lem :
      (fd len : ℕ) (r : Option Bytes) (u : Trace)
      → ((bytes : Bytes) → r ≡ some bytes → length bytes < message_size)
      → Holds sock t (some fd) u
      → Total (λ l. Holds sock t (state_of l)) (received os fd r (Event.recv fd len r ∷ u))
  unfolding received report_error
  received_lem fd len none u fits (lost, o, c, a) = (fd ∷ lost, o, omega (arith, c), a)
  received_lem fd len (some []) u fits (lost, o, c, a) = (fd ∷ lost, o, omega (arith, c), a)
  received_lem fd len (some (b ∷ bytes)) u fits (lost, o, c, a) =
      rw (received_text-short message_size (b ∷ bytes) (fits (b ∷ bytes) refl), received)
        (Total-bind (Effect fd v) (λ l. Holds sock t (state_of l)) (respond os fd request)
          (λ l. pure (running (next_state fd l))) v (respond-Effect os fd request v) after)
    where
      request : Bytes
      request = upto_nul (b ∷ bytes)

      v : Trace
      v = Event.recv fd len (some (b ∷ bytes)) ∷ u

      after : (l : Loop (Unit {0})) (w : Trace) → Effect fd v l w → Holds sock t (next_state fd l) w
      after (running x) w (e, q) = (lost, e ∙ o, c ∙ sym (q.0), q.1 ∙ a)
      after (stopped x) w (e, q) =
          (lost, rw e (rw o (erase_head fd (lost ++ (sock ∷ open_fds t)))), c ∙ sym (q.0), q.1 ∙ a)

  -- A round, in either loop, has no undefined behaviour and keeps the books.
  round_lem :
      (s : Option ℕ) (u : Trace)
      → Holds sock t s u
      → Total (λ l. Holds sock t (state_of l)) (server_round os sock s u)
  unfolding server_round accept recv received
  round_lem none u h = accepted_lem (os.on_accept u sock) u h
  round_lem (some fd) u h = received_lem fd message_size _ u (fits (os.on_recv u fd) refl) h
    where
      fits :
          (r : Option Bytes)
          → os.on_recv u fd ≡ r
          → (bytes : Bytes) → Option.map (take message_size) r ≡ some bytes
          → length bytes < message_size
      fits none q bytes p = cc
      fits (some got) q bytes p =
          rw (← some-injective _ _ p)
            (omega (arith, length-take message_size got, short u fd got q))

-- The simple server, for any number of rounds and from any trace, has no undefined behaviour. Of
-- the descriptors that it opens, it keeps the listening socket, its client, and one for each time
-- that a client was found to be gone: these are never closed. If its set-up fails, nothing more is
-- open. (A success of the resolver names an address, and messages are shorter than the buffer.)
pub simple_server_lem :
    (os : Kernel)
    → ResolvesSome os
    → ShortMessages os
    → (rounds : ℕ) (t : Trace) → Total (Serving t) (run_server os rounds t)
unfolding run_server started
simple_server_lem os addr short rounds t =
    Total-bind (λ o u. OpenedOne t o u × Same t o u) (Serving t) (open_reusable os simple) _ t
      (Total-Partial (OpenedOne t) (Same t) (open_reusable os simple t)
        (open_reusable_lem os simple simple-Releases addr t)
        (open_reusable-Same os simple simple-IsQuiet t))
      start
  where
    start :
        (o : Option ℕ) (u : Trace)
        → OpenedOne t o u × Same t o u
        → Total (Serving t) (started os rounds o u)
    start none u q = q.0
    start (some sock) u q =
        Total-bind (λ l. Holds sock t (state_of l)) (Serving t)
          (while_true rounds (server_round os sock) none) _ u
          (while_true-inv (Holds sock t) (server_round os sock) (round_lem os short sock t) rounds
            none u ([], q.0.0, omega (arith, q.1), q.0.1))
          (λ l v h. (sock, h))
