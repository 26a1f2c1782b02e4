-- ===== src/Poll/Run.antt =====
-- A round of the server, and the server for any number of rounds.
use mathlib.Core.List.{erase}
use mathlib.Core.List.Perm
use mathlib.Core.Path.{subst}
use native.Mathlib.Decide.{ℕ_discrete}
use linux_network_programmin.Base.{
  ℕ, zero, suc, ◌+◌, ◌<◌, length-append, ◌≤◌, ◌≡◌, refl, ap, Bool, List, [], ◌∷◌, ◌++◌, ℤ, pos,
  negsuc, is_neg, Option, none, some, take, map, get_or, Perm, arith, Bool-cases, inl, inr, ltb,
  ltb→lt, length, drop,
}
use linux_network_programmin.Sys.{
  Kernel, Event, Trace, ok, poll, report_error, accept, freeaddrinfo, close,
}
use linux_network_programmin.Sys.Loop.{
  Loop, running, stopped, state_of, Total, Total-bind, Total-run, Total-if, while_true,
  while_true-inv,
}
use linux_network_programmin.Sys.Resources.{open_fds, open_addrs, erase_head}
use linux_network_programmin.Sys.Arrivals.{arrivals, turned_away}
use linux_network_programmin.Socket.Listen.{max_connection, open_listener}
use linux_network_programmin.Socket.Listen.Laws.{
  ResolvesSome, OpenedOne, SameOpen, open_listener_lem,
}
use linux_network_programmin.Poll.{
  Server, PollFd, empty_slot, slot, initial, refresh, accepted, serve_listener, serve_clients,
  after_listener, poll_round, leave, started, run_server,
}
use linux_network_programmin.Poll.Slots.{
  fd_of, table, IsValid, initial-IsValid, refresh-IsValid, table-refresh, table-initial,
}
use linux_network_programmin.Poll.Clients.{ShortMessages}
use linux_network_programmin.Poll.Accounts.{
  Balanced, add_client-Balanced, add_client_full-Balanced, serve_clients-Balanced, length-open_fds,
}

-- The clients that came when the array was full, among some and with `rest` open beside them.
abbrev pub away : List ℕ → List (ℕ × ℕ) → List ℕ
away rest new = turned_away (max_connection + length rest) new

-- What is open in the loop, since it was entered at `v`: the table, the clients that were turned
-- away because the array was full, and `rest`; and who has come.
abbrev pub Accounted : ℕ → ℕ → List ℕ → Trace → Server → Trace → Type 0
Accounted sock addrs rest v s u =
    (new : List (ℕ × ℕ)) × Balanced sock addrs (away rest new ++ rest) (new ++ arrivals v) s u

-- The state that goes on after `accept`; on a `continue` it is the state before.
abbrev chosen : Server → Option Server → Server
chosen s none = s
chosen s (some s') = s'

module _ (os : Kernel) (short : ShortMessages os) (sock addrs : ℕ) (rest : List ℕ) (v : Trace)
    (s : Server) where
  -- With room for the client nobody is turned away, and without it the client is.
  away-room :
      (fd : ℕ) (new : List (ℕ × ℕ)) (t : Trace)
      → s.nfds < max_connection
      → Balanced sock addrs (away rest new ++ rest) (new ++ arrivals v) s t
      → away rest ((fd, length (open_fds t)) ∷ new) ≡ away rest new
  away-room fd new t h b = ground (
    arith,
    length-open_fds sock addrs (away rest new ++ rest) (new ++ arrivals v) s t b,
    length-append (away rest new) rest,
  )

  away-full :
      (fd : ℕ) (new : List (ℕ × ℕ)) (t : Trace)
      → max_connection ≤ s.nfds
      → Balanced sock addrs (away rest new ++ rest) (new ++ arrivals v) s t
      → away rest ((fd, length (open_fds t)) ∷ new) ≡ fd ∷ away rest new
  away-full fd new t h b = ground (
    arith,
    length-open_fds sock addrs (away rest new ++ rest) (new ++ arrivals v) s t b,
    length-append (away rest new) rest,
  )

  accepted_lem :
      (r : ℤ) (t : Trace) (l : ℕ)
      → Accounted sock addrs rest v s t
      → Total
          (λ o. Accounted sock addrs rest v (chosen s o))
          (accepted os s r (Event.accept l r ∷ t))
  unfolding accepted report_error
  accepted_lem (negsuc n) t l (new, b) = (
    new,
    record { valid = b.valid; accounts = b.accounts; resolved = b.resolved; visitors = b.visitors },
  )
  accepted_lem (pos fd) t l (new, b) = elim (Bool-cases (ltb s.nfds max_connection)) [
    | inl room ↦ (
      (fd, length (open_fds t)) ∷ new,
      rw (away-room fd new t (ltb→lt s.nfds max_connection room) b) (
          add_client-Balanced sock addrs (away rest new ++ rest) (new ++ arrivals v) fd s t _
            (ltb→lt s.nfds max_connection room) b refl refl refl),
    )
    | inr full ↦ (
      (fd, length (open_fds t)) ∷ new,
      rw (away-full fd new t (ground arith) b) (
          add_client_full-Balanced sock addrs (away rest new ++ rest) (new ++ arrivals v) fd s t _
            (ground arith) b refl refl refl),
    )
  ]

  serve_listener_lem :
      (t : Trace)
      → Accounted sock addrs rest v s t
      → Total (λ o. Accounted sock addrs rest v (chosen s o)) (serve_listener os s t)
  unfolding serve_listener accept
  serve_listener_lem t b =
      Total-if (λ o. Accounted sock addrs rest v (chosen s o)) (slot s 0).revents _ _ t
        (λ _. accepted_lem (os.on_accept t (slot s 0).fd) t (slot s 0).fd b) (λ _. b)

  after_listener_lem :
      (o : Option Server) (t : Trace)
      → Accounted sock addrs rest v (chosen s o) t
      → Total (λ l. Accounted sock addrs rest v (state_of l)) (after_listener os o s t)
  unfolding after_listener
  after_listener_lem none t k = k
  after_listener_lem (some s') t (new, b) =
      Total-bind (Balanced sock addrs (away rest new ++ rest) (new ++ arrivals v))
        (λ l. Accounted sock addrs rest v (state_of l)) (serve_clients os s'.nfds 1 s') _ t
        (serve_clients-Balanced sock addrs (away rest new ++ rest) (new ++ arrivals v) os short
          s'.nfds 1 s' t (omega arith) b)
        (λ s'' t' b'. (new, b'))

module _ (os : Kernel) (short : ShortMessages os) (sock addrs : ℕ) (rest : List ℕ) (v : Trace) where
  refresh-Accounted :
      (ready : ℕ → Bool) (r : ℤ) (s : Server) (t : Trace)
      → Accounted sock addrs rest v s t
      → Accounted sock addrs rest v
          (record s { fds = refresh ready 0 s.nfds s.fds })
          (Event.poll r ∷ t)
  refresh-Accounted ready r s t (new, b) = (
    new,
    record {
      valid = refresh-IsValid sock ready s b.valid;
      accounts = rw (table-refresh ready s) b.accounts;
      resolved = b.resolved;
      visitors = b.visitors;
    },
  )

  -- A round has no undefined behaviour, and keeps the accounts. (Messages are shorter than the
  -- request buffer.)
  pub poll_round_lem :
      (s : Server) (t : Trace)
      → Accounted sock addrs rest v s t
      → Total (λ l. Accounted sock addrs rest v (state_of l)) (poll_round os s t)
  unfolding poll_round poll report_error
  poll_round_lem s t b =
      let fds = map (λ (p : PollFd). p.fd) (take s.nfds s.fds) in
      let s' : Server = record s { fds = refresh (os.poll_in t fds) 0 s.nfds s.fds } in
      let b' = refresh-Accounted (os.poll_in t fds) (os.on_poll t fds) s t b in
      Total-if (λ l. Accounted sock addrs rest v (state_of l)) (is_neg (os.on_poll t fds)) _ _ _
        (λ _. (
          b.0,
          record {
            valid = b.1.valid;
            accounts = b.1.accounts;
            resolved = b.1.resolved;
            visitors = b.1.visitors;
          },
        ))
        (λ _.
          Total-bind (λ o. Accounted sock addrs rest v (chosen s' o))
            (λ l. Accounted sock addrs rest v (state_of l)) (serve_listener os s') _ _
            (serve_listener_lem os short sock addrs rest v s' _ b')
            (λ o t' k. after_listener_lem os short sock addrs rest v s' o t' k))

-- The listening socket stands first.
table-cons : (sock : ℕ) (s : Server) → IsValid sock s → table s ≡ sock ∷ drop 1 (table s)
table-cons sock s v = go s.fds s.nfds v.used (omega (arith, v.size)) v.listener
  where
    go :
        (slots : List PollFd) (n : ℕ)
        → 1 ≤ n
        → 1 ≤ length slots
        → (get_or slots 0 empty_slot).fd ≡ sock
        → take n (map fd_of slots) ≡ sock ∷ drop 1 (take n (map fd_of slots))
    go slots zero h k e = absurd (omega arith)
    go [] (suc n) h k e = absurd (omega arith)
    go (p ∷ slots) (suc n) h k e = ap (λ x. x ∷ take n (map fd_of slots)) e

-- What is open after a server that started at `t`. With `v` the end of its set-up, `sock` the
-- listening socket and `new` the clients that came since, it is the descriptors of its table,
-- those of `new` that were turned away, and what was open at `t`. One that stopped has closed the
-- listening socket and freed the address list, and left its clients open.
abbrev pub Serving : Kernel → Trace → Option (Loop Server) → Trace → Type 0
Serving os t none u = SameOpen t u
Serving os t (some (running s)) u =
    (sock : ℕ) × (v : Trace) × (open_listener os t ≡ ok (some sock) v)
    × Accounted sock (suc (open_addrs t)) (open_fds t) v s u
Serving os t (some (stopped s)) u =
    (sock : ℕ) × (v : Trace) × (new : List (ℕ × ℕ)) × (open_listener os t ≡ ok (some sock) v)
    × IsValid sock s
    × Perm (sock ∷ open_fds u) (table s ++ (away (open_fds t) new ++ open_fds t))
    × (open_addrs u ≡ open_addrs t)
    × (arrivals u ≡ new ++ arrivals v)

module _ (os : Kernel) (short : ShortMessages os) (sock : ℕ) (t v : Trace)
    (set_up : open_listener os t ≡ ok (some sock) v) where
  leave_lem :
      (l : Loop Server) (t' : Trace)
      → Accounted sock (suc (open_addrs t)) (open_fds t) v (state_of l) t'
      → Total (λ l'. Serving os t (some l')) (leave os sock l t')
  unfolding leave freeaddrinfo close
  leave_lem (running s) t' b = (sock, v, set_up, b)
  leave_lem (stopped s) t' (new, b) =
      (sock, v, new, set_up, b.valid, closed, omega (arith, b.resolved), b.visitors)
    where
      others : List ℕ
      others = drop 1 (table s) ++ (away (open_fds t) new ++ open_fds t)

      first : table s ++ (away (open_fds t) new ++ open_fds t) ≡ sock ∷ others
      first = ap (λ xs. xs ++ (away (open_fds t) new ++ open_fds t)) (table-cons sock s b.valid)

      closed :
          Perm
            (sock ∷ erase ℕ_discrete (open_fds t') sock)
            (table s ++ (away (open_fds t) new ++ open_fds t))
      closed = rw first (
          Perm.cons sock (
            subst (λ xs. Perm (erase ℕ_discrete (open_fds t') sock) xs) (erase_head sock others)
              (Perm.erase ℕ_discrete sock (subst (λ xs. Perm (open_fds t') xs) first b.accounts))))

  started_lem :
      (rounds : ℕ)
      → OpenedOne t (some sock) v
      → Total (Serving os t) (started os rounds (some sock) v)
  unfolding started
  started_lem rounds q =
      Total-bind (λ l. Accounted sock (suc (open_addrs t)) (open_fds t) v (state_of l))
        (Serving os t) (while_true rounds (poll_round os) (initial sock)) _ v
        (while_true-inv (Accounted sock (suc (open_addrs t)) (open_fds t) v) (poll_round os)
          (poll_round_lem os short sock (suc (open_addrs t)) (open_fds t) v) rounds (initial sock) v
          ([], start))
        (λ l t' k.
          Total-bind (λ l'. Serving os t (some l')) (Serving os t) (leave os sock l) _ t'
            (leave_lem l t' k) (λ l' t'' k'. k'))
    where
      start : Balanced sock (suc (open_addrs t)) (open_fds t) (arrivals v) (initial sock) v
      start = record {
        valid = initial-IsValid sock;
        accounts = rw (table-initial sock, q.0) (Perm.refl (sock ∷ open_fds t));
        resolved = q.1;
        visitors = refl;
      }

-- A server, for any number of rounds and from any trace, has no undefined behaviour and keeps
-- account of every descriptor: what is open is what was open at the start, the table (the
-- listening socket and the clients), and those clients that came, since the end of the set-up,
-- when the array was full. One that stopped has closed the listening socket and no client; one
-- whose set-up failed leaves nothing. (A success of the resolver names an address, and messages
-- are shorter than the request buffer.)
pub run_server_lem :
    (os : Kernel)
    → ResolvesSome os
    → ShortMessages os
    → (rounds : ℕ) (t : Trace) → Total (Serving os t) (run_server os rounds t)
unfolding run_server started
run_server_lem os addr short rounds t =
    Total-bind (λ o u. (open_listener os t ≡ ok o u) × OpenedOne t o u) (Serving os t)
      (open_listener os) _ t
      (Total-run (OpenedOne t) (open_listener os t) (open_listener_lem os addr t)) start
  where
    start :
        (o : Option ℕ) (u : Trace)
        → (open_listener os t ≡ ok o u) × OpenedOne t o u
        → Total (Serving os t) (started os rounds o u)
    start none u (e, q) = q
    start (some sock) u (e, q) = started_lem os short sock t u e rounds q
