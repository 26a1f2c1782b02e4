-- ===== src/Select/Run.antt =====
-- A round of the server, and the server for any number of rounds.
use mathlib.Core.List.Perm
use linux_network_programmin.Base.{
  ℕ, zero, suc, ◌+◌, ◌≤◌, ◌<◌, ltb, length-replicate, replicate, ◌≡◌, refl, ◌∙◌, Bool, true, false,
  Bool-cases, List, [], ◌∷◌, ◌++◌, inl, inr, Option, none, some, ℤ, pos, arith, if◌then◌else◌, ◌==◌,
  leb, is_neg,
}
use linux_network_programmin.Sys.{Kernel, Event, Trace, ok, pure, ◌>>=◌, report_error, select}
use linux_network_programmin.Sys.Loop.{
  Loop, running, state_of, Total, Total-bind, Total-if, Total-mono, Total-run, while_true,
  while_true-inv,
}
use linux_network_programmin.Sys.Resources.{open_fds, open_addrs}
use linux_network_programmin.Sys.Arrivals.{arrivals}
use linux_network_programmin.Socket.Listen.{max_connection, open_listener}
use linux_network_programmin.Socket.Listen.Laws.{
  ResolvesSome, SameOpen, OpenedOne, open_listener_lem,
}
use linux_network_programmin.Socket.Listen.Source.{Below, Total-both, open_listener-Below}
use linux_network_programmin.Poll.Clients.{ShortMessages}
use linux_network_programmin.Select.{
  Server, fd_setsize, fd_set, max_of, read_set, serve_listener, serve_client, scan, report_select,
  select_round, initial, started, run_server,
}
use linux_network_programmin.Select.Accounts.{
  Balanced, away, Accounted, AcceptsSmall, Waits, Accepted, serve_client_lem, serve_listener_lem,
}

-- After the descriptor `i`
abbrev Stepped : ℕ → ℕ → List ℕ → Trace → ℕ → Server → Server → Trace → Type 0
Stepped sock addrs rest v i s s' u = Accounted sock addrs rest v s' u × Waits i s s'

module _ (os : Kernel) (short : ShortMessages os) (small : AcceptsSmall os) (sock addrs : ℕ)
    (rest : List ℕ) (v : Trace) where
  step_lem :
      (i : ℕ) (ready : ℕ → Bool) (s : Server) (t : Trace)
      → Accounted sock addrs rest v s t
      → (ready i ≡ true → s.master_set i ≡ true)
      → Total (Stepped sock addrs rest v i s) (
          (if ready i
              then (if i == sock then serve_listener os sock s else serve_client os sock i s)
              else pure s)
            t)
  step_lem i ready s t (new, b) h =
      Total-if (Stepped sock addrs rest v i s) (ready i) _ _ t
        (λ r.
          Total-if (Stepped sock addrs rest v i s) (i == sock) _ _ t
            (λ e.
              Total-mono (Accepted os sock addrs rest v s t) (Stepped sock addrs rest v i s)
                (serve_listener os sock s t)
                (λ s' t' (b', w, p). (b', λ k n m. w k (ground (arith, e, n)) m))
                (serve_listener_lem os sock addrs rest v s small t (new, b)))
            (λ e.
              Total-mono
                (λ s' t'.
                  Balanced sock addrs (away rest new ++ rest) (new ++ arrivals v) s' t'
                  × Waits i s s')
                (Stepped sock addrs rest v i s) (serve_client os sock i s t)
                (λ s' t' (b', w). ((new, b'), w))
                (serve_client_lem os sock addrs (away rest new ++ rest) (new ++ arrivals v) s short
                  i t (ground (arith, e)) (h r) b)))
        (λ r. ((new, b), λ k n m. m))

  scan_lem :
      (rounds i : ℕ) (ready : ℕ → Bool) (s : Server) (t : Trace)
      → Accounted sock addrs rest v s t
      → ((k : ℕ) → i ≤ k → ready k ≡ true → s.master_set k ≡ true)
      → Total (Accounted sock addrs rest v) (scan os sock rounds i ready s t)
  unfolding scan
  scan_lem zero i ready s t b h = b
  scan_lem (suc rounds) i ready s t b h = elim (Bool-cases (leb i s.global_max_fd)) [
    | inl in_range ↦
        rw (in_range, scan)
          (Total-bind (Stepped sock addrs rest v i s) (Accounted sock addrs rest v)
            (if ready i
              then (if i == sock then serve_listener os sock s else serve_client os sock i s)
              else pure s)
            (λ s'. scan os sock rounds (i + 1) ready s') t
            (step_lem i ready s t b (h i (omega arith)))
            (λ s' t' (b', w).
              scan_lem rounds (i + 1) ready s' t' b'
                (λ k n r. w k (omega arith) (h k (omega arith) r))))
    | inr past ↦ rw (past, scan) b
  ]

  -- A round of the select server has no undefined behaviour and keeps the accounts. (Messages are
  -- shorter than the request buffer, and the descriptors of clients fit an `fd_set` and are not
  -- that of the standard input.)
  pub select_round_lem :
      (s : Server) (t : Trace)
      → Accounted sock addrs rest v s t
      → Total (λ l. Accounted sock addrs rest v (state_of l)) (select_round os sock s t)
  unfolding select_round select report_select report_error
  select_round_lem s t (new, b) =
      Total-bind (λ _. Accounted sock addrs rest v s)
        (λ l. Accounted sock addrs rest v (state_of l)) (report_select os sock r) _
        (Event.select r ∷ t)
        (Total-if (λ _. Accounted sock addrs rest v s) (is_neg r) _ _ (Event.select r ∷ t)
          (λ _. quiet _ refl refl refl) (λ _. quiet _ refl refl refl))
        (λ _ u b'. scanned u b')
    where
      r : ℤ
      r = os.on_select t (s.global_max_fd + 1)

      ready : ℕ → Bool
      ready = read_set s (r, os.select_in t)

      quiet :
          (u : Trace)
          → open_fds u ≡ open_fds t
          → open_addrs u ≡ open_addrs t
          → arrivals u ≡ arrivals t
          → Accounted sock addrs rest v s u
      quiet u q a w = (
        new,
        record {
          size = b.size;
          accounts = rw q b.accounts;
          kept = b.kept;
          bounded = b.bounded;
          below = b.below;
          resolved = a ∙ b.resolved;
          visitors = w ∙ b.visitors;
        },
      )

      waited : (k : ℕ) → ready k ≡ true → s.master_set k ≡ true
      waited k e = ground (arith, e)

      scanned :
          (u : Trace)
          → Accounted sock addrs rest v s u
          → Total
              (λ l. Accounted sock addrs rest v (state_of l))
              ((do s' ← scan os sock fd_setsize 0 ready s; pure (running s')) u)
      scanned u b' =
          Total-bind (Accounted sock addrs rest v) (λ l. Accounted sock addrs rest v (state_of l))
            (scan os sock fd_setsize 0 ready s) (λ s'. pure (running s')) u
            (scan_lem fd_setsize 0 ready s u b' (λ k h e. waited k e)) (λ s' u' b''. b'')

-- What is open after a server that started at `t`. With `v` the end of its set-up, it is the
-- clients of the array, the clients that came since `v` and were turned away because the array was
-- full, the listening socket `sock`, and what was open at `t`. A server that could not start has
-- left nothing open.
abbrev pub Outcome : Kernel → Trace → Option (Loop Server) → Trace → Type 0
Outcome os t none u = SameOpen t u
Outcome os t (some l) u =
    (sock : ℕ) × (v : Trace) × (open_listener os t ≡ ok (some sock) v)
    × Accounted sock (suc (open_addrs t)) (sock ∷ open_fds t) v (state_of l) u

module _ (os : Kernel) (short : ShortMessages os) (small : AcceptsSmall os) (t : Trace) where
  started_lem :
      (sock rounds : ℕ) (v : Trace)
      → open_listener os t ≡ ok (some sock) v
      → sock < fd_setsize
      → OpenedOne t (some sock) v
      → Total (Outcome os t) (started os rounds (some sock) v)
  unfolding started initial fd_set
  started_lem sock rounds v set_up h q =
      rw (in_set, started)
        (Total-bind (λ l. Accounted sock (suc (open_addrs t)) (sock ∷ open_fds t) v (state_of l))
          (Outcome os t) (while_true rounds (select_round os sock) first) _ v
          (while_true-inv (Accounted sock (suc (open_addrs t)) (sock ∷ open_fds t) v)
            (select_round os sock)
            (select_round_lem os short small sock (suc (open_addrs t)) (sock ∷ open_fds t) v) rounds
            first v ([], start))
          (λ l u k. (sock, v, set_up, k)))
    where
      in_set : ltb sock fd_setsize ≡ true
      in_set = ground arith

      first : Server
      first = record {
        fds_client = replicate max_connection 0;
        master_set = λ k. if k == sock then true else false;
        global_max_fd = max_of 0 sock;
      }

      start : Balanced sock (suc (open_addrs t)) (sock ∷ open_fds t) (arrivals v) first v
      start = record {
        size = length-replicate {A = ℕ} max_connection 0;
        accounts = rw q.0 (Perm.refl (sock ∷ open_fds t));
        kept = λ k e n. ground (arith, e, n);
        bounded = λ k e. ground (arith, e);
        below = ground (arith, h);
        resolved = q.1;
        visitors = refl;
      }

-- The descriptors of the kernel's sockets fit an `fd_set`.
abbrev pub SocketsSmall : Kernel → Type 0
SocketsSmall os = (t : Trace) (fd : ℕ) → os.on_socket t ≡ pos fd → fd < fd_setsize

-- A select server, for any number of rounds and from any trace, has no undefined behaviour and
-- keeps account of every descriptor: what is open is the clients of its array, those that came
-- since the end of the set-up when the array was full, the listening socket, and what was open at
-- the start. (A success of the resolver names an
-- address, messages are shorter than the request buffer, and descriptors fit an `fd_set` and are
-- not that of the standard input.)
pub select_server_lem :
    (os : Kernel)
    → ResolvesSome os
    → SocketsSmall os
    → AcceptsSmall os
    → ShortMessages os
    → (rounds : ℕ) (t : Trace) → Total (Outcome os t) (run_server os rounds t)
unfolding run_server started
select_server_lem os addr sockets small short rounds t =
    Total-bind (λ o u. (open_listener os t ≡ ok o u) × (OpenedOne t o u × Below fd_setsize o u))
      (Outcome os t) (open_listener os) _ t
      (Total-run (λ o u. OpenedOne t o u × Below fd_setsize o u) (open_listener os t)
        (Total-both (OpenedOne t) (Below fd_setsize) (open_listener os t)
          (open_listener_lem os addr t) (open_listener-Below os fd_setsize addr sockets t)))
      start
  where
    start :
        (o : Option ℕ) (u : Trace)
        → (open_listener os t ≡ ok o u) × (OpenedOne t o u × Below fd_setsize o u)
        → Total (Outcome os t) (started os rounds o u)
    start none u (e, (q, k)) = q
    start (some sock) u (e, (q, k)) = started_lem os short small t sock rounds u e (k sock refl) q
