-- ===== src/Tls/Server/Laws.antt =====
-- The TLS server as a whole: its passes, its rounds and its end.
use mathlib.Core.List.Perm
use linux_network_programmin.Base.{
  ℕ, zero, suc, ◌+◌, ◌≤◌, ◌≡◌, refl, inl, inr, is_nonpos, Option-cases, List, [], ◌∷◌, ◌++◌, Option,
  none, some, arith, ltb, ltb→lt, append_assoc, length,
}
use linux_network_programmin.Sys.{Kernel, Event, Trace, report_error, poll, raise_fault}
use linux_network_programmin.Sys.Loop.{
  Loop, running, stopped, state_of, while_true, while_true-inv, Ends, Total, Total-bind, Total-if,
  Total-mono,
}
use linux_network_programmin.Sys.Resources.{open_fds, open_addrs}
use linux_network_programmin.Sys.Tls.{open_contexts, open_handles, refused, ssl_new, ssl_set_fd}
use linux_network_programmin.Socket.Listen.{max_connection}
use linux_network_programmin.Socket.Listen.Laws.{ResolvesSome}
use linux_network_programmin.Tls.{open_tls}
use linux_network_programmin.Tls.Slots.{Slots, present, poll_slots, initial_slots}
use linux_network_programmin.Tls.Slots.Laws.{
  poll_slots-IsValid, present-poll_slots, initial_slots-IsValid, initial_slots-present,
}
use linux_network_programmin.Tls.Server.{
  serve_event, serve_slots, tls_round, end_tls, serve_tls, run_tls_server,
}
use linux_network_programmin.Tls.Server.Books.{Balanced, same-Balanced}
use linux_network_programmin.Tls.Server.Events.{HandlesMade, ShortRecords, Accounted}
use linux_network_programmin.Tls.Server.Pass.{serve_event_lem}
use linux_network_programmin.Tls.Server.End.{Released, end_tls_lem}
use linux_network_programmin.Tls.Laws.{Opened, open_tls_lem}

module _ (os : Kernel) (made : HandlesMade os) (short : ShortRecords os) (sock addrs contexts : ℕ)
    (fds handles gone : List ℕ) where
  abbrev A : Slots → Trace → Type 0
  A = Accounted sock addrs contexts fds handles gone

  -- A pass comes to the end of the slots in use within one round for each slot.
  serve_slots_lem :
      (rounds i : ℕ) (s : Slots) (t : Trace)
      → max_connection ≤ i + rounds
      → A s t
      → Total A (serve_slots os sock rounds i s t)
  unfolding serve_slots
  serve_slots_lem zero i s t h (lost, b) =
      Total-if A (ltb i s.nfds) raise_fault _ t
        (λ k. absurd (omega (arith, b.valid.room, ltb→lt i s.nfds k))) (λ _. (lost, b))
  serve_slots_lem (suc rounds) i s t h (lost, b) =
      Total-if A (ltb i s.nfds) _ _ t
        (λ k.
          Total-bind (Accounted sock addrs contexts (lost ++ fds) handles (lost ++ gone)) A
            (serve_event os sock s i) _ t
            (serve_event_lem os made short sock addrs contexts (lost ++ fds) handles (lost ++ gone)
              s i t (ltb→lt i s.nfds k) b)
            (λ s' u (new, b').
              serve_slots_lem rounds (i + 1) s' u (omega arith)
                (new ++ lost, rw (append_assoc new lost fds, append_assoc new lost gone) b')))
        (λ _. (lost, b))

  pub tls_round_lem :
      (s : Slots) (t : Trace) → A s t → Total (λ l. A (state_of l)) (tls_round os sock s t)
  unfolding tls_round poll report_error
  tls_round_lem s t (lost, b) =
      let fds_polled = present (λ p. p.fd) s.slots in
      let ready = os.poll_in t fds_polled in
      Total-if (λ l. A (state_of l)) (is_nonpos (os.on_poll t fds_polled)) _ _ _
        (λ _. (
          lost,
          same-Balanced sock addrs contexts (lost ++ fds) handles (lost ++ gone) s t _ b
              (refl, refl, refl, refl, λ n. refl),
        ))
        (λ _.
          Total-bind A (λ l. A (state_of l))
            (serve_slots os sock max_connection 0 (record s { slots = poll_slots ready 0 s.slots }))
            _ _
            (serve_slots_lem max_connection 0 _ _ (omega arith) (
              lost,
              record {
                valid = poll_slots-IsValid sock ready s b.valid;
                descriptors = rw (present-poll_slots ready 0 s.slots).0 b.descriptors;
                sessions = rw (present-poll_slots ready 0 s.slots).1 b.sessions;
                resolved = b.resolved;
                configured = b.configured;
                refusals = b.refusals;
              },
            ))
            (λ s' u a. a))

-- The clients that were lost before `t`.
abbrev pub before : Trace → List ℕ
before t = refused (length (open_handles t) + max_connection) t

-- What is open after a server that started at `t`: the books while it runs. One that stopped has
-- released its slots, the address list and the context, and closed the listening socket twice.
abbrev pub Served : Trace → Option (Loop Slots) → Trace → Type 0
Served t none u =
    (open_fds u ≡ open_fds t)
    × (open_addrs u ≡ open_addrs t)
    × (open_contexts u ≡ open_contexts t)
    × (open_handles u ≡ open_handles t)
    × ((n : ℕ) → refused n u ≡ refused n t)
Served t (some (running s)) u =
    (sock : ℕ) × Accounted sock (suc (open_addrs t)) (suc (open_contexts t)) (open_fds t)
      (open_handles t) (before t) s u
Served t (some (stopped s)) u =
    (sock : ℕ) × (lost : List ℕ) × Released sock (open_addrs t) (open_contexts t)
      (lost ++ open_fds t) (open_handles t) (length (open_handles t) + max_connection)
      (lost ++ before t) u

leave_lem :
    (t : Trace) (sock : ℕ) (l : Loop Slots) (u : Trace)
    → Accounted sock
        (suc (open_addrs t))
        (suc (open_contexts t))
        (open_fds t)
        (open_handles t)
        (before t)
        (state_of l)
        u
    → Total (λ l'. Served t (some l')) (end_tls sock l u)
unfolding end_tls
leave_lem t sock (running s) u a = (sock, a)
leave_lem t sock (stopped s) u (lost, b) =
    Total-mono (Ends (λ _ _. ⊥) (λ _. R)) (λ l'. Served t (some l')) (end_tls sock (stopped s) u)
      over
      (end_tls_lem sock (open_addrs t) (open_contexts t) (lost ++ open_fds t) (open_handles t)
        (lost ++ before t) s u b)
  where
    R : Trace → Type 0
    R =
        Released sock (open_addrs t) (open_contexts t) (lost ++ open_fds t) (open_handles t)
          (length (open_handles t) + max_connection) (lost ++ before t)

    over : (l : Loop Slots) (v : Trace) → Ends (λ _ _. ⊥) (λ _. R) l v → Served t (some l) v
    over (running s') v r = absurd r
    over (stopped s') v r = (sock, lost, r)

module _ (os : Kernel) (made : HandlesMade os) (short : ShortRecords os) where
  serve_tls_lem :
      (rounds : ℕ) (t : Trace) (o : Option (ℕ × ℕ)) (u : Trace)
      → Opened t o u
      → Total (Served t) (serve_tls os rounds o u)
  unfolding serve_tls ssl_new ssl_set_fd
  serve_tls_lem rounds t none u q = q
  serve_tls_lem rounds t (some (sock, context)) u q = elim (Option-cases (os.on_ssl_new u)) [
    | inl null ↦ absurd (made u null)
    | inr (handle, e) ↦
        rw (e, serve_tls)
          (Total-bind (λ l. A' (state_of l)) (Served t)
            (while_true rounds (tls_round os sock) (initial_slots sock handle)) _ _
            (while_true-inv A' (tls_round os sock)
              (tls_round_lem os made short sock (suc (open_addrs t)) (suc (open_contexts t))
                (open_fds t) (open_handles t) (before t))
              rounds (initial_slots sock handle) _ ([], start handle))
            (λ l v a.
              Total-bind (λ l'. Served t (some l')) (Served t) (end_tls sock l) _ v
                (leave_lem t sock l v a) (λ l' w k. k)))
  ]
    where
      A' : Slots → Trace → Type 0
      A' =
          Accounted sock (suc (open_addrs t)) (suc (open_contexts t)) (open_fds t) (open_handles t)
            (before t)

      start :
          (handle : ℕ)
          → Balanced sock
              (suc (open_addrs t))
              (suc (open_contexts t))
              (open_fds t)
              (open_handles t)
              (before t)
              (initial_slots sock handle)
              (Event.ssl_set_fd handle sock ∷ Event.ssl_new (some handle) ∷ u)
      start handle = record {
        valid = initial_slots-IsValid sock handle;
        descriptors =
            rw (q.0, (initial_slots-present sock handle).0) (Perm.refl (sock ∷ open_fds t));
        sessions =
            rw (q.3, (initial_slots-present sock handle).1) (Perm.refl (handle ∷ open_handles t));
        resolved = q.1;
        configured = q.2;
        refusals = q.4 (length (open_handles t) + max_connection);
      }

  -- The TLS server, for any number of rounds and from any trace, has no undefined behaviour and
  -- keeps account of every descriptor and handle: while it runs, what is open is what was open at
  -- the start, what its slots hold, and the clients that it lost. If its loop stops, all handles,
  -- the context and the address list are released, and every descriptor but the lost clients' is
  -- closed, the listening socket's twice. (A success of the resolver names an address, `SSL_new`
  -- does not fail, and records are shorter than the request buffer.)
  pub run_tls_server_lem :
      ResolvesSome os → (rounds : ℕ) (t : Trace) → Total (Served t) (run_tls_server os rounds t)
  unfolding run_tls_server
  run_tls_server_lem some_addr rounds t =
      Total-bind (Opened t) (Served t) (open_tls os) _ t (open_tls_lem os some_addr t)
        (λ o u q. serve_tls_lem rounds t o u q)
