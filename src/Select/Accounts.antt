-- ===== src/Select/Accounts.antt =====
-- The descriptors that are open are the clients of the array and the others of the server.
use mathlib.Core.List.{perm_middle}
use mathlib.Core.List.Perm
use native.Mathlib.Decide.{ℕ_discrete}
use linux_network_programmin.Base.{
  ℕ, ◌+◌, ap, length-append, ◌≤◌, ◌<◌, ◌≡◌, ◌≢◌, refl, ◌∙◌, ◌⊎◌, inl, inr, ℤ, pos, negsuc, Bool,
  true, false, List, ◌∷◌, ◌++◌, Option, none, some, Perm, arith, length, if◌then◌else◌, ltb,
}
use linux_network_programmin.Sys.{Kernel, Event, Trace, report_error, accept}
use linux_network_programmin.Sys.Loop.{Total, Total-bind}
use linux_network_programmin.Sys.Resources.{open_fds, open_addrs, erase_head}
use linux_network_programmin.Sys.Arrivals.{arrivals, turned_away}
use linux_network_programmin.Base.Count.{length-Perm}
use linux_network_programmin.Socket.Listen.{max_connection}
use linux_network_programmin.Poll.{exchange}
use linux_network_programmin.Poll.Clients.{ShortMessages, ClosedIf, exchange_lem}
use linux_network_programmin.Select.{
  Server, fd_setsize, fd_set, store, forget, drop_client, stored, accepted, serve_listener,
  serve_client,
}
use linux_network_programmin.Select.Slots.{
  live, holds, forget-live, forget-holds, store-live, store-holds, store-none, length-forget,
  length-store, length-live, length-live_full,
}

-- What is open is the clients in the array and `others`; a descriptor that is waited for is the
-- listening socket or a client in the array, and is at most `global_max_fd`; these clients have
-- come.
pub record Balanced (sock addrs : ℕ) (others : List ℕ) (came : List (ℕ × ℕ)) (s : Server)
    (t : Trace) : Type 0 where
  pub size : length s.fds_client ≡ max_connection
  pub accounts : Perm (open_fds t) (live s.fds_client ++ others)
  pub kept : (k : ℕ) → s.master_set k ≡ true → k ≢ sock → (0 < k) × (holds s.fds_client k ≡ true)
  pub bounded : (k : ℕ) → s.master_set k ≡ true → k ≤ s.global_max_fd
  pub below : s.global_max_fd < fd_setsize
  pub resolved : open_addrs t ≡ addrs
  pub visitors : arrivals t ≡ came

-- `accept` gives descriptors that an `fd_set` can hold, and not that of the standard input.
abbrev pub AcceptsSmall : Kernel → Type 0
AcceptsSmall os =
    (t : Trace) (sock fd : ℕ) → os.on_accept t sock ≡ pos fd → (0 < fd) × (fd < fd_setsize)

-- What is waited for in `s` apart from `i` still is in `s'`.
abbrev pub Waits : ℕ → Server → Server → Type 0
Waits i s s' = (k : ℕ) → k ≢ i → s.master_set k ≡ true → s'.master_set k ≡ true

module _ (os : Kernel) (sock addrs : ℕ) (others : List ℕ) (came : List (ℕ × ℕ)) (s : Server) where
  drop_client-Balanced :
      (i : ℕ) (t t' : Trace)
      → i ≢ sock
      → s.master_set i ≡ true
      → Balanced sock addrs others came s t
      → ClosedIf i t true t'
      → Balanced sock addrs others came (drop_client s i) t'
  unfolding drop_client
  drop_client-Balanced i t t' h m b c = record {
    size = length-forget s.fds_client i ∙ b.size;
    accounts =
        rw (c.0, ← erase_head i (live (forget s.fds_client i) ++ others))
          (Perm.erase ℕ_discrete i (
            Perm.trans b.accounts (
              Perm.append (forget-live s.fds_client i (b.kept i m h).0 (b.kept i m h).1)
                (Perm.refl others))));
    kept = λ k e n. ground (arith, b.kept k, forget-holds s.fds_client i k);
    bounded = λ k e. ground (arith, b.bounded k);
    below = b.below;
    resolved = c.1 ∙ b.resolved;
    visitors = c.2 ∙ b.visitors;
  }

  pub serve_client_lem :
      ShortMessages os
      → (i : ℕ) (t : Trace) → i ≢ sock
      → s.master_set i ≡ true
      → Balanced sock addrs others came s t
      → Total
          (λ s' t'. Balanced sock addrs others came s' t' × Waits i s s')
          (serve_client os sock i s t)
  unfolding serve_client drop_client
  serve_client_lem short i t h m b =
      Total-bind (ClosedIf i t) (λ s' t'. Balanced sock addrs others came s' t' × Waits i s s')
        (exchange os i) _ t (exchange_lem os i short t) next
    where
      next :
          (gone : Bool) (t' : Trace)
          → ClosedIf i t gone t'
          → Balanced sock addrs others came (if gone then drop_client s i else s) t'
            × Waits i s (if gone then drop_client s i else s)
      next true t' c = (drop_client-Balanced i t t' h m b c, λ k n e. ground (arith, e))
      next false t' c = (
        record {
          size = b.size;
          accounts = rw c.0 b.accounts;
          kept = b.kept;
          bounded = b.bounded;
          below = b.below;
          resolved = c.1 ∙ b.resolved;
          visitors = c.2 ∙ b.visitors;
        },
        λ k n e. e,
      )

  -- How many descriptors are open.
  length-open_fds :
      (t : Trace)
      → Balanced sock addrs others came s t
      → length (open_fds t) ≡ length (live s.fds_client) + length others
  length-open_fds t b = length-Perm b.accounts ∙ length-append (live s.fds_client) others

-- The clients that came when the array was full, among some and with `rest` open beside them.
abbrev pub away : List ℕ → List (ℕ × ℕ) → List ℕ
away rest new = turned_away (max_connection + length rest) new

-- What is open, since the loop was entered at `v`: the clients of the array, those that were
-- turned away because it was full, and `rest`; and who has come.
abbrev pub Accounted : ℕ → ℕ → List ℕ → Trace → Server → Trace → Type 0
Accounted sock addrs rest v s u =
    (new : List (ℕ × ℕ)) × Balanced sock addrs (away rest new ++ rest) (new ++ arrivals v) s u

-- Where a client is after `accept`: in the array and waited for; or nowhere, with no slot free and
-- the server as it was. Without a client the server is as it was.
abbrev pub Placed : ℤ → Server → Server → Type 0
Placed (negsuc n) s s' = s' ≡ s
Placed (pos fd) s s' =
    ((s'.master_set fd ≡ true) × (holds s'.fds_client fd ≡ true))
    ⊎ ((holds s.fds_client 0 ≡ false) × (s' ≡ s))

module _ (os : Kernel) (sock addrs : ℕ) (rest : List ℕ) (v : Trace) (s : Server) where
  -- After an `accept` at `t`
  abbrev pub Accepted : Trace → Server → Trace → Type 0
  Accepted t s' u =
      Accounted sock addrs rest v s' u × Waits sock s s' × Placed (os.on_accept t sock) s s'

  module _ (new : List (ℕ × ℕ)) (fd : ℕ) (t : Trace)
      (b : Balanced sock addrs (away rest new ++ rest) (new ++ arrivals v) s t) where
    away-room :
        (fds : List ℕ)
        → 0 < fd
        → store s.fds_client fd ≡ some fds
        → away rest ((fd, length (open_fds t)) ∷ new) ≡ away rest new
    away-room fds h e = ground (
      arith,
      length-open_fds os sock addrs (away rest new ++ rest) (new ++ arrivals v) s t b,
      length-append (away rest new) rest,
      length-Perm (store-live s.fds_client fds fd h e),
      length-live fds,
      length-store s.fds_client fds fd e,
      b.size,
    )

    away-full :
        store s.fds_client fd ≡ none
        → away rest ((fd, length (open_fds t)) ∷ new) ≡ fd ∷ away rest new
    away-full e = ground (
      arith,
      length-open_fds os sock addrs (away rest new ++ rest) (new ++ arrivals v) s t b,
      length-append (away rest new) rest,
      length-live_full s.fds_client (store-none s.fds_client fd e),
      b.size,
    )

    -- What follows an `accept` that gave the client.
    stored_lem :
        (r : Option (List ℕ)) (l : ℕ)
        → 0 < fd
        → fd < fd_setsize
        → store s.fds_client fd ≡ r
        → Total
            (λ s' u. Accounted sock addrs rest v s' u × Waits sock s s' × Placed (pos fd) s s')
            (stored s fd r (Event.accept l (pos fd) ∷ t))
    unfolding stored fd_set
    stored_lem none l h k e = (
      (
        (fd, length (open_fds t)) ∷ new,
        rw (away-full e) (record {
          size = b.size;
          accounts =
              Perm.trans (Perm.cons fd b.accounts)
                (Perm.symm (perm_middle (live s.fds_client) (away rest new ++ rest)));
          kept = b.kept;
          bounded = b.bounded;
          below = b.below;
          resolved = b.resolved;
          visitors = ap (◌∷◌ (fd, length (open_fds t))) b.visitors;
        }),
      ),
      (λ k n e. e),
      inr (store-none s.fds_client fd e, refl),
    )
    stored_lem (some fds) l h k e =
        rw (small, stored)
          (
            (
              (fd, length (open_fds t)) ∷ new,
              rw (away-room fds h e) (record {
                size = length-store s.fds_client fds fd e ∙ b.size;
                accounts = Perm.trans (Perm.cons fd b.accounts) (
                    Perm.append (Perm.symm (store-live s.fds_client fds fd h e))
                      (Perm.refl (away rest new ++ rest)));
                kept = λ j m n. ground (arith, b.kept j, store-holds s.fds_client fds fd j);
                bounded = λ j m. ground (arith, b.bounded j);
                below = ground (arith, b.below);
                resolved = b.resolved;
                visitors = ap (◌∷◌ (fd, length (open_fds t))) b.visitors;
              }),
            ),
            (λ j n m. ground (arith, m)),
            inl (ground arith, (store-holds s.fds_client fds fd fd h e).0 refl),
          )
      where
        small : ltb fd fd_setsize ≡ true
        small = ground arith

  accepted_lem :
      AcceptsSmall os
      → (r : ℤ) (t : Trace) → os.on_accept t sock ≡ r
      → Accounted sock addrs rest v s t
      → Total
          (λ s' u. Accounted sock addrs rest v s' u × Waits sock s s' × Placed r s s')
          (accepted s r (Event.accept sock r ∷ t))
  unfolding accepted report_error
  accepted_lem small (negsuc n) t e (new, b) = (
    (
      new,
      record {
        size = b.size;
        accounts = b.accounts;
        kept = b.kept;
        bounded = b.bounded;
        below = b.below;
        resolved = b.resolved;
        visitors = b.visitors;
      },
    ),
    (λ k n e. e),
    refl,
  )
  accepted_lem small (pos fd) t e (new, b) =
      stored_lem new fd t b (store s.fds_client fd) sock (small t sock fd e).0 (small t sock fd e).1
        refl

  pub serve_listener_lem :
      AcceptsSmall os
      → (t : Trace) → Accounted sock addrs rest v s t
      → Total (Accepted t) (serve_listener os sock s t)
  unfolding serve_listener accept accepted
  serve_listener_lem small t b = accepted_lem small (os.on_accept t sock) t refl b
