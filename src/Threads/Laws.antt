-- ===== src/Threads/Laws.antt =====
-- In every interleaving each open descriptor has one owner, and no thread gets stuck.
use mathlib.Core.List.{perm_middle}
use mathlib.Core.List.Perm
use native.Mathlib.Decide.{ℕ_discrete}
use linux_network_programmin.Base.{
  ℕ, zero, suc, ◌+◌, ◌≡◌, refl, ap, ◌∙◌, ◌⊎◌, inl, inr, ℤ, pos, negsuc, is_nonzero, List, [], ◌∷◌,
  ◌++◌, Option, none, some, Perm, arith, length, if◌then◌else◌,
}
use linux_network_programmin.Sys.{
  Kernel, Event, Trace, Run, ok, pure, ◌>>=◌, ◌>>◌, report_error, accept, pthread_create,
  pthread_detach,
}
use linux_network_programmin.Sys.Loop.{running, stopped, Total, Total-bind, Total-if}
use linux_network_programmin.Sys.Resources.{open_fds, open_addrs, erase_head}
use linux_network_programmin.Sys.Partial.{Total-Partial}
use linux_network_programmin.Socket.Listen.Laws.{ResolvesSome, OpenedOne}
use linux_network_programmin.Socket.Reuse.{threaded, open_reusable}
use linux_network_programmin.Socket.Reuse.Laws.{threaded-Releases, open_reusable_lem}
use linux_network_programmin.Socket.Reuse.Quiet.{Same, threaded-IsQuiet, open_reusable-Same}
use linux_network_programmin.Poll.Clients.{ShortMessages}
use linux_network_programmin.Session.{session_round}
use linux_network_programmin.Session.Quiet.{forsaken}
use linux_network_programmin.Session.Effect.{RoundEffect, session_round-RoundEffect}
use linux_network_programmin.Threads.{
  System, spawn, accepted, accept_round, with_new, Step, accepting, serving, ending, Reach, here,
  next, start_server,
}

-- What is open: the threads' descriptors, those of clients that were given up, and the rest. As
-- many were given up as the trace tells since it said `before`.
pub record IsBalanced (rest : List ℕ) (before addrs : ℕ) (s : System) : Type 0 where
  pub lost : List ℕ
  pub accounts : Perm (open_fds s.trace) (s.threads ++ (lost ++ rest))
  pub counted : length lost + before ≡ forsaken s.trace
  pub resolved : open_addrs s.trace ≡ addrs

-- After a round of the accepting loop.
abbrev pub Welcomed : Trace → Option ℕ → Trace → Type 0
Welcomed t none u =
    (open_addrs u ≡ open_addrs t)
    × (((open_fds u ≡ open_fds t) × (forsaken u ≡ forsaken t))
        ⊎ ((fd : ℕ) × (open_fds u ≡ fd ∷ open_fds t) × (forsaken u ≡ suc (forsaken t))))
Welcomed t (some fd) u =
    (open_addrs u ≡ open_addrs t) × (open_fds u ≡ fd ∷ open_fds t) × (forsaken u ≡ forsaken t)

-- A defined run has the postcondition of its program.
Total-ok :
    {A : Type 0} (P : A → Trace → Type 0) (r : Run A) (a : A) (t : Trace)
    → Total P r
    → r ≡ ok a t
    → P a t
Total-ok P r a t h e = rw e at h

module _ (os : Kernel) where
  spawn_lem :
      (fd : ℕ) (r rc : ℤ) (t u : Trace)
      → open_fds u ≡ fd ∷ open_fds t
      → open_addrs u ≡ open_addrs t
      → forsaken u ≡ forsaken t
      → Total (Welcomed t) (
          (if is_nonzero rc
              then (do report_error "Server create thread for new client failed"; pure none)
              else (do
                rc' ← pthread_detach os
                (if is_nonzero rc' then report_error "Detach client thread failed" else pure tt)
                pure (some fd)))
            (Event.pthread_create fd rc ∷ u))
  unfolding report_error pthread_detach
  spawn_lem fd r (pos zero) t u h k l =
      Total-bind (λ _. Welcomed t (some fd)) (Welcomed t)
        (if is_nonzero rc' then report_error "Detach client thread failed" else pure tt) _ v
        (Total-if (λ _. Welcomed t (some fd)) (is_nonzero rc') _ _ v (λ _. (k, h, l))
          (λ _. (k, h, l)))
        (λ _ w q. q)
    where
      rc' : ℤ
      rc' = os.on_pthread_detach (Event.pthread_create fd (pos zero) ∷ u)

      v : Trace
      v = Event.pthread_detach rc' ∷ Event.pthread_create fd (pos zero) ∷ u
  spawn_lem fd r (pos (suc n)) t u h k l = (k, inr (fd, h, ap suc l))
  spawn_lem fd r (negsuc n) t u h k l = (k, inr (fd, h, ap suc l))

  accept_round_lem : (sock : ℕ) (t : Trace) → Total (Welcomed t) (accept_round os sock t)
  unfolding accept_round accept pthread_create report_error accepted spawn
  accept_round_lem sock t = go (os.on_accept t sock)
    where
      go : (r : ℤ) → Total (Welcomed t) (accepted os r (Event.accept sock r ∷ t))
      go (negsuc n) = (refl, inl (refl, refl))
      go (pos fd) =
          spawn_lem fd (pos fd) (os.on_pthread_create (Event.accept sock (pos fd) ∷ t)) t _ refl
            refl refl

-- One owner less.
take_out :
    (xs : List ℕ) (fd : ℕ) (ys r : List ℕ) → Perm ((xs ++ (fd ∷ ys)) ++ r) (fd ∷ ((xs ++ ys) ++ r))
take_out xs fd ys r = Perm.append (perm_middle xs ys) (Perm.refl r)

module _ (os : Kernel) (short : ShortMessages os) (sock : ℕ) (rest : List ℕ)
    (before addrs : ℕ) where
  accepting_lem :
      (o : Option ℕ) (s s' : System)
      → IsBalanced rest before addrs s
      → Welcomed s.trace o s'.trace
      → s'.threads ≡ with_new os o s.threads
      → IsBalanced rest before addrs s'
  accepting_lem none s s' b (a, inl (f, c)) e = record {
    lost = b.lost;
    accounts = rw (e, f) b.accounts;
    counted = omega (arith, b.counted, c);
    resolved = a ∙ b.resolved;
  }
  accepting_lem none s s' b (a, inr (fd, f, c)) e = record {
    lost = fd ∷ b.lost;
    accounts =
        rw (e, f)
          (Perm.trans (Perm.cons fd b.accounts)
            (Perm.symm (perm_middle s.threads (b.lost ++ rest))));
    counted = omega (arith, b.counted, c);
    resolved = a ∙ b.resolved;
  }
  accepting_lem (some fd) s s' b (a, f, c) e = record {
    lost = b.lost;
    accounts = rw (e, f) (Perm.cons fd b.accounts);
    counted = omega (arith, b.counted, c);
    resolved = a ∙ b.resolved;
  }

  ending_lem :
      (xs : List ℕ) (fd : ℕ) (ys : List ℕ) (s s' : System)
      → IsBalanced rest before addrs s
      → s.threads ≡ xs ++ (fd ∷ ys)
      → RoundEffect fd s.trace (stopped tt) s'.trace
      → s'.threads ≡ xs ++ ys
      → IsBalanced rest before addrs s'
  ending_lem xs fd ys s s' b e (inl (f, (c, a))) e' = record {
    lost = b.lost;
    accounts =
        rw (e', f, ← erase_head fd ((xs ++ ys) ++ (b.lost ++ rest)))
          (Perm.erase ℕ_discrete fd
            (Perm.trans (rw e at b.accounts) (take_out xs fd ys (b.lost ++ rest))));
    counted = omega (arith, b.counted, c);
    resolved = a ∙ b.resolved;
  }
  ending_lem xs fd ys s s' b e (inr (f, c, a)) e' = record {
    lost = fd ∷ b.lost;
    accounts =
        rw (e', f)
          (Perm.trans (Perm.trans (rw e at b.accounts) (take_out xs fd ys (b.lost ++ rest)))
            (Perm.symm (perm_middle (xs ++ ys) (b.lost ++ rest))));
    counted = omega (arith, b.counted, c);
    resolved = a ∙ b.resolved;
  }

  -- Every step keeps the books.
  Step-IsBalanced :
      (s s' : System)
      → IsBalanced rest before addrs s
      → Step os sock s s'
      → IsBalanced rest before addrs s'
  Step-IsBalanced s s' b (accepting o r e) =
      accepting_lem o s s' b
        (Total-ok (Welcomed s.trace) (accept_round os sock s.trace) o s'.trace
          (accept_round_lem os sock s.trace) r)
        e
  Step-IsBalanced s s' b (serving xs fd ys e r e') = kept (
      Total-ok (RoundEffect fd s.trace) (session_round os fd tt s.trace) (running tt) s'.trace
        (session_round-RoundEffect os short fd s.trace) r)
    where
      kept : RoundEffect fd s.trace (running tt) s'.trace → IsBalanced rest before addrs s'
      kept (f, (c, a)) = record {
        lost = b.lost;
        accounts = rw (e', f) b.accounts;
        counted = omega (arith, b.counted, c);
        resolved = a ∙ b.resolved;
      }
  Step-IsBalanced s s' b (ending xs fd ys e r e') =
      ending_lem xs fd ys s s' b e
        (Total-ok (RoundEffect fd s.trace) (session_round os fd tt s.trace) (stopped tt) s'.trace
          (session_round-RoundEffect os short fd s.trace) r)
        e'

  Reach-IsBalanced :
      {s : System} (s'' : System)
      → IsBalanced rest before addrs s
      → Reach os sock s s''
      → IsBalanced rest before addrs s''
  Reach-IsBalanced s'' b here = b
  Reach-IsBalanced s'' b (next {s'} r st) = Step-IsBalanced s' s'' (Reach-IsBalanced s' b r) st

-- Whatever the order in which the accepting loop and the threads take their steps, what is open is
-- the descriptor of each live thread, the listening socket, what was open before the set-up, and
-- one descriptor for each client that was given up: it hung up, or no thread could be made for it.
-- The address list is held. (A success of the resolver names an address, and messages are shorter
-- than the buffers.)
pub threads_lem :
    (os : Kernel)
    → ResolvesSome os
    → ShortMessages os
    → (sock : ℕ) (t u : Trace) (s : System) → start_server os t ≡ ok (some sock) u
    → Reach os sock (record { threads = []; trace = u }) s
    → IsBalanced (sock ∷ open_fds t) (forsaken t) (suc (open_addrs t)) s
unfolding start_server
threads_lem os addr short sock t u s e r =
    Reach-IsBalanced os short sock (sock ∷ open_fds t) (forsaken t) (suc (open_addrs t)) s
      (first opened) r
  where
    opened : OpenedOne t (some sock) u × (forsaken u ≡ forsaken t)
    opened =
        Total-ok (λ o v. OpenedOne t o v × Same t o v) (start_server os t) (some sock) u
          (Total-Partial (OpenedOne t) (Same t) (open_reusable os threaded t)
            (open_reusable_lem os threaded threaded-Releases addr t)
            (open_reusable-Same os threaded threaded-IsQuiet t))
          e

    first :
        OpenedOne t (some sock) u × (forsaken u ≡ forsaken t)
        → IsBalanced
            (sock ∷ open_fds t)
            (forsaken t)
            (suc (open_addrs t))
            (record { threads = []; trace = u })
    first (q, c) = record {
      lost = [];
      accounts = rw (q.0) (Perm.refl (sock ∷ open_fds t));
      counted = omega (arith, c);
      resolved = q.1;
    }
