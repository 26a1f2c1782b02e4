-- ===== src/Threads.antt =====
-- `run_server` of 00_tutorials/09_multithread_client_server.c: the accepting loop and the threads
-- of its clients, which run beside each other. A thread is at the head of its loop, and a step of
-- the whole server is one round of the accepting loop or of one thread, in any order.
pub mod Laws
use linux_network_programmin.Base.{
  ℕ, ℤ, pos, negsuc, is_nonzero, List, [], ◌∷◌, ◌++◌, Option, none, some, if◌then◌else◌, ◌≡◌,
}
use linux_network_programmin.Sys.{
  Kernel, Trace, M, ok, pure, ◌>>=◌, ◌>>◌, report_error, accept, pthread_create, pthread_detach,
}
use linux_network_programmin.Sys.Loop.{Loop, running, stopped}
use linux_network_programmin.Socket.Reuse.{threaded, open_reusable}
use linux_network_programmin.Session.{session_round}

-- The descriptors that live threads serve, and what has happened.
pub record System : Type 0 where
  pub threads : List ℕ
  pub trace : Trace

module _ (os : Kernel) where
  -- The thread goes on with a copy of the descriptor.
  spawn : ℕ → M (Option ℕ)
  spawn sock_client = do
    rc ← pthread_create os sock_client
    if is_nonzero rc
        then (do report_error "Server create thread for new client failed"; pure none)
        else (do
          rc' ← pthread_detach os
          (if is_nonzero rc' then report_error "Detach client thread failed" else pure tt)
          pure (some sock_client))

  accepted : ℤ → M (Option ℕ)
  unfolding spawn
  accepted (negsuc n) = do report_error "Server accept() failed"; pure none
  accepted (pos sock_client) = spawn sock_client

  -- A round of the accepting loop: the client for which there is a new thread.
  unfoldable pub accept_round : ℕ → M (Option ℕ)
  unfolding accepted
  accept_round sock_server = do fd ← accept os sock_server; accepted fd

  abbrev pub with_new : Option ℕ → List ℕ → List ℕ
  with_new none fds = fds
  with_new (some fd) fds = fd ∷ fds

  pub data Step (sock_server : ℕ) (s s' : System) : Type 0 where
    accepting :
        (o : Option ℕ)
        → accept_round sock_server s.trace ≡ ok o s'.trace
        → s'.threads ≡ with_new o s.threads
        → Step sock_server s s'
    -- The thread of `fd` stays in its loop.
    serving :
        (xs : List ℕ) (fd : ℕ) (ys : List ℕ)
        → s.threads ≡ xs ++ (fd ∷ ys)
        → session_round os fd tt s.trace ≡ ok (running tt) s'.trace
        → s'.threads ≡ s.threads
        → Step sock_server s s'
    -- It leaves its loop and returns.
    ending :
        (xs : List ℕ) (fd : ℕ) (ys : List ℕ)
        → s.threads ≡ xs ++ (fd ∷ ys)
        → session_round os fd tt s.trace ≡ ok (stopped tt) s'.trace
        → s'.threads ≡ xs ++ ys
        → Step sock_server s s'

  -- What can be reached from the head of the accepting loop.
  pub data Reach (sock_server : ℕ) (s : System) : System → Type 0 where
    here : Reach sock_server s s
    next :
        {s' s'' : System}
        → Reach sock_server s s'
        → Step sock_server s' s''
        → Reach sock_server s s''

  -- The set-up: the server at the head of its loop, with no thread, or `none`.
  unfoldable pub start_server : M (Option ℕ)
  start_server = open_reusable os threaded
