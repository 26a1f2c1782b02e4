-- ===== src/Select.antt =====
-- `run_server` of 00_tutorials/12_multiplexing_select_client_server.c: an array of client
-- descriptors, in which 0 is a free slot, and an `fd_set` of what to wait for. One ready client is
-- served by the lines of the poll server.
pub mod Slots
pub mod Accounts
pub mod Run
pub mod Scan
use linux_network_programmin.Base.{
  ℕ, zero, suc, ◌+◌, ℤ, pos, negsuc, is_neg, Bool, true, false, ◌&&◌, List, [], ◌∷◌, Option, none,
  some, if◌then◌else◌, ltb, leb, ◌==◌, replicate,
}
use mathlib.Core.Option
use linux_network_programmin.Sys.{
  Kernel, M, pure, raise_fault, ◌>>=◌, ◌>>◌, report_error, accept, select,
}
use linux_network_programmin.Sys.Loop.{Loop, running, while_true}
use linux_network_programmin.Socket.Listen.{max_connection, open_listener}
use linux_network_programmin.Poll.{exchange}

-- FD_SETSIZE of Linux
abbrev pub fd_setsize : ℕ
fd_setsize = 1024

pub record Server : Type 0 where
  pub fds_client : List ℕ
  pub master_set : ℕ → Bool
  pub global_max_fd : ℕ

-- The array with `fd` in its first free slot, if it has one.
unfoldable pub store : List ℕ → ℕ → Option (List ℕ)
store [] fd = none
store (c ∷ fds) fd =
    let rest = store fds fd in if c == 0 then some (fd ∷ fds) else Option.map (λ r. c ∷ r) rest

-- The array with its first `fd` freed.
unfoldable pub forget : List ℕ → ℕ → List ℕ
forget [] fd = []
forget (c ∷ fds) fd = let rest = forget fds fd in if c == fd then 0 ∷ fds else c ∷ rest

-- `FD_SET`, defined below FD_SETSIZE
unfoldable pub fd_set : ℕ → (ℕ → Bool) → M (ℕ → Bool)
fd_set fd set =
    if ltb fd fd_setsize then pure (λ k. if k == fd then true else set k) else raise_fault

-- `FD_CLR`
abbrev pub fd_clr : ℕ → (ℕ → Bool) → ℕ → Bool
fd_clr fd set k = if k == fd then false else set k

-- `MAX`
abbrev pub max_of : ℕ → ℕ → ℕ
max_of a b = if ltb b a then a else b

-- After `close(i)`
unfoldable pub drop_client : Server → ℕ → Server
drop_client s i = record s {
  fds_client = forget s.fds_client i;
  master_set = fd_clr i s.master_set;
}

-- What `read_set` holds after `select`; a `select` that fails leaves it as it was.
abbrev pub read_set : Server → ℤ × (ℕ → Bool) → ℕ → Bool
read_set s r i = if is_neg r.0 then s.master_set i else (s.master_set i && r.1 i)

stored : Server → ℕ → Option (List ℕ) → M Server
unfolding fd_set
stored s fd none = pure s
stored s fd (some fds) = do
  set ← fd_set fd s.master_set
  pure (record { fds_client = fds; master_set = set; global_max_fd = max_of s.global_max_fd fd })

accepted : Server → ℤ → M Server
unfolding stored
accepted s (negsuc n) = do report_error "Server accept() failed"; pure s
accepted s (pos fd) = stored s fd (store s.fds_client fd)

module _ (os : Kernel) (sock_server : ℕ) where
  unfoldable pub serve_listener : Server → M Server
  unfolding accepted
  serve_listener s = do fd ← accept os sock_server; accepted s fd

  unfoldable pub serve_client : ℕ → Server → M Server
  serve_client i s = do gone ← exchange os i; pure (if gone then drop_client s i else s)

  -- `for (int i = 0; i <= global_max_fd; i++)`
  unfoldable pub scan : ℕ → ℕ → (ℕ → Bool) → Server → M Server
  scan zero i ready s = pure s
  scan (suc rounds) i ready s = elim (leb i s.global_max_fd) [
    | false ↦ pure s
    | true ↦
        (if ready i
          then (if i == sock_server then serve_listener s else serve_client i s)
          else pure s)
        >>= λ s'. scan rounds (i + 1) ready s'
  ]

  report_select : ℤ → M (Unit {0})
  report_select r = if is_neg r then report_error "Server select() failed" else pure tt

  -- One round of the server loop, which nothing ends. The descriptors are below FD_SETSIZE.
  unfoldable pub select_round : Server → M (Loop Server)
  unfolding report_select
  select_round s = do
    r ← select os (s.global_max_fd + 1)
    report_select r.0
    s' ← scan fd_setsize 0 (read_set s r) s
    pure (running s')

module _ (os : Kernel) where
  -- The state at the head of the loop; the static `global_max_fd` starts at 0.
  unfoldable pub initial : ℕ → M Server
  initial sock_server = do
    set ← fd_set sock_server (λ k. false)
    pure (record {
      fds_client = replicate max_connection 0;
      master_set = set;
      global_max_fd = max_of 0 sock_server;
    })

  started : ℕ → Option ℕ → M (Option (Loop Server))
  unfolding initial
  started rounds none = pure none
  started rounds (some sock_server) = do
    s ← initial sock_server
    l ← while_true rounds (select_round os sock_server) s
    pure (some l)

  -- The server for a number of rounds; `none` if its set-up failed.
  unfoldable pub run_server : ℕ → M (Option (Loop Server))
  unfolding started
  run_server rounds = do sock ← open_listener os; started rounds sock
