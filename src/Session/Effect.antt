-- ===== src/Session/Effect.antt =====
-- What a reply leaves open: the connection, unless the request was to stop.
use linux_network_programmin.Base.{
  ℕ, suc, ◌<◌, ◌≡◌, refl, ◌⊎◌, inl, inr, [], ◌∷◌, Option, none, some, arith, length, take,
  length-take,
}
use mathlib.Core.Option
use mathlib.Core.Option.{some-injective}
use linux_network_programmin.Sys.{Bytes, Kernel, Event, Trace, report_error, recv}
use linux_network_programmin.Sys.Loop.{Loop, running, stopped, Total, Total-mono}
use linux_network_programmin.Sys.Partial.{Total-Partial}
use linux_network_programmin.Sys.Resources.{open_fds, open_addrs}
use linux_network_programmin.CString.{upto_nul}
use linux_network_programmin.CString.Laws.{received_text-short}
use linux_network_programmin.Poll.Clients.{ShortMessages}
use linux_network_programmin.Session.{message_size, respond, received, session_round}
use linux_network_programmin.Session.Laws.{Served, respond_lem}
use linux_network_programmin.Session.Quiet.{forsaken, Quiet, respond-Quiet}

abbrev pub Effect : ℕ → Trace → Loop (Unit {0}) → Trace → Type 0
Effect fd t (running x) u = (open_fds u ≡ open_fds t) × Quiet t u
Effect fd t (stopped x) u = (open_fds u ≡ open_fds (Event.close fd ∷ t)) × Quiet t u

pub respond-Effect :
    (os : Kernel) (fd : ℕ) (request : Bytes) (t : Trace)
    → Total (Effect fd t) (respond os fd request t)
respond-Effect os fd request t =
    Total-mono (λ l u. Served fd request t l u × Quiet t u) (Effect fd t) (respond os fd request t)
      effect
      (Total-Partial (Served fd request t) (λ _ u. Quiet t u) (respond os fd request t)
        (respond_lem os fd request t) (respond-Quiet os fd request t))
  where
    effect :
        (l : Loop (Unit {0})) (u : Trace) → Served fd request t l u × Quiet t u → Effect fd t l u
    effect (running x) u ((now, b, p, q, r, ends, fds), quiet) = (rw (← ends) at fds, quiet)
    effect (stopped x) u ((now, b, p, q, r, ends, fds), quiet) = (rw (← ends) at fds, quiet)

-- A round of a thread: it goes on, or it has closed its descriptor, or it has given it up.
abbrev pub RoundEffect : ℕ → Trace → Loop (Unit {0}) → Trace → Type 0
RoundEffect fd t (running x) u = (open_fds u ≡ open_fds t) × Quiet t u
RoundEffect fd t (stopped x) u =
    ((open_fds u ≡ open_fds (Event.close fd ∷ t)) × Quiet t u)
    ⊎ ((open_fds u ≡ open_fds t) × (forsaken u ≡ suc (forsaken t)) × (open_addrs u ≡ open_addrs t))

module _ (os : Kernel) (short : ShortMessages os) (fd : ℕ) where
  received-RoundEffect :
      (len : ℕ) (r : Option Bytes) (t : Trace)
      → ((bytes : Bytes) → r ≡ some bytes → length bytes < message_size)
      → Total (RoundEffect fd t) (received os fd r (Event.recv fd len r ∷ t))
  unfolding received report_error
  received-RoundEffect len none t fits = inr (refl, refl, refl)
  received-RoundEffect len (some []) t fits = inr (refl, refl, refl)
  received-RoundEffect len (some (b ∷ bytes)) t fits =
      rw (received_text-short message_size (b ∷ bytes) (fits (b ∷ bytes) refl), received)
        (Total-mono (Effect fd v) (RoundEffect fd t) (respond os fd (upto_nul (b ∷ bytes)) v) after
          (respond-Effect os fd (upto_nul (b ∷ bytes)) v))
    where
      v : Trace
      v = Event.recv fd len (some (b ∷ bytes)) ∷ t

      after : (l : Loop (Unit {0})) (u : Trace) → Effect fd v l u → RoundEffect fd t l u
      after (running x) u e = e
      after (stopped x) u e = inl e

  pub session_round-RoundEffect : (t : Trace) → Total (RoundEffect fd t) (session_round os fd tt t)
  unfolding session_round recv received
  session_round-RoundEffect t = received-RoundEffect message_size _ t (fits (os.on_recv t fd) refl)
    where
      fits :
          (r : Option Bytes)
          → os.on_recv t fd ≡ r
          → (bytes : Bytes) → Option.map (take message_size) r ≡ some bytes
          → length bytes < message_size
      fits none q bytes p = cc
      fits (some got) q bytes p =
          rw (← some-injective _ _ p)
            (omega (arith, length-take message_size got, short t fd got q))
