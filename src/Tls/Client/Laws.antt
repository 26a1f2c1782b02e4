-- ===== src/Tls/Client/Laws.antt =====
-- What the TLS client sends, and what it leaves open on each of its ways out.
use mathlib.Core.Option
use mathlib.Core.Option.{some-injective}
use linux_network_programmin.Base.{
  ℕ, ◌-◌, ◌<◌, ◌≡◌, refl, ap, ℤ, is_nonpos, true, false, [], ◌∷◌, Option, none, some, arith, length,
  take, length-take, if◌then◌else◌,
}
use linux_network_programmin.Sys.{Bytes, Kernel, Event, Trace, pure, report_error, fgets}
use linux_network_programmin.Sys.Loop.{Loop, running, stopped, Total, Total-if}
use linux_network_programmin.Sys.Tls.{ssl_read, ssl_write}
use linux_network_programmin.CString.Laws.{received_text-short}
use linux_network_programmin.Socket.Listen.Laws.{SameBooks}
use linux_network_programmin.Sys.Resources.{writes}
use linux_network_programmin.Session.{is_stop}
use linux_network_programmin.Client.{message_size}
use linux_network_programmin.Client.Laws.{line_text, command_lem, command_end}
use linux_network_programmin.Tls.Server.Events.{ShortRecords}
use linux_network_programmin.Tls.Client.{response, ask, tls_client_round}

-- A stop command ends the loop with nothing written; for another one `SSL_write` is called,
-- with the handle, and the loop goes on. Nothing is opened or released.
abbrev pub Commanded : ℕ → Bytes → Trace → Loop (Unit {0}) → Trace → Type 0
Commanded handle request t (stopped x) u =
    (is_stop request ≡ true) × (writes u ≡ writes t) × SameBooks t u
Commanded handle request t (running x) u =
    (is_stop request ≡ false)
    × ((sent : ℤ) × (writes u ≡ (handle, request, sent) ∷ writes t))
    × SameBooks t u

module _ (os : Kernel) (short : ShortRecords os) where
  response_lem :
      (handle : ℕ) (request : Bytes) (sent : ℤ) (r : Option Bytes) (t u : Trace)
      → ((bytes : Bytes) → r ≡ some bytes → length bytes < message_size)
      → is_stop request ≡ false
      → writes u ≡ (handle, request, sent) ∷ writes t
      → SameBooks t u
      → Total (Commanded handle request t) (response r u)
  unfolding response report_error
  response_lem handle request sent none t u fits go e q = (go, (sent, e), q)
  response_lem handle request sent (some []) t u fits go e q = (go, (sent, e), q)
  response_lem handle request sent (some (b ∷ bytes)) t u fits go e q =
      rw (received_text-short message_size (b ∷ bytes) (fits _ refl), response) (go, (sent, e), q)

  ask_lem :
      (handle : ℕ) (request : Bytes) (t u : Trace)
      → is_stop request ≡ false
      → writes u ≡ writes t
      → SameBooks t u
      → Total (Commanded handle request t) (ask os handle request u)
  unfolding ask ssl_write ssl_read report_error
  ask_lem handle request t u go e q =
      let rc = os.on_ssl_write u handle request in
      let v = Event.ssl_write handle request rc ∷ u in
      Total-if (Commanded handle request t) (is_nonpos rc) _ _ v
        (λ _. (go, (rc, ap (◌∷◌ (handle, request, rc)) e), q))
        (λ _.
          response_lem handle request rc _ t _ (fits v (os.on_ssl_read v handle) refl) go
            (ap (◌∷◌ (handle, request, rc)) e) q)
    where
      fits :
          (v : Trace) (r : Option Bytes)
          → os.on_ssl_read v handle ≡ r
          → (bytes : Bytes) → Option.map (take message_size) r ≡ some bytes
          → length bytes < message_size
      fits v none e' bytes p = cc
      fits v (some all) e' bytes p =
          rw (← some-injective _ _ p)
            (omega (arith, length-take message_size all, short v handle all e'))

  commanded :
      (handle : ℕ) (request : Bytes) (t u : Trace)
      → writes u ≡ writes t
      → SameBooks t u
      → Total
          (Commanded handle request t)
          ((if is_stop request then pure (stopped tt) else ask os handle request) u)
  commanded handle request t u e q =
      Total-if (Commanded handle request t) (is_stop request) (pure (stopped tt)) _ u
        (λ stop. (stop, e, q)) (λ go. ask_lem handle request t u go e q)

  -- A round of the client reads a line and cuts it at its first NUL, carriage return or line feed.
  -- It ends the loop with nothing written exactly if this is "exit", "quit" or "shutdown", and
  -- writes it in one call if not. (At most `MESSAGE_SIZE - 1` bytes of the line are read, and no
  -- record fills the buffer.)
  pub tls_client_round_lem :
      (handle : ℕ) (line : Bytes) (t : Trace)
      → os.on_fgets t ≡ some line
      → Total
          (Commanded handle (line_text (take (message_size - 1) line)) t)
          (tls_client_round os handle tt t)
  unfolding tls_client_round fgets
  tls_client_round_lem handle line t e =
      rw
        (
          e,
          command_lem (take (message_size - 1) line)
              (omega (arith, length-take (message_size - 1) line)),
          tls_client_round,
        )
        (commanded handle (line_text (take (message_size - 1) line)) t _ refl
          (refl, refl, refl, refl, λ n. refl))

  -- At the end of the input, the client writes an empty record.
  pub tls_client_round_end :
      (handle : ℕ) (t : Trace)
      → os.on_fgets t ≡ none
      → Total (Commanded handle [] t) (tls_client_round os handle tt t)
  unfolding tls_client_round fgets
  tls_client_round_end handle t e =
      rw (e, command_end, tls_client_round)
        (commanded handle [] t _ refl (refl, refl, refl, refl, λ n. refl))
