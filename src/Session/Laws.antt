-- ===== src/Session/Laws.antt =====
-- What the thread of a client answers, and when it closes the connection.
use linux_network_programmin.Base.{
  ℕ, ◌<◌, ◌≡◌, refl, sym, ap, List, ℤ, Bool, true, false, is_nonpos, [], ◌∷◌, some, arith, length,
  take_of_length_le, if◌then◌else◌,
}
use linux_network_programmin.Sys.{
  Bytes, Kernel, Event, Trace, report_error, close, recv, send, time,
}
use linux_network_programmin.Sys.Loop.{Loop, running, stopped, Total, Total-bind, Total-if}
use linux_network_programmin.Sys.Resources.{open_fds, sends, times}
use linux_network_programmin.CString.{text, zeroed, same, c_string, upto_nul}
use linux_network_programmin.CString.Laws.{received_text-short}
use linux_network_programmin.CString.Decimal.{int_text, int_text_lem, sprintf, sprintf-zeroed}
use linux_network_programmin.Session.{
  message_size, is_stop, check_send, send_text, respond, received, session_round,
}

ok_text : upto_nul (text "OK") ≡ text "OK"
unfolding upto_nul
ok_text = refl

unknown_text : upto_nul (text "Unknown request") ≡ text "Unknown request"
unfolding upto_nul
unknown_text = refl

-- The reply that a request asks for, at a time.
abbrev pub reply_text : Bytes → ℕ → Bytes
reply_text request now =
    if is_stop request
    then text "OK"
    else (if same request (text "time") then int_text now else text "Unknown request")

-- The clock is read once for "time", and else not.
abbrev pub clock_reads : Bytes → ℕ → Trace → List ℕ
clock_reads request now t =
    if is_stop request
    then times t
    else (if same request (text "time") then now ∷ times t else times t)

abbrev pub has_stopped : Loop (Unit {0}) → Bool
has_stopped (running s) = false
has_stopped (stopped s) = true

-- What a round has done with a request: one `send` was called, with a whole buffer that holds the
-- reply as a string, and for "time" it is the result of the one call of `time`; the connection is
-- closed and the thread ends, or neither.
abbrev pub Served : ℕ → Bytes → Trace → Loop (Unit {0}) → Trace → Type 0
Served fd request t l t' =
    (now : ℕ) × (buffer : Bytes) × ((rc : ℤ) × (sends t' ≡ (fd, buffer, rc) ∷ sends t)
      × (times t' ≡ clock_reads request now t))
    × (c_string buffer ≡ some (reply_text request now))
    × (length buffer ≡ message_size)
    × (has_stopped l ≡ is_stop request)
    × (open_fds t' ≡ (if is_stop request then open_fds (Event.close fd ∷ t) else open_fds t))

module _ (os : Kernel) (fd : ℕ) where
  -- One `send` of a whole buffer that holds the text.
  Sent : Bytes → Trace → ℤ → Trace → Type 0
  Sent s t rc u =
      (buffer : Bytes) × (u ≡ Event.send fd buffer rc ∷ t)
      × (c_string buffer ≡ some s)
      × (length buffer ≡ message_size)

  send_text_lem :
      (s : Bytes) (t : Trace)
      → length s < message_size
      → upto_nul s ≡ s
      → Total (Sent s t) (send_text os fd s t)
  unfolding send_text send Sent
  send_text_lem s t h k = go (sprintf-zeroed message_size s h k)
    where
      go :
          (b : Bytes) × (sprintf (zeroed message_size) s ≡ some b)
            × (c_string b ≡ some s)
            × (length b ≡ message_size)
          → Total (Sent s t) (send_text os fd s t)
      go (b, e, c, l) = rw (e, send_text) (b, refl, c, l)

  check_send_lem :
      (request : Bytes) (t u : Trace) (rc : ℤ)
      → Served fd request t (running tt) u
      → Total (Served fd request t) (check_send rc u)
  unfolding check_send report_error
  check_send_lem request t u rc h =
      Total-if (Served fd request t) (is_nonpos rc) _ _ u (λ _. h) (λ _. h)

  kept :
      (request : Bytes) (now : ℕ) (t u v : Trace) (rc : ℤ)
      → is_stop request ≡ false
      → open_fds u ≡ open_fds t
      → sends u ≡ sends t
      → times u ≡ clock_reads request now t
      → Sent (reply_text request now) u rc v
      → Served fd request t (running tt) v
  unfolding Sent
  kept request now t u v rc go q s k (b, e, c, l) =
      (now, b, (rc, rw e (ap (◌∷◌ (fd, b, rc)) s), rw e k), c, l, sym go, rw (e, go) q)

  pub respond_lem :
      (request : Bytes) (t : Trace) → Total (Served fd request t) (respond os fd request t)
  unfolding respond time close Sent
  respond_lem request t =
      Total-if (Served fd request t) (is_stop request) _ _ t
        (λ stop.
          Total-bind (Sent (text "OK") t) (Served fd request t) (send_text os fd (text "OK")) _ t
            (send_text_lem (text "OK") t (omega arith) ok_text) (λ rc u s. closed stop rc u s))
        (λ go.
          Total-if (Served fd request t) (same request (text "time")) _ _ t
            (λ clock.
              let now = os.on_time t in
              let u = Event.time now ∷ t in
              Total-bind (Sent (int_text now) u) (Served fd request t)
                (send_text os fd (int_text now)) _ u
                (send_text_lem (int_text now) u (omega (arith, int_text_lem now))
                  (int_text_lem now).1)
                (λ rc v s. check_send_lem request t v rc (
                  kept request now t u v rc go refl refl (rw (go, clock) refl) (rw (go, clock) s))))
            (λ other.
              Total-bind (Sent (text "Unknown request") t) (Served fd request t)
                (send_text os fd (text "Unknown request")) _ t
                (send_text_lem (text "Unknown request") t (omega arith) unknown_text)
                (λ rc v s.
                  check_send_lem request t v rc (
                    kept request 0 t t v rc go refl refl (rw (go, other) refl)
                      (rw (go, other) s)))))
    where
      closed :
          is_stop request ≡ true
          → (rc : ℤ) (u : Trace) → Sent (text "OK") t rc u
          → Served fd request t (stopped tt) (Event.close fd ∷ u)
      closed stop rc u (b, e, c, l) =
          (0, b, (rc, rw e refl, rw (e, stop) refl), rw stop c, l, sym stop, rw (e, stop) refl)

  pub received_lem :
      (bytes : Bytes) (t : Trace)
      → 0 < length bytes
      → length bytes < message_size
      → Total (Served fd (upto_nul bytes) t) (received os fd (some bytes) t)
  unfolding received
  received_lem [] t h k = absurd (omega arith)
  received_lem (b ∷ bytes) t h k =
      rw (received_text-short message_size (b ∷ bytes) k, received)
        (respond_lem (upto_nul (b ∷ bytes)) t)

  -- A request that fits the buffer gets one reply, "OK", the result of the one call of `time`, or
  -- "Unknown request": one `send`, to its descriptor, of a whole buffer that holds it as a string.
  -- The connection is closed and the thread ends exactly for
  -- "exit", "quit" and "shutdown".
  pub session_round_lem :
      (bytes : Bytes) (t : Trace)
      → os.on_recv t fd ≡ some bytes
      → 0 < length bytes
      → length bytes < message_size
      → Total
          (Served fd (upto_nul bytes) (Event.recv fd message_size (some bytes) ∷ t))
          (session_round os fd tt t)
  unfolding session_round recv
  session_round_lem bytes t e h k =
      rw (e, take_of_length_le message_size bytes (omega arith)) (received_lem bytes _ h k)
