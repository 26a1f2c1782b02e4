-- ===== src/Session/Quiet.antt =====
-- What a reply leaves alone: address lists, and how often a client was given up.
use linux_network_programmin.Base.{
  ℕ, suc, ◌≡◌, refl, ◌∙◌, ℤ, pos, negsuc, is_nonpos, [], ◌∷◌, none, some,
}
use linux_network_programmin.Sys.{
  Bytes, Kernel, Event, Trace, ◌>>=◌, checked, report_error, close, send, time,
}
use linux_network_programmin.Sys.Partial.{
  Partial, Partial-bind, Partial-if, Partial-mono, Partial-checked,
}
use linux_network_programmin.Sys.Resources.{open_addrs}
use linux_network_programmin.CString.{text, zeroed, same}
use linux_network_programmin.CString.Decimal.{int_text, sprintf}
use linux_network_programmin.Session.{message_size, is_stop, check_send, send_text, respond}

abbrev forsakes : Event → ℕ → ℕ
forsakes (Event.recv fd len none) n = suc n
forsakes (Event.recv fd len (some [])) n = suc n
forsakes (Event.pthread_create fd (pos (suc r))) n = suc n
forsakes (Event.pthread_create fd (negsuc r)) n = suc n
forsakes _ n = n

-- How many times a server gave up a client without a close: `recv` gave an error or the end of the
-- connection, or no thread could be made for it.
abbrev pub forsaken : Trace → ℕ
forsaken [] = 0
forsaken (e ∷ t) = forsakes e (forsaken t)

abbrev pub Quiet : Trace → Trace → Type 0
Quiet t u = (forsaken u ≡ forsaken t) × (open_addrs u ≡ open_addrs t)

module _ (os : Kernel) (fd : ℕ) where
  send_text-Quiet : (s : Bytes) (t : Trace) → Partial (λ _ u. Quiet t u) (send_text os fd s t)
  unfolding send_text send
  send_text-Quiet s t =
      Partial-bind (λ _ u. u ≡ t) (λ _ u. Quiet t u) (checked (sprintf (zeroed message_size) s)) _ t
        (Partial-checked (λ _ u. u ≡ t) (sprintf (zeroed message_size) s) t (λ b. refl))
        (λ b u e. rw e (refl, refl))

  check_send-Quiet : (rc : ℤ) (t : Trace) → Partial (λ _ u. Quiet t u) (check_send rc t)
  unfolding check_send report_error
  check_send-Quiet rc t =
      Partial-if (λ _ u. Quiet t u) (is_nonpos rc) _ _ t (λ _. (refl, refl)) (λ _. (refl, refl))

  sent_text-Quiet :
      (s : Bytes) (t v : Trace)
      → Quiet t v
      → Partial (λ _ u. Quiet t u) ((do rc ← send_text os fd s; check_send rc) v)
  sent_text-Quiet s t v q =
      Partial-bind (λ _ u. Quiet v u) (λ _ u. Quiet t u) (send_text os fd s) _ v
        (send_text-Quiet s v)
        (λ rc u k.
          Partial-mono (λ _ w. Quiet u w) (λ _ w. Quiet t w) (check_send rc u)
            (λ _ w h. (h.0 ∙ k.0 ∙ q.0, h.1 ∙ k.1 ∙ q.1)) (check_send-Quiet rc u))

  pub respond-Quiet :
      (request : Bytes) (t : Trace) → Partial (λ _ u. Quiet t u) (respond os fd request t)
  unfolding respond time close
  respond-Quiet request t =
      Partial-if (λ _ u. Quiet t u) (is_stop request) _ _ t
        (λ _.
          Partial-bind (λ _ u. Quiet t u) (λ _ u. Quiet t u) (send_text os fd (text "OK")) _ t
            (send_text-Quiet (text "OK") t) (λ rc u q. q))
        (λ _.
          Partial-if (λ _ u. Quiet t u) (same request (text "time")) _ _ t
            (λ _.
              sent_text-Quiet (int_text (os.on_time t)) t (Event.time (os.on_time t) ∷ t)
                (refl, refl))
            (λ _. sent_text-Quiet (text "Unknown request") t t (refl, refl)))
