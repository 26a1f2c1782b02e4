-- ===== src/FirstSteps/Receive/Laws.antt =====
-- How the sending loop of program 06 compares with that of program 07, and what the program leaves.
use linux_network_programmin.Base.{
  ℕ, zero, suc, ◌+◌, ◌≤◌, ◌≡◌, refl, ◌∙◌, inl, inr, pos, true, false, ◌∷◌, some, arith, ltb, length,
  drop, Bool-cases,
}
use linux_network_programmin.Sys.{Bytes, Kernel, Event, Trace, M, ok, pure, ◌>>=◌, send}
use linux_network_programmin.Sys.Loop.{Loop, running, stopped, while_true, bind-ok, resume}
use linux_network_programmin.CString.{text, zeroed, c_string}
use linux_network_programmin.CString.Decimal.{sprintf}
use linux_network_programmin.Redirect.{request}
use linux_network_programmin.Redirect.Transfer.{send_loop}
use linux_network_programmin.FirstSteps.Send.{cpp_hostname}
use linux_network_programmin.FirstSteps.Receive.{
  get_request, Progress, sent_so_far, count_sent, sending_round,
}

pub get_request_lem : get_request ≡ some (request cpp_hostname (text "/200"))
unfolding get_request sprintf zeroed c_string request
get_request_lem = refl

abbrev pub as_result : ℕ → M (Loop Progress)
as_result n = pure (stopped (sent_so_far n))

-- Every `send` on the descriptor takes at least one byte.
abbrev pub Taking : Kernel → ℕ → Type 0
Taking os fd = (t : Trace) (bytes : Bytes) → (k : ℕ) × (os.on_send t fd bytes ≡ pos (suc k))

module _ (os : Kernel) (fd : ℕ) (http_request : Bytes) (taking : Taking os fd) where
  -- The loop ends after a round for each byte.
  done_round :
      (sent : ℕ) (t : Trace)
      → ltb sent (length http_request) ≡ false
      → sending_round os fd http_request (sent_so_far sent) t ≡ ok (stopped (sent_so_far sent)) t
  unfolding sending_round
  done_round sent t e = rw (e, sending_round) refl

  more_round :
      (sent k : ℕ) (t : Trace)
      → ltb sent (length http_request) ≡ true
      → os.on_send t fd (drop sent http_request) ≡ pos (suc k)
      → sending_round os fd http_request (sent_so_far sent) t
        ≡ ok
            (running (sent_so_far (sent + suc k)))
            (Event.send fd (drop sent http_request) (pos (suc k)) ∷ t)
  unfolding sending_round count_sent send
  more_round sent k t e q = rw (e, q, sending_round) refl

  abbrev again : ℕ → Loop Progress → M (Loop Progress)
  again rounds = resume (while_true rounds (sending_round os fd http_request))

  -- Where every `send` takes something, the sending loop of this program, with a round more, makes
  -- the calls of that of program 07 and ends with the same count.
  pub sending-send_loop :
      (rounds sent : ℕ) (t : Trace)
      → length http_request ≤ sent + rounds
      → while_true (suc rounds) (sending_round os fd http_request) (sent_so_far sent) t
        ≡ (send_loop os rounds fd http_request sent >>= as_result) t
  unfolding while_true send_loop send
  sending-send_loop zero sent t h =
      bind-ok (sending_round os fd http_request (sent_so_far sent)) (again 0)
        (done_round sent t (ground arith))
  sending-send_loop (suc rounds) sent t h = elim (Bool-cases (ltb sent (length http_request))) [
    | inr done ↦
        bind-ok (sending_round os fd http_request (sent_so_far sent)) (again (suc rounds))
          (done_round sent t done)
        ∙ rw (done, ◌>>=◌) refl
    | inl more ↦
        let (k, q) = taking t (drop sent http_request) in
        bind-ok (sending_round os fd http_request (sent_so_far sent)) (again (suc rounds))
          (more_round sent k t more q)
        ∙ sending-send_loop rounds (sent + suc k)
            (Event.send fd (drop sent http_request) (pos (suc k)) ∷ t) (omega arith)
        ∙ rw (more, q, ◌>>=◌) refl
  ]
