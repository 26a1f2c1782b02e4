-- ===== src/Udp/Laws.antt =====
-- What the datagram server sends, and what it leaves open.
use mathlib.Core.Option
use mathlib.Core.Option.{some-injective}
use linux_network_programmin.Base.{
  ℕ, Bool, true, false, ◌<◌, ◌≡◌, refl, ℤ, [], ◌∷◌, Option, none, some, arith, if◌then◌else◌,
  length, take, length-append, length-take, take_of_length_le,
}
use linux_network_programmin.Sys.{
  Bytes, Kernel, Event, Trace, Run, ok, pure, ◌>>◌, report_error, time, recvfrom, sendto,
}
use linux_network_programmin.Sys.Loop.{Loop, running, Total}
use linux_network_programmin.CString.{text, zeroed, c_string, upto_nul}
use linux_network_programmin.CString.Laws.{received_text-short}
use linux_network_programmin.CString.Decimal.{
  int_text, int_text_lem, sprintf, sprintf-zeroed, upto_nul-append,
}
use linux_network_programmin.Socket.Listen.Laws.{SameOpen}
use linux_network_programmin.Client.{sent_all}
use linux_network_programmin.Udp.{
  message_size, reply_text, check_sent, answer, received, server_round,
}

-- No datagram fills the request buffer, so that `request_buffer[received_bytes] = 0` is in bounds.
abbrev pub ShortDatagrams : Kernel → Type 0
ShortDatagrams os =
    (t : Trace) (fd : ℕ) (d : Bytes × ℕ) → os.on_recvfrom t fd ≡ some d → length d.0 < message_size

-- The report of a reply that was not sent whole.
abbrev pub complaint : ℤ → ℕ → Trace → Trace
complaint rc len t = if sent_all rc len then t else Event.report_error "Server sendto() failed" ∷ t

reply_text-short : (now : ℕ) → length (reply_text now) < message_size
reply_text-short now =
    omega (
      arith,
      length-append (text "Server received request at ") (int_text now),
      (int_text_lem now).0,
    )

upto_nul-reply_text : (now : ℕ) → upto_nul (reply_text now) ≡ reply_text now
unfolding upto_nul
upto_nul-reply_text now =
    upto_nul-append (text "Server received request at ") (int_text now) refl (int_text_lem now).1

module _ (os : Kernel) where
  answer_lem :
      (fd : ℕ) (request : Bytes) (addr : ℕ) (t : Trace)
      → (now : ℕ) × (rc : ℤ) × (answer os fd request addr t
          ≡ ok (running tt) (
              complaint rc
                (length (reply_text now))
                (Event.sendto fd (reply_text now) addr rc ∷ Event.time now ∷ t)))
  unfolding answer time sendto check_sent report_error
  answer_lem fd request addr t =
      (now, rc, rw (b.1, b.2, answer) (told (sent_all rc (length (reply_text now)))))
    where
      now : ℕ
      now = os.on_time t

      u : Trace
      u = Event.time now ∷ t

      rc : ℤ
      rc = os.on_sendto u fd (reply_text now) addr

      b :
          (b : Bytes) × (sprintf (zeroed message_size) (reply_text now) ≡ some b)
          × (c_string b ≡ some (reply_text now))
          × (length b ≡ message_size)
      b =
          sprintf-zeroed message_size (reply_text now) (reply_text-short now)
            (upto_nul-reply_text now)

      told :
          (whole : Bool)
          → ◌≡◌ {A = Run (Loop (Unit {0}))}
              ((if whole
                  then pure (running tt)
                  else (do report_error "Server sendto() failed"; pure (running tt)))
                (Event.sendto fd (reply_text now) addr rc ∷ u))
              (ok (running tt) (
                if whole
                then Event.sendto fd (reply_text now) addr rc ∷ u
                else Event.report_error "Server sendto() failed"
                  ∷ Event.sendto fd (reply_text now) addr rc
                  ∷ u))
      told true = refl
      told false = refl

  received_reply :
      (fd : ℕ) (bytes : Bytes) (addr : ℕ) (t : Trace)
      → 0 < length bytes
      → length bytes < message_size
      → (now : ℕ) × (rc : ℤ) × (received os fd (some (bytes, addr)) t
          ≡ ok (running tt) (
              complaint rc
                (length (reply_text now))
                (Event.sendto fd (reply_text now) addr rc ∷ Event.time now ∷ t)))
  unfolding received
  received_reply fd [] addr t h k = absurd (omega arith)
  received_reply fd (b ∷ bytes) addr t h k =
      rw (received_text-short message_size (b ∷ bytes) k, received)
        (answer_lem fd (upto_nul (b ∷ bytes)) addr t)

  -- A datagram that is not empty and does not fill the buffer gets one reply, the time, as one
  -- datagram to its sender; a reply that was not sent whole is reported, and the server goes on.
  pub server_round-reply :
      (fd : ℕ) (bytes : Bytes) (addr : ℕ) (t : Trace)
      → os.on_recvfrom t fd ≡ some (bytes, addr)
      → 0 < length bytes
      → length bytes < message_size
      → (now : ℕ) × (rc : ℤ) × (server_round os fd tt t
          ≡ ok (running tt) (
              complaint rc (length (reply_text now)) (
                Event.sendto fd (reply_text now) addr rc
                ∷ Event.time now
                ∷ Event.recvfrom fd message_size (some (bytes, addr))
                ∷ t)))
  unfolding server_round recvfrom
  server_round-reply fd bytes addr t e h k =
      rw (e, take_of_length_le message_size bytes (omega arith))
        (received_reply fd bytes addr (Event.recvfrom fd message_size (some (bytes, addr)) ∷ t) h k)

  complaint-SameOpen : (rc : ℤ) (len : ℕ) (t : Trace) → SameOpen t (complaint rc len t)
  complaint-SameOpen rc len t = go (sent_all rc len)
    where
      go :
          (b : Bool) → SameOpen t (if b then t else Event.report_error "Server sendto() failed" ∷ t)
      go true = (refl, refl)
      go false = (refl, refl)

  received-SameOpen :
      (fd : ℕ) (r : Option (Bytes × ℕ)) (t : Trace)
      → ((d : Bytes × ℕ) → r ≡ some d → length d.0 < message_size)
      → Total (λ _ u. SameOpen t u) (received os fd r t)
  unfolding received report_error
  received-SameOpen fd none t fits = (refl, refl)
  received-SameOpen fd (some ([], addr)) t fits = (refl, refl)
  received-SameOpen fd (some (b ∷ bytes, addr)) t fits =
      go (received_reply fd (b ∷ bytes) addr t (omega arith) (fits (b ∷ bytes, addr) refl))
    where
      go :
          (now : ℕ) × (rc : ℤ) × (received os fd (some (b ∷ bytes, addr)) t
              ≡ ok (running tt) (
                  complaint rc
                    (length (reply_text now))
                    (Event.sendto fd (reply_text now) addr rc ∷ Event.time now ∷ t)))
          → Total (λ _ u. SameOpen t u) (received os fd (some (b ∷ bytes, addr)) t)
      go (now, rc, e) = rw (e, received) (complaint-SameOpen rc (length (reply_text now)) _)

  pub server_round-SameOpen :
      ShortDatagrams os
      → (fd : ℕ) (t : Trace) → Total (λ _ u. SameOpen t u) (server_round os fd tt t)
  unfolding server_round recvfrom
  server_round-SameOpen short fd t =
      received-SameOpen fd _ (Event.recvfrom fd message_size _ ∷ t)
        (fits (os.on_recvfrom t fd) refl)
    where
      fits :
          (o : Option (Bytes × ℕ))
          → os.on_recvfrom t fd ≡ o
          → (d : Bytes × ℕ)
          → Option.map (λ (d : Bytes × ℕ). (take message_size d.0, d.1)) o ≡ some d
          → length d.0 < message_size
      fits none q d p = cc
      fits (some (got, addr)) q d p =
          rw (← some-injective _ _ p)
            (omega (arith, length-take message_size got, short t fd (got, addr) q))
