-- ===== src/Redirect/Transfer/Laws.antt =====
-- What the two loops put on the wire and take from it.
use mathlib.Core.Option
use mathlib.Core.Path.{subst}
use linux_network_programmin.Base.{
  ℕ, zero, suc, ◌+◌, ◌-◌, ◌≤◌, ◌<◌, ◌≡◌, refl, ap, sym, ◌∙◌, ◌⊎◌, inl, inr, ℤ, pos, negsuc,
  is_nonpos, true, [], ◌∷◌, ◌++◌, Option, none, some, arith, ltb, length, take, drop, Bool-cases,
  length-append, append-nil, append_assoc, length-take, length-drop, take-append-drop, ◌==◌,
  if◌then◌else◌,
}
use linux_network_programmin.Sys.{Bytes, Kernel, Event, Trace, M, pure, send, recv}
use linux_network_programmin.Sys.Loop.{Total, Total-mono}
use linux_network_programmin.Redirect.Transfer.{message_size, send_loop, recv_loop}

-- `send` takes no more than it is given (its manual page).
abbrev pub SendsWithin : Kernel → Type 0
SendsWithin os =
    (t : Trace) (fd : ℕ) (bytes : Bytes) (n : ℕ) → os.on_send t fd bytes ≡ pos n → n ≤ length bytes

-- The bytes that the network has accepted from a descriptor, in order.
abbrev wired : ℕ → Event → Bytes
wired fd (Event.send fd' bytes (pos n)) = if fd' == fd then take n bytes else []
wired fd _ = []

abbrev pub wire : ℕ → Trace → Bytes
wire fd [] = []
wire fd (e ∷ t) = wire fd t ++ wired fd e

-- The last call was a `send` that took nothing.
abbrev pub SendFailed : Trace → Type 0
SendFailed [] = ⊥
SendFailed (Event.send fd bytes r ∷ t) = is_nonpos r ≡ true
SendFailed (e ∷ t) = ⊥

drop-nil : (n : ℕ) → drop {A = ℕ} n [] ≡ []
drop-nil zero = refl
drop-nil (suc n) = refl

drop-drop : (m n : ℕ) (xs : Bytes) → drop n (drop m xs) ≡ drop (m + n) xs
drop-drop zero n xs = ap (λ k. drop k xs) (omega arith)
drop-drop (suc m) n [] = drop-nil n ∙ sym (drop-nil (suc m + n))
drop-drop (suc m) n (x ∷ xs) =
    let e : suc (m + n) ≡ suc m + n = omega arith in drop-drop m n xs ∙ ap (λ k. drop k (x ∷ xs)) e

take-append-drop_add : (m n : ℕ) (xs : Bytes) → take n (drop m xs) ++ drop (m + n) xs ≡ drop m xs
take-append-drop_add m n xs = rw (← drop-drop m n xs) (take-append-drop n (drop m xs))

wire-send :
    (fd n : ℕ) (bytes : Bytes) (t : Trace)
    → wire fd (Event.send fd bytes (pos n) ∷ t) ≡ wire fd t ++ take n bytes
wire-send fd n bytes t = ground arith

abbrev Progress : ℕ → Bytes → Bytes → ℕ → Trace → Type 0
Progress fd request before r t' =
    (r ≤ length request)
    × (wire fd t' ++ drop r request ≡ before)
    × ((r ≡ length request) ⊎ SendFailed t')

module _ (os : Kernel) (honest : SendsWithin os) (fd : ℕ) (request : Bytes) where
  send_loop-Progress :
      (rounds sent : ℕ) (t : Trace)
      → sent ≤ length request
      → length request ≤ sent + rounds
      → Total
          (Progress fd request (wire fd t ++ drop sent request))
          (send_loop os rounds fd request sent t)
  unfolding send_loop send
  send_loop-Progress zero sent t h k = (h, refl, inl (omega arith))
  send_loop-Progress (suc rounds) sent t h k = elim (Bool-cases (ltb sent (length request))) [
    | inr done ↦ rw (done, send_loop) (h, refl, inl (ground arith))
    | inl more ↦
        rw (more, send_loop)
          (sending (os.on_send t fd (drop sent request)) (honest t fd (drop sent request))
            (λ n u. send_loop-Progress rounds (sent + n) u))
  ]
    where
      sending :
          (r : ℤ)
          → ((n : ℕ) → r ≡ pos n → n ≤ length (drop sent request))
          → ((n : ℕ) (u : Trace)
              → sent + n ≤ length request
              → length request ≤ sent + n + rounds
              → Total
                  (Progress fd request (wire fd u ++ drop (sent + n) request))
                  (send_loop os rounds fd request (sent + n) u))
          → Total (Progress fd request (wire fd t ++ drop sent request)) (
              (elim r as (λ _. M ℕ) [
                | negsuc n ↦ pure sent
                | pos n ↦ elim n [
                  | zero ↦ pure sent
                  | suc k ↦ send_loop os rounds fd request (sent + suc k)
                ]
              ])
                (Event.send fd (drop sent request) r ∷ t))
      sending (negsuc n) fits next = (h, rw append-nil, inr refl)
      sending (pos zero) fits next = (h, ground (arith, append-nil (wire fd t)), inr refl)
      sending (pos (suc n)) fits next =
          subst
            (λ w. Total (Progress fd request w) (
              send_loop os rounds fd request (sent + suc n)
                (Event.send fd (drop sent request) (pos (suc n)) ∷ t)))
            (rw (wire-send fd (suc n) (drop sent request) t) (
              append_assoc (wire fd t) (take (suc n) (drop sent request)) _
              ∙ ap (◌++◌ (wire fd t)) (take-append-drop_add sent (suc n) request)))
            (next (suc n) (Event.send fd (drop sent request) (pos (suc n)) ∷ t)
              (omega (arith, fits (suc n) refl, length-drop sent request)) (omega arith))

  -- With a round for each byte of the request, `send_loop` puts exactly the first bytes of the
  -- request on the wire, as many as its result says: all of them, or those before a `send` that
  -- took none. (`send` takes no more bytes than it is given.)
  pub send_loop_lem :
      (t : Trace)
      → Total
          (λ r t'.
            (r ≤ length request)
            × (wire fd t' ++ drop r request ≡ wire fd t ++ request)
            × ((r ≡ length request) ⊎ SendFailed t'))
          (send_loop os (length request) fd request 0 t)
  send_loop_lem t = send_loop-Progress (length request) 0 t (omega arith) (omega arith)

-- The bytes that the program has taken from a descriptor, in order.
abbrev taken : ℕ → Event → Bytes
taken fd (Event.recv fd' len (some bytes)) = if fd' == fd then bytes else []
taken fd _ = []

abbrev pub read : ℕ → Trace → Bytes
read fd [] = []
read fd (e ∷ t) = read fd t ++ taken fd e

-- The last call was a `recv` that gave nothing.
abbrev pub ReadEnded : Trace → Type 0
ReadEnded (Event.recv fd len none ∷ t) = Unit
ReadEnded (Event.recv fd len (some []) ∷ t) = Unit
ReadEnded _ = ⊥

abbrev Collected : ℕ → Bytes → Trace → Bytes → Trace → Type 0
Collected fd got t r t' =
    (x : Bytes) × (r ≡ got ++ x)
    × (read fd t' ≡ read fd t ++ x)
    × (length r ≤ message_size)
    × ReadEnded t'

module _ (os : Kernel) (fd : ℕ) where
  recv_loop-Collected :
      (rounds : ℕ) (got : Bytes) (t : Trace)
      → length got ≤ message_size
      → message_size < length got + rounds
      → Total (Collected fd got t) (recv_loop os rounds fd got t)
  unfolding recv_loop recv
  recv_loop-Collected zero got t h k = absurd (omega arith)
  recv_loop-Collected (suc rounds) got t h k =
      reading (os.on_recv t fd) (λ x u. recv_loop-Collected rounds (got ++ x) u)
    where
      none_more :
          (r : Option Bytes)
          → ReadEnded (Event.recv fd (message_size - length got) r ∷ t)
          → taken fd (Event.recv fd (message_size - length got) r) ≡ []
          → Collected fd got t got (Event.recv fd (message_size - length got) r ∷ t)
      none_more r e q = ([], sym (append-nil got), ap (◌++◌ (read fd t)) q, h, e)

      more :
          (bytes : Bytes)
          → length bytes ≤ message_size - length got
          → ((x : Bytes) (u : Trace)
              → length (got ++ x) ≤ message_size
              → message_size < length (got ++ x) + rounds
              → Total (Collected fd (got ++ x) u) (recv_loop os rounds fd (got ++ x) u))
          → Total (Collected fd got t) (
              (elim bytes as (λ _. M Bytes) [
                | [] ↦ pure got
                | b ∷ rest ↦ recv_loop os rounds fd (got ++ (b ∷ rest))
              ])
                (Event.recv fd (message_size - length got) (some bytes) ∷ t))
      more [] fits next = none_more (some []) tt (ground arith)
      more (b ∷ bytes) fits next =
          let u = Event.recv fd (message_size - length got) (some (b ∷ bytes)) ∷ t in
          Total-mono (Collected fd (got ++ (b ∷ bytes)) u) (Collected fd got t)
            (recv_loop os rounds fd (got ++ (b ∷ bytes)) u)
            (λ r t' (x, p, q, l, e). (
              (b ∷ bytes) ++ x,
              p ∙ append_assoc got (b ∷ bytes) x,
              q ∙ ap (λ y. y ++ x) (took (b ∷ bytes)) ∙ append_assoc (read fd t) (b ∷ bytes) x,
              l,
              e,
            ))
            (next (b ∷ bytes) u (omega (arith, length-append got (b ∷ bytes)))
              (omega (arith, length-append got (b ∷ bytes))))
        where
          took :
              (ys : Bytes)
              → read fd (Event.recv fd (message_size - length got) (some ys) ∷ t) ≡ read fd t ++ ys
          took ys = ground arith

      reading :
          (r : Option Bytes)
          → ((x : Bytes) (u : Trace)
              → length (got ++ x) ≤ message_size
              → message_size < length (got ++ x) + rounds
              → Total (Collected fd (got ++ x) u) (recv_loop os rounds fd (got ++ x) u))
          → Total (Collected fd got t) (
              (elim (Option.map (take (message_size - length got)) r) as (λ _. M Bytes) [
                | none ↦ pure got
                | some bytes ↦ elim bytes [
                  | [] ↦ pure got
                  | b ∷ rest ↦ recv_loop os rounds fd (got ++ (b ∷ rest))
                ]
              ])
                (Event.recv fd
                    (message_size - length got)
                    (Option.map (take (message_size - length got)) r)
                  ∷ t))
      reading none next = none_more none tt refl
      reading (some waiting) next =
          more (take (message_size - length got) waiting)
            (omega (arith, length-take (message_size - length got) waiting)) next

  -- The receiving loop ends by its own test within `MESSAGE_SIZE + 1` rounds, at a `recv` that
  -- gives nothing; its result is all that it took from the socket, in order, and fits the array.
  pub recv_loop_lem :
      (t : Trace)
      → Total
          (λ r t'. (read fd t' ≡ read fd t ++ r) × (length r ≤ message_size) × ReadEnded t')
          (recv_loop os (suc message_size) fd [] t)
  recv_loop_lem t =
      Total-mono (Collected fd [] t) _ (recv_loop os (suc message_size) fd [] t)
        (λ r t' (x, p, q, l, e). (rw p q, l, e))
        (recv_loop-Collected (suc message_size) [] t (omega arith) (omega arith))
