-- ===== src/Redirect/Books.antt =====
-- What the parts of a redirected request leave open, and that its two loops open and close nothing.
use linux_network_programmin.Base.{
  ℕ, zero, suc, ◌+◌, ◌-◌, ◌≤◌, ◌≡◌, refl, ℤ, pos, negsuc, [], ◌∷◌, ◌++◌, List, Option, none, some,
  ltb, length, Bool-cases, inl, inr, drop, take,
}
use linux_network_programmin.Sys.{Bytes, Kernel, Event, Trace, M, pure, send, recv}
use linux_network_programmin.Sys.Resources.{open_fds, open_addrs}
use linux_network_programmin.Sys.Partial.{Partial}
use linux_network_programmin.Socket.Listen.Laws.{SameOpen}
use mathlib.Core.Option
use linux_network_programmin.Redirect.Transfer.{message_size, send_loop, recv_loop}
use linux_network_programmin.Redirect.{Reply, request}

-- `k` sockets and `k` address lists more than after `s`, the sockets on top.
abbrev pub Leaked : ℕ → Trace → Trace → Type 0
Leaked k s t =
    (fds : List ℕ) × (open_fds t ≡ fds ++ open_fds s)
    × (length fds ≡ k)
    × (open_addrs t ≡ k + open_addrs s)

-- At most `n` of them.
abbrev pub LeakedAtMost : ℕ → Trace → Reply → Trace → Type 0
LeakedAtMost n s r t = (k : ℕ) × (k ≤ n) × Leaked k s t

module _ (os : Kernel) where
  pub send_loop-SameOpen :
      (rounds fd sent : ℕ) (request : Bytes) (t : Trace)
      → Partial (λ _ t'. SameOpen t t') (send_loop os rounds fd request sent t)
  unfolding send_loop send
  send_loop-SameOpen zero fd sent request t = (refl, refl)
  send_loop-SameOpen (suc rounds) fd sent request t =
      elim (Bool-cases (ltb sent (length request))) [
        | inr done ↦ rw (done, send_loop) (refl, refl)
        | inl more ↦
            rw (more, send_loop)
              (sending (os.on_send t fd (drop sent request))
                (λ n u. send_loop-SameOpen rounds fd (sent + n) request u))
      ]
    where
      sending :
          (r : ℤ)
          → ((n : ℕ) (u : Trace)
              → Partial (λ _ t'. SameOpen u t') (send_loop os rounds fd request (sent + n) u))
          → Partial
              (λ _ t'. SameOpen t t')
              ((elim r as (λ _. M ℕ) [
                | negsuc n ↦ pure sent
                | pos n ↦ elim n [
                  | zero ↦ pure sent
                  | suc k ↦ send_loop os rounds fd request (sent + suc k)
                ]
              ])
                (Event.send fd (drop sent request) r ∷ t))
      sending (negsuc n) next = (refl, refl)
      sending (pos zero) next = (refl, refl)
      sending (pos (suc n)) next = next (suc n) _

  pub recv_loop-SameOpen :
      (rounds fd : ℕ) (got : Bytes) (t : Trace)
      → Partial (λ _ t'. SameOpen t t') (recv_loop os rounds fd got t)
  unfolding recv_loop recv
  recv_loop-SameOpen zero fd got t = (refl, refl)
  recv_loop-SameOpen (suc rounds) fd got t =
      reading (Option.map (take (message_size - length got)) (os.on_recv t fd))
        (λ x u. recv_loop-SameOpen rounds fd (got ++ x) u)
    where
      reading :
          (r : Option Bytes)
          → ((x : Bytes) (u : Trace)
              → Partial (λ _ t'. SameOpen u t') (recv_loop os rounds fd (got ++ x) u))
          → Partial
              (λ _ t'. SameOpen t t')
              ((elim r as (λ _. M Bytes) [
                | none ↦ pure got
                | some bytes ↦ elim bytes [
                  | [] ↦ pure got
                  | b ∷ rest ↦ recv_loop os rounds fd (got ++ (b ∷ rest))
                ]
              ])
                (Event.recv fd (message_size - length got) r ∷ t))
      reading none next = (refl, refl)
      reading (some []) next = (refl, refl)
      reading (some (b ∷ bytes)) next = next (b ∷ bytes) _
