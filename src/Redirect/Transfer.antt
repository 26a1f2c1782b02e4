-- ===== src/Redirect/Transfer.antt =====
-- The loops that send a request and receive a response (00_tutorials/07_http_redirection.c).
pub mod Laws
use linux_network_programmin.Base.{
  ℕ, zero, suc, ◌+◌, ◌-◌, ℤ, pos, negsuc, is_nonpos, Bool, true, false, [], ◌∷◌, ◌++◌, Option, none,
  some, ltb, length, drop,
}
use linux_network_programmin.Sys.{Bytes, Kernel, M, pure, ◌>>=◌, send, recv}

abbrev pub message_size : ℕ
message_size = 1024

module _ (os : Kernel) where
  -- `while (http_sent_bytes < http_request_len)`: each round sends from where the last one ended,
  -- and ends the loop or makes progress, so that a round for each byte is enough. The result is
  -- `http_sent_bytes`.
  unfoldable pub send_loop : ℕ → ℕ → Bytes → ℕ → M ℕ
  send_loop zero fd request sent = pure sent
  send_loop (suc rounds) fd request sent = elim (ltb sent (length request)) [
    | false ↦ pure sent
    | true ↦ send os fd (drop sent request) >>= λ r. elim r [
      | negsuc n ↦ pure sent
      | pos n ↦ elim n [ zero ↦ pure sent | suc k ↦ send_loop rounds fd request (sent + suc k) ]
    ]
  ]

  -- `while ((received_bytes = recv(..., MESSAGE_SIZE - http_received_bytes, 0)) > 0)`. The result
  -- is all that was received. A full array makes the next `recv` one of length 0, which ends the
  -- loop.
  unfoldable pub recv_loop : ℕ → ℕ → Bytes → M Bytes
  recv_loop zero fd got = pure got
  recv_loop (suc rounds) fd got = recv os fd (message_size - length got) >>= λ r. elim r [
    | none ↦ pure got
    | some bytes ↦ elim bytes [ [] ↦ pure got | b ∷ rest ↦ recv_loop rounds fd (got ++ (b ∷ rest)) ]
  ]
