-- ===== src/Poll/Ready.antt =====
-- Which clients a pass serves: the rounds it is given are enough, and the client that is moved into
-- the slot of one that leaves is served with the readiness of the client that left.
use linux_network_programmin.Base.{
  ℕ, zero, suc, ◌+◌, ◌-◌, ◌≤◌, ◌<◌, ◌≡◌, refl, ap, sym, ◌∙◌, Bool, true, false, arith, Bool-cases,
  inl, inr, ltb, lt→ltb, get_or-set_self,
}
use linux_network_programmin.Sys.{Kernel, Trace, Run, ok, M, ◌>>=◌}
use linux_network_programmin.Sys.Loop.{bind-congr, bind-ok}
use linux_network_programmin.Poll.{
  PollFd, Server, slot, empty_slot, drop_client, exchange, serve_clients,
}
use linux_network_programmin.Poll.Slots.{IsValid}

module _ (os : Kernel) where
  past_end :
      (rounds i : ℕ) (s : Server) (t : Trace) → s.nfds ≤ i → serve_clients os rounds i s t ≡ ok s t
  unfolding serve_clients
  past_end zero i s t h = refl
  past_end (suc rounds) i s t h = rw (ltb_false, serve_clients)
    where
      ltb_false : ltb i s.nfds ≡ false
      ltb_false = ground arith

  -- Rounds for the slots from `i` on are enough for the pass to end by its own test: any number
  -- that reaches `nfds` gives the same run.
  pub serve_clients_rounds :
      (m n i : ℕ) (s : Server) (t : Trace)
      → s.nfds ≤ i + m
      → s.nfds ≤ i + n
      → serve_clients os m i s t ≡ serve_clients os n i s t
  unfolding serve_clients drop_client
  serve_clients_rounds zero n i s t h k =
      past_end zero i s t (omega arith) ∙ sym (past_end n i s t (omega arith))
  serve_clients_rounds (suc m) zero i s t h k =
      past_end (suc m) i s t (omega arith) ∙ sym (past_end zero i s t (omega arith))
  serve_clients_rounds (suc m) (suc n) i s t h k = elim (Bool-cases (ltb i s.nfds)) [
    | inr out ↦ rw (out, serve_clients)
    | inl within ↦ elim (Bool-cases (slot s i).revents) [
      | inr idle ↦
          rw (within, idle, serve_clients)
            (serve_clients_rounds m n (i + 1) s t (omega arith) (omega arith))
      | inl ready ↦
          rw (within, ready, serve_clients)
            (bind-congr (exchange os (slot s i).fd) _ _ t (
              next (λ t'. serve_clients_rounds m n i (drop_client s i) t' (fewer m h) (fewer n k))
                (λ t'. serve_clients_rounds m n (i + 1) s t' (omega arith) (omega arith))))
    ]
  ]
    where
      fewer : (j : ℕ) → s.nfds ≤ i + suc j → (drop_client s i).nfds ≤ i + j
      fewer j p = omega arith

      next :
          ((t' : Trace)
            → serve_clients os m i (drop_client s i) t' ≡ serve_clients os n i (drop_client s i) t')
          → ((t' : Trace) → serve_clients os m (i + 1) s t' ≡ serve_clients os n (i + 1) s t')
          → (gone : Bool) (t' : Trace)
          → ◌≡◌ {A = Run Server}
              ((elim gone as (λ _. M Server) [
                | true ↦ serve_clients os m i (drop_client s i)
                | false ↦ serve_clients os m (i + 1) s
              ])
                t')
              ((elim gone as (λ _. M Server) [
                | true ↦ serve_clients os n i (drop_client s i)
                | false ↦ serve_clients os n (i + 1) s
              ])
                t')
      next dropped kept true t' = dropped t'
      next dropped kept false t' = kept t'

  -- The run of the pass once `exchange` with the client of slot `i` has ended.
  abbrev pub rest_of_pass : ℕ → ℕ → Server → Bool → M Server
  rest_of_pass rounds i s true = serve_clients os rounds i (drop_client s i)
  rest_of_pass rounds i s false = serve_clients os rounds (i + 1) s

  serve_clients-ready :
      (rounds i : ℕ) (s : Server) (t : Trace)
      → i < s.nfds
      → (slot s i).revents ≡ true
      → serve_clients os (suc rounds) i s t
        ≡ (exchange os (slot s i).fd >>= rest_of_pass rounds i s) t
  unfolding serve_clients
  serve_clients-ready rounds i s t h ready =
      rw (lt→ltb i s.nfds h, ready, serve_clients)
        (bind-congr (exchange os (slot s i).fd) _ _ t same)
    where
      same :
          (gone : Bool) (t' : Trace)
          → ◌≡◌ {A = Run Server}
              ((elim gone as (λ _. M Server) [
                | true ↦ serve_clients os rounds i (drop_client s i)
                | false ↦ serve_clients os rounds (i + 1) s
              ])
                t')
              (rest_of_pass rounds i s gone t')
      same true t' = refl
      same false t' = refl

  -- When the client of slot `i` leaves and is not the last, the pass goes on with an exchange, a
  -- `recv` at its head, with the last client, which has moved to slot `i`, whatever `poll` has
  -- said of it.
  pub serve_clients_moved :
      (sock rounds i : ℕ) (s : Server) (t t' : Trace)
      → IsValid sock s
      → suc i < s.nfds
      → (slot s i).revents ≡ true
      → exchange os (slot s i).fd t ≡ ok true t'
      → serve_clients os (suc (suc rounds)) i s t
        ≡ (exchange os (slot s (s.nfds - 1)).fd >>= rest_of_pass rounds i (drop_client s i)) t'
  unfolding drop_client
  serve_clients_moved sock rounds i s t t' v h ready gone =
      serve_clients-ready (suc rounds) i s t (omega arith) ready
      ∙ bind-ok (exchange os (slot s i).fd) (rest_of_pass (suc rounds) i s) gone
      ∙ serve_clients-ready rounds i (drop_client s i) t' (omega arith)
          (ap (λ (p : PollFd). p.revents) moved ∙ ready)
      ∙ ap (λ (p : PollFd). (exchange os p.fd >>= rest_of_pass rounds i (drop_client s i)) t') moved
    where
      moved : slot (drop_client s i) i ≡ record (slot s i) { fd = (slot s (s.nfds - 1)).fd }
      moved =
          get_or-set_self s.fds i (record (slot s i) { fd = (slot s (s.nfds - 1)).fd }) empty_slot
            (omega (arith, v.size, v.room))
