-- ===== src/Tls/Server/Pass.antt =====
-- A pass of the TLS server over its slots, and a round of its loop.
use linux_network_programmin.Base.{
  ℕ, zero, suc, ◌≤◌, ◌<◌, ◌≡◌, refl, ap, inl, inr, ℤ, pos, negsuc, true, false, Bool-cases, List,
  [], ◌∷◌, some, arith, ltb, ltb→lt,
}
use linux_network_programmin.Sys.{Kernel, Event, Trace, accept}
use linux_network_programmin.Sys.Loop.{Total, Total-if, Total-mono}
use linux_network_programmin.Socket.Listen.{max_connection}
use linux_network_programmin.Tls.Slots.{Slots, slot_at}
use linux_network_programmin.Tls.Slots.Laws.{IsValid}
use linux_network_programmin.Tls.Server.{is_fd, greet, admit, serve_slot, serve_event}
use linux_network_programmin.Tls.Server.Books.{
  Balanced, length-open_handles, same-Balanced, lose-Balanced,
}
use linux_network_programmin.Tls.Server.Events.{
  HandlesMade, ShortRecords, Accounted, greet_lem, serve_slot_lem,
}

module _ (os : Kernel) (made : HandlesMade os) (short : ShortRecords os) (sock addrs contexts : ℕ)
    (fds handles gone : List ℕ) where
  abbrev Books : Slots → Trace → Type 0
  Books = Balanced sock addrs contexts fds handles gone

  admit_lem :
      (s : Slots) (r : ℤ) (l : ℕ) (t : Trace)
      → Books s t
      → Total (Accounted sock addrs contexts fds handles gone) (admit os s r (Event.accept l r ∷ t))
  unfolding admit
  admit_lem s (negsuc n) l t b = (
    [],
    same-Balanced sock addrs contexts fds handles gone s t _ b (refl, refl, refl, refl, λ n. refl),
  )
  admit_lem s (pos zero) l t b = (
    0 ∷ [],
    lose-Balanced sock addrs contexts fds handles gone s t _ 0 b refl refl refl refl refl,
  )
  admit_lem s (pos (suc n)) l t b = elim (Bool-cases (ltb s.nfds max_connection)) [
    | inl room ↦
        rw (room, admit)
          (Total-mono Books (Accounted sock addrs contexts fds handles gone) (greet os s (suc n) _)
            (λ s' u b'. ([], b'))
            (greet_lem os made short sock addrs contexts fds handles gone s n l t b
              (ltb→lt s.nfds max_connection room)))
    | inr full ↦
        rw (full, admit)
          (
            suc n ∷ [],
            lose-Balanced sock addrs contexts fds handles gone s t _ (suc n) b refl refl refl refl (
                ground (
                  arith,
                  full,
                  length-open_handles sock addrs contexts fds handles gone s t b,
                  b.valid.room,
                )),
          )
  ]

  is_fd_self : (fd : ℕ) → is_fd (some fd) fd ≡ true
  is_fd_self fd = ground arith

  -- The listening socket's event is taken in the first slot, so the others are clients.
  not_first : (s : Slots) (i : ℕ) → IsValid sock s → is_fd (slot_at s i).fd sock ≡ false → 1 ≤ i
  not_first s zero v e = absurd (cc (e, ap (λ o. is_fd o sock) v.listener, is_fd_self sock))
  not_first s (suc i) v e = omega arith

  -- An event at a slot in use has no undefined behaviour and keeps the books: only a client that
  -- finds all slots in use, or that has descriptor 0, is lost. (`SSL_new` does not fail, and
  -- records are shorter than the request buffer.)
  pub serve_event_lem :
      (s : Slots) (i : ℕ) (t : Trace)
      → i < s.nfds
      → Books s t
      → Total (Accounted sock addrs contexts fds handles gone) (serve_event os sock s i t)
  unfolding serve_event accept
  serve_event_lem s i t within b =
      Total-if K (slot_at s i).revents _ _ _
        (λ _.
          Total-if K (is_fd (slot_at s i).fd sock) _ _ _
            (λ _. admit_lem s (os.on_accept t sock) sock t b)
            (λ client. Total-mono Books K (serve_slot os s i t) kept (
              serve_slot_lem os made short sock addrs contexts fds handles gone s i t b
                (not_first s i b.valid client) within)))
        (λ _. kept s t b)
    where
      K : Slots → Trace → Type 0
      K = Accounted sock addrs contexts fds handles gone

      kept : (s' : Slots) (u : Trace) → Books s' u → K s' u
      kept s' u b' = ([], b')
