-- ===== src/Tls/Server/End.antt =====
-- The end of the TLS server, where the slots are closed and freed.
use mathlib.Core.List.{erase, erase_comm}
use mathlib.Core.List.Perm
use mathlib.Core.Path.{subst}
use native.Mathlib.Decide.{ℕ_discrete}
use linux_network_programmin.Base.{
  ℕ, zero, suc, ◌+◌, ◌≤◌, ◌≡◌, refl, ap, ◌∙◌, ◌≢◌, List, [], ◌∷◌, ◌++◌, Perm, Option, none, some,
  arith, append_assoc, get_or, length,
}
use linux_network_programmin.Sys.{Trace, freeaddrinfo, close}
use linux_network_programmin.Sys.Loop.{stopped, Ends, Total, Total-bind}
use linux_network_programmin.Sys.Resources.{open_fds, open_addrs, erase_head}
use linux_network_programmin.Sys.Tls.{
  open_contexts, open_handles, refused, ssl_ctx_free, ssl_shutdown, ssl_free,
}
use linux_network_programmin.Socket.Listen.{max_connection}
use linux_network_programmin.Tls.Slots.{Slot, Slots, free_slot, opt, present}
use linux_network_programmin.Tls.Server.{close_positive, end_ssl, end_slots, end_tls}
use linux_network_programmin.Tls.Server.Books.{Balanced, erase_front}

-- The descriptors after a second `close` of the listening socket, which `fds[i].fd > 0` spares 0.
abbrev pub closed_again : ℕ → List ℕ → List ℕ
closed_again zero fds = fds
closed_again (suc n) fds = erase ℕ_discrete fds (suc n)

closed_again-erase :
    (sock fd : ℕ) (xs : List ℕ)
    → erase ℕ_discrete (closed_again sock xs) fd ≡ closed_again sock (erase ℕ_discrete xs fd)
closed_again-erase zero fd xs = refl
closed_again-erase (suc n) fd xs = erase_comm ℕ_discrete (suc n) fd xs

closed_again-Perm :
    (sock : ℕ) {xs ys : List ℕ} → Perm xs ys → Perm (closed_again sock xs) (closed_again sock ys)
closed_again-Perm zero p = p
closed_again-Perm (suc n) p = Perm.erase ℕ_discrete (suc n) p

-- One more descriptor closed beside those that were closed twice.
close_front :
    (sock fd : ℕ) (xs : List ℕ) {ys : List ℕ}
    → Perm ys (closed_again sock (fd ∷ xs))
    → Perm (erase ℕ_discrete ys fd) (closed_again sock xs)
close_front sock fd xs {ys} p =
    subst (λ zs. Perm (erase ℕ_discrete ys fd) zs)
      (closed_again-erase sock fd (fd ∷ xs) ∙ ap (closed_again sock) (erase_head fd xs))
      (Perm.erase ℕ_discrete fd p)

-- All that was open beside the slots is open, and nothing else.
abbrev pub Released :
    (sock addrs contexts : ℕ) → (fds handles : List ℕ) → ℕ → List ℕ → Trace → Type 0
Released sock addrs contexts fds handles n gone u =
    Perm (open_fds u) (closed_again sock fds)
    × Perm (open_handles u) handles
    × (open_addrs u ≡ addrs)
    × (open_contexts u ≡ contexts)
    × (refused n u ≡ gone)

module _ (sock addrs contexts : ℕ) (fds handles : List ℕ) (n : ℕ) (gone : List ℕ) where
  close_positive_lem :
      (o : Option ℕ) (t : Trace)
      → o ≢ some 0
      → Released sock addrs contexts (opt o ++ fds) handles n gone t
      → Total (λ _. Released sock addrs contexts fds handles n gone) (close_positive o t)
  unfolding close_positive close
  close_positive_lem none t ne r = r
  close_positive_lem (some zero) t ne r = absurd (ne refl)
  close_positive_lem (some (suc m)) t ne r = (close_front sock (suc m) fds r.0, r.1, r.2, r.3, r.4)

  end_ssl_lem :
      (o : Option ℕ) (t : Trace)
      → Released sock addrs contexts fds (opt o ++ handles) n gone t
      → Total (λ _. Released sock addrs contexts fds handles n gone) (end_ssl o t)
  unfolding end_ssl ssl_shutdown ssl_free
  end_ssl_lem none t r = r
  end_ssl_lem (some handle) t r = (r.0, erase_front handle handles r.1, r.2, r.3, r.4)

module _ (sock addrs contexts : ℕ) (fds handles : List ℕ) (n : ℕ) (gone : List ℕ) where
  abbrev Done : Unit {0} → Trace → Type 0
  Done _ = Released sock addrs contexts fds handles n gone

  -- The end of the slots closes and frees what they hold.
  end_slots_lem :
      (xs : List Slot) (t : Trace)
      → ((j : ℕ) → (get_or xs j free_slot).fd ≢ some 0)
      → Released sock addrs contexts
          (present (λ p. p.fd) xs ++ fds)
          (present (λ p. p.ssl) xs ++ handles)
          n
          gone
          t
      → Total Done (end_slots xs t)
  unfolding end_slots
  end_slots_lem [] t positive r = r
  end_slots_lem (p ∷ xs) t positive r =
      let more_fds = present (λ p. p.fd) xs ++ fds in
      let more_handles = present (λ p. p.ssl) xs ++ handles in
      Total-bind (λ _. Released sock addrs contexts more_fds (opt p.ssl ++ more_handles) n gone)
        Done (close_positive p.fd) _ t
        (close_positive_lem sock addrs contexts more_fds (opt p.ssl ++ more_handles) n gone p.fd t
          (positive 0)
          (rw
            (
              ← append_assoc (opt p.fd) (present (λ p. p.fd) xs) fds,
              ← append_assoc (opt p.ssl) (present (λ p. p.ssl) xs) handles,
            )
            r))
        (λ _ u q.
          Total-bind (λ _. Released sock addrs contexts more_fds more_handles n gone) Done
            (end_ssl p.ssl) _ u
            (end_ssl_lem sock addrs contexts more_fds more_handles n gone p.ssl u q)
            (λ _ v q'. end_slots_lem xs v (λ j. positive (suc j)) q'))

-- The first slot has the listening socket, which was closed just before.
second_close :
    (sock addrs contexts : ℕ) (fds handles : List ℕ) (n : ℕ) (gone : List ℕ) (u : Trace)
    → Perm (open_fds u) fds
    → Perm (open_handles u) handles
    → open_addrs u ≡ addrs
    → open_contexts u ≡ contexts
    → refused n u ≡ gone
    → Total (λ _. Released sock addrs contexts fds handles n gone) (close_positive (some sock) u)
unfolding close_positive close
second_close zero addrs contexts fds handles n gone u p q k c y = (p, q, k, c, y)
second_close (suc m) addrs contexts fds handles n gone u p q k c y =
    (Perm.erase ℕ_discrete (suc m) p, q, k, c, y)

module _ (sock addrs contexts : ℕ) (fds handles : List ℕ) (n : ℕ) (gone : List ℕ) where
  abbrev All : Unit {0} → Trace → Type 0
  All _ = Released sock addrs contexts fds handles n gone

  -- From the books of a server whose listening socket is closed.
  end_all_lem :
      (xs : List Slot) (t u : Trace)
      → (get_or xs 0 free_slot).fd ≡ some sock
      → ((j : ℕ) → 1 ≤ j → (get_or xs j free_slot).fd ≢ some 0)
      → Perm (open_fds t) (present (λ p. p.fd) xs ++ fds)
      → Perm (open_handles u) (present (λ p. p.ssl) xs ++ handles)
      → open_fds u ≡ erase ℕ_discrete (open_fds t) sock
      → open_addrs u ≡ addrs
      → open_contexts u ≡ contexts
      → refused n u ≡ gone
      → Total All (end_slots xs u)
  unfolding end_slots
  end_all_lem [] t u first positive p q e k c y = cc
  end_all_lem (x ∷ xs) t u first positive p q e k c y =
      let more_fds = present (λ p. p.fd) xs ++ fds in
      let more_handles = present (λ p. p.ssl) xs ++ handles in
      Total-bind (λ _. Released sock addrs contexts more_fds (opt x.ssl ++ more_handles) n gone) All
        (close_positive x.fd) _ u
        (rw first (
          second_close sock addrs contexts more_fds (opt x.ssl ++ more_handles) n gone u
            (rw e (
              erase_front sock more_fds (
                subst (λ o. Perm (open_fds t) ((opt o ++ present (λ p. p.fd) xs) ++ fds)) first p)))
            (rw (← append_assoc (opt x.ssl) (present (λ p. p.ssl) xs) handles) q) k c y))
        (λ _ v r.
          Total-bind (λ _. Released sock addrs contexts more_fds more_handles n gone) All
            (end_ssl x.ssl) _ v
            (end_ssl_lem sock addrs contexts more_fds more_handles n gone x.ssl v r)
            (λ _ w r'.
              end_slots_lem sock addrs contexts fds handles n gone xs w
                (λ j. positive (suc j) (omega arith)) r'))

-- The end of a server, from its books: the listening socket is closed, and then closed again.
pub end_tls_lem :
    (sock addrs contexts : ℕ) (fds handles gone : List ℕ) (s : Slots) (u : Trace)
    → Balanced sock (suc addrs) (suc contexts) fds handles gone s u
    → Total
        (Ends
          (λ _ _. ⊥)
          (λ _. Released sock addrs contexts fds handles (length handles + max_connection) gone))
        (end_tls sock (stopped s) u)
unfolding end_tls freeaddrinfo close ssl_ctx_free
end_tls_lem sock addrs contexts fds handles gone s u b =
    Total-bind
      (λ _. Released sock addrs contexts fds handles (length handles + max_connection) gone)
      (Ends (λ _ _. ⊥)
        (λ _. Released sock addrs contexts fds handles (length handles + max_connection) gone))
      (end_slots s.slots) _ _
      (end_all_lem sock addrs contexts fds handles (length handles + max_connection) gone s.slots u
        _ b.valid.listener b.valid.positive b.descriptors b.sessions refl
        (omega (arith, b.resolved)) (omega (arith, b.configured)) b.refusals)
      (λ _ v r. r)
