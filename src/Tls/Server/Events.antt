-- ===== src/Tls/Server/Events.antt =====
-- What one event does to the books of the TLS server.
use mathlib.Core.Option
use mathlib.Core.Path.{subst}
use mathlib.Core.Option.{some-injective}
use linux_network_programmin.Base.{
  ℕ, suc, ◌+◌, ◌≤◌, ◌<◌, ◌≡◌, refl, ◌∙◌, ◌≢◌, inl, inr, pos, is_nonpos, false, Option-cases, List,
  ◌∷◌, ◌++◌, Perm, Option, none, some, arith, length, take, length-take,
}
use linux_network_programmin.Sys.{
  pure, ◌>>◌, Kernel, Event, Trace, Bytes, M, report_error, close, time,
}
use linux_network_programmin.Sys.Loop.{Total, Total-bind, Total-if}
use linux_network_programmin.Sys.Resources.{open_fds, open_addrs, erase_head}
use linux_network_programmin.Sys.Tls.{
  open_contexts, open_handles, refused, ssl_new, ssl_set_fd, ssl_accept, ssl_read, ssl_write,
  ssl_free,
}
use linux_network_programmin.CString.Laws.{received_text-short}
use linux_network_programmin.Poll.{message_size}
use linux_network_programmin.Socket.Listen.{max_connection, set_non_blocking}
use linux_network_programmin.Tls.Slots.{Slots, slot_at, opt, drop_slot}
use linux_network_programmin.Tls.Server.{close_fd, should_disconnect, greet, reply, got, serve_slot}
use linux_network_programmin.Tls.Server.Books.{
  length-open_handles, Balanced, erase_front, same-Balanced, take_slot-Balanced, undo_slot-Balanced,
  drop_slot-Balanced,
}
use linux_network_programmin.Socket.Listen.Laws.{SameBooks, set_non_blocking-contexts}

-- `SSL_new` has memory for a handle.
abbrev pub HandlesMade : Kernel → Type 0
HandlesMade os = (t : Trace) → os.on_ssl_new t ≢ none

-- No record fills the request buffer, so that `request_buffer[received_bytes] = 0` is in bounds.
abbrev pub ShortRecords : Kernel → Type 0
ShortRecords os =
    (t : Trace) (handle : ℕ) (bytes : Bytes)
    → os.on_ssl_read t handle ≡ some bytes
    → length bytes < message_size

-- The books with the clients that were lost: those that found all slots in use, and those with
-- descriptor 0, which the server takes for a failure of `accept`.
abbrev pub Accounted : (sock addrs contexts : ℕ) → List ℕ → List ℕ → List ℕ → Slots → Trace → Type 0
Accounted sock addrs contexts fds handles gone s t =
    (lost : List ℕ) × Balanced sock addrs contexts (lost ++ fds) handles (lost ++ gone) s t

close_fd_lem :
    (o : Option ℕ) (t : Trace) (xs : List ℕ)
    → Perm (open_fds t) (opt o ++ xs)
    → Total
        (λ _ u.
          Perm (open_fds u) xs
          × (open_addrs u ≡ open_addrs t)
          × (open_contexts u ≡ open_contexts t)
          × (open_handles u ≡ open_handles t))
        (close_fd o t)
unfolding close_fd close
close_fd_lem none t xs p = (p, refl, refl, refl)
close_fd_lem (some fd) t xs p = (erase_front fd xs p, refl, refl, refl)

module _ (os : Kernel) (made : HandlesMade os) (short : ShortRecords os) (sock addrs contexts : ℕ)
    (fds handles gone : List ℕ) where
  abbrev Books : Slots → Trace → Type 0
  Books = Balanced sock addrs contexts fds handles gone

  -- The system has refused nobody who finds a free slot.
  has_room :
      (s : Slots) (n l : ℕ) (t : Trace)
      → Books s t
      → s.nfds < max_connection
      → refused (length handles + max_connection) (Event.accept l (pos (suc n)) ∷ t)
        ≡ refused (length handles + max_connection) t
  has_room s n l t b room =
      ground (arith, length-open_handles sock addrs contexts fds handles gone s t b)

  -- A client that finds a free slot is kept with a handle, or closed with its handle freed.
  pub greet_lem :
      (s : Slots) (n l : ℕ) (t : Trace)
      → Books s t
      → s.nfds < max_connection
      → Total Books (greet os s (suc n) (Event.accept l (pos (suc n)) ∷ t))
  unfolding greet ssl_new ssl_set_fd ssl_accept report_error close ssl_free
  greet_lem s n l t b room =
      elim (Option-cases (os.on_ssl_new (Event.accept l (pos (suc n)) ∷ t))) [
        | inl null ↦ absurd (made _ null)
        | inr (handle, e) ↦
            rw (e, greet)
              (Total-if Books
                (is_nonpos (
                  os.on_ssl_accept
                    (Event.ssl_set_fd handle (suc n)
                      ∷ Event.ssl_new (some handle)
                      ∷ Event.accept l (pos (suc n))
                      ∷ t)
                    handle))
                _ _ _
                (λ _.
                  undo_slot-Balanced sock addrs contexts fds handles gone s t _ b room
                    (erase_head (suc n) (open_fds t)) (erase_head handle (open_handles t)) refl refl
                    (has_room s n l t b room))
                (λ _.
                  Total-bind
                    (λ _ u.
                      SameBooks (Event.ssl_new (some handle) ∷ Event.accept l (pos (suc n)) ∷ t) u)
                    Books (set_non_blocking os (suc n)) _ _ (set_non_blocking-contexts os (suc n) _)
                    (λ _ u q.
                      take_slot-Balanced sock addrs contexts fds handles gone s t u (suc n) handle b
                        (λ eq. omega arith) room q.0 q.3 q.1 q.2
                        (q.4 (length handles + max_connection) ∙ has_room s n l t b room))))
      ]

  reply_lem :
      (s : Slots) (handle : ℕ) (bytes : Bytes) (t : Trace)
      → length bytes < message_size
      → Books s t
      → Total Books (reply os s handle bytes t)
  unfolding reply time ssl_write report_error
  reply_lem s handle bytes t h b =
      rw (received_text-short message_size bytes h, reply)
        (Total-if Books (is_nonpos (os.on_ssl_write _ handle _)) _ _ _
          (λ _.
            same-Balanced sock addrs contexts fds handles gone s t _ b
              (refl, refl, refl, refl, λ n. refl))
          (λ _.
            same-Balanced sock addrs contexts fds handles gone s t _ b
              (refl, refl, refl, refl, λ n. refl)))

  drop_lem :
      (s : Slots) (i handle : ℕ) (t : Trace)
      → Books s t
      → 1 ≤ i
      → i < s.nfds
      → (slot_at s i).ssl ≡ some handle
      → Total Books ((do close_fd (slot_at s i).fd; ssl_free handle; pure (drop_slot s i)) t)
  unfolding close_fd close ssl_free
  drop_lem s i handle t b h within e = go (slot_at s i).fd refl
    where
      go :
          (o : Option ℕ)
          → (slot_at s i).fd ≡ o
          → Total Books ((do close_fd o; ssl_free handle; pure (drop_slot s i)) t)
      go none q =
          drop_slot-Balanced sock addrs contexts fds handles gone s i t _ b h within
            (λ xs p. subst (λ o. Perm (open_fds t) (opt o ++ xs)) q p)
            (λ xs p. erase_front handle xs (subst (λ o. Perm (open_handles t) (opt o ++ xs)) e p))
            refl refl refl
      go (some fd) q =
          drop_slot-Balanced sock addrs contexts fds handles gone s i t _ b h within
            (λ xs p. erase_front fd xs (subst (λ o. Perm (open_fds t) (opt o ++ xs)) q p))
            (λ xs p. erase_front handle xs (subst (λ o. Perm (open_handles t) (opt o ++ xs)) e p))
            refl refl refl

  got_lem :
      (s : Slots) (i handle : ℕ) (r : Option Bytes) (t : Trace)
      → ((bytes : Bytes) → r ≡ some bytes → length bytes < message_size)
      → Books s t
      → 1 ≤ i
      → i < s.nfds
      → (slot_at s i).ssl ≡ some handle
      → Total Books (got os s i handle r t)
  unfolding got
  got_lem s i handle r t fits b h within e =
      Total-if Books (should_disconnect r) _ _ _ (λ _. drop_lem s i handle t b h within e)
        (stays r fits)
    where
      stays :
          (r : Option Bytes)
          → ((bytes : Bytes) → r ≡ some bytes → length bytes < message_size)
          → should_disconnect r ≡ false
          → Total Books
              (elim r as (λ _. M Slots) [ none ↦ pure s | some bytes ↦ reply os s handle bytes ] t)
      stays none fits q = b
      stays (some bytes) fits q = reply_lem s handle bytes t (fits bytes refl) b

  pub serve_slot_lem :
      (s : Slots) (i : ℕ) (t : Trace)
      → Books s t
      → 1 ≤ i
      → i < s.nfds
      → Total Books (serve_slot os s i t)
  unfolding serve_slot ssl_read
  serve_slot_lem s i t b h within = elim (Option-cases (slot_at s i).ssl) [
    | inl null ↦ absurd (b.valid.served i within null)
    | inr (handle, e) ↦
        rw (e, serve_slot)
          (got_lem s i handle _ _ (fits handle (os.on_ssl_read t handle) refl)
            (same-Balanced sock addrs contexts fds handles gone s t _ b
              (refl, refl, refl, refl, λ n. refl))
            h within e)
  ]
    where
      fits :
          (handle : ℕ) (r : Option Bytes)
          → os.on_ssl_read t handle ≡ r
          → (bytes : Bytes) → Option.map (take message_size) r ≡ some bytes
          → length bytes < message_size
      fits handle none e bytes p = cc
      fits handle (some all) e bytes p =
          rw (← some-injective _ _ p)
            (omega (arith, length-take message_size all, short t handle all e))
