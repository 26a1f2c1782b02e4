-- ===== src/Tls/Server/Books.antt =====
-- The books of the TLS server: what is open is what the slots hold, with what was open before.
use mathlib.Core.List.{erase, perm_middle}
use mathlib.Core.List.Perm
use mathlib.Core.Path.{subst}
use native.Mathlib.Decide.{ℕ_discrete}
use linux_network_programmin.Base.{
  ℕ, ◌+◌, ◌≤◌, ◌<◌, ◌≡◌, ap, ◌∙◌, ◌≢◌, List, ◌∷◌, ◌++◌, Perm, append_assoc, length, length-append,
}
use linux_network_programmin.Sys.{Trace}
use linux_network_programmin.Sys.Resources.{open_fds, open_addrs, erase_head}
use linux_network_programmin.Sys.Tls.{open_contexts, open_handles, refused}
use linux_network_programmin.Socket.Listen.{max_connection}
use linux_network_programmin.Tls.Slots.{
  Slots, slot_at, opt, present, drop_slot, take_slot, undo_slot,
}
use linux_network_programmin.Socket.Listen.Laws.{SameBooks}
use linux_network_programmin.Tls.Slots.Laws.{IsValid, length-present}
use linux_network_programmin.Base.Count.{length-Perm}
use linux_network_programmin.Tls.Slots.Changes.{
  take_slot-IsValid, undo_slot-IsValid, drop_slot-IsValid, take_slot-present, undo_slot-present,
  drop_slot-present,
}

-- The descriptors and handles of the slots, with others beside them, are those that are open, and
-- `gone` are the clients that found no slot.
pub record Balanced (sock addrs contexts : ℕ) (fds handles gone : List ℕ) (s : Slots) (t : Trace)
    : Type 0 where
  pub valid : IsValid sock s
  pub descriptors : Perm (open_fds t) (present (λ p. p.fd) s.slots ++ fds)
  pub sessions : Perm (open_handles t) (present (λ p. p.ssl) s.slots ++ handles)
  pub resolved : open_addrs t ≡ addrs
  pub configured : open_contexts t ≡ contexts
  pub refusals : refused (length handles + max_connection) t ≡ gone

-- An element that stands at the front, or is taken from there.
pub erase_front :
    (a : ℕ) (xs : List ℕ) {ys : List ℕ} → Perm ys (a ∷ xs) → Perm (erase ℕ_discrete ys a) xs
erase_front a xs {ys} p =
    subst (λ zs. Perm (erase ℕ_discrete ys a) zs) (erase_head a xs) (Perm.erase ℕ_discrete a p)

module _ (sock addrs contexts : ℕ) (fds handles gone : List ℕ) where
  pub same-Balanced :
      (s : Slots) (t u : Trace)
      → Balanced sock addrs contexts fds handles gone s t
      → SameBooks t u
      → Balanced sock addrs contexts fds handles gone s u
  same-Balanced s t u b q = record {
    valid = b.valid;
    descriptors = rw q.0 b.descriptors;
    sessions = rw q.3 b.sessions;
    resolved = q.1 ∙ b.resolved;
    configured = q.2 ∙ b.configured;
    refusals = q.4 (length handles + max_connection) ∙ b.refusals;
  }

  -- A descriptor that no slot takes.
  pub lose-Balanced :
      (s : Slots) (t u : Trace) (fd : ℕ)
      → Balanced sock addrs contexts fds handles gone s t
      → open_fds u ≡ fd ∷ open_fds t
      → open_handles u ≡ open_handles t
      → open_addrs u ≡ open_addrs t
      → open_contexts u ≡ open_contexts t
      → refused (length handles + max_connection) u
        ≡ fd ∷ refused (length handles + max_connection) t
      → Balanced sock addrs contexts (fd ∷ fds) handles (fd ∷ gone) s u
  lose-Balanced s t u fd b e h k c x = record {
    valid = b.valid;
    descriptors = rw e (
        Perm.trans (Perm.cons fd b.descriptors)
          (Perm.symm (perm_middle (present (λ p. p.fd) s.slots) fds)));
    sessions = rw h b.sessions;
    resolved = k ∙ b.resolved;
    configured = c ∙ b.configured;
    refusals = x ∙ ap (◌∷◌ fd) b.refusals;
  }

  -- A new client with its handle.
  pub take_slot-Balanced :
      (s : Slots) (t u : Trace) (fd handle : ℕ)
      → Balanced sock addrs contexts fds handles gone s t
      → fd ≢ 0
      → s.nfds < max_connection
      → open_fds u ≡ fd ∷ open_fds t
      → open_handles u ≡ handle ∷ open_handles t
      → open_addrs u ≡ open_addrs t
      → open_contexts u ≡ open_contexts t
      → refused (length handles + max_connection) u ≡ refused (length handles + max_connection) t
      → Balanced sock addrs contexts fds handles gone (take_slot s fd handle) u
  take_slot-Balanced s t u fd handle b pos room e h k c x =
      let new = take_slot-present sock s b.valid fd handle room in
      record {
        valid = take_slot-IsValid sock s b.valid fd handle pos room;
        descriptors =
            rw e
              (Perm.trans (Perm.cons fd b.descriptors) (Perm.append_right fds (Perm.symm new.0)));
        sessions = rw h (
            Perm.trans (Perm.cons handle b.sessions) (Perm.append_right handles (Perm.symm new.1)));
        resolved = k ∙ b.resolved;
        configured = c ∙ b.configured;
        refusals = x ∙ b.refusals;
      }

  -- A client whose handshake failed is closed again.
  pub undo_slot-Balanced :
      (s : Slots) (t u : Trace)
      → Balanced sock addrs contexts fds handles gone s t
      → s.nfds < max_connection
      → open_fds u ≡ open_fds t
      → open_handles u ≡ open_handles t
      → open_addrs u ≡ open_addrs t
      → open_contexts u ≡ open_contexts t
      → refused (length handles + max_connection) u ≡ refused (length handles + max_connection) t
      → Balanced sock addrs contexts fds handles gone (undo_slot s) u
  undo_slot-Balanced s t u b room e h k c x =
      let new = undo_slot-present sock s b.valid room in
      record {
        valid = undo_slot-IsValid sock s b.valid room;
        descriptors = rw e (Perm.trans b.descriptors (Perm.append_right fds (Perm.symm new.0)));
        sessions = rw h (Perm.trans b.sessions (Perm.append_right handles (Perm.symm new.1)));
        resolved = k ∙ b.resolved;
        configured = c ∙ b.configured;
        refusals = x ∙ b.refusals;
      }

  -- A client that goes, its descriptor closed and its handle freed.
  pub drop_slot-Balanced :
      (s : Slots) (i : ℕ) (t u : Trace)
      → Balanced sock addrs contexts fds handles gone s t
      → 1 ≤ i
      → i < s.nfds
      → ((xs : List ℕ) → Perm (open_fds t) (opt (slot_at s i).fd ++ xs) → Perm (open_fds u) xs)
      → ((xs : List ℕ)
          → Perm (open_handles t) (opt (slot_at s i).ssl ++ xs)
          → Perm (open_handles u) xs)
      → open_addrs u ≡ open_addrs t
      → open_contexts u ≡ open_contexts t
      → refused (length handles + max_connection) u ≡ refused (length handles + max_connection) t
      → Balanced sock addrs contexts fds handles gone (drop_slot s i) u
  drop_slot-Balanced s i t u b h within closed freed k c x =
      let gone = drop_slot-present sock s b.valid i within in
      record {
        valid = drop_slot-IsValid sock s b.valid i h within;
        descriptors = closed _ (
            Perm.trans b.descriptors (
              rw
                (← append_assoc (opt (slot_at s i).fd) (present (λ p. p.fd) (drop_slot s i).slots)
                  fds)
                (Perm.append_right fds (Perm.symm gone.0))));
        sessions = freed _ (
            Perm.trans b.sessions (
              rw
                (← append_assoc (opt (slot_at s i).ssl) (present (λ p. p.ssl) (drop_slot s i).slots)
                  handles)
                (Perm.append_right handles (Perm.symm gone.1))));
        resolved = k ∙ b.resolved;
        configured = c ∙ b.configured;
        refusals = x ∙ b.refusals;
      }

-- The handles that are open: one for each slot in use, and those from before.
pub length-open_handles :
    (sock addrs contexts : ℕ) (fds handles gone : List ℕ) (s : Slots) (t : Trace)
    → Balanced sock addrs contexts fds handles gone s t
    → length (open_handles t) ≡ s.nfds + length handles
length-open_handles sock addrs contexts fds handles gone s t b =
    length-Perm b.sessions
    ∙ length-append (present (λ p. p.ssl) s.slots) handles
    ∙ ap (λ n. n + length handles) (length-present sock s b.valid)
