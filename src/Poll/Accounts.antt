-- ===== src/Poll/Accounts.antt =====
-- The descriptors that are open are those in the table, and those that the server has lost.
use mathlib.Core.List.{perm_middle}
use mathlib.Core.List.Perm
use native.Mathlib.Decide.{ℕ_discrete}
use linux_network_programmin.Base.{
  ℕ, zero, suc, ◌+◌, ◌≤◌, ◌<◌, ◌≡◌, ◌∙◌, Bool, true, false, List, [], ◌∷◌, ◌++◌, Perm, arith,
  Bool-cases, inl, inr, ltb, ltb→lt, append_assoc, ap, length, length-append, length-take,
  length-map, map,
}
use linux_network_programmin.Sys.{Kernel, Trace, M}
use linux_network_programmin.Sys.Loop.{Total, Total-bind}
use linux_network_programmin.Sys.Resources.{open_fds, open_addrs, erase_head}
use linux_network_programmin.Sys.Arrivals.{arrivals}
use linux_network_programmin.Base.Count.{length-Perm}
use linux_network_programmin.Socket.Listen.{max_connection}
use linux_network_programmin.Poll.{Server, slot, add_client, drop_client, exchange, serve_clients}
use linux_network_programmin.Poll.Slots.{
  fd_of, table, IsValid, add_client-IsValid, drop_client-IsValid, table-add_client, add_client-full,
  table-drop_client,
}
use linux_network_programmin.Poll.Clients.{ShortMessages, ClosedIf, exchange_lem}

-- The table and the `lost` descriptors make up what is open; `addrs` address lists are held; and
-- these clients have come.
pub record Balanced (sock addrs : ℕ) (lost : List ℕ) (came : List (ℕ × ℕ)) (s : Server) (t : Trace)
    : Type 0 where
  pub valid : IsValid sock s
  pub accounts : Perm (open_fds t) (table s ++ lost)
  pub resolved : open_addrs t ≡ addrs
  pub visitors : arrivals t ≡ came

module _ (sock addrs : ℕ) (lost : List ℕ) (came : List (ℕ × ℕ)) where
  drop_client-Balanced :
      (i : ℕ) (s : Server) (t t' : Trace)
      → 1 ≤ i
      → i < s.nfds
      → Balanced sock addrs lost came s t
      → ClosedIf (slot s i).fd t true t'
      → Balanced sock addrs lost came (drop_client s i) t'
  drop_client-Balanced i s t t' h k b c = record {
    valid = drop_client-IsValid sock i s b.valid h k;
    accounts =
        rw (c.0, ← erase_head (slot s i).fd (table (drop_client s i) ++ lost))
          (Perm.erase ℕ_discrete (slot s i).fd (
            Perm.trans b.accounts
              (Perm.append (Perm.symm (table-drop_client sock i s b.valid k)) (Perm.refl lost))));
    resolved = c.1 ∙ b.resolved;
    visitors = c.2 ∙ b.visitors;
  }

  -- How many descriptors are open.
  pub length-open_fds :
      (s : Server) (t : Trace)
      → Balanced sock addrs lost came s t
      → length (open_fds t) ≡ s.nfds + length lost
  length-open_fds s t b = omega (
    arith,
    length-Perm b.accounts,
    length-append (table s) lost,
    length-take s.nfds (map fd_of s.fds),
    length-map s.fds fd_of,
    b.valid.size,
    b.valid.room,
  )

  -- With room in the array, a new client goes to the table.
  pub add_client-Balanced :
      (fd : ℕ) (s : Server) (t t' : Trace)
      → s.nfds < max_connection
      → Balanced sock addrs lost came s t
      → open_fds t' ≡ fd ∷ open_fds t
      → open_addrs t' ≡ open_addrs t
      → arrivals t' ≡ (fd, length (open_fds t)) ∷ arrivals t
      → Balanced sock addrs lost ((fd, length (open_fds t)) ∷ came) (add_client s fd) t'
  add_client-Balanced fd s t t' h b e k w = record {
    valid = add_client-IsValid sock fd s b.valid;
    accounts =
        rw (e, table-add_client sock fd s b.valid h, append_assoc (table s) (fd ∷ []) lost)
          (Perm.trans (Perm.cons fd b.accounts) (Perm.symm (perm_middle (table s) lost)));
    resolved = k ∙ b.resolved;
    visitors = w ∙ ap (λ xs. (fd, length (open_fds t)) ∷ xs) b.visitors;
  }

  -- With a full array, it is lost: the server neither keeps nor closes it.
  pub add_client_full-Balanced :
      (fd : ℕ) (s : Server) (t t' : Trace)
      → max_connection ≤ s.nfds
      → Balanced sock addrs lost came s t
      → open_fds t' ≡ fd ∷ open_fds t
      → open_addrs t' ≡ open_addrs t
      → arrivals t' ≡ (fd, length (open_fds t)) ∷ arrivals t
      → Balanced sock addrs (fd ∷ lost) ((fd, length (open_fds t)) ∷ came) (add_client s fd) t'
  add_client_full-Balanced fd s t t' h b e k w = rw (add_client-full fd s h) (record {
    valid = b.valid;
    accounts = rw e (Perm.trans (Perm.cons fd b.accounts) (Perm.symm (perm_middle (table s) lost)));
    resolved = k ∙ b.resolved;
    visitors = w ∙ ap (λ xs. (fd, length (open_fds t)) ∷ xs) b.visitors;
  })

  same_open-Balanced :
      (s : Server) (t t' : Trace) (fd : ℕ)
      → Balanced sock addrs lost came s t
      → ClosedIf fd t false t'
      → Balanced sock addrs lost came s t'
  same_open-Balanced s t t' fd b c = record {
    valid = b.valid;
    accounts = rw c.0 b.accounts;
    resolved = c.1 ∙ b.resolved;
    visitors = c.2 ∙ b.visitors;
  }

  module _ (os : Kernel) (short : ShortMessages os) where
    -- The pass over the clients closes exactly those that leave the table.
    pub serve_clients-Balanced :
        (rounds i : ℕ) (s : Server) (t : Trace)
        → 1 ≤ i
        → Balanced sock addrs lost came s t
        → Total (Balanced sock addrs lost came) (serve_clients os rounds i s t)
    unfolding serve_clients
    serve_clients-Balanced zero i s t h b = b
    serve_clients-Balanced (suc rounds) i s t h b = elim (Bool-cases (ltb i s.nfds)) [
      | inr out ↦ rw (out, serve_clients) b
      | inl within ↦ elim (Bool-cases (slot s i).revents) [
        | inr idle ↦
            rw (within, idle, serve_clients)
              (serve_clients-Balanced rounds (i + 1) s t (omega arith) b)
        | inl ready ↦
            rw (within, ready, serve_clients)
              (Total-bind (ClosedIf (slot s i).fd t) (Balanced sock addrs lost came)
                (exchange os (slot s i).fd) _ t (exchange_lem os (slot s i).fd short t)
                (next (ltb→lt i s.nfds within)
                  (λ t'. serve_clients-Balanced rounds i (drop_client s i) t' h)
                  (λ t'. serve_clients-Balanced rounds (i + 1) s t' (omega arith))))
      ]
    ]
      where
        next :
            i < s.nfds
            → ((t' : Trace)
                → Balanced sock addrs lost came (drop_client s i) t'
                → Total
                    (Balanced sock addrs lost came)
                    (serve_clients os rounds i (drop_client s i) t'))
            → ((t' : Trace)
                → Balanced sock addrs lost came s t'
                → Total (Balanced sock addrs lost came) (serve_clients os rounds (i + 1) s t'))
            → (gone : Bool) (t' : Trace) → ClosedIf (slot s i).fd t gone t'
            → Total (Balanced sock addrs lost came) (
                elim gone as (λ _. M Server) [
                  | true ↦ serve_clients os rounds i (drop_client s i)
                  | false ↦ serve_clients os rounds (i + 1) s
                ]
                  t')
        next k dropped kept true t' c = dropped t' (drop_client-Balanced i s t t' h k b c)
        next k dropped kept false t' c = kept t' (same_open-Balanced s t t' (slot s i).fd b c)
