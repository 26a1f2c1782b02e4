-- ===== src/HttpServer/Loop/Books.antt =====
-- The accounts of the C++ server: every descriptor that it opens is in its table or lost.
use mathlib.Core.Path.{subst}
use mathlib.Core.List.{perm_middle}
use mathlib.Core.List.Perm
use native.Mathlib.Decide.{ℕ_discrete}
use linux_network_programmin.Base.{
  ℕ, suc, ◌+◌, ap, length-append, length-take, ◌-◌, ◌≤◌, ◌<◌, ◌≡◌, ◌∙◌, inl, inr, ℤ, pos, Bool,
  List, [], ◌∷◌, ◌++◌, Perm, arith, ltb, ltb→lt, Bool-cases, length, take, map, set, get_or,
  length-set, length-map, append_assoc,
}
use linux_network_programmin.Base.Swap.{swap_remove-perm}
use linux_network_programmin.Sys.{Event, Trace}
use linux_network_programmin.Sys.Resources.{open_fds, open_addrs, erase_head}
use linux_network_programmin.Sys.Arrivals.{arrivals, turned_away}
use linux_network_programmin.Base.Count.{length-Perm}
use linux_network_programmin.Poll.{Server, slot, empty_slot, refresh}
use linux_network_programmin.Poll.Slots.{
  fd_of, table, map-set, get_or-map, length-refresh, take-set_last, table-refresh,
}
use linux_network_programmin.HttpServer.Setup.{max_connection}
use linux_network_programmin.HttpServer.Loop.{add_client, drop_client}

-- The clients that came when the table was full, among some and with `rest` open beside them.
abbrev pub away : List ℕ → List (ℕ × ℕ) → List ℕ
away rest new = turned_away (max_connection + length rest) new

-- No descriptor or address list more or less, and no client came.
abbrev pub Untouched : Trace → Trace → Type 0
Untouched t u =
    (open_fds u ≡ open_fds t) × (open_addrs u ≡ open_addrs t) × (arrivals u ≡ arrivals t)

-- The slots in use are some of the array's. What is open, since the loop was entered at `v`, is
-- the table, those of the clients that came since when the table was full, and the rest; `addrs`
-- address lists are held.
pub record Books (rest : List ℕ) (addrs : ℕ) (v : Trace) (s : Server) (t : Trace) : Type 0 where
  pub size : length s.fds ≡ max_connection
  pub room : s.nfds ≤ max_connection
  pub new : List (ℕ × ℕ)
  pub visitors : arrivals t ≡ new ++ arrivals v
  pub accounts : Perm (open_fds t) (table s ++ (away rest new ++ rest))
  pub resolved : open_addrs t ≡ addrs

-- A client that is dropped leaves the table, and nobody else does.
table-drop_client :
    (i : ℕ) (s : Server)
    → length s.fds ≡ max_connection
    → s.nfds ≤ max_connection
    → i < s.nfds
    → Perm ((slot s i).fd ∷ table (drop_client s i)) (table s)
unfolding drop_client
table-drop_client i s size room h =
    rw (map-set, ← get_or-map fd_of s.fds i empty_slot)
      (rw (← get_or-map fd_of s.fds (s.nfds - 1) empty_slot) (
        subst (λ n. Perm (swapped (s.nfds - 1)) (take n (map fd_of s.fds)))
          (last s.nfds (omega arith))
          (swap_remove-perm (s.nfds - 1) i 0 (map fd_of s.fds) (omega arith)
            (omega (arith, length-map s.fds fd_of, size)))))
  where
    swapped : ℕ → List ℕ
    swapped m =
        get_or (map fd_of s.fds) i 0
        ∷ take m (set (map fd_of s.fds) i (get_or (map fd_of s.fds) m 0))

    last : (n : ℕ) → 1 ≤ n → suc (n - 1) ≡ n
    last n k = omega arith

module _ (rest : List ℕ) (addrs : ℕ) (v : Trace) where
  pub drop_client-Books :
      (i : ℕ) (s : Server) (t u : Trace)
      → i < s.nfds
      → Books rest addrs v s t
      → Untouched t u
      → Books rest addrs v (drop_client s i) (Event.close (slot s i).fd ∷ u)
  unfolding drop_client
  drop_client-Books i s t u h b q = record {
    size = length-set s.fds i _ ∙ b.size;
    room = omega (arith, b.room);
    new = b.new;
    visitors = q.2 ∙ b.visitors;
    accounts =
        rw (q.0, ← erase_head (slot s i).fd (table (drop_client s i) ++ (away rest b.new ++ rest)))
          (Perm.erase ℕ_discrete (slot s i).fd (
            Perm.trans b.accounts (
              Perm.append (Perm.symm (table-drop_client i s b.size b.room h))
                (Perm.refl (away rest b.new ++ rest)))));
    resolved = q.1 ∙ b.resolved;
  }

  length-open_fds :
      (s : Server) (t : Trace)
      → (b : Books rest addrs v s t)
      → length (open_fds t) ≡ s.nfds + (length (away rest b.new) + length rest)
  length-open_fds s t b = omega (
    arith,
    length-Perm b.accounts,
    length-append (table s) (away rest b.new ++ rest),
    length-append (away rest b.new) rest,
    length-take s.nfds (map fd_of s.fds),
    length-map s.fds fd_of,
    b.size,
    b.room,
  )

  away-room :
      (s : Server) (t : Trace) (fd : ℕ) (b : Books rest addrs v s t)
      → s.nfds < max_connection
      → away rest ((fd, length (open_fds t)) ∷ b.new) ≡ away rest b.new
  away-room s t fd b h = ground (arith, length-open_fds s t b)

  away-full :
      (s : Server) (t : Trace) (fd : ℕ) (b : Books rest addrs v s t)
      → max_connection ≤ s.nfds
      → away rest ((fd, length (open_fds t)) ∷ b.new) ≡ fd ∷ away rest b.new
  away-full s t fd b h = ground (arith, length-open_fds s t b)

  pub add_client-Books :
      (fd sock : ℕ) (s : Server) (t : Trace)
      → Books rest addrs v s t
      → Books rest addrs v (add_client s fd) (Event.accept sock (pos fd) ∷ t)
  unfolding add_client
  add_client-Books fd sock s t b = elim (Bool-cases (ltb s.nfds max_connection)) [
    | inl space ↦ rw space (record {
      size = length-set s.fds s.nfds _ ∙ b.size;
      room = omega (arith, ltb→lt s.nfds max_connection space);
      new = (fd, length (open_fds t)) ∷ b.new;
      visitors = ap (◌∷◌ (fd, length (open_fds t))) b.visitors;
      accounts =
          rw
            (
              away-room s t fd b (ltb→lt s.nfds max_connection space),
              map-set,
              take-set_last s.nfds fd (map fd_of s.fds) (
                  omega
                    (arith, length-map s.fds fd_of, b.size, ltb→lt s.nfds max_connection space)),
              append_assoc (table s) (fd ∷ []) (away rest b.new ++ rest),
            )
            (Perm.trans (Perm.cons fd b.accounts)
              (Perm.symm (perm_middle (table s) (away rest b.new ++ rest))));
      resolved = b.resolved;
    })
    | inr full ↦ rw full (record {
      size = b.size;
      room = b.room;
      new = (fd, length (open_fds t)) ∷ b.new;
      visitors = ap (◌∷◌ (fd, length (open_fds t))) b.visitors;
      accounts = rw (away-full s t fd b (ground arith)) (
          Perm.trans (Perm.cons fd b.accounts)
            (Perm.symm (perm_middle (table s) (away rest b.new ++ rest))));
      resolved = b.resolved;
    })
  ]

  pub refresh-Books :
      (ready : ℕ → Bool) (s : Server) (t : Trace) (r : ℤ)
      → Books rest addrs v s t
      → Books rest addrs v (record s { fds = refresh ready 0 s.nfds s.fds }) (Event.poll r ∷ t)
  refresh-Books ready s t r b = record {
    size = length-refresh ready 0 s.nfds s.fds ∙ b.size;
    room = b.room;
    new = b.new;
    visitors = b.visitors;
    accounts = rw (table-refresh ready s) b.accounts;
    resolved = b.resolved;
  }
