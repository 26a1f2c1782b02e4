-- ===== src/Tls/Slots/Changes.antt =====
-- What a new client, one that failed and one that goes change in the slots of the TLS server.
use mathlib.Core.List.Perm
use mathlib.Core.Path.{subst}
use mathlib.Core.Option.{some-injective}
use native.Mathlib.Decide.{ℕ_discrete}
use linux_network_programmin.Base.{
  ℕ, ◌+◌, ◌-◌, ◌≤◌, ◌<◌, ◌≡◌, refl, ap, sym, ◌∙◌, ◌≢◌, List, ◌∷◌, ◌++◌, Perm, Option, none, some,
  true, arith, length, get_or, set, length-set, get_or-set_self, get_or-set_ne,
}
use linux_network_programmin.Socket.Listen.{max_connection}
use linux_network_programmin.Tls.Slots.{
  Slot, Slots, free_slot, slot_at, opt, present, take_slot, undo_slot, drop_slot,
}
use linux_network_programmin.Tls.Slots.Laws.{
  IsValid, present-set, present-set_free, opt_swap, opt_cong, opt_cancel,
}

-- A property of every slot survives a write of a slot with it.
get_or-set_both :
    (P : ℕ → Slot → Type 0) (xs : List Slot) (i : ℕ) (v : Slot) (j : ℕ)
    → i < length xs
    → (i ≡ j → P j v)
    → (i ≢ j → P j (get_or xs j free_slot))
    → P j (get_or (set xs i v) j free_slot)
get_or-set_both P xs i v j h at other = elim (ℕ_discrete i j) [
  | yes e ↦
      subst (λ k. P j (get_or (set xs i v) k free_slot)) e
        (subst (P j) (sym (get_or-set_self xs i v free_slot h)) (at e))
  | no ne ↦ subst (P j) (sym (get_or-set_ne xs i j v free_slot ne)) (other ne)
]

-- What `IsValid` asks of slot `j` when `n` are in use.
abbrev Fits : ℕ → ℕ → Slot → Type 0
Fits n j p =
    (j < n → p.ssl ≢ none) × (n ≤ j → (p.fd ≡ none) × (p.ssl ≡ none)) × (1 ≤ j → p.fd ≢ some 0)

module _ (sock : ℕ) (s : Slots) (v : IsValid sock s) where
  pub take_slot-IsValid :
      (fd handle : ℕ) → fd ≢ 0 → s.nfds < max_connection → IsValid sock (take_slot s fd handle)
  unfolding take_slot
  take_slot-IsValid fd handle pos h = record {
    size = length-set s.slots s.nfds new ∙ v.size;
    listener = ap (λ p. p.fd) (get_or-set_ne s.slots s.nfds 0 new free_slot first) ∙ v.listener;
    used = omega (arith, v.used);
    room = omega arith;
    served = λ j. (fits j).0;
    free = λ j. (fits j).1;
    positive = λ j. (fits j).2;
  }
    where
      new : Slot
      new = record (slot_at s s.nfds) { fd = some fd; events = true; ssl = some handle }

      first : s.nfds ≢ 0
      first e = omega (arith, v.used)

      fits : (j : ℕ) → Fits (s.nfds + 1) j (get_or (set s.slots s.nfds new) j free_slot)
      fits j =
          get_or-set_both (Fits (s.nfds + 1)) s.slots s.nfds new j (omega (arith, v.size))
            (λ e. (λ k eq. cc, λ k. absurd (omega arith), λ k eq. pos (some-injective _ _ eq)))
            (λ ne. (λ k. v.served j (omega arith), λ k. v.free j (omega arith), v.positive j))

  pub undo_slot-IsValid : s.nfds < max_connection → IsValid sock (undo_slot s)
  unfolding undo_slot
  undo_slot-IsValid h = record {
    size = length-set s.slots s.nfds new ∙ v.size;
    listener = ap (λ p. p.fd) (get_or-set_ne s.slots s.nfds 0 new free_slot first) ∙ v.listener;
    used = v.used;
    room = v.room;
    served = λ j. (fits j).0;
    free = λ j. (fits j).1;
    positive = λ j. (fits j).2;
  }
    where
      new : Slot
      new = record (slot_at s s.nfds) { fd = none; events = true; ssl = none }

      first : s.nfds ≢ 0
      first e = omega (arith, v.used)

      fits : (j : ℕ) → Fits s.nfds j (get_or (set s.slots s.nfds new) j free_slot)
      fits j =
          get_or-set_both (Fits s.nfds) s.slots s.nfds new j (omega (arith, v.size))
            (λ e. (λ k. absurd (omega arith), λ k. (refl, refl), λ k eq. cc))
            (λ ne. (v.served j, v.free j, v.positive j))

  -- The slot that moves: the last in use.
  abbrev moved_slot : ℕ → Slot
  moved_slot i = record (slot_at s i) {
    fd = (slot_at s (s.nfds - 1)).fd;
    ssl = (slot_at s (s.nfds - 1)).ssl;
  }

  abbrev cleared : ℕ → Slot
  cleared i = record (get_or (set s.slots i (moved_slot i)) (s.nfds - 1) free_slot) {
    fd = none;
    ssl = none;
  }

  pub drop_slot-IsValid : (i : ℕ) → 1 ≤ i → i < s.nfds → IsValid sock (drop_slot s i)
  unfolding drop_slot
  drop_slot-IsValid i k h = record {
    size =
        length-set (set s.slots i (moved_slot i)) (s.nfds - 1) (cleared i)
        ∙ length-set s.slots i (moved_slot i)
        ∙ v.size;
    listener =
        ap (λ p. p.fd)
          (get_or-set_ne (set s.slots i (moved_slot i)) (s.nfds - 1) 0 (cleared i) free_slot last)
        ∙ ap (λ p. p.fd) (get_or-set_ne s.slots i 0 (moved_slot i) free_slot first)
        ∙ v.listener;
    used = omega arith;
    room = omega (arith, v.room);
    served = λ j. (fits j).0;
    free = λ j. (fits j).1;
    positive = λ j. (fits j).2;
  }
    where
      first : i ≢ 0
      first e = omega arith

      last : s.nfds - 1 ≢ 0
      last e = omega arith

      fits :
          (j : ℕ)
          → Fits
              (s.nfds - 1)
              j
              (get_or (set (set s.slots i (moved_slot i)) (s.nfds - 1) (cleared i)) j free_slot)
      fits j =
          get_or-set_both (Fits (s.nfds - 1)) (set s.slots i (moved_slot i)) (s.nfds - 1)
            (cleared i) j (omega (arith, v.size, v.room, length-set s.slots i (moved_slot i)))
            (λ e. (λ l. absurd (omega arith), λ l. (refl, refl), λ l eq. cc))
            (λ ne.
              get_or-set_both (Fits (s.nfds - 1)) s.slots i (moved_slot i) j
                (omega (arith, v.size, v.room))
                (λ e. (
                  λ l. v.served (s.nfds - 1) (omega arith),
                  λ l. absurd (omega arith),
                  λ l. v.positive (s.nfds - 1) (omega arith),
                ))
                (λ ne'. (λ l. v.served j (omega arith), λ l. v.free j (omega arith), v.positive j)))

  -- A new client's descriptor and handle come to those that the slots hold.
  pub take_slot-present :
      (fd handle : ℕ)
      → s.nfds < max_connection
      → Perm (present (λ p. p.fd) (take_slot s fd handle).slots) (fd ∷ present (λ p. p.fd) s.slots)
        × Perm
            (present (λ p. p.ssl) (take_slot s fd handle).slots)
            (handle ∷ present (λ p. p.ssl) s.slots)
  unfolding take_slot
  take_slot-present fd handle h =
      let none_at = v.free s.nfds (omega arith) in
      let within : s.nfds < length s.slots = omega (arith, v.size) in
      (
        present-set_free (λ p. p.fd) s.slots s.nfds _ within none_at.0,
        present-set_free (λ p. p.ssl) s.slots s.nfds _ within none_at.1,
      )

  pub undo_slot-present :
      s.nfds < max_connection
      → Perm (present (λ p. p.fd) (undo_slot s).slots) (present (λ p. p.fd) s.slots)
        × Perm (present (λ p. p.ssl) (undo_slot s).slots) (present (λ p. p.ssl) s.slots)
  unfolding undo_slot
  undo_slot-present h =
      let none_at = v.free s.nfds (omega arith) in
      let within : s.nfds < length s.slots = omega (arith, v.size) in
      (
        present-set_free (λ p. p.fd) s.slots s.nfds _ within none_at.0,
        present-set_free (λ p. p.ssl) s.slots s.nfds _ within none_at.1,
      )

  -- The field `f` of the slots after the last has moved into slot `i`.
  drop_present :
      (f : Slot → Option ℕ) (i : ℕ)
      → f (moved_slot i) ≡ f (slot_at s (s.nfds - 1))
      → f (cleared i) ≡ none
      → i < s.nfds
      → Perm (opt (f (slot_at s i)) ++ present f (drop_slot s i).slots) (present f s.slots)
  unfolding drop_slot
  drop_present f i e c h = opt_cancel (f (moved_slot i)) both
    where
      xs₁ : List Slot
      xs₁ = set s.slots i (moved_slot i)

      within : s.nfds - 1 < length s.slots
      within = omega (arith, v.size, v.room)

      -- What the last slot holds is what slot `i` now holds.
      last : f (get_or xs₁ (s.nfds - 1) free_slot) ≡ f (moved_slot i)
      last =
          get_or-set_both (λ j p. j ≡ s.nfds - 1 → f p ≡ f (moved_slot i)) s.slots i (moved_slot i)
            (s.nfds - 1) (omega (arith, v.size, v.room)) (λ _ _. refl) (λ _ _. sym e) refl

      ends :
          Perm
            (opt (f (moved_slot i)) ++ present f (set xs₁ (s.nfds - 1) (cleared i)))
            (present f xs₁)
      ends =
          subst (λ o. Perm (opt o ++ present f (set xs₁ (s.nfds - 1) (cleared i))) (present f xs₁))
            last
            (subst
              (λ o.
                Perm
                  (opt (f (get_or xs₁ (s.nfds - 1) free_slot))
                    ++ present f (set xs₁ (s.nfds - 1) (cleared i)))
                  (opt o ++ present f xs₁))
              c
              (present-set f xs₁ (s.nfds - 1) (cleared i)
                (omega (arith, within, length-set s.slots i (moved_slot i)))))

      both :
          Perm
            (opt (f (moved_slot i)) ++ (opt (f (slot_at s i)) ++ present f (drop_slot s i).slots))
            (opt (f (moved_slot i)) ++ present f s.slots)
      both = Perm.trans (opt_swap (f (moved_slot i)) (f (slot_at s i)) _) (
          Perm.trans (opt_cong (f (slot_at s i)) ends)
            (present-set f s.slots i (moved_slot i) (omega (arith, v.size, v.room))))

  -- What slot `i` held is what the slots lose.
  pub drop_slot-present :
      (i : ℕ)
      → i < s.nfds
      → Perm
          (opt (slot_at s i).fd ++ present (λ p. p.fd) (drop_slot s i).slots)
          (present (λ p. p.fd) s.slots)
        × Perm
            (opt (slot_at s i).ssl ++ present (λ p. p.ssl) (drop_slot s i).slots)
            (present (λ p. p.ssl) s.slots)
  drop_slot-present i h =
      (drop_present (λ p. p.fd) i refl refl h, drop_present (λ p. p.ssl) i refl refl h)
