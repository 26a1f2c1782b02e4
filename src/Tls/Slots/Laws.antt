-- ===== src/Tls/Slots/Laws.antt =====
-- The slots of the TLS server: which are in use, and what they hold as a list.
use mathlib.Core.List.Perm
use mathlib.Core.Path.{subst}
use linux_network_programmin.Base.{
  ℕ, zero, suc, ◌+◌, ◌-◌, ◌≤◌, ◌<◌, ◌≡◌, refl, ap, sym, ◌∙◌, ◌≢◌, Bool, List, [], ◌∷◌, ◌++◌, Perm,
  Option, none, some, arith, length, get_or, set, replicate, length-append, length-replicate,
}
use linux_network_programmin.Socket.Listen.{max_connection}
use linux_network_programmin.Tls.Slots.{
  Slot, Slots, free_slot, slot_at, opt, present, initial_slots, poll_slots,
}

pub opt_swap :
    (a b : Option ℕ) (xs : List ℕ) → Perm (opt a ++ (opt b ++ xs)) (opt b ++ (opt a ++ xs))
opt_swap none b xs = Perm.refl _
opt_swap (some a) none xs = Perm.refl _
opt_swap (some a) (some b) xs = Perm.swap b a xs

pub opt_cong : (a : Option ℕ) {xs ys : List ℕ} → Perm xs ys → Perm (opt a ++ xs) (opt a ++ ys)
opt_cong a p = Perm.append_left (opt a) p

pub opt_cancel : (a : Option ℕ) {xs ys : List ℕ} → Perm (opt a ++ xs) (opt a ++ ys) → Perm xs ys
opt_cancel none p = p
opt_cancel (some a) p = Perm.cons_inv p

-- A write exchanges what its slot holds.
pub present-set :
    (f : Slot → Option ℕ) (xs : List Slot) (i : ℕ) (v : Slot)
    → i < length xs
    → Perm (opt (f (get_or xs i free_slot)) ++ present f (set xs i v)) (opt (f v) ++ present f xs)
present-set f [] i v h = absurd (omega arith)
present-set f (x ∷ xs) zero v h = opt_swap (f x) (f v) (present f xs)
present-set f (x ∷ xs) (suc i) v h =
    Perm.trans (opt_swap (f (get_or xs i free_slot)) (f x) (present f (set xs i v))) (
      Perm.trans (opt_cong (f x) (present-set f xs i v (omega arith)))
        (opt_swap (f x) (f v) (present f xs)))

-- A write into a slot that holds nothing.
pub present-set_free :
    (f : Slot → Option ℕ) (xs : List Slot) (i : ℕ) (v : Slot)
    → i < length xs
    → f (get_or xs i free_slot) ≡ none
    → Perm (present f (set xs i v)) (opt (f v) ++ present f xs)
present-set_free f xs i v h e =
    subst (λ o. Perm (opt o ++ present f (set xs i v)) (opt (f v) ++ present f xs)) e
      (present-set f xs i v h)

-- The listening socket keeps the first slot, the slots in use have handles, the others hold
-- nothing, and no other slot has descriptor 0.
pub record IsValid (sock : ℕ) (s : Slots) : Type 0 where
  pub size : length s.slots ≡ max_connection
  pub listener : (slot_at s 0).fd ≡ some sock
  pub used : 1 ≤ s.nfds
  pub room : s.nfds ≤ max_connection
  pub served : (j : ℕ) → j < s.nfds → (slot_at s j).ssl ≢ none
  pub free : (j : ℕ) → s.nfds ≤ j → ((slot_at s j).fd ≡ none) × ((slot_at s j).ssl ≡ none)
  pub positive : (j : ℕ) → 1 ≤ j → (slot_at s j).fd ≢ some 0

get_or-replicate : (n j : ℕ) → get_or (replicate n free_slot) j free_slot ≡ free_slot
get_or-replicate zero j = refl
get_or-replicate (suc n) zero = refl
get_or-replicate (suc n) (suc j) = get_or-replicate n j

pub initial_slots-IsValid : (sock handle : ℕ) → IsValid sock (initial_slots sock handle)
unfolding initial_slots
initial_slots-IsValid sock handle = record {
  size = ap suc (length-replicate (max_connection - 1) free_slot);
  listener = refl;
  used = omega arith;
  room = omega arith;
  served = first;
  free = others;
  positive = λ j h e. cc ((others j h).0, e);
}
  where
    first : (j : ℕ) → j < 1 → (slot_at (initial_slots sock handle) j).ssl ≢ none
    first zero h e = cc
    first (suc j) h e = absurd (omega arith)

    others :
        (j : ℕ)
        → 1 ≤ j
        → ((slot_at (initial_slots sock handle) j).fd ≡ none)
          × ((slot_at (initial_slots sock handle) j).ssl ≡ none)
    others zero h = absurd (omega arith)
    others (suc j) h = rw (get_or-replicate (max_connection - 1) j) (refl, refl)

-- `poll` changes neither a descriptor nor a handle.
pub length-poll_slots :
    (ready : ℕ → Bool) (i : ℕ) (xs : List Slot) → length (poll_slots ready i xs) ≡ length xs
unfolding poll_slots
length-poll_slots ready i [] = refl
length-poll_slots ready i (p ∷ xs) = ap suc (length-poll_slots ready (i + 1) xs)

get_or-poll_slots :
    (ready : ℕ → Bool) (i : ℕ) (xs : List Slot) (j : ℕ)
    → ((get_or (poll_slots ready i xs) j free_slot).fd ≡ (get_or xs j free_slot).fd)
      × ((get_or (poll_slots ready i xs) j free_slot).ssl ≡ (get_or xs j free_slot).ssl)
unfolding poll_slots
get_or-poll_slots ready i [] j = (refl, refl)
get_or-poll_slots ready i (p ∷ xs) zero = (refl, refl)
get_or-poll_slots ready i (p ∷ xs) (suc j) = get_or-poll_slots ready (i + 1) xs j

pub present-poll_slots :
    (ready : ℕ → Bool) (i : ℕ) (xs : List Slot)
    → (present (λ p. p.fd) (poll_slots ready i xs) ≡ present (λ p. p.fd) xs)
      × (present (λ p. p.ssl) (poll_slots ready i xs) ≡ present (λ p. p.ssl) xs)
unfolding poll_slots
present-poll_slots ready i [] = (refl, refl)
present-poll_slots ready i (p ∷ xs) =
    let rest = present-poll_slots ready (i + 1) xs in
    (ap (λ ys. opt p.fd ++ ys) rest.0, ap (λ ys. opt p.ssl ++ ys) rest.1)

pub poll_slots-IsValid :
    (sock : ℕ) (ready : ℕ → Bool) (s : Slots)
    → IsValid sock s
    → IsValid sock (record s { slots = poll_slots ready 0 s.slots })
poll_slots-IsValid sock ready s v = record {
  size = length-poll_slots ready 0 s.slots ∙ v.size;
  listener = (get_or-poll_slots ready 0 s.slots 0).0 ∙ v.listener;
  used = v.used;
  room = v.room;
  served = λ j h e. v.served j h (sym (get_or-poll_slots ready 0 s.slots j).1 ∙ e);
  free = λ j h. (
    (get_or-poll_slots ready 0 s.slots j).0 ∙ (v.free j h).0,
    (get_or-poll_slots ready 0 s.slots j).1 ∙ (v.free j h).1,
  );
  positive = λ j h e. v.positive j h (sym (get_or-poll_slots ready 0 s.slots j).0 ∙ e);
}

pub initial_slots-present :
    (sock handle : ℕ)
    → (present (λ p. p.fd) (initial_slots sock handle).slots ≡ sock ∷ [])
      × (present (λ p. p.ssl) (initial_slots sock handle).slots ≡ handle ∷ [])
unfolding initial_slots
initial_slots-present sock handle = (refl, refl)

opt-some : (o : Option ℕ) → o ≢ none → length (opt o) ≡ 1
opt-some none h = absurd (h refl)
opt-some (some a) h = refl

length-present_go :
    (xs : List Slot) (n : ℕ)
    → n ≤ length xs
    → ((j : ℕ) → j < n → (get_or xs j free_slot).ssl ≢ none)
    → ((j : ℕ) → n ≤ j → (get_or xs j free_slot).ssl ≡ none)
    → length (present (λ p. p.ssl) xs) ≡ n
length-present_go [] n h served free = omega arith
length-present_go (p ∷ xs) zero h served free = rw (free 0 (omega arith)) (
    length-present_go xs 0 (omega arith) (λ j k. absurd (omega arith))
      (λ j k. free (suc j) (omega arith)))
length-present_go (p ∷ xs) (suc n) h served free = omega (
  arith,
  length-append (opt p.ssl) (present (λ p. p.ssl) xs),
  opt-some p.ssl (served 0 (omega arith)),
  length-present_go xs n (omega arith) (λ j k. served (suc j) (omega arith))
      (λ j k. free (suc j) (omega arith)),
)

-- There is one handle for each slot in use.
pub length-present :
    (sock : ℕ) (s : Slots) → IsValid sock s → length (present (λ p. p.ssl) s.slots) ≡ s.nfds
length-present sock s v =
    length-present_go s.slots s.nfds (omega (arith, v.size, v.room)) v.served
      (λ j h. (v.free j h).1)
