-- ===== src/Select/Slots.antt =====
-- The array of client descriptors.
use mathlib.Core.Option
use mathlib.Core.Option.{some-injective}
use mathlib.Core.List.Perm
use linux_network_programmin.Base.{
  ℕ, suc, ap, length, ◌≤◌, ◌<◌, ◌≡◌, ◌≢◌, refl, Bool, true, false, ◌||◌, List, [], ◌∷◌, Option,
  none, some, Perm, arith, if◌then◌else◌, ◌==◌, ==_iff, Bool-cases, inl, inr,
}
use linux_network_programmin.Select.{store, forget}

-- The descriptors in the array.
abbrev pub live : List ℕ → List ℕ
live [] = []
live (c ∷ fds) = if c == 0 then live fds else c ∷ live fds

abbrev pub holds : List ℕ → ℕ → Bool
holds [] fd = false
holds (c ∷ fds) fd = c == fd || holds fds fd

pub forget-live :
    (fds : List ℕ) (fd : ℕ)
    → 0 < fd
    → holds fds fd ≡ true
    → Perm (live fds) (fd ∷ live (forget fds fd))
unfolding forget
forget-live [] fd h k = cc
forget-live (c ∷ fds) fd h k = elim (Bool-cases (c == fd)) [
  | inl same ↦ rw (same, (==_iff c fd).0 same, nonzero) (Perm.refl (fd ∷ live fds))
  | inr other ↦ elim (Bool-cases (c == 0)) [
    | inl free ↦ rw (other, free) (forget-live fds fd h (tail other))
    | inr used ↦
        rw (other, used)
          (Perm.trans (Perm.cons c (forget-live fds fd h (tail other)))
            (Perm.swap fd c (live (forget fds fd))))
  ]
]
  where
    nonzero : (fd == 0) ≡ false
    nonzero = ground arith

    tail : (c == fd) ≡ false → holds fds fd ≡ true
    tail other = ground (arith, k)

pub forget-holds :
    (fds : List ℕ) (fd k : ℕ) → k ≢ fd → holds fds k ≡ true → holds (forget fds fd) k ≡ true
unfolding forget
forget-holds [] fd k h e = e
forget-holds (c ∷ fds) fd k h e = ground (arith, forget-holds fds fd k h)

pub store-live :
    (fds new : List ℕ) (fd : ℕ) → 0 < fd → store fds fd ≡ some new → Perm (live new) (fd ∷ live fds)
unfolding store
store-live [] new fd h e = cc
store-live (c ∷ fds) new fd h e = elim (Bool-cases (c == 0)) [
  | inl free ↦ rw (← some-injective _ _ (rw free at e), nonzero, free) (Perm.refl (fd ∷ live fds))
  | inr used ↦ go used (store fds fd) refl (λ rest q. store-live fds rest fd h q) (rw used at e)
]
  where
    nonzero : (fd == 0) ≡ false
    nonzero = ground arith

    go :
        (c == 0) ≡ false
        → (r : Option (List ℕ)) → store fds fd ≡ r
        → ((rest : List ℕ) → store fds fd ≡ some rest → Perm (live rest) (fd ∷ live fds))
        → Option.map (λ x. c ∷ x) r ≡ some new
        → Perm (live new) (fd ∷ live (c ∷ fds))
    go used none q ih p = cc
    go used (some rest) q ih p =
        rw (← some-injective _ _ p, used)
          (Perm.trans (Perm.cons c (ih rest q)) (Perm.swap fd c (live fds)))

pub store-holds :
    (fds new : List ℕ) (fd k : ℕ)
    → 0 < k
    → store fds fd ≡ some new
    → (k ≡ fd → holds new k ≡ true) × (holds fds k ≡ true → holds new k ≡ true)
unfolding store
store-holds [] new fd k h e = cc
store-holds (c ∷ fds) new fd k h e = elim (Bool-cases (c == 0)) [
  | inl free ↦ rw (← some-injective _ _ (rw free at e)) (ground arith, ground arith)
  | inr used ↦ go (store fds fd) refl (λ rest q. store-holds fds rest fd k h q) (rw used at e)
]
  where
    go :
        (r : Option (List ℕ))
        → store fds fd ≡ r
        → ((rest : List ℕ)
            → store fds fd ≡ some rest
            → (k ≡ fd → holds rest k ≡ true) × (holds fds k ≡ true → holds rest k ≡ true))
        → Option.map (λ x. c ∷ x) r ≡ some new
        → (k ≡ fd → holds new k ≡ true) × (holds (c ∷ fds) k ≡ true → holds new k ≡ true)
    go none q ih p = cc
    go (some rest) q ih p =
        rw (← some-injective _ _ p) (ground (arith, ih rest q), ground (arith, ih rest q))

pub length-forget : (fds : List ℕ) (fd : ℕ) → length (forget fds fd) ≡ length fds
unfolding forget
length-forget [] fd = refl
length-forget (c ∷ fds) fd = ground (arith, length-forget fds fd)

pub length-store : (fds new : List ℕ) (fd : ℕ) → store fds fd ≡ some new → length new ≡ length fds
unfolding store
length-store [] new fd e = cc
length-store (c ∷ fds) new fd e = elim (Bool-cases (c == 0)) [
  | inl free ↦ rw (← some-injective _ _ (rw free at e)) refl
  | inr used ↦ go (store fds fd) refl (λ rest q. length-store fds rest fd q) (rw used at e)
]
  where
    go :
        (r : Option (List ℕ))
        → store fds fd ≡ r
        → ((rest : List ℕ) → store fds fd ≡ some rest → length rest ≡ length fds)
        → Option.map (λ x. c ∷ x) r ≡ some new
        → length new ≡ suc (length fds)
    go none q ih p = cc
    go (some rest) q ih p = rw (← some-injective _ _ p) (ap suc (ih rest q))

-- There are as many clients as slots, or fewer; and just as many if no slot is free.
pub length-live : (fds : List ℕ) → length (live fds) ≤ length fds
length-live [] = omega arith
length-live (c ∷ fds) = ground (arith, length-live fds)

pub length-live_full : (fds : List ℕ) → holds fds 0 ≡ false → length (live fds) ≡ length fds
length-live_full [] h = refl
length-live_full (c ∷ fds) h = ground (arith, length-live_full fds)

-- No slot is free if there is none for a new client.
pub store-none : (fds : List ℕ) (fd : ℕ) → store fds fd ≡ none → holds fds 0 ≡ false
unfolding store
store-none [] fd e = refl
store-none (c ∷ fds) fd e = elim (Bool-cases (c == 0)) [
  | inl free ↦ absurd (other (rw free at e))
  | inr used ↦ rw used (go (store fds fd) refl (λ q. store-none fds fd q) (rw used at e))
]
  where
    other : ¬ ◌≡◌ {A = Option (List ℕ)} (some (fd ∷ fds)) none
    other p = cc

    go :
        (r : Option (List ℕ))
        → store fds fd ≡ r
        → (store fds fd ≡ none → holds fds 0 ≡ false)
        → Option.map (λ x. c ∷ x) r ≡ none
        → holds fds 0 ≡ false
    go none q ih p = ih q
    go (some rest) q ih p = cc
