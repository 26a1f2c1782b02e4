-- ===== src/Sys/Loop.antt =====
-- A `while (1)` loop, cut after a number of rounds: `running` if it would go on, `stopped` after
-- a `break`. `Total` is the rule that carries an invariant of state and trace through it.
use linux_network_programmin.Base.{ℕ, zero, suc, Bool, true, false, ◌≡◌, refl, if◌then◌else◌}
use linux_network_programmin.Sys.Types.{Trace, Run, ok, fault, M, pure, ◌>>=◌}

pub data Loop (S : Type 0) : Type 0 where
  running : S → Loop S
  stopped : S → Loop S

abbrev pub state_of : {S : Type 0} → Loop S → S
state_of (running s) = s
state_of (stopped s) = s

-- The run has no fault and ends in a result and a trace with `P`.
abbrev pub Total : {A : Type 0} → (A → Trace → Type 0) → Run A → Type 0
Total P (ok a t) = P a t
Total P fault = ⊥

-- What follows a round: the next one, or the code after the loop.
abbrev pub resume : {S : Type 0} → (S → M (Loop S)) → Loop S → M (Loop S)
resume next (running s) = next s
resume next (stopped s) = pure (stopped s)

unfoldable pub while_true : {S : Type 0} → ℕ → (S → M (Loop S)) → S → M (Loop S)
while_true zero body s = pure (running s)
while_true (suc n) body s = body s >>= resume (while_true n body)

-- The rule for a sequence of two programs.
pub Total-bind :
    {A B : Type 0} (Q : A → Trace → Type 0) (P : B → Trace → Type 0) (m : M A) (f : A → M B)
    (t : Trace)
    → Total Q (m t)
    → ((a : A) (t' : Trace) → Q a t' → Total P (f a t'))
    → Total P ((m >>= f) t)
Total-bind {A} {B} Q P m f t h k = go (m t) h
  where
    go : (r : Run A) → Total Q r → Total P (elim r [ ok a t' ↦ f a t' | fault ↦ fault ])
    go (ok a t') q = k a t' q
    go fault q = q

-- The postcondition with the run itself.
pub Total-run :
    {A : Type 0} (P : A → Trace → Type 0) (r : Run A)
    → Total P r
    → Total (λ a t. (r ≡ ok a t) × P a t) r
Total-run P (ok a t) p = (refl, p)
Total-run P fault p = p

-- The rule for a test between two programs.
pub Total-if :
    {A : Type 0} (P : A → Trace → Type 0) (b : Bool) (m n : M A) (t : Trace)
    → (b ≡ true → Total P (m t))
    → (b ≡ false → Total P (n t))
    → Total P ((if b then m else n) t)
Total-if P true m n t h k = h refl
Total-if P false m n t h k = k refl

-- A weaker postcondition.
pub Total-mono :
    {A : Type 0} (P Q : A → Trace → Type 0) (r : Run A)
    → ((a : A) (t : Trace) → P a t → Q a t)
    → Total P r
    → Total Q r
Total-mono P Q (ok a t) h p = h a t p
Total-mono P Q fault h p = p

module _ {S : Type 0} (P : S → Trace → Type 0) where
  abbrev pub Keeps : Loop S → Trace → Type 0
  Keeps l t = P (state_of l) t

  -- What each round keeps holds after any number of rounds.
  pub while_true-inv :
      (body : S → M (Loop S))
      → ((s : S) (t : Trace) → P s t → Total Keeps (body s t))
      → (n : ℕ) (s : S) (t : Trace) → P s t
      → Total Keeps (while_true n body s t)
  unfolding while_true
  while_true-inv body keep zero s t h = h
  while_true-inv body keep (suc n) s t h =
      Total-bind Keeps Keeps (body s) _ t (keep s t h) (next (while_true-inv body keep n))
    where
      next :
          ((s' : S) (t' : Trace) → P s' t' → Total Keeps (while_true n body s' t'))
          → (l : Loop S) (t' : Trace) → Keeps l t'
          → Total Keeps (resume (while_true n body) l t')
      next rest (running s') t' q = rest s' t' q
      next rest (stopped s') t' q = q

-- `P` while the loop goes on, `Q` where it has stopped.
abbrev pub Ends :
    {S : Type 0} → (S → Trace → Type 0) → (S → Trace → Type 0) → Loop S → Trace → Type 0
Ends P Q (running s) t = P s t
Ends P Q (stopped s) t = Q s t

module _ {S : Type 0} (P Q : S → Trace → Type 0) where
  -- The rule for a loop whose last round differs.
  pub while_true-Ends :
      (body : S → M (Loop S))
      → ((s : S) (t : Trace) → P s t → Total (Ends P Q) (body s t))
      → (n : ℕ) (s : S) (t : Trace) → P s t
      → Total (Ends P Q) (while_true n body s t)
  unfolding while_true
  while_true-Ends body keep zero s t h = h
  while_true-Ends body keep (suc n) s t h =
      Total-bind (Ends P Q) (Ends P Q) (body s) _ t (keep s t h)
        (next (while_true-Ends body keep n))
    where
      next :
          ((s' : S) (t' : Trace) → P s' t' → Total (Ends P Q) (while_true n body s' t'))
          → (l : Loop S) (t' : Trace) → Ends P Q l t'
          → Total (Ends P Q) (resume (while_true n body) l t')
      next rest (running s') t' q = rest s' t' q
      next rest (stopped s') t' q = q

-- Two continuations that agree give the same run.
pub bind-congr :
    {A B : Type 0} (m : M A) (f g : A → M B) (t : Trace)
    → ((a : A) (t' : Trace) → f a t' ≡ g a t')
    → (m >>= f) t ≡ (m >>= g) t
bind-congr {A} {B} m f g t h = go (m t)
  where
    go :
        (r : Run A)
        → ◌≡◌ {A = Run B}
            (elim r [ ok a t' ↦ f a t' | fault ↦ fault ])
            (elim r [ ok a t' ↦ g a t' | fault ↦ fault ])
    go (ok a t') = h a t'
    go fault = refl

pub bind-ok :
    {A B : Type 0} (m : M A) (f : A → M B) {a : A} {t t' : Trace}
    → m t ≡ ok a t'
    → (m >>= f) t ≡ f a t'
bind-ok {A} {B} m f e = rw (e, ◌>>=◌)
