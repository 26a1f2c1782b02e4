-- ===== src/Sys/Partial.antt =====
-- Postconditions of runs that may be undefined: the rules of `Total`, with nothing said of a fault.
use linux_network_programmin.Base.{
  ℕ, zero, suc, Bool, true, false, ◌≡◌, refl, if◌then◌else◌, Option, none, some,
}
use linux_network_programmin.Sys.Types.{Trace, Run, ok, fault, M, ◌>>=◌, checked}
use linux_network_programmin.Sys.Loop.{Total, Loop, running, stopped, state_of, resume, while_true}

abbrev pub Partial : {A : Type 0} → (A → Trace → Type 0) → Run A → Type 0
Partial P (ok a t) = P a t
Partial P fault = Unit

pub Partial-bind :
    {A B : Type 0} (Q : A → Trace → Type 0) (P : B → Trace → Type 0) (m : M A) (f : A → M B)
    (t : Trace)
    → Partial Q (m t)
    → ((a : A) (t' : Trace) → Q a t' → Partial P (f a t'))
    → Partial P ((m >>= f) t)
Partial-bind {A} {B} Q P m f t h k = go (m t) h
  where
    go : (r : Run A) → Partial Q r → Partial P (elim r [ ok a t' ↦ f a t' | fault ↦ fault ])
    go (ok a t') q = k a t' q
    go fault q = tt

pub Partial-if :
    {A : Type 0} (P : A → Trace → Type 0) (b : Bool) (m n : M A) (t : Trace)
    → (b ≡ true → Partial P (m t))
    → (b ≡ false → Partial P (n t))
    → Partial P ((if b then m else n) t)
Partial-if P true m n t h k = h refl
Partial-if P false m n t h k = k refl

pub Partial-mono :
    {A : Type 0} (P Q : A → Trace → Type 0) (r : Run A)
    → ((a : A) (t : Trace) → P a t → Q a t)
    → Partial P r
    → Partial Q r
Partial-mono P Q (ok a t) h p = h a t p
Partial-mono P Q fault h p = tt

-- What each round keeps, where it is defined, holds after any number of rounds.
pub while_true-Partial :
    {S : Type 0} (P : S → Trace → Type 0) (body : S → M (Loop S))
    → ((s : S) (t : Trace) → P s t → Partial (λ l. P (state_of l)) (body s t))
    → (n : ℕ) (s : S) (t : Trace) → P s t
    → Partial (λ l. P (state_of l)) (while_true n body s t)
unfolding while_true
while_true-Partial P body keep zero s t h = h
while_true-Partial {S} P body keep (suc n) s t h =
    Partial-bind (λ l. P (state_of l)) (λ l. P (state_of l)) (body s) _ t (keep s t h)
      (next (while_true-Partial P body keep n))
  where
    next :
        ((s' : S) (t' : Trace) → P s' t' → Partial (λ l. P (state_of l)) (while_true n body s' t'))
        → (l : Loop S) (t' : Trace) → P (state_of l) t'
        → Partial (λ l'. P (state_of l')) (resume (while_true n body) l t')
    next rest (running s') t' q = rest s' t' q
    next rest (stopped s') t' q = q

-- What holds of a run if it is defined, of a run that is.
pub Total-Partial :
    {A : Type 0} (P Q : A → Trace → Type 0) (r : Run A)
    → Total P r
    → Partial Q r
    → Total (λ a t. P a t × Q a t) r
Total-Partial P Q (ok a t) p q = (p, q)
Total-Partial P Q fault p q = p

pub Partial-checked :
    {A : Type 0} (P : A → Trace → Type 0) (o : Option A) (t : Trace)
    → ((a : A) → P a t)
    → Partial P (checked o t)
Partial-checked P none t h = tt
Partial-checked P (some a) t h = h a

pub Partial-both :
    {A : Type 0} (P Q : A → Trace → Type 0) (r : Run A)
    → Partial P r
    → Partial Q r
    → Partial (λ a t. P a t × Q a t) r
Partial-both P Q (ok a t) p q = (p, q)
Partial-both P Q fault p q = tt
