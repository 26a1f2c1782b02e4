-- ===== src/Base/Swap.antt =====
-- Removing slot `i` of the first `n` by moving the last of them into it, as an array does.
use mathlib.Core.List.{List, [], ◌∷◌, Perm, perm_middle, append-nil}
use mathlib.Core.List.Perm
use Prim.Native.Nat.{ℕ, zero, suc, ◌≤◌, ◌<◌}
use native.Mathlib.Omega.{arith}
use linux_network_programmin.Base.Lists.{length, get_or, set, take, take-suc}

module _ {ℓ} {A : Type ℓ} where
  swap_head :
      (m : ℕ) (x d : A) (ys : List A)
      → m < suc (length ys)
      → Perm (x ∷ take m (get_or (x ∷ ys) m d ∷ ys)) (take (suc m) (x ∷ ys))
  swap_head zero x d ys h = Perm.refl (x ∷ [])
  swap_head (suc m) x d ys h =
      rw (take-suc m ys d (omega arith)) (
        Perm.cons x (Perm.symm (rw append-nil at (perm_middle {a = get_or ys m d} (take m ys) []))))

  -- Moving the last of `suc m` elements into slot `i` drops exactly the element that stood there.
  pub swap_remove-perm :
      (m i : ℕ) (d : A) (xs : List A)
      → i ≤ m
      → m < length xs
      → Perm (get_or xs i d ∷ take m (set xs i (get_or xs m d))) (take (suc m) xs)
  swap_remove-perm m i d [] h lt = absurd (omega arith)
  swap_remove-perm m zero d (x ∷ xs) h lt = swap_head m x d xs lt
  swap_remove-perm zero (suc i) d (x ∷ xs) h lt = absurd (omega arith)
  swap_remove-perm (suc m) (suc i) d (x ∷ xs) h lt =
      Perm.trans (Perm.swap x (get_or xs i d) _)
        (Perm.cons x (swap_remove-perm m i d xs (omega arith) (omega arith)))
