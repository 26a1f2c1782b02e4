-- ===== src/Base/Count.antt =====
-- Lists that are permutations of one another have one length.
use mathlib.Core.List.{List, [], ◌∷◌, Perm}
use mathlib.Core.List.Perm
use mathlib.Core.List
use mathlib.Core.Nat
use mathlib.Core.Path.{◌≡◌, refl, sym, ap, ◌∙◌}
use Prim.Native.Nat.{ℕ, zero, suc}
use linux_network_programmin.Base.Lists.{length}

-- The library counts in another type of numbers.
abbrev native : Nat.ℕ → ℕ
native Nat.ℕ.zero = zero
native (Nat.ℕ.suc n) = suc (native n)

module _ {ℓ} {A : Type ℓ} where
  length-native : (xs : List A) → native (List.length xs) ≡ length xs
  length-native [] = refl
  length-native (x ∷ xs) = ap suc (length-native xs)

  pub length-Perm : {xs ys : List A} → Perm xs ys → length xs ≡ length ys
  length-Perm {xs} {ys} p = sym (length-native xs) ∙ ap native (Perm.length-eq p) ∙ length-native ys
