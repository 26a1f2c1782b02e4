-- ===== src/Base/Int.antt =====
-- C `int` results: `negsuc n` is -(n + 1). The tests are those the programs make on a result.
use Prim.Native.Nat.{ℕ}
use mathlib.Core.Bool.{Bool, true, false}

pub data ℤ : Type 0 where
  pos : ℕ → ℤ
  negsuc : ℕ → ℤ

-- `rc < 0`
abbrev pub is_neg : ℤ → Bool
is_neg (pos n) = false
is_neg (negsuc n) = true

-- `rc != 0`
abbrev pub is_nonzero : ℤ → Bool
is_nonzero (pos ℕ.zero) = false
is_nonzero (pos (ℕ.suc n)) = true
is_nonzero (negsuc n) = true

-- `rc <= 0`
abbrev pub is_nonpos : ℤ → Bool
is_nonpos (pos ℕ.zero) = true
is_nonpos (pos (ℕ.suc n)) = false
is_nonpos (negsuc n) = true
