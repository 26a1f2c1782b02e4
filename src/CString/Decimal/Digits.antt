-- ===== src/CString/Decimal/Digits.antt =====
-- The text of a number consists of digits, and of one at least.
use linux_network_programmin.Base.{
  ℕ, zero, suc, ◌+◌, ◌/◌, ◌%◌, ◌<◌, ◌≡◌, ◌≢◌, refl, Bool, true, ◌&&◌, [], ◌∷◌, ◌++◌, arith, leb,
}
use linux_network_programmin.Sys.{Bytes}
use linux_network_programmin.CString.Decimal.{decimal_fuel, decimal}

abbrev pub are_digits : Bytes → Bool
are_digits [] = true
are_digits (c ∷ s) = (leb b'0' c && leb c b'9') && are_digits s

are_digits-append :
    (s : Bytes) (d : ℕ) → are_digits s ≡ true → d < 10 → are_digits (s ++ ((48 + d) ∷ [])) ≡ true
are_digits-append [] d h k = ground arith
are_digits-append (c ∷ s) d h k = ground (arith, are_digits-append s d)

are_digits-decimal_fuel : (fuel n : ℕ) → are_digits (decimal_fuel fuel n) ≡ true
unfolding decimal_fuel
are_digits-decimal_fuel zero n = refl
are_digits-decimal_fuel (suc fuel) n = ground (
  arith,
  are_digits-decimal_fuel fuel (n / 10),
  are_digits-append (decimal_fuel fuel (n / 10)) (n % 10),
)

pub are_digits-decimal : (n : ℕ) → are_digits (decimal n) ≡ true
unfolding decimal
are_digits-decimal n = are_digits-decimal_fuel (suc n) n

append-ne-nil : (s : Bytes) (d : ℕ) → s ++ (d ∷ []) ≢ []
append-ne-nil [] d e = cc
append-ne-nil (c ∷ s) d e = cc

pub decimal-ne-nil : (n : ℕ) → decimal n ≢ []
unfolding decimal decimal_fuel
decimal-ne-nil n e = ground (arith, append-ne-nil (decimal_fuel n (n / 10)) (48 + n % 10), e)
