-- ===== src/CString/Decimal.antt =====
-- `sprintf(buffer, "%d", n)` for a number that is not negative, and the value that a reader of
-- decimal digits finds in the text.
pub mod Digits
use native.Mathlib.Nat.{pow-suc}
use linux_network_programmin.Base.{
  ℕ, zero, suc, ◌+◌, ◌-◌, ◌*◌, ◌/◌, ◌%◌, ◌^◌, ◌≤◌, ◌<◌, ◌≡◌, refl, [], ◌∷◌, ◌++◌, Option, none,
  some, arith, ltb, if◌then◌else◌, length, drop, length-append, ap, ◌∙◌, replicate,
  length-replicate, length-drop,
}
use linux_network_programmin.Sys.{Bytes}
use linux_network_programmin.CString.{upto_nul, c_string, zeroed}
use linux_network_programmin.CString.Laws.{c_string-append-zero}

decimal_fuel : ℕ → ℕ → Bytes
decimal_fuel zero n = []
decimal_fuel (suc f) n =
    let high = decimal_fuel f (n / 10) in
    if ltb n 10 then (48 + n) ∷ [] else high ++ ((48 + n % 10) ∷ [])

-- The digits of `%d`. Each round divides by ten, so `n + 1` rounds are enough.
unfoldable pub decimal : ℕ → Bytes
unfolding decimal_fuel
decimal n = decimal_fuel (suc n) n

-- The number that a text of digits stands for, read from the left.
unfoldable pub digits_value : ℕ → Bytes → ℕ
digits_value acc [] = acc
digits_value acc (d ∷ ds) = digits_value (acc * 10 + (d - 48)) ds

digits_value-append :
    (acc d : ℕ) (ds : Bytes)
    → digits_value acc (ds ++ (d ∷ [])) ≡ digits_value acc ds * 10 + (d - 48)
unfolding digits_value
digits_value-append acc d [] = refl
digits_value-append acc d (e ∷ ds) = digits_value-append (acc * 10 + (e - 48)) d ds

digits_value-decimal_fuel : (f n : ℕ) → n < f → digits_value 0 (decimal_fuel f n) ≡ n
unfolding decimal_fuel digits_value
digits_value-decimal_fuel zero n h = absurd (omega arith)
digits_value-decimal_fuel (suc f) n h = ground (
  arith,
  digits_value-append 0 (48 + n % 10) (decimal_fuel f (n / 10)),
  digits_value-decimal_fuel f (n / 10),
)

pub digits_value-decimal : (n : ℕ) → digits_value 0 (decimal n) ≡ n
unfolding decimal
digits_value-decimal n = digits_value-decimal_fuel (suc n) n (omega arith)

length-decimal_fuel : (k f n : ℕ) → n < 10 ^ suc k → length (decimal_fuel f n) ≤ suc k
unfolding decimal_fuel
length-decimal_fuel k zero n h = omega arith
length-decimal_fuel zero (suc f) n h = ground arith
length-decimal_fuel (suc k) (suc f) n h = ground (
  arith,
  pow-suc 10 (suc k),
  length-append (decimal_fuel f (n / 10)) ((48 + n % 10) ∷ []),
  length-decimal_fuel k f (n / 10),
)

pub length-decimal : (k n : ℕ) → n < 10 ^ suc k → length (decimal n) ≤ suc k
unfolding decimal
length-decimal k n h = length-decimal_fuel k (suc n) n h

pub upto_nul-append :
    (xs ys : Bytes) → upto_nul xs ≡ xs → upto_nul ys ≡ ys → upto_nul (xs ++ ys) ≡ xs ++ ys
unfolding upto_nul
upto_nul-append [] ys h k = k
upto_nul-append (x ∷ xs) ys h k = ground (arith, upto_nul-append xs ys)

upto_nul-decimal_fuel : (f n : ℕ) → upto_nul (decimal_fuel f n) ≡ decimal_fuel f n
unfolding decimal_fuel upto_nul
upto_nul-decimal_fuel zero n = refl
upto_nul-decimal_fuel (suc f) n = ground (
  arith,
  upto_nul-decimal_fuel f (n / 10),
  upto_nul-append (decimal_fuel f (n / 10)) ((48 + n % 10) ∷ []),
)

-- No digit is a NUL.
pub upto_nul-decimal : (n : ℕ) → upto_nul (decimal n) ≡ decimal n
unfolding decimal
upto_nul-decimal n = upto_nul-decimal_fuel (suc n) n

-- `sprintf` stores the text and its NUL in front of an array that must have room for both.
unfoldable pub sprintf : Bytes → Bytes → Option Bytes
sprintf buffer s =
    if ltb (length s) (length buffer) then some (s ++ (0 ∷ drop (suc (length s)) buffer)) else none

-- `%d` with a `long`: the low 32 bits, as a signed number.
unfoldable pub int_text : ℕ → Bytes
int_text n =
    let low = n % 4294967296 in
    if ltb low 2147483648 then decimal low else 45 ∷ decimal (4294967296 - low)

pub int_text_lem : (n : ℕ) → (length (int_text n) ≤ 11) × (upto_nul (int_text n) ≡ int_text n)
unfolding int_text upto_nul
int_text_lem n = ground (
  arith,
  length-decimal 9 (n % 4294967296),
  length-decimal 9 (4294967296 - n % 4294967296),
  upto_nul-decimal (n % 4294967296),
  upto_nul-decimal (4294967296 - n % 4294967296),
)

-- A text without NULs that is shorter than a zeroed array fits it, and is the string it then holds.
pub sprintf-zeroed :
    (size : ℕ) (s : Bytes)
    → length s < size
    → upto_nul s ≡ s
    → (b : Bytes) × (sprintf (zeroed size) s ≡ some b) × (c_string b ≡ some s) × (length b ≡ size)
unfolding sprintf zeroed
sprintf-zeroed size s h k = (
  s ++ (0 ∷ drop (suc (length s)) (replicate size 0)),
  ground (arith, length-replicate {A = ℕ} size 0),
  c_string-append-zero s _ ∙ ap some k,
  omega (
    arith,
    length-append s (0 ∷ drop (suc (length s)) (replicate size 0)),
    length-drop (suc (length s)) (replicate {A = ℕ} size 0),
    length-replicate {A = ℕ} size 0,
  ),
)
