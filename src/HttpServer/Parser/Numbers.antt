-- ===== src/HttpServer/Parser/Numbers.antt =====
-- `std::stoi` reads back what `std::to_string` writes.
use linux_network_programmin.Base.{ℕ, ◌≤◌, ◌≡◌, ◌≢◌, refl, ap, ◌∙◌, pos, true, [], ◌∷◌, some, arith}
use linux_network_programmin.Sys.{Bytes}
use linux_network_programmin.CString.Decimal.{decimal, digits_value, digits_value-decimal}
use linux_network_programmin.CString.Decimal.Digits.{are_digits, are_digits-decimal, decimal-ne-nil}
use linux_network_programmin.HttpServer.Parser.{skip_space, digit_prefix, unsigned_int, stoi}

digit_prefix-digits : (s : Bytes) → are_digits s ≡ true → digit_prefix s ≡ s
unfolding digit_prefix
digit_prefix-digits [] h = refl
digit_prefix-digits (c ∷ s) h = ground (arith, digit_prefix-digits s)

stoi-digits :
    (s : Bytes)
    → s ≢ []
    → are_digits s ≡ true
    → digits_value 0 s ≤ 2147483647
    → stoi s ≡ some (pos (digits_value 0 s))
unfolding stoi skip_space unsigned_int digits_value
stoi-digits [] n h k = absurd (n refl)
stoi-digits (c ∷ s) n h k = ground (arith, digit_prefix-digits (c ∷ s) h, h, k)

-- A number that is an `int` is read back from its decimal text.
pub stoi-decimal : (n : ℕ) → n ≤ 2147483647 → stoi (decimal n) ≡ some (pos n)
stoi-decimal n h =
    stoi-digits (decimal n) (decimal-ne-nil n) (are_digits-decimal n)
      (omega (arith, digits_value-decimal n))
    ∙ ap (λ (k : ℕ). some (pos k)) (digits_value-decimal n)
