-- ===== src/CString/Laws.antt =====
-- What a zeroed array holds after `recv` and the store of the final NUL.
use linux_network_programmin.Base.{
  ℕ, zero, suc, ◌-◌, ◌≤◌, ◌<◌, ◌≡◌, refl, ap, true, ◌↔◌, [], ◌∷◌, ◌++◌, none, some, arith, length,
  set, drop, replicate, length-append, length-replicate,
}
use linux_network_programmin.Sys.{Bytes}
use linux_network_programmin.CString.{
  zeroed, fill, put_nul, c_string, upto_nul, same, received_text,
}

drop-replicate : (k n : ℕ) (a : ℕ) → drop k (replicate n a) ≡ replicate (n - k) a
drop-replicate zero n a = ground arith
drop-replicate (suc k) zero a = ground arith
drop-replicate (suc k) (suc n) a = ground (arith, drop-replicate k n a)

-- A NUL among NULs changes nothing.
set-append-zero :
    (bytes : Bytes) (n : ℕ) → set (bytes ++ replicate n 0) (length bytes) 0 ≡ bytes ++ replicate n 0
set-append-zero [] zero = refl
set-append-zero [] (suc n) = refl
set-append-zero (b ∷ bytes) n = ground (arith, set-append-zero bytes n)

pub c_string-append-zero :
    (bytes rest : Bytes) → c_string (bytes ++ (0 ∷ rest)) ≡ some (upto_nul bytes)
unfolding c_string upto_nul
c_string-append-zero [] rest = refl
c_string-append-zero (b ∷ bytes) rest = ground (arith, c_string-append-zero bytes rest)

pub fill-zeroed :
    (size : ℕ) (bytes : Bytes)
    → fill (zeroed size) bytes ≡ bytes ++ replicate (size - length bytes) 0
unfolding fill zeroed
fill-zeroed size bytes = rw (drop-replicate (length bytes) size 0)

length-fill-zeroed :
    (size : ℕ) (bytes : Bytes) → length bytes ≤ size → length (fill (zeroed size) bytes) ≡ size
length-fill-zeroed size bytes h = omega (
  arith,
  ap length (fill-zeroed size bytes),
  length-append bytes (replicate (size - length bytes) 0),
  length-replicate {A = ℕ} (size - length bytes) 0,
)

-- A zeroed array that was not filled up holds the received bytes as a string.
pub c_string-fill :
    (size : ℕ) (bytes : Bytes)
    → length bytes < size
    → c_string (fill (zeroed size) bytes) ≡ some (upto_nul bytes)
c_string-fill size bytes h = rw (fill-zeroed size bytes) (go (size - length bytes) (omega arith))
  where
    go : (n : ℕ) → 0 < n → c_string (bytes ++ replicate n 0) ≡ some (upto_nul bytes)
    go zero p = absurd (omega arith)
    go (suc n) p = c_string-append-zero bytes (replicate n 0)

pub received_text-short :
    (size : ℕ) (bytes : Bytes)
    → length bytes < size
    → received_text size bytes ≡ some (upto_nul bytes)
unfolding received_text put_nul
received_text-short size bytes h = ground (
  arith,
  length-fill-zeroed size bytes,
  fill-zeroed size bytes,
  set-append-zero bytes (size - length bytes),
  c_string-fill size bytes h,
)

-- A message that fills the array makes the store of the NUL go one past its end.
pub received_text-full :
    (size : ℕ) (bytes : Bytes) → length bytes ≡ size → received_text size bytes ≡ none
unfolding received_text put_nul
received_text-full size bytes h = ground (arith, length-fill-zeroed size bytes)

-- `same` decides equality.
pub same_iff : (a b : Bytes) → (same a b ≡ true) ↔ (a ≡ b)
unfolding same
same_iff [] [] = (λ _. refl, λ _. refl)
same_iff [] (b ∷ y) = (λ h. cc, λ h. cc)
same_iff (a ∷ x) [] = (λ h. cc, λ h. cc)
same_iff (a ∷ x) (b ∷ y) = ground (arith, same_iff x y)
