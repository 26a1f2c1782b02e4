-- ===== src/CString.antt =====
-- The `char` arrays of the programs and the C string functions they call on them. An array is the
-- list of its bytes; the functions that would run past its end return `none`.
pub mod Laws
pub mod Decimal
pub mod Search
use Prim.Native.String.{String}
use Prim.Native.Char.{code}
use linux_network_programmin.Base.{
  ℕ, suc, ◌+◌, ◌-◌, Bool, true, false, ◌&&◌, ◌||◌, List, [], ◌∷◌, ◌++◌, Option, none, some, ltb,
  ◌==◌, if◌then◌else◌, length, set, drop, replicate,
}
use linux_network_programmin.Sys.{Bytes}

-- The bytes of a string literal, without its NUL.
abbrev pub text : String → Bytes
text String.[] = []
text (String.◌∷◌ c s) = code c ∷ text s

-- `memset(buffer, 0, n)`
unfoldable pub zeroed : ℕ → Bytes
zeroed n = replicate n 0

-- What `recv` and `fgets` do to an array: the bytes go to its front.
unfoldable pub fill : Bytes → Bytes → Bytes
fill buffer bytes = bytes ++ drop (length bytes) buffer

-- `buffer[n] = 0`
unfoldable pub put_nul : Bytes → ℕ → Option Bytes
put_nul buffer n = if ltb n (length buffer) then some (set buffer n 0) else none

-- The string that starts an array, as `printf("%s")`, `strlen`, `strcmp` and `strstr` read it.
unfoldable pub c_string : Bytes → Option Bytes
c_string [] = none
c_string (c ∷ rest) =
    if c == 0 then some [] else elim (c_string rest) [ none ↦ none | some s ↦ some (c ∷ s) ]

-- The bytes before the first NUL.
unfoldable pub upto_nul : Bytes → Bytes
upto_nul [] = []
upto_nul (c ∷ rest) = if c == 0 then [] else c ∷ upto_nul rest

-- `strcmp(a, b) == 0`
unfoldable pub same : Bytes → Bytes → Bool
same [] [] = true
same (a ∷ x) (b ∷ y) = a == b && same x y
same _ _ = false

unfoldable pub occurs : ℕ → Bytes → Bool
occurs c [] = false
occurs c (d ∷ ds) = c == d || occurs c ds

-- `strcspn(s, reject)`
unfoldable pub strcspn : Bytes → Bytes → ℕ
unfolding occurs
strcspn [] reject = 0
strcspn (c ∷ s) reject = if occurs c reject then 0 else suc (strcspn s reject)

-- `memset(buffer, 0, size)`, `n = recv(.., buffer, size, 0)`, `buffer[n] = 0`, and the string that
-- the buffer then holds.
unfoldable pub received_text : ℕ → Bytes → Option Bytes
unfolding zeroed fill put_nul c_string
received_text size bytes = elim (put_nul (fill (zeroed size) bytes) (length bytes)) [
  | none ↦ none
  | some buffer ↦ c_string buffer
]
