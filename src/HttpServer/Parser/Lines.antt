-- ===== src/HttpServer/Parser/Lines.antt =====
-- Lines, words and header fields: each is read back from its text.
use linux_network_programmin.Base.{
  ℕ, zero, suc, ◌<◌, ◌≡◌, ◌≢◌, refl, ap, Bool, true, false, not, ◌&&◌, List, [], ◌∷◌, ◌++◌, some,
  arith, append_assoc, if◌then◌else◌, ◌==◌, length,
}
use linux_network_programmin.Sys.{Bytes}
use linux_network_programmin.CString.{same}
use linux_network_programmin.HttpServer.{Headers, insert}
use linux_network_programmin.HttpServer.Parser.{
  at, split_line, getline, is_space, skip_space, word, first_line, is_blank, chomp, split_colon,
  drop_space, add_header, header_loop,
}

abbrev pub lacks : ℕ → Bytes → Bool
lacks c [] = true
lacks c (d ∷ s) = not (d == c) && lacks c s

abbrev pub has_no_space : Bytes → Bool
has_no_space [] = true
has_no_space (c ∷ s) = not (is_space c) && has_no_space s

split_line-append :
    (line rest : Bytes)
    → lacks b'\n' line ≡ true
    → split_line (line ++ (b'\n' ∷ rest)) ≡ (line, some rest)
unfolding split_line
split_line-append [] rest h = refl
split_line-append (c ∷ line) rest h = ground (arith, split_line-append line rest)

pub getline-append :
    (line rest : Bytes)
    → lacks b'\n' line ≡ true
    → getline (at (line ++ (b'\n' ∷ rest))) ≡ (some line, at rest)
unfolding getline
getline-append [] rest h = refl
getline-append (c ∷ line) rest h = rw (split_line-append (c ∷ line) rest h) refl

word-append :
    (w : Bytes) (c : ℕ) (rest : Bytes)
    → has_no_space w ≡ true
    → is_space c ≡ true
    → word (w ++ (c ∷ rest)) ≡ (w, c ∷ rest)
unfolding word
word-append [] c rest h k = rw k refl
word-append (d ∷ w) c rest h k = ground (arith, word-append w c rest)

skip_space-append :
    (w rest : Bytes) → w ≢ [] → has_no_space w ≡ true → skip_space (w ++ rest) ≡ w ++ rest
unfolding skip_space
skip_space-append [] rest n h = absurd (n refl)
skip_space-append (c ∷ w) rest n h = ground (arith, h)

-- The first line of a request: two words, a space before each but the first, and anything.
pub first_line-print :
    (m p v : Bytes)
    → m ≢ []
    → p ≢ []
    → has_no_space m ≡ true
    → has_no_space p ≡ true
    → first_line (m ++ (b' ' ∷ (p ++ (b' ' ∷ v)))) ≡ (m, p)
unfolding first_line skip_space
first_line-print m p v nm np hm hp =
    rw
      (
        skip_space-append m (b' ' ∷ (p ++ (b' ' ∷ v))) nm hm,
        word-append m b' ' (p ++ (b' ' ∷ v)) hm refl,
        skip_space-append p (b' ' ∷ v) np hp,
        word-append p b' ' v hp refl,
      )
      refl

chomp-append : (s : Bytes) → chomp (s ++ (13 ∷ [])) ≡ s
unfolding chomp
chomp-append [] = refl
chomp-append (c ∷ []) = refl
chomp-append (c ∷ d ∷ s) = ap (λ x. c ∷ x) (chomp-append (d ∷ s))

split_colon-append :
    (key rest : Bytes)
    → lacks b':' key ≡ true
    → split_colon (key ++ (b':' ∷ rest)) ≡ some (key, rest)
unfolding split_colon
split_colon-append [] rest h = refl
split_colon-append (c ∷ key) rest h = ground (arith, split_colon-append key rest)

-- A header as it is written, with or without a space after the colon.
pub record Field : Type 0 where
  pub key : Bytes
  pub value : Bytes
  pub spaced : Bool

abbrev pub separated : Field → Bytes
separated f = if f.spaced then b' ' ∷ f.value else f.value

abbrev pub print_field : Field → Bytes
print_field f = f.key ++ (b':' ∷ separated f)

pub record IsField (f : Field) : Type 0 where
  pub one_line : lacks b'\n' (print_field f) ≡ true
  pub no_colon : lacks b':' f.key ≡ true
  pub value_read : drop_space (separated f) ≡ f.value

abbrev pub AreFields : List Field → Type 0
AreFields [] = Unit
AreFields (f ∷ fields) = IsField f × AreFields fields

abbrev pub print_fields : List Field → Bytes → Bytes
print_fields [] body = 13 ∷ b'\n' ∷ body
print_fields (f ∷ fields) body = print_field f ++ (13 ∷ b'\n' ∷ print_fields fields body)

-- The last value of each key.
abbrev pub stored : Headers → List Field → Headers
stored headers [] = headers
stored headers (f ∷ fields) = stored (insert f.key f.value headers) fields

add_header-print :
    (headers : Headers) (f : Field)
    → IsField f
    → add_header headers (print_field f ++ (13 ∷ [])) ≡ insert f.key f.value headers
unfolding add_header
add_header-print headers f v =
    rw
      (
        add_header,
        chomp-append (print_field f),
        split_colon-append f.key (separated f) v.no_colon,
        v.value_read,
      )
      refl

lacks-append :
    (c : ℕ) (s : Bytes) → lacks c s ≡ true → (13 == c) ≡ false → lacks c (s ++ (13 ∷ [])) ≡ true
lacks-append c [] h k = rw k refl
lacks-append c (d ∷ s) h k = ground (arith, lacks-append c s)

not-is_blank : (key rest : Bytes) → is_blank ((key ++ (b':' ∷ rest)) ++ (13 ∷ [])) ≡ false
unfolding same
not-is_blank [] rest = refl
not-is_blank (c ∷ []) rest = ground arith
not-is_blank (c ∷ d ∷ key) rest = ground arith

-- The loop reads the fields back, and stops behind the empty line.
pub header_loop-print :
    (fuel : ℕ) (fields : List Field) (headers : Headers) (body : Bytes)
    → AreFields fields
    → length fields < fuel
    → header_loop fuel (at (print_fields fields body)) headers ≡ (stored headers fields, at body)
unfolding header_loop same
header_loop-print zero fields headers body v h = absurd (omega arith)
header_loop-print (suc fuel) [] headers body v h = rw (getline-append (13 ∷ []) body refl) refl
header_loop-print (suc fuel) (f ∷ fields) headers body v h =
    rw
      (
        ← append_assoc (print_field f) (13 ∷ []) (b'\n' ∷ print_fields fields body),
        getline-append (print_field f ++ (13 ∷ [])) (print_fields fields body)
            (lacks-append b'\n' (print_field f) v.0.one_line refl),
        not-is_blank f.key (separated f),
        add_header-print headers f v.0,
      )
      (header_loop-print fuel fields (insert f.key f.value headers) body v.1 (omega arith))
