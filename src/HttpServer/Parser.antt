-- ===== src/HttpServer/Parser.antt =====
-- `HTTPParser::parse` of 01_networking_libraries/my_http_server/http_parser.cpp, with what it uses
-- of `std::istringstream` and `std::stoi`.
pub mod Lines
pub mod Numbers
pub mod Laws
use mathlib.Core.Option
use linux_network_programmin.Base.{
  ℕ, zero, suc, ◌+◌, ◌-◌, ℤ, pos, negsuc, Bool, true, false, ◌&&◌, ◌||◌, [], ◌∷◌, ◌++◌, Option,
  none, some, if◌then◌else◌, leb, ◌==◌, length, take, replicate,
}
use linux_network_programmin.Sys.{Bytes}
use linux_network_programmin.CString.{text, same}
use linux_network_programmin.CString.Decimal.{digits_value}
use linux_network_programmin.HttpServer.{
  Headers, insert, lookup, HttpRequest, Result, returned, thrown,
}

-- A stream at the rest of its text, or after the end of it was met.
pub data Stream : Type 0 where
  at : Bytes → Stream
  ended : Stream

-- The line, and what follows its line feed.
unfoldable pub split_line : Bytes → Bytes × Option Bytes
split_line [] = ([], none)
split_line (c ∷ rest) =
    let r = split_line rest in if c == b'\n' then ([], some rest) else (c ∷ r.0, r.1)

abbrev pub after_line : Option Bytes → Stream
after_line none = ended
after_line (some rest) = at rest

-- `std::getline`: it fails where no byte is left.
unfoldable pub getline : Stream → Option Bytes × Stream
unfolding split_line
getline ended = (none, ended)
getline (at []) = (none, ended)
getline (at (c ∷ rest)) = let r = split_line (c ∷ rest) in (some r.0, after_line r.1)

-- `isspace`
abbrev pub is_space : ℕ → Bool
is_space c = c == b' ' || (leb 9 c && leb c 13)

unfoldable pub skip_space : Bytes → Bytes
skip_space [] = []
skip_space (c ∷ s) = let rest = skip_space s in if is_space c then rest else c ∷ s

-- A word up to white space, and what follows it.
unfoldable pub word : Bytes → Bytes × Bytes
word [] = ([], [])
word (c ∷ s) = let r = word s in if is_space c then ([], c ∷ s) else (c ∷ r.0, r.1)

-- `iss_first_line >> request.m_method >> request.m_path`
unfoldable pub first_line : Bytes → Bytes × Bytes
unfolding skip_space word
first_line line = let r = word (skip_space line) in (r.0, (word (skip_space r.1)).0)

-- `line != "\r"`
abbrev pub is_blank : Bytes → Bool
is_blank line = same line (13 ∷ [])

-- `if (!line.empty() && line.back() == '\r') line.pop_back()`
unfoldable pub chomp : Bytes → Bytes
chomp [] = []
chomp (c ∷ []) = if c == 13 then [] else c ∷ []
chomp (c ∷ d ∷ line) = c ∷ chomp (d ∷ line)

-- What stands before and after the first colon.
unfoldable pub split_colon : Bytes → Option (Bytes × Bytes)
split_colon [] = none
split_colon (c ∷ line) =
    let rest = split_colon line in
    if c == b':' then some ([], line) else Option.map (λ p. (c ∷ p.0, p.1)) rest

-- `if (!val.empty() && val[0] == ' ') val.erase(0, 1)`
abbrev pub drop_space : Bytes → Bytes
drop_space [] = []
drop_space (c ∷ val) = if c == b' ' then val else c ∷ val

unfoldable pub add_header : Headers → Bytes → Headers
unfolding chomp split_colon insert
add_header headers line = elim (split_colon (chomp line)) [
  | none ↦ headers
  | some p ↦ insert p.0 (drop_space p.1) headers
]

abbrev pub header_step :
    (Stream → Headers → Headers × Stream) → Option Bytes × Stream → Headers → Headers × Stream
header_step loop (none, s) headers = (headers, s)
header_step loop (some line, s) headers =
    if is_blank line then (headers, s) else loop s (add_header headers line)

-- The loop over the header lines, with fuel.
unfoldable pub header_loop : ℕ → Stream → Headers → Headers × Stream
header_loop zero s headers = (headers, s)
header_loop (suc fuel) s headers = header_step (header_loop fuel) (getline s) headers

abbrev pub is_digit : ℕ → Bool
is_digit c = leb b'0' c && leb c b'9'

unfoldable pub digit_prefix : Bytes → Bytes
digit_prefix [] = []
digit_prefix (c ∷ s) = let rest = digit_prefix s in if is_digit c then c ∷ rest else []

-- `std::stoi` of what follows the sign: there must be a digit, and the number must be an `int`.
unfoldable pub unsigned_int : Bytes → Option ℤ
unsigned_int [] = none
unsigned_int (d ∷ digits) =
    let n = digits_value 0 (d ∷ digits) in if leb n 2147483647 then some (pos n) else none

unfoldable pub negative_int : Bytes → Option ℤ
negative_int [] = none
negative_int (d ∷ digits) =
    let n = digits_value 0 (d ∷ digits) in
    if n == 0 then some (pos 0) else (if leb n 2147483648 then some (negsuc (n - 1)) else none)

abbrev pub signed_int : Bytes → Option ℤ
signed_int [] = none
signed_int (c ∷ s) =
    if c == b'-'
    then negative_int (digit_prefix s)
    else (if c == b'+' then unsigned_int (digit_prefix s) else unsigned_int (digit_prefix (c ∷ s)))

-- `std::stoi`; `none` for its exceptions.
unfoldable pub stoi : Bytes → Option ℤ
unfolding skip_space digit_prefix unsigned_int negative_int
stoi s = signed_int (skip_space s)

-- `resize(n)` and `iss.read(&m_body[0], n)`: what is left of the stream, filled up with zeros.
abbrev pub read_body : ℕ → Stream → Bytes
read_body n (at rest) = take n rest ++ replicate (n - length rest) 0
read_body n ended = replicate n 0

-- A negative length is a `std::size_t` that `resize` refuses.
abbrev pub sized_body : HttpRequest → Stream → Option ℤ → Result HttpRequest
sized_body request s none = thrown
sized_body request s (some (negsuc n)) = thrown
sized_body request s (some (pos n)) = returned (record request { body = read_body n s })

unfoldable pub content_length : Bytes
content_length = text "Content-Length"

unfoldable pub with_body : HttpRequest → Stream → Result HttpRequest
unfolding stoi lookup content_length
with_body request s = elim (lookup content_length request.headers) [
  | none ↦ returned request
  | some v ↦ sized_body request s (stoi v)
]

abbrev pub method_path : Option Bytes → Bytes × Bytes
method_path none = ([], [])
method_path (some line) = if is_blank line then ([], []) else first_line line

unfoldable pub parse_fuel : ℕ → Bytes → Result HttpRequest
parse_fuel fuel raw_request =
    let r = getline (at raw_request) in
    let h = header_loop fuel r.1 [] in
    let m = method_path r.0 in
    with_body (record { method = m.0; path = m.1; headers = h.0; body = [] }) h.1

-- Each header line takes a byte at least.
unfoldable pub parse : Bytes → Result HttpRequest
unfolding parse_fuel
parse raw_request = parse_fuel (suc (length raw_request)) raw_request
