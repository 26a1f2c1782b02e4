-- ===== src/HttpServer/Parser/Laws.antt =====
-- The parser reads back a request that is written as HTTP says, and its fuel is enough.
use linux_network_programmin.Base.{
  ℕ, zero, suc, ◌-◌, ◌≤◌, ◌<◌, ◌≡◌, ◌≢◌, refl, ◌⊎◌, true, false, List, [], ◌∷◌, ◌++◌, none, some,
  arith, append-nil, ◌==◌, length, length-append, take_of_length_le, Bool-cases, inl, inr,
}
use linux_network_programmin.Sys.{Bytes}
use linux_network_programmin.CString.{same}
use linux_network_programmin.CString.Decimal.{decimal}
use linux_network_programmin.HttpServer.{Headers, lookup, returned}
use linux_network_programmin.HttpServer.Parser.{
  Stream, at, ended, split_line, getline, is_blank, add_header, first_line, header_loop, read_body,
  content_length, with_body, parse_fuel, parse, after_line,
}
use linux_network_programmin.HttpServer.Parser.Lines.{
  lacks, has_no_space, getline-append, first_line-print, Field, AreFields, print_fields, stored,
  header_loop-print, print_field,
}
use linux_network_programmin.HttpServer.Parser.Numbers.{stoi-decimal}

-- A message as it is written: three parts of its first line, the header fields, and the body.
pub record Message : Type 0 where
  pub method : Bytes
  pub path : Bytes
  pub version : Bytes
  pub fields : List Field
  pub body : Bytes

abbrev pub print_first : Message → Bytes
print_first m = m.method ++ (b' ' ∷ (m.path ++ (b' ' ∷ (m.version ++ (13 ∷ [])))))

abbrev pub print_message : Message → Bytes
print_message m = print_first m ++ (b'\n' ∷ print_fields m.fields m.body)

-- The method and the path are words, and the first line is a line.
pub record IsMessage (m : Message) : Type 0 where
  pub has_method : m.method ≢ []
  pub has_path : m.path ≢ []
  pub method_word : has_no_space m.method ≡ true
  pub path_word : has_no_space m.path ≡ true
  pub one_line : lacks b'\n' (print_first m) ≡ true
  pub fields_read : AreFields m.fields

-- The body that a length announces: without one there is none.
abbrev pub Announces : Headers → Bytes → Type 0
Announces headers body =
    ((lookup content_length headers ≡ none) × (body ≡ []))
    ⊎ ((lookup content_length headers ≡ some (decimal (length body))) × (length body ≤ 2147483647))

not-is_blank : (m rest : Bytes) → m ≢ [] → has_no_space m ≡ true → is_blank (m ++ rest) ≡ false
unfolding same
not-is_blank [] rest n h = absurd (n refl)
not-is_blank (c ∷ m) rest n h = ground (arith, h)

length-print_fields :
    (fields : List Field) (body : Bytes) → length fields < length (print_fields fields body)
length-print_fields [] body = omega arith
length-print_fields (f ∷ fields) body = omega (
  arith,
  length-append (print_field f) (13 ∷ b'\n' ∷ print_fields fields body),
  length-print_fields fields body,
)

read_body-all : (body : Bytes) → read_body (length body) (at body) ≡ body
read_body-all body =
    rw (take_of_length_le (length body) body (omega arith), none_left) (append-nil body)
  where
    none_left : length body - length body ≡ 0
    none_left = omega arith

with_body-Announces :
    (method path : Bytes) (headers : Headers) (body : Bytes)
    → Announces headers body
    → with_body (record { method = method; path = path; headers = headers; body = [] }) (at body)
      ≡ returned (record { method = method; path = path; headers = headers; body = body })
unfolding with_body
with_body-Announces method path headers body (inl (none_announced, no_body)) =
    rw (with_body, none_announced, no_body) refl
with_body-Announces method path headers body (inr (announced, small)) =
    rw (with_body, announced, stoi-decimal (length body) small, read_body-all body) refl

-- A message in the form of HTTP, whose body is announced by the last Content-Length, or is empty
-- where there is none, is parsed to its method, its path, the last value of each header, and its
-- body.
pub parse-print :
    (m : Message)
    → IsMessage m
    → Announces (stored [] m.fields) m.body
    → parse (print_message m)
      ≡ returned
          (record { method = m.method; path = m.path; headers = stored [] m.fields; body = m.body })
unfolding parse parse_fuel
parse-print m v a =
    rw
      (
        parse_fuel,
        getline-append (print_first m) (print_fields m.fields m.body) v.one_line,
        header_loop-print fuel m.fields [] m.body v.fields_read enough,
        not-is_blank m.method after_method v.has_method v.method_word,
        words,
      )
      (with_body-Announces m.method m.path (stored [] m.fields) m.body a)
  where
    words : first_line (print_first m) ≡ (m.method, m.path)
    words =
        first_line-print m.method m.path (m.version ++ (13 ∷ [])) v.has_method v.has_path
          v.method_word v.path_word

    after_method : Bytes
    after_method = b' ' ∷ (m.path ++ (b' ' ∷ (m.version ++ (13 ∷ []))))

    fuel : ℕ
    fuel = suc (length (print_message m))

    enough : length m.fields < fuel
    enough = omega (
      arith,
      length-append (print_first m) (b'\n' ∷ print_fields m.fields m.body),
      length-print_fields m.fields m.body,
    )

abbrev stream_length : Stream → ℕ
stream_length ended = 0
stream_length (at rest) = length rest

split_line_shorter :
    (c : ℕ) (s : Bytes) → stream_length (after_line (split_line (c ∷ s)).1) ≤ length s
unfolding split_line
split_line_shorter c [] = ground arith
split_line_shorter c (d ∷ s) = elim (Bool-cases (c == b'\n')) [
  | inl e ↦ rw e (omega arith)
  | inr e ↦ rw e (omega (arith, split_line_shorter d s))
]

-- The loop over the headers ends by its own test: any two amounts of fuel beyond the length of the
-- stream give the same result.
header_loop_fuel :
    (n m : ℕ) (s : Stream) (headers : Headers)
    → stream_length s < n
    → stream_length s < m
    → header_loop n s headers ≡ header_loop m s headers
unfolding header_loop getline
header_loop_fuel zero m s headers h k = absurd (omega arith)
header_loop_fuel (suc n) zero s headers h k = absurd (omega arith)
header_loop_fuel (suc n) (suc m) ended headers h k = refl
header_loop_fuel (suc n) (suc m) (at []) headers h k = refl
header_loop_fuel (suc n) (suc m) (at (c ∷ s)) headers h k =
    elim (Bool-cases (is_blank (split_line (c ∷ s)).0)) [
      | inl e ↦ rw e refl
      | inr e ↦ rw e (
          header_loop_fuel n m (after_line (split_line (c ∷ s)).1)
            (add_header headers (split_line (c ∷ s)).0) (omega (arith, split_line_shorter c s))
            (omega (arith, split_line_shorter c s)))
    ]

getline_shorter : (s : Bytes) → stream_length (getline (at s)).1 ≤ length s
unfolding getline
getline_shorter [] = omega arith
getline_shorter (c ∷ s) = omega (arith, split_line_shorter c s)

-- The parser ends by its own tests: more fuel than the length of its text changes nothing.
pub parse_fuel-parse :
    (fuel : ℕ) (raw_request : Bytes)
    → length raw_request < fuel
    → parse_fuel fuel raw_request ≡ parse raw_request
unfolding parse parse_fuel
parse_fuel-parse fuel raw h =
    rw
      (header_loop_fuel fuel (suc (length raw)) (getline (at raw)).1 []
        (omega (arith, getline_shorter raw)) (omega (arith, getline_shorter raw)))
      refl
