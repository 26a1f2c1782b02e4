-- ===== src/HttpServer/Response/Laws.antt =====
-- A response is read back by the parser of the same program.
use linux_network_programmin.Base.{
  ℕ, ◌≤◌, ◌≡◌, refl, ap, ◌∙◌, ◌⊎◌, inl, inr, Bool, true, false, List, [], ◌∷◌, ◌++◌, arith,
  append_assoc, length,
}
use linux_network_programmin.Sys.{Bytes}
use linux_network_programmin.CString.{text, same}
use linux_network_programmin.CString.Decimal.{decimal}
use linux_network_programmin.CString.Decimal.Digits.{are_digits, are_digits-decimal, decimal-ne-nil}
use linux_network_programmin.HttpServer.{Headers, HttpRequest, insert, lookup, returned}
use linux_network_programmin.HttpServer.Parser.{content_length, drop_space, parse}
use linux_network_programmin.HttpServer.Parser.Lines.{
  lacks, has_no_space, Field, IsField, AreFields, print_fields, stored,
}
use linux_network_programmin.HttpServer.Parser.Laws.{
  Message, IsMessage, print_message, Announces, parse-print,
}
use linux_network_programmin.HttpServer.Response.{HttpResponse, code_to_message, to_string}

lacks-append : (c : ℕ) (s r : Bytes) → lacks c s ≡ true → lacks c r ≡ true → lacks c (s ++ r) ≡ true
lacks-append c [] r h k = k
lacks-append c (d ∷ s) r h k = ground (arith, lacks-append c s r)

lacks-digits : (s : Bytes) → are_digits s ≡ true → lacks b'\n' s ≡ true
lacks-digits [] h = refl
lacks-digits (c ∷ s) h = ground (arith, lacks-digits s)

has_no_space-digits : (s : Bytes) → are_digits s ≡ true → has_no_space s ≡ true
has_no_space-digits [] h = refl
has_no_space-digits (c ∷ s) h = ground (arith, has_no_space-digits s)

drop_space-digits : (s : Bytes) → are_digits s ≡ true → drop_space s ≡ s
drop_space-digits [] h = refl
drop_space-digits (c ∷ s) h = ground (arith, h)

-- The length of the body, as a field.
abbrev length_field : Bytes → Bool → Field
length_field body spaced = record {
  key = content_length;
  value = decimal (length body);
  spaced = spaced;
}

length_field-IsField : (body : Bytes) (spaced : Bool) → IsField (length_field body spaced)
unfolding content_length
length_field-IsField body true = record {
  one_line = lacks-digits (decimal (length body)) (are_digits-decimal (length body));
  no_colon = refl;
  value_read = refl;
}
length_field-IsField body false = record {
  one_line = lacks-digits (decimal (length body)) (are_digits-decimal (length body));
  no_colon = refl;
  value_read = drop_space-digits (decimal (length body)) (are_digits-decimal (length body));
}

-- A response has the length of its body as its one header, or neither header nor body.
abbrev pub IsSized : HttpResponse → Type 0
IsSized r =
    (r.headers ≡ (content_length, decimal (length r.body)) ∷ [])
    ⊎ ((r.headers ≡ []) × (r.body ≡ []))

-- An iteration over the map visits its entries: those of a map with at most one have one order.
pub record IsOrder (order : Headers → Headers) : Type 0 where
  pub of_nil : order [] ≡ []
  pub of_one : (key val : Bytes) → order ((key, val) ∷ []) ≡ (key, val) ∷ []

message_line : (code : ℕ) → lacks b'\n' (code_to_message code ++ (13 ∷ [])) ≡ true
unfolding code_to_message
message_line code = ground arith

abbrev as_message : HttpResponse → List Field → Message
as_message r fields = record {
  method = text "HTTP/1.1";
  path = decimal r.status;
  version = code_to_message r.status;
  fields = fields;
  body = r.body;
}

as_message-IsMessage :
    (r : HttpResponse) (fields : List Field) → AreFields fields → IsMessage (as_message r fields)
as_message-IsMessage r fields v = record {
  has_method = λ e. cc;
  has_path = decimal-ne-nil r.status;
  method_word = refl;
  path_word = has_no_space-digits (decimal r.status) (are_digits-decimal r.status);
  one_line =
      lacks-append b'\n' (decimal r.status) (b' ' ∷ (code_to_message r.status ++ (13 ∷ [])))
        (lacks-digits (decimal r.status) (are_digits-decimal r.status)) (message_line r.status);
  fields_read = v;
}

-- What the parser finds in a response: as headers only the length, however often it stands there.
abbrev pub read_back : HttpResponse → HttpRequest
read_back r = record {
  method = text "HTTP/1.1";
  path = decimal r.status;
  headers = (content_length, decimal (length r.body)) ∷ [];
  body = r.body;
}

length_announced :
    (r : HttpResponse) (headers : Headers)
    → headers ≡ (content_length, decimal (length r.body)) ∷ []
    → length r.body ≤ 2147483647
    → Announces headers r.body
unfolding lookup content_length same
length_announced r headers e h = rw e (inr (refl, h))

first_assoc :
    (number message rest : Bytes)
    → (number ++ (b' ' ∷ (message ++ (13 ∷ [])))) ++ rest
      ≡ number ++ (b' ' ∷ (message ++ (13 ∷ rest)))
first_assoc number message rest = simp append_assoc

abbrev written_fields : Headers → Bytes → List Field
written_fields [] body = length_field body true ∷ []
written_fields (h ∷ headers) body = length_field body false ∷ length_field body true ∷ []

-- It is written in the form of HTTP.
written :
    (order : Headers → Headers) (r : HttpResponse)
    → IsOrder order
    → IsSized r
    → to_string order r ≡ print_message (as_message r (written_fields r.headers r.body))
unfolding to_string content_length
written order r o (inl one) =
    rw
      (
        one,
        o.of_one content_length (decimal (length r.body)),
        first_assoc (decimal r.status) (code_to_message r.status) (
            b'\n'
            ∷ print_fields (length_field r.body false ∷ length_field r.body true ∷ []) r.body),
      )
      refl
written order r o (inr (no_header, no_body)) =
    rw
      (
        no_header,
        o.of_nil,
        first_assoc (decimal r.status) (code_to_message r.status)
            (b'\n' ∷ print_fields (length_field r.body true ∷ []) r.body),
      )
      refl

-- The parser of the same program reads back the status and the body of a response that has the
-- length of its body as its one header, or neither header nor body: although to_string may write
-- the length twice, the body is found whole.
pub parse-to_string :
    (order : Headers → Headers) (r : HttpResponse)
    → IsOrder order
    → IsSized r
    → length r.body ≤ 2147483647
    → parse (to_string order r) ≡ returned (read_back r)
unfolding insert content_length same
parse-to_string order r o sized small =
    ap parse (written order r o sized)
    ∙ parse-print (as_message r (written_fields r.headers r.body))
        (as_message-IsMessage r _ (fields r.headers)) (announced r.headers)
    ∙ ap
        (λ (hs : Headers). returned (record {
          method = text "HTTP/1.1";
          path = decimal r.status;
          headers = hs;
          body = r.body;
        }))
        (same_headers r.headers)
  where
    same_headers :
        (hs : Headers)
        → stored [] (written_fields hs r.body) ≡ (content_length, decimal (length r.body)) ∷ []
    same_headers [] = refl
    same_headers (h ∷ hs) = refl

    announced : (hs : Headers) → Announces (stored [] (written_fields hs r.body)) r.body
    announced hs = length_announced r _ (same_headers hs) small

    fields : (hs : Headers) → AreFields (written_fields hs r.body)
    fields [] = (length_field-IsField r.body true, tt)
    fields (h ∷ hs) = (length_field-IsField r.body false, (length_field-IsField r.body true, tt))
