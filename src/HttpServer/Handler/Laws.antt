-- ===== src/HttpServer/Handler/Laws.antt =====
-- What a client receives for its request.
use linux_network_programmin.Base.{
  ℕ, ℤ, length-append, ◌≤◌, ◌<◌, ◌≡◌, refl, ap, ◌∙◌, true, [], ◌∷◌, some, arith, length, take,
  take_of_length_le,
}
use linux_network_programmin.Sys.{Bytes, Kernel, Event, Trace, ok, recv, send}
use linux_network_programmin.CString.{text, upto_nul}
use linux_network_programmin.CString.Laws.{c_string-fill}
use linux_network_programmin.CString.Decimal.{decimal}
use linux_network_programmin.HttpServer.{Headers, HttpRequest, returned}
use linux_network_programmin.HttpServer.Parser.{content_length, parse}
use linux_network_programmin.HttpServer.Parser.Lines.{lacks, stored, print_fields}
use linux_network_programmin.HttpServer.Parser.Laws.{
  Message, IsMessage, print_first, print_message, Announces, parse-print,
}
use linux_network_programmin.HttpServer.Response.{HttpResponse, to_string}
use linux_network_programmin.HttpServer.Response.Laws.{IsOrder, IsSized, parse-to_string}
use linux_network_programmin.HttpServer.Router.{Files, route}
use linux_network_programmin.HttpServer.Router.Laws.{Offers, Responds, route_lem}
use linux_network_programmin.HttpServer.Handler.{
  message_size, activity_of, respond_with, answered, received, handle_client,
}

upto_nul-lacks : (s : Bytes) → lacks 0 s ≡ true → upto_nul s ≡ s
unfolding upto_nul
upto_nul-lacks [] h = refl
upto_nul-lacks (c ∷ s) h = ground (arith, upto_nul-lacks s)

abbrev pub request_of : Message → HttpRequest
request_of m = record {
  method = m.method;
  path = m.path;
  headers = stored [] m.fields;
  body = m.body;
}

-- What a client finds in an answer.
abbrev pub answer_of : ℕ → Bytes → HttpRequest
answer_of status content = record {
  method = text "HTTP/1.1";
  path = decimal status;
  headers = (content_length, decimal (length content)) ∷ [];
  body = content;
}

-- A response is read back as its status and its content.
answer-read :
    (order : Headers → Headers) (r : HttpResponse) (status : ℕ) (content : Bytes)
    → IsOrder order
    → length content ≤ 2147483647
    → r.status ≡ status
    → r.body ≡ content
    → IsSized r
    → parse (to_string order r) ≡ returned (answer_of status content)
answer-read order r status content o small e p z =
    parse-to_string order r o z (rw p small) ∙ rw (e, p) refl

received_lem :
    (os : Kernel) (order : Headers → Headers) (files : Files) (fd : ℕ) (m : Message) (t : Trace)
    (r : HttpResponse)
    → route files (request_of m) ≡ returned r
    → IsMessage m
    → Announces (stored [] m.fields) m.body
    → lacks 0 (print_message m) ≡ true
    → length (print_message m) < message_size
    → (bytes : Bytes) → bytes ≡ print_message m
    → received os order files fd (some bytes) t
      ≡ ok
          (returned (activity_of (os.on_send t fd (to_string order r))))
          (Event.send fd (to_string order r) (os.on_send t fd (to_string order r)) ∷ t)
unfolding received answered respond_with send
received_lem os order files fd m t r routed v a z s [] e = absurd (
    omega
      (arith, ap length e, length-append (print_first m) (b'\n' ∷ print_fields m.fields m.body)))
received_lem os order files fd m t r routed v a z s (b ∷ bytes) e =
    rw
      (
        e,
        c_string-fill message_size (print_message m) s,
        upto_nul-lacks (print_message m) z,
        parse-print m v a,
        routed,
      )
      refl

-- A client that sends a request in the form of HTTP, shorter than the buffer and without a NUL,
-- gets one message for it, if the files offer a status and a content for the path that it names.
-- From that message the parser of the same program reads this status, and as its body this content.
-- (The request arrives in one piece, no call of the file system throws, and the content is shorter
-- than 2^31 bytes.)
pub handle_client-read :
    (os : Kernel) (order : Headers → Headers) (files : Files) (fd : ℕ) (m : Message) (t : Trace)
    (status : ℕ) (content : Bytes)
    → Offers files m.path status content
    → IsMessage m
    → Announces (stored [] m.fields) m.body
    → lacks 0 (print_message m) ≡ true
    → length (print_message m) < message_size
    → IsOrder order
    → length content ≤ 2147483647
    → os.on_recv t fd ≡ some (print_message m)
    → (message : Bytes) × (rc : ℤ) × (handle_client os order files fd t
        ≡ ok
            (returned (activity_of rc))
            (Event.send fd message rc ∷ Event.recv fd message_size (some (print_message m)) ∷ t))
      × (parse message ≡ returned (answer_of status content))
unfolding handle_client recv
handle_client-read os order files fd m t status content offered v a z s o small got =
    sent ((route_lem files (request_of m) status content).0 offered)
  where
    whole : take message_size (print_message m) ≡ print_message m
    whole = take_of_length_le message_size (print_message m) (omega (arith, s))

    u : Trace
    u = Event.recv fd message_size (some (print_message m)) ∷ t

    sent :
        Responds (route files (request_of m)) status content
        → (message : Bytes) × (rc : ℤ) × (handle_client os order files fd t
            ≡ ok (returned (activity_of rc)) (Event.send fd message rc ∷ u))
          × (parse message ≡ returned (answer_of status content))
    sent (r, e, p, q, sized) = (
      to_string order r,
      os.on_send u fd (to_string order r),
      rw (got, whole) (received_lem os order files fd m u r e v a z s (print_message m) refl),
      answer-read order r status content o small p q sized,
    )
