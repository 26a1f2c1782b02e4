-- ===== src/Tests/HttpServer.antt =====
-- The C++ server on a request for "/" and a directory with one page.
use linux_network_programmin.Base.{
  ◌≡◌, refl, ◌↔◌, inl, inr, ℤ, pos, true, false, [], ◌∷◌, some, arith,
}
use linux_network_programmin.Sys.{Bytes, Kernel, Event, ok}
use linux_network_programmin.CString.{text, same}
use linux_network_programmin.CString.Decimal.{decimal}
use linux_network_programmin.HttpServer.{HttpRequest, insert, lookup, returned}
use linux_network_programmin.HttpServer.Parser.{content_length, parse_fuel, parse}
use linux_network_programmin.HttpServer.Parser.Lines.{Field, IsField, stored}
use linux_network_programmin.HttpServer.Parser.Laws.{
  Message, IsMessage, print_message, Announces, parse-print, parse_fuel-parse,
}
use linux_network_programmin.HttpServer.Response.{HttpResponse, to_string}
use linux_network_programmin.HttpServer.Response.Laws.{IsOrder, read_back, parse-to_string}
use linux_network_programmin.HttpServer.Router.{Files, route}
use linux_network_programmin.HttpServer.Router.Laws.{Offers, Responds, route_lem}
use linux_network_programmin.HttpServer.Handler.{message_size, activity_of, handle_client}
use linux_network_programmin.HttpServer.Handler.Laws.{request_of, answer_of, handle_client-read}
use linux_network_programmin.Sys.Loop.{Total, running}
use linux_network_programmin.Poll.{PollFd}
use linux_network_programmin.HttpServer.Loop.{server_round, serve}
use linux_network_programmin.HttpServer.Loop.Laws.{Serving, http_server_lem}
use linux_network_programmin.HttpServer.Loop.Exchange.{idle, arrival, server_round-exchange}
use linux_network_programmin.Tests.Systems.{quitting, quitting-ResolvesSome, quitting-ShortMessages}

abbrev host_field : Field
host_field = record { key = text "Host"; value = text "localhost"; spaced = true }

host_field-IsField : IsField host_field
host_field-IsField = record { one_line = refl; no_colon = refl; value_read = refl }

-- A request with a body of two bytes.
abbrev posted : Message
posted = record {
  method = text "POST";
  path = text "/";
  version = text "HTTP/1.1";
  fields =
      record { key = text "Content-Length"; value = text "2"; spaced = false } ∷ host_field ∷ [];
  body = text "ab";
}

posted-IsMessage : IsMessage posted
posted-IsMessage = record {
  has_method = λ e. cc;
  has_path = λ e. cc;
  method_word = refl;
  path_word = refl;
  one_line = refl;
  fields_read =
      (record { one_line = refl; no_colon = refl; value_read = refl }, (host_field-IsField, tt));
}

posted-Announces : Announces (stored [] posted.fields) posted.body
unfolding lookup content_length same insert decimal
posted-Announces = inr (refl, omega arith)

parse-print_example : parse (print_message posted) ≡ returned (request_of posted)
parse-print_example = parse-print posted posted-IsMessage posted-Announces

parse_fuel-parse_example : parse_fuel 100 (print_message posted) ≡ parse (print_message posted)
parse_fuel-parse_example = parse_fuel-parse 100 (print_message posted) (omega arith)

abbrev no_order-IsOrder : IsOrder (λ hs. hs)
no_order-IsOrder = record { of_nil = refl; of_one = λ k v. refl }

abbrev page : HttpResponse
page = record { status = 200; headers = (content_length, text "2") ∷ []; body = text "hi" }

parse-to_string_example : parse (to_string (λ hs. hs) page) ≡ returned (read_back page)
unfolding decimal
parse-to_string_example = parse-to_string (λ hs. hs) page no_order-IsOrder (inl refl) (omega arith)

-- Every path is a directory with the same page in it.
abbrev one_page : Files
one_page = record {
  current_path = returned (text "/srv");
  exists = λ path. returned true;
  is_directory = λ path. returned true;
  read_file = λ path. some (returned (some (text "hi")));
}

abbrev asked : HttpRequest
asked = request_of posted

one_page-Offers : (path : Bytes) → Offers one_page path 200 (text "hi")
one_page-Offers path = Offers.found (text "/srv") (text "hi") refl refl refl refl

route_lem_example :
    Offers one_page asked.path 200 (text "hi") ↔ Responds (route one_page asked) 200 (text "hi")
route_lem_example = route_lem one_page asked 200 (text "hi")

abbrev posting : Kernel
posting = record quitting { on_recv = λ t fd. some (print_message posted) }

handle_client-read_example :
    (message : Bytes) × (rc : ℤ) × (handle_client posting (λ hs. hs) one_page 4 []
      ≡ ok
          (returned (activity_of rc))
          (Event.send 4 message rc ∷ Event.recv 4 message_size (some (print_message posted)) ∷ []))
    × (parse message ≡ returned (answer_of 200 (text "hi")))
handle_client-read_example =
    handle_client-read posting (λ hs. hs) one_page 4 posted [] 200 (text "hi")
      (one_page-Offers posted.path) posted-IsMessage posted-Announces refl (omega arith)
      no_order-IsOrder (omega arith) refl

abbrev garbage : PollFd
garbage = record { fd = 7; events = false; revents = true }

http_server_lem_example :
    Total
      (Serving quitting (pos 8080) [])
      (serve quitting (λ hs. hs) one_page 3 garbage garbage (pos 8080) [])
http_server_lem_example =
    http_server_lem quitting (λ hs. hs) one_page quitting-ResolvesSome quitting-ShortMessages 3
      garbage garbage (pos 8080) []

server_round-exchange_example :
    (message : Bytes) × (rc : ℤ) × (server_round posting
        (λ hs. hs)
        one_page
        3
        (idle 3 false 0 false, false)
        []
      ≡ ok (running (idle 3 true 4 true, false)) (
          Event.close 4
          ∷ Event.send 4 message rc
          ∷ Event.recv 4 message_size (some (print_message posted))
          ∷ arrival 1 3 4 []))
    × (parse message ≡ returned (answer_of 200 (text "hi")))
server_round-exchange_example =
    server_round-exchange posting (λ hs. hs) one_page 3 4 1 0 false false posted [] 200 (text "hi")
      (one_page-Offers posted.path) posted-IsMessage posted-Announces refl (omega arith)
      no_order-IsOrder (omega arith) refl refl refl refl
