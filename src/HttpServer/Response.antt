-- ===== src/HttpServer/Response.antt =====
-- `HTTPResponse` of 01_networking_libraries/my_http_server/http_response.cpp. The order in which
-- the headers are written is that of the library's map, a parameter.
pub mod Laws
use linux_network_programmin.Base.{ℕ, [], ◌∷◌, ◌++◌, if◌then◌else◌, ◌==◌, length}
use linux_network_programmin.Sys.{Bytes}
use linux_network_programmin.CString.{text}
use linux_network_programmin.CString.Decimal.{decimal}
use linux_network_programmin.HttpServer.{Headers, insert}
use linux_network_programmin.HttpServer.Parser.{content_length}

pub record HttpResponse : Type 0 where
  pub status : ℕ
  pub headers : Headers
  pub body : Bytes

-- `HTTPResponse response; response.set_status(status)`: the constructor sets nothing.
unfoldable pub with_status : ℕ → HttpResponse
with_status status = record { status = status; headers = []; body = [] }

unfoldable pub set_header : Bytes → Bytes → HttpResponse → HttpResponse
set_header key val r = record r { headers = insert key val r.headers }

unfoldable pub set_body : Bytes → HttpResponse → HttpResponse
unfolding set_header
set_body body r = set_header content_length (decimal (length body)) (record r { body = body })

unfoldable pub code_to_message : ℕ → Bytes
code_to_message code =
    if code == 200
    then text "OK"
    else (if code == 404
        then text "Not Found"
        else (if code == 500 then text "Internal Server Error" else text "Unknown"))

unfoldable pub header_lines : Headers → Bytes → Bytes
header_lines [] rest = rest
header_lines ((key, val) ∷ headers) rest =
    key ++ (b':' ∷ (val ++ (13 ∷ b'\n' ∷ header_lines headers rest)))

unfoldable pub to_string : (Headers → Headers) → HttpResponse → Bytes
unfolding header_lines code_to_message
to_string order r =
    text "HTTP/1.1"
    ++ (b' '
        ∷ (decimal r.status
            ++ (b' '
                ∷ (code_to_message r.status
                    ++ (13
                        ∷ b'\n'
                        ∷ header_lines (order r.headers) (
                            text "Content-Length: "
                            ++ (decimal (length r.body) ++ (13 ∷ b'\n' ∷ 13 ∷ b'\n' ∷ r.body))))))))
