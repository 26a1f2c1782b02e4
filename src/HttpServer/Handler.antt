-- ===== src/HttpServer/Handler.antt =====
-- `HTTPConnectionHandler::handle_client` of
-- 01_networking_libraries/my_http_server/http_connection_handler.cpp: one request of a client.
pub mod Laws
use linux_network_programmin.Base.{ℕ, ℤ, is_nonpos, [], ◌∷◌, Option, none, some, if◌then◌else◌}
use linux_network_programmin.Sys.{Bytes, Kernel, M, pure, ◌>>=◌, checked, recv, send}
use linux_network_programmin.CString.{zeroed, fill, c_string}
use linux_network_programmin.HttpServer.{Headers, HttpRequest, Result, returned, thrown}
use linux_network_programmin.HttpServer.Parser.{parse}
use linux_network_programmin.HttpServer.Response.{HttpResponse, to_string}
use linux_network_programmin.HttpServer.Router.{Files, route}

-- MESSAGE_SIZE
abbrev pub message_size : ℕ
message_size = 1024

-- The two values of `ClientActivity` that are returned.
pub data ClientActivity : Type 0 where
  disconnect : ClientActivity
  completed : ClientActivity

unfoldable pub activity_of : ℤ → ClientActivity
activity_of rc_send = if is_nonpos rc_send then disconnect else completed

-- The order of a map's headers and the files are parameters.
module _ (os : Kernel) (order : Headers → Headers) (files : Files) (sock_client : ℕ) where
  -- An exception of the router leaves with nothing sent.
  unfoldable pub respond_with : Result HttpResponse → M (Result ClientActivity)
  unfolding activity_of
  respond_with thrown = pure thrown
  respond_with (returned server_response) = do
    rc ← send os sock_client (to_string order server_response)
    pure (returned (activity_of rc))

  unfoldable pub answered : Result HttpRequest → M (Result ClientActivity)
  unfolding respond_with
  answered thrown = pure thrown
  answered (returned client_request) = respond_with (route files client_request)

  -- The buffer becomes a `std::string`: its bytes up to the first NUL, which must be in it.
  unfoldable pub received : Option Bytes → M (Result ClientActivity)
  unfolding answered
  received none = pure (returned disconnect)
  received (some []) = pure (returned disconnect)
  received (some (b ∷ bytes)) = do
    raw_request ← checked (c_string (fill (zeroed message_size) (b ∷ bytes)))
    answered (parse raw_request)

  unfoldable pub handle_client : M (Result ClientActivity)
  unfolding received
  handle_client = do r ← recv os sock_client message_size; received r
