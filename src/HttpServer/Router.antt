-- ===== src/HttpServer/Router.antt =====
-- `HTTPRouter::route` of 01_networking_libraries/my_http_server/http_router.cpp, on a file system
-- that is a parameter.
pub mod Laws
use linux_network_programmin.Base.{Bool, true, false, ◌++◌, Option, none, some, if◌then◌else◌}
use linux_network_programmin.Sys.{Bytes}
use linux_network_programmin.CString.{text}
use linux_network_programmin.HttpServer.{HttpRequest, Result, returned, thrown, and_then}
use linux_network_programmin.HttpServer.Response.{HttpResponse, with_status, set_body}

-- What a request meets: the working directory, which paths exist and are directories, and for a
-- file that can be opened its content, if that can be read. Every call of the file system, and the
-- `resize` to the size of a file, may throw.
pub record Files : Type 0 where
  pub current_path : Result Bytes
  pub exists : Bytes → Result Bool
  pub is_directory : Bytes → Result Bool
  pub read_file : Bytes → Option (Result (Option Bytes))

abbrev root_path : Bytes → Bytes
root_path cwd = cwd ++ (text "/" ++ text "http_root")

-- `!(!fs::exists(path) || !fs::is_directory(path))`: a path that does not exist is not looked at
-- again.
abbrev is_served : Files → Bytes → Result Bool
is_served files path =
    and_then (files.exists path)
      (λ found. if found then files.is_directory path else returned false)

abbrev main_page : Bytes → Bytes
main_page path = path ++ (text "/" ++ text "index.html")

abbrev with_content : HttpResponse → Option (Result (Option Bytes)) → Result HttpResponse
with_content response none = returned response
with_content response (some thrown) = thrown
with_content response (some (returned none)) = returned response
with_content response (some (returned (some html_content))) =
    returned (set_body html_content response)

-- The response for the path that is asked for, if that `is_found`, or else for that of the error
-- page.
abbrev answer_at : Files → Bytes → Bytes → Bool → Result HttpResponse
answer_at files cwd path true = with_content (with_status 200) (files.read_file (main_page path))
answer_at files cwd path false =
    with_content (with_status 404) (files.read_file (main_page (root_path cwd ++ text "/404")))

unfoldable pub route : Files → HttpRequest → Result HttpResponse
route files request = and_then files.current_path (λ cwd.
    and_then (is_served files (root_path cwd ++ request.path))
      (answer_at files cwd (root_path cwd ++ request.path)))
