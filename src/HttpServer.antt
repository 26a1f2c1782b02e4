-- ===== src/HttpServer.antt =====
-- The C++ server of 01_networking_libraries/my_http_server. A `std::string` is the list of its
-- bytes, a `std::unordered_map` an association list, and an exception a result.
pub mod Parser
pub mod Response
pub mod Handler
pub mod Setup
pub mod Loop
pub mod Router
use linux_network_programmin.Base.{ℕ, List, [], ◌∷◌, Option, none, some, if◌then◌else◌}
use linux_network_programmin.Sys.{Bytes}
use linux_network_programmin.CString.{same}

abbrev pub Headers : Type 0
Headers = List (Bytes × Bytes)

-- `m_headers[key] = val`
unfoldable pub insert : Bytes → Bytes → Headers → Headers
insert key val [] = (key, val) ∷ []
insert key val ((k, v) ∷ headers) =
    let rest = insert key val headers in if same k key then (key, val) ∷ headers else (k, v) ∷ rest

unfoldable pub lookup : Bytes → Headers → Option Bytes
lookup key [] = none
lookup key ((k, v) ∷ headers) = let rest = lookup key headers in if same k key then some v else rest

-- http_request.h
pub record HttpRequest : Type 0 where
  pub method : Bytes
  pub path : Bytes
  pub headers : Headers
  pub body : Bytes

-- What a call returns, or an exception.
pub data Result (A : Type 0) : Type 0 where
  returned : A → Result A
  thrown : Result A

-- A call after another, which an exception of the first skips.
abbrev pub and_then : {A B : Type 0} → Result A → (A → Result B) → Result B
and_then (returned a) f = f a
and_then thrown f = thrown
