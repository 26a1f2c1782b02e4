-- ===== src/Curl.antt =====
-- One transfer of 01_networking_libraries/libcurl/src: `perform_request` of curl_multithreaded.cpp
-- and the transfer of basic_curl.cpp. libcurl and the files are a parameter.
pub mod Laws
use linux_network_programmin.Base.{
  ℕ, zero, suc, ◌+◌, ◌-◌, ◌^◌, ◌%◌, Bool, true, false, List, [], ◌∷◌, ◌++◌, Option, none, some,
  if◌then◌else◌, ltb, ◌==◌, length, take, drop,
}
use linux_network_programmin.Sys.{Bytes}
use linux_network_programmin.CString.{text}

-- A call with its result: the transfer gives the chunks that it passes to the callback.
pub data Call : Type 0 where
  easy_init : Option ℕ → Call
  easy_perform : ℕ → Bytes → List Bytes → Bool → Call
  easy_cleanup : ℕ → Call
  open_file : Bytes → Bool → Call
  write_file : Bytes → Bytes → Call

-- What libcurl and the file system answer after the calls so far, newest first.
pub record Library : Type 0 where
  pub on_easy_init : List Call → Option ℕ
  pub on_easy_perform : List Call → ℕ → Bytes → List Bytes × Bool
  pub on_open_file : List Call → Bytes → Bool

-- `perform_callback` for each chunk.
unfoldable pub append_chunks : Bytes → List Bytes → Bytes
append_chunks str [] = str
append_chunks str (chunk ∷ chunks) = append_chunks (str ++ chunk) chunks

-- `std::string::npos`
abbrev pub npos : ℕ
npos = 2 ^ 64 - 1

-- `url.find_first_of(".")`
unfoldable pub find_first_of : ℕ → Bytes → ℕ → ℕ
find_first_of c [] i = npos
find_first_of c (b ∷ s) i = if b == c then i else find_first_of c s (i + 1)

-- `url.find_last_of(".")`, with the last place found so far.
unfoldable pub find_last_of : ℕ → Bytes → ℕ → ℕ → ℕ
find_last_of c [] i found = found
find_last_of c (b ∷ s) i found = find_last_of c s (i + 1) (if b == c then i else found)

-- `s.substr(pos, n)`; `none` for the exception of a position past the end.
unfoldable pub substr : Bytes → ℕ → ℕ → Option Bytes
substr s pos n = if ltb (length s) pos then none else some (take n (drop pos s))

-- `url.substr(11, last - first - 1) + ".html"`, with the difference on 64 bits.
unfoldable pub file_name : Bytes → Option Bytes
file_name url =
    let first = find_first_of 46 url 0 in
    let last = find_last_of 46 url 0 npos in
    elim (substr url 11 ((last + 2 ^ 64 + 2 ^ 64 - first - 1) % 2 ^ 64)) [
      | none ↦ none
      | some name ↦ some (name ++ text ".html")
    ]

module _ (library : Library) where
  -- The file gets what the callback has put together.
  stored : Bytes → List Bytes → List Call → Option (List Call)
  unfolding append_chunks
  stored url chunks calls = elim (file_name url) [
    | none ↦ none
    | some name ↦
        let opened = library.on_open_file calls name in
        let calls' = open_file name opened ∷ calls in
        some (if opened then write_file name (append_chunks [] chunks) ∷ calls' else calls')
  ]

  transferred : Bytes → Option ℕ → List Call → Option (List Call)
  unfolding stored
  transferred url none calls = some calls
  transferred url (some curl) calls =
      let res = library.on_easy_perform calls curl url in
      let calls' = easy_perform curl url res.0 res.1 ∷ calls in
      if res.1 then stored url res.0 calls' else some calls'

  -- The calls after it; `none` for an exception. The handle is not cleaned up.
  unfoldable pub perform_request : Bytes → List Call → Option (List Call)
  unfolding transferred
  perform_request url calls =
      let curl = library.on_easy_init calls in transferred url curl (easy_init curl ∷ calls)

  -- The transfer of the basic program, which cleans its handle up.
  basic_transfer : Bytes → Option ℕ → List Call → List Call
  basic_transfer url none calls = calls
  basic_transfer url (some curl) calls =
      let res = library.on_easy_perform calls curl url in
      easy_cleanup curl ∷ easy_perform curl url res.0 res.1 ∷ calls

  unfoldable pub basic_main : List Call → List Call
  unfolding basic_transfer
  basic_main calls =
      let curl = library.on_easy_init calls in
      basic_transfer (text "http://httpstat.us/200") curl (easy_init curl ∷ calls)
