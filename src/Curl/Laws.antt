-- ===== src/Curl/Laws.antt =====
-- Where a transfer is stored, and which handles it leaves.
use mathlib.Core.List.{erase}
use native.Mathlib.Decide.{ℕ_discrete}
use linux_network_programmin.Base.{
  ℕ, ◌+◌, ◌-◌, ◌%◌, ◌<◌, ◌≡◌, refl, sym, ap, ◌∙◌, true, false, List, [], ◌∷◌, ◌++◌, Option, none,
  some, arith, length, take, append_assoc, take-append_length, append-nil,
}
use linux_network_programmin.Sys.{Bytes}
use linux_network_programmin.Sys.Resources.{erase_head}
use linux_network_programmin.CString.{text, occurs}
use linux_network_programmin.Curl.{
  Call, easy_init, easy_perform, easy_cleanup, write_file, Library, append_chunks, find_first_of,
  find_last_of, substr, file_name, stored, transferred, perform_request, basic_transfer, basic_main,
}

-- All chunks, one behind the other.
abbrev pub concat : List Bytes → Bytes
concat [] = []
concat (chunk ∷ chunks) = chunk ++ concat chunks

pub append_chunks_lem :
    (str : Bytes) (chunks : List Bytes) → append_chunks str chunks ≡ str ++ concat chunks
unfolding append_chunks
append_chunks_lem str [] = sym (append-nil str)
append_chunks_lem str (chunk ∷ chunks) =
    append_chunks_lem (str ++ chunk) chunks ∙ append_assoc str chunk (concat chunks)

-- A text without a dot does not change the last place.
find_last_of-none :
    (s t : Bytes) (i found : ℕ)
    → occurs 46 s ≡ false
    → find_last_of 46 (s ++ t) i found ≡ find_last_of 46 t (length s + i) found
unfolding find_last_of occurs
find_last_of-none [] t i found h = ap (λ k. find_last_of 46 t k found) (omega arith)
find_last_of-none (b ∷ s) t i found h = ground (arith, find_last_of-none s t (i + 1) found)

-- The last dot of a URL, whose own length is `n` before the name.
last_dot :
    (name rest : Bytes) (n found : ℕ)
    → occurs 46 name ≡ false
    → occurs 46 rest ≡ false
    → find_last_of 46 (name ++ (46 ∷ rest)) n found ≡ length name + n
unfolding find_last_of
last_dot name rest n found h k =
    find_last_of-none name (46 ∷ rest) n found h
    ∙ ap (λ s. find_last_of 46 s (length name + n + 1) (length name + n)) (sym (append-nil rest))
    ∙ find_last_of-none rest [] (length name + n + 1) (length name + n) k

substr_url : (xs : Bytes) (n : ℕ) → substr (text "http://www." ++ xs) 11 n ≡ some (take n xs)
unfolding substr
substr_url xs n = ground arith

-- For a URL of the form "http://www.<name>.<rest>" without another dot, the file is "<name>.html".
-- (The name is shorter than 2^63 bytes.)
pub file_name_lem :
    (name rest : Bytes)
    → occurs 46 name ≡ false
    → occurs 46 rest ≡ false
    → length name < 9223372036854775808
    → file_name (text "http://www." ++ (name ++ (46 ∷ rest))) ≡ some (name ++ text ".html")
unfolding file_name find_first_of find_last_of
file_name_lem name rest h k l =
    rw
      (
        e,
        substr_url (name ++ (46 ∷ rest)) (length name),
        take-append_length name (46 ∷ rest),
        file_name,
      )
      refl
  where
    e :
        (find_last_of 46 (name ++ (46 ∷ rest)) 11 10
            + 18446744073709551616
            + 18446744073709551616
            - 10
            - 1)
          % 18446744073709551616
        ≡ length name
    e = omega (arith, last_dot name rest 11 10 h k)

-- The handles that were made and not cleaned up.
abbrev held : Call → List ℕ → List ℕ
held (easy_init (some curl)) handles = curl ∷ handles
held (easy_cleanup curl) handles = erase ℕ_discrete handles curl
held call handles = handles

abbrev pub handles_held : List Call → List ℕ
handles_held [] = []
handles_held (call ∷ calls) = held call (handles_held calls)

-- The basic program cleans up the handle that it makes.
pub basic_main_lem :
    (library : Library) (calls : List Call)
    → handles_held (basic_main library calls) ≡ handles_held calls
unfolding basic_main
basic_main_lem library calls = go (library.on_easy_init calls)
  where
    go :
        (curl : Option ℕ)
        → handles_held
            (basic_transfer library (text "http://httpstat.us/200") curl (easy_init curl ∷ calls))
          ≡ handles_held calls
    go none = refl
    go (some curl) = erase_head curl (handles_held calls)

module _ (library : Library) (name rest : Bytes) where
  abbrev url : Bytes
  url = text "http://www." ++ (name ++ (46 ∷ rest))

  -- A request to "http://www.<name>.<rest>" that gets its handle, whose transfer succeeds and whose
  -- file can be opened, writes all chunks of the transfer in their order to "<name>.html"; its
  -- handle is never cleaned up. (Neither part has a dot, and the name is shorter than 2^63 bytes.)
  pub perform_request_lem :
      (curl : ℕ) (chunks : List Bytes) (calls : List Call)
      → occurs 46 name ≡ false
      → occurs 46 rest ≡ false
      → length name < 9223372036854775808
      → library.on_easy_init calls ≡ some curl
      → library.on_easy_perform (easy_init (some curl) ∷ calls) curl url ≡ (chunks, true)
      → library.on_open_file
          (easy_perform curl url chunks true ∷ easy_init (some curl) ∷ calls)
          (name ++ text ".html")
        ≡ true
      → (after : List Call) × (perform_request library url calls
          ≡ some (write_file (name ++ text ".html") (concat chunks) ∷ after))
        × (handles_held after ≡ curl ∷ handles_held calls)
  unfolding perform_request stored transferred
  perform_request_lem curl chunks calls h k l made done opened =
      rw
        (
          made,
          done,
          file_name_lem name rest h k l,
          done,
          opened,
          append_chunks_lem [] chunks,
          perform_request,
          transferred,
          stored,
        )
        (_, refl, refl)
