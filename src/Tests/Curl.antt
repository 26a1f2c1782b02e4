-- ===== src/Tests/Curl.antt =====
-- A transfer in two chunks.
use linux_network_programmin.Base.{◌≡◌, refl, arith, true, List, [], ◌∷◌, some}
use linux_network_programmin.CString.{text, occurs}
use linux_network_programmin.Curl.{Call, write_file, Library, perform_request}
use linux_network_programmin.Curl.Laws.{handles_held, perform_request_lem}

abbrev web : Library
web = record {
  on_easy_init = λ calls. some 5;
  on_easy_perform = λ calls curl url. (text "<ht" ∷ text "ml>" ∷ [], true);
  on_open_file = λ calls name. true;
}

perform_request_lem_example :
    (after : List Call) × (perform_request web (text "http://www.example.com") []
      ≡ some (write_file (text "example.html") (text "<html>") ∷ after))
    × (handles_held after ≡ 5 ∷ [])
unfolding occurs
perform_request_lem_example =
    perform_request_lem web (text "example") (text "com") 5 (text "<ht" ∷ text "ml>" ∷ []) [] refl
      refl (omega arith) refl refl refl
