-- ===== src/HttpServer/Router/Laws.antt =====
-- What the router answers.
use mathlib.Core.Path.{subst}
use linux_network_programmin.Base.{
  ℕ, ◌≡◌, refl, sym, ap, inl, inr, ◌↔◌, ◌∙◌, Bool, true, false, [], ◌++◌, Option, none, some,
  if◌then◌else◌,
}
use linux_network_programmin.Sys.{Bytes}
use linux_network_programmin.CString.{text}
use linux_network_programmin.HttpServer.{HttpRequest, Result, returned, thrown, insert, and_then}
use linux_network_programmin.HttpServer.Response.{HttpResponse, set_body, with_status}
use linux_network_programmin.HttpServer.Response.Laws.{IsSized}
use linux_network_programmin.HttpServer.Router.{Files, root_path, with_content, answer_at, route}

-- The text of a page: what the file holds, and nothing if there is no file or it cannot be read.
abbrev pub IsPage : Option (Result (Option Bytes)) → Bytes → Type 0
IsPage none content = content ≡ []
IsPage (some thrown) content = ⊥
IsPage (some (returned none)) content = content ≡ []
IsPage (some (returned (some html))) content = content ≡ html

-- What a web server with this layout owes for a path: under `http_root` in the working directory,
-- the page of the directory of that name, with the status 200; and with 404 the page of the
-- directory `404`, where there is nothing of that name, or something that is no directory.
pub data Offers (files : Files) (path : Bytes) : ℕ → Bytes → Type 0 where
  found :
      (cwd content : Bytes)
      → files.current_path ≡ returned cwd
      → files.exists ((cwd ++ text "/http_root") ++ path) ≡ returned true
      → files.is_directory ((cwd ++ text "/http_root") ++ path) ≡ returned true
      → IsPage
          (files.read_file (((cwd ++ text "/http_root") ++ path) ++ text "/index.html"))
          content
      → Offers files path 200 content
  absent :
      (cwd content : Bytes)
      → files.current_path ≡ returned cwd
      → files.exists ((cwd ++ text "/http_root") ++ path) ≡ returned false
      → IsPage
          (files.read_file (((cwd ++ text "/http_root") ++ text "/404") ++ text "/index.html"))
          content
      → Offers files path 404 content
  no_directory :
      (cwd content : Bytes)
      → files.current_path ≡ returned cwd
      → files.exists ((cwd ++ text "/http_root") ++ path) ≡ returned true
      → files.is_directory ((cwd ++ text "/http_root") ++ path) ≡ returned false
      → IsPage
          (files.read_file (((cwd ++ text "/http_root") ++ text "/404") ++ text "/index.html"))
          content
      → Offers files path 404 content

returned-injective : (r r' : HttpResponse) → returned r ≡ returned r' → r ≡ r'
returned-injective r r' e = ap (value_or r) e
  where
    value_or : HttpResponse → Result HttpResponse → HttpResponse
    value_or d (returned x) = x
    value_or d thrown = d

-- A response with this status and this body, and the length of the body as its one header.
abbrev pub Responds : Result HttpResponse → ℕ → Bytes → Type 0
Responds result status content =
    (r : HttpResponse) × (result ≡ returned r)
    × (r.status ≡ status)
    × (r.body ≡ content)
    × IsSized r

page_lem :
    (status : ℕ) (c : Option (Result (Option Bytes))) (content : Bytes)
    → IsPage c content ↔ Responds (with_content (with_status status) c) status content
unfolding with_status set_body insert
page_lem status c content = (to c, from c)
  where
    to :
        (c : Option (Result (Option Bytes)))
        → IsPage c content
        → Responds (with_content (with_status status) c) status content
    to none e = (with_status status, refl, refl, sym e, inr (refl, refl))
    to (some thrown) e = absurd e
    to (some (returned none)) e = (with_status status, refl, refl, sym e, inr (refl, refl))
    to (some (returned (some html))) e =
        (set_body html (with_status status), refl, refl, sym e, inl refl)

    from :
        (c : Option (Result (Option Bytes)))
        → Responds (with_content (with_status status) c) status content
        → IsPage c content
    from none (r, e, p, q, z) = rw (← q, ← returned-injective (with_status status) r e) refl
    from (some thrown) (r, e, p, q, z) = cc
    from (some (returned none)) (r, e, p, q, z) =
        rw (← q, ← returned-injective (with_status status) r e) refl
    from (some (returned (some html))) (r, e, p, q, z) =
        rw (← q, ← returned-injective (set_body html (with_status status)) r e) refl

-- The status is what was set.
same_status :
    (status n : ℕ) (c : Option (Result (Option Bytes))) (content : Bytes)
    → Responds (with_content (with_status status) c) n content
    → status ≡ n
unfolding with_status set_body
same_status status n none content (r, e, p, q, z) =
    ap (λ (x : HttpResponse). x.status) (returned-injective (with_status status) r e) ∙ p
same_status status n (some thrown) content (r, e, p, q, z) = cc
same_status status n (some (returned none)) content (r, e, p, q, z) =
    ap (λ (x : HttpResponse). x.status) (returned-injective (with_status status) r e) ∙ p
same_status status n (some (returned (some html))) content (r, e, p, q, z) =
    ap (λ (x : HttpResponse). x.status)
      (returned-injective (set_body html (with_status status)) r e)
    ∙ p

module _ (files : Files) (request : HttpRequest) where
  Offers-Responds :
      (status : ℕ) (content : Bytes)
      → Offers files request.path status content
      → Responds (route files request) status content
  unfolding route
  Offers-Responds _ _ (found cwd content e x d p) = rw (e, x, d) ((page_lem 200 _ content).0 p)
  Offers-Responds _ _ (absent cwd content e x p) = rw (e, x) ((page_lem 404 _ content).0 p)
  Offers-Responds _ _ (no_directory cwd content e x d p) =
      rw (e, x, d) ((page_lem 404 _ content).0 p)

  -- A page that was sent with one status is the page of that status.
  read_page :
      (code status : ℕ) (c : Option (Result (Option Bytes))) (content : Bytes)
      → (IsPage c content → Offers files request.path code content)
      → Responds (with_content (with_status code) c) status content
      → Offers files request.path status content
  read_page code status c content f h =
      let e = same_status code status c content h in
      subst (λ n. Offers files request.path n content) e
        (f ((page_lem code c content).1 (h.0, h.1, at_code h.2, h.3, h.4)))
    where
      at_code : {n : ℕ} → n ≡ status → n ≡ code
      at_code k = k ∙ sym (same_status code status c content h)

  in_directory :
      (status : ℕ) (content cwd : Bytes)
      → files.current_path ≡ returned cwd
      → (x d : Result Bool) → files.exists (root_path cwd ++ request.path) ≡ x
      → files.is_directory (root_path cwd ++ request.path) ≡ d
      → Responds
          (and_then
            (and_then x (λ f. if f then d else returned false))
            (answer_at files cwd (root_path cwd ++ request.path)))
          status
          content
      → Offers files request.path status content
  in_directory status content cwd e thrown d x q (r, p, a, b, z) = cc
  in_directory status content cwd e (returned true) thrown x q (r, p, a, b, z) = cc
  in_directory status content cwd e (returned true) (returned true) x q h =
      read_page 200 status _ content (λ p. Offers.found cwd content e x q p) h
  in_directory status content cwd e (returned true) (returned false) x q h =
      read_page 404 status _ content (λ p. Offers.no_directory cwd content e x q p) h
  in_directory status content cwd e (returned false) d x q h =
      read_page 404 status _ content (λ p. Offers.absent cwd content e x p) h

  Responds-Offers :
      (status : ℕ) (content : Bytes) (c : Result Bytes)
      → files.current_path ≡ c
      → Responds (route files request) status content
      → Offers files request.path status content
  unfolding route
  Responds-Offers status content thrown e h = none_thrown (rw e at h)
    where
      none_thrown : Responds thrown status content → Offers files request.path status content
      none_thrown (r, p, a, b, z) = cc
  Responds-Offers status content (returned cwd) e h =
      in_directory status content cwd e _ _ refl refl (rw e at h)

  -- The router answers with a status and a body exactly if the files offer them for the path that
  -- is requested; the answer has the length of its body as its one header, or neither. (Where a
  -- call of the file system throws, they offer nothing.)
  pub route_lem :
      (status : ℕ) (content : Bytes)
      → Offers files request.path status content ↔ Responds (route files request) status content
  route_lem status content =
      (Offers-Responds status content, Responds-Offers status content files.current_path refl)
