-- ===== src/Redirect/Location.antt =====
-- The host that a redirection names: what stands between "Location: " and the end of its line.
use mathlib.Core.Option.{none-ne-some, some-injective}
use linux_network_programmin.Base.{
  ◌-◌, ◌≡◌, ap, sym, ◌∙◌, [], ◌∷◌, ◌++◌, Option, none, some, arith, length, take, drop,
  length-append, take-append_length, Option-cases, inl, inr,
}
use linux_network_programmin.Sys.{Bytes}
use linux_network_programmin.CString.{text}
use linux_network_programmin.CString.Search.{strstr, strstr-split}

abbrev pub crlf : Bytes
crlf = 13 ∷ 10 ∷ []

abbrev pub moved : Bytes
moved = text "301 Moved Permanently"

abbrev pub location_key : Bytes
location_key = text "Location: "

line_of : Bytes → Option Bytes
line_of start = elim (strstr start crlf) [
  | none ↦ none
  | some end_ ↦ some (take (length start - length end_) start)
]

host_of : Option Bytes → Option Bytes
unfolding line_of
host_of none = none
host_of (some location_start) = line_of (drop 10 location_start)

-- `none` where the program does not redirect.
unfoldable pub location : Bytes → Option Bytes
unfolding host_of
location http_response = elim (strstr http_response moved) [
  | none ↦ none
  | some found ↦ host_of (strstr http_response location_key)
]

take_before : (v u : Bytes) → take (length (v ++ u) - length u) (v ++ u) ≡ v
take_before v u = rw (before) (take-append_length v u)
  where
    before : length (v ++ u) - length u ≡ length v
    before = omega (arith, length-append v u)

line_of-split :
    (s : Bytes) {host : Bytes} → line_of s ≡ some host → (w : Bytes) × (s ≡ host ++ (crlf ++ w))
unfolding line_of
line_of-split s {host} h = elim (Option-cases (strstr s crlf)) [
  | inl e ↦ absurd (none-ne-some host (rw (e, line_of) at h))
  | inr (end_, e) ↦ found end_ (rw (e, line_of) at h) (strstr-split s crlf e)
]
  where
    found :
        (end_ : Bytes)
        → some (take (length s - length end_) s) ≡ some host
        → (v : Bytes) × (w : Bytes) × (end_ ≡ crlf ++ w) × (s ≡ v ++ end_)
        → (w : Bytes) × (s ≡ host ++ (crlf ++ w))
    found end_ p (v, w, q, r) =
        let host-eq : host ≡ v = sym (some-injective _ _ p) ∙ rw r (take_before v end_) in
        (w, r ∙ rw (host-eq, q))

-- Where the program follows a redirection, the response has the text "301 Moved Permanently", and
-- the host it goes to stands in it between "Location: " and an end of line.
pub location-split :
    (s : Bytes) {host : Bytes}
    → location s ≡ some host
    → (a : Bytes) × (b : Bytes) × (v : Bytes) × (w : Bytes) × (s ≡ a ++ (moved ++ b))
      × (s ≡ v ++ (location_key ++ (host ++ (crlf ++ w))))
unfolding location
location-split s {host} h = elim (Option-cases (strstr s moved)) [
  | inl e ↦ absurd (none-ne-some host (rw (e, location) at h))
  | inr (m, e) ↦ elim (Option-cases (strstr s location_key)) [
    | inl e' ↦ absurd (none-ne-some host (rw (e, e', location, host_of) at h))
    | inr (l, e') ↦
        found m l (strstr-split s moved e) (strstr-split s location_key e')
          (line_of-split (drop 10 l) (rw (e, e', location, host_of) at h))
  ]
]
  where
    found :
        (m l : Bytes)
        → (a : Bytes) × (b : Bytes) × (m ≡ moved ++ b) × (s ≡ a ++ m)
        → (v : Bytes) × (u : Bytes) × (l ≡ location_key ++ u) × (s ≡ v ++ l)
        → (w : Bytes) × (drop 10 l ≡ host ++ (crlf ++ w))
        → (a : Bytes) × (b : Bytes) × (v : Bytes) × (w : Bytes) × (s ≡ a ++ (moved ++ b))
          × (s ≡ v ++ (location_key ++ (host ++ (crlf ++ w))))
    found m l (a, b, p, q) (v, u, p', q') (w, r) = (
      a,
      b,
      v,
      w,
      q ∙ ap (◌++◌ a) p,
      q' ∙ ap (◌++◌ v) (p' ∙ ap (◌++◌ location_key) (sym (ap (drop 10) p') ∙ r)),
    )
