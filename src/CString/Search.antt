-- ===== src/CString/Search.antt =====
-- `strstr(s, p)`: what starts at the first occurrence of `p` in `s`.
use linux_network_programmin.Base.{
  ◌≤◌, ◌≡◌, refl, ap, sym, ◌∙◌, Bool, true, false, ◌&&◌, [], ◌∷◌, ◌++◌, Option, none, some, arith,
  if◌then◌else◌, ◌==◌, length, Bool-cases, inl, inr, length-append,
}
use linux_network_programmin.Sys.{Bytes}

pub starts_with : Bytes → Bytes → Bool
starts_with s [] = true
starts_with [] (c ∷ p) = false
starts_with (d ∷ s) (c ∷ p) = d == c && starts_with s p

unfoldable pub strstr : Bytes → Bytes → Option Bytes
unfolding starts_with
strstr [] p = if starts_with [] p then some [] else none
strstr (c ∷ s) p = let rest = strstr s p in if starts_with (c ∷ s) p then some (c ∷ s) else rest

starts_with-append : (p w : Bytes) → starts_with (p ++ w) p ≡ true
unfolding starts_with
starts_with-append [] [] = refl
starts_with-append [] (c ∷ w) = refl
starts_with-append (c ∷ p) w = ground (arith, starts_with-append p w)

starts_with-split : (s p : Bytes) → starts_with s p ≡ true → (w : Bytes) × (s ≡ p ++ w)
unfolding starts_with
starts_with-split s [] h = (s, refl)
starts_with-split [] (c ∷ p) h = cc
starts_with-split (d ∷ s) (c ∷ p) h = go (starts_with-split s p (ground arith))
  where
    go : (w : Bytes) × (s ≡ p ++ w) → (w : Bytes) × (d ∷ s ≡ c ∷ (p ++ w))
    go (w, e) = (w, ground arith)

-- Where `strstr` points, the text that was looked for stands.
pub strstr-split :
    (s p : Bytes) {u : Bytes}
    → strstr s p ≡ some u
    → (v : Bytes) × (w : Bytes) × (u ≡ p ++ w) × (s ≡ v ++ u)
unfolding strstr
strstr-split [] p {u} h = elim (Bool-cases (starts_with [] p)) [
  | inl hit ↦ found hit (ground arith)
  | inr miss ↦ absurd (ground arith)
]
  where
    found :
        starts_with [] p ≡ true → u ≡ [] → (v : Bytes) × (w : Bytes) × (u ≡ p ++ w) × ([] ≡ v ++ u)
    found hit e = let (w, q) = starts_with-split [] p hit in ([], w, e ∙ q, sym e)
strstr-split (c ∷ s) p {u} h = elim (Bool-cases (starts_with (c ∷ s) p)) [
  | inl hit ↦ found hit (ground arith)
  | inr miss ↦ later (strstr-split s p (ground arith))
]
  where
    found :
        starts_with (c ∷ s) p ≡ true
        → u ≡ c ∷ s
        → (v : Bytes) × (w : Bytes) × (u ≡ p ++ w) × (c ∷ s ≡ v ++ u)
    found hit e = let (w, q) = starts_with-split (c ∷ s) p hit in ([], w, e ∙ q, sym e)

    later :
        (v : Bytes) × (w : Bytes) × (u ≡ p ++ w) × (s ≡ v ++ u)
        → (v : Bytes) × (w : Bytes) × (u ≡ p ++ w) × (c ∷ s ≡ v ++ u)
    later (v, w, e, q) = (c ∷ v, w, e, ap (◌∷◌ c) q)

strstr-starts_with : (s p : Bytes) → starts_with s p ≡ true → strstr s p ≡ some s
unfolding strstr
strstr-starts_with [] p h = ground arith
strstr-starts_with (c ∷ s) p h = ground arith

-- It finds an occurrence if there is one, and none that comes later.
pub strstr-first :
    (v p w : Bytes)
    → (u : Bytes) × (strstr (v ++ (p ++ w)) p ≡ some u) × (length (p ++ w) ≤ length u)
unfolding strstr
strstr-first [] p w = (p ++ w, strstr-starts_with (p ++ w) p (starts_with-append p w), omega arith)
strstr-first (c ∷ v) p w = elim (Bool-cases (starts_with (c ∷ (v ++ (p ++ w))) p)) [
  | inl hit ↦ (
    c ∷ (v ++ (p ++ w)),
    strstr-starts_with (c ∷ (v ++ (p ++ w))) p hit,
    omega (arith, length-append v (p ++ w)),
  )
  | inr miss ↦ later (strstr-first v p w) miss
]
  where
    later :
        (u : Bytes) × (strstr (v ++ (p ++ w)) p ≡ some u) × (length (p ++ w) ≤ length u)
        → starts_with (c ∷ (v ++ (p ++ w))) p ≡ false
        → (u : Bytes) × (strstr (c ∷ (v ++ (p ++ w))) p ≡ some u) × (length (p ++ w) ≤ length u)
    later (u, e, h) miss = (u, ground arith, h)
