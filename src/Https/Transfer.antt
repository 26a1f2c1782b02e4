-- ===== src/Https/Transfer.antt =====
-- What the receiving loop of the HTTPS client collects, and the text that it then prints.
use mathlib.Core.Option
use linux_network_programmin.Base.{
  ℕ, zero, suc, ◌+◌, ◌-◌, ◌≤◌, ◌<◌, ◌≡◌, refl, ap, sym, ◌∙◌, [], ◌∷◌, ◌++◌, Option, none, some,
  arith, length, take, drop, set, replicate, length-append, length-drop, length-replicate,
  append-nil, append_assoc, length-take, ◌==◌, if◌then◌else◌,
}
use linux_network_programmin.Sys.{Bytes, Kernel, Event, Trace, M, pure}
use linux_network_programmin.Sys.Tls.{ssl_read}
use linux_network_programmin.Sys.Loop.{Total, Total-mono}
use linux_network_programmin.CString.{zeroed, fill, put_nul, upto_nul}
use linux_network_programmin.CString.Laws.{c_string-append-zero}
use linux_network_programmin.Socket.Listen.Laws.{SameBooks}
use linux_network_programmin.Sys.Resources.{writes}
use linux_network_programmin.Https.{response_size, read_loop, response_text}

-- The bytes that the program has taken from a handle, in order.
abbrev taken : ℕ → Event → Bytes → Bytes
taken handle (Event.ssl_read handle' len (some bytes)) before =
    if handle' == handle then before ++ bytes else before
taken handle _ before = before

abbrev pub records : ℕ → Trace → Bytes
records handle [] = []
records handle (e ∷ t) = taken handle e (records handle t)

-- The last call was an `SSL_read` that gave nothing.
abbrev pub ReadEnded : Trace → Type 0
ReadEnded (Event.ssl_read handle len none ∷ t) = Unit
ReadEnded (Event.ssl_read handle len (some []) ∷ t) = Unit
ReadEnded _ = ⊥

abbrev pub Collected : ℕ → Bytes → Trace → Bytes → Trace → Type 0
Collected handle got t r u =
    (x : Bytes) × (r ≡ got ++ x)
    × (records handle u ≡ records handle t ++ x)
    × (length r ≤ response_size)
    × ReadEnded u
    × (writes u ≡ writes t)
    × SameBooks t u

module _ (os : Kernel) (handle : ℕ) where
  read_loop-Collected :
      (rounds : ℕ) (got : Bytes) (t : Trace)
      → length got ≤ response_size
      → response_size < length got + rounds
      → Total (Collected handle got t) (read_loop os rounds handle got t)
  unfolding read_loop ssl_read
  read_loop-Collected zero got t h k = absurd (omega arith)
  read_loop-Collected (suc rounds) got t h k =
      reading (os.on_ssl_read t handle) (λ x u. read_loop-Collected rounds (got ++ x) u)
    where
      Next : Type 0
      Next =
          (x : Bytes) (u : Trace)
          → length (got ++ x) ≤ response_size
          → response_size < length (got ++ x) + rounds
          → Total (Collected handle (got ++ x) u) (read_loop os rounds handle (got ++ x) u)

      none_more :
          (r : Option Bytes)
          → ReadEnded (Event.ssl_read handle (response_size - length got) r ∷ t)
          → records handle (Event.ssl_read handle (response_size - length got) r ∷ t)
            ≡ records handle t ++ []
          → Collected handle got t got (Event.ssl_read handle (response_size - length got) r ∷ t)
      none_more r e q =
          ([], sym (append-nil got), q, h, e, refl, (refl, refl, refl, refl, λ n. refl))

      took :
          (ys : Bytes)
          → records handle (Event.ssl_read handle (response_size - length got) (some ys) ∷ t)
            ≡ records handle t ++ ys
      took ys = ground arith

      more :
          (bytes : Bytes)
          → length bytes ≤ response_size - length got
          → Next
          → Total (Collected handle got t) (
              (elim bytes as (λ _. M Bytes) [
                | [] ↦ pure got
                | b ∷ rest ↦ read_loop os rounds handle (got ++ (b ∷ rest))
              ])
                (Event.ssl_read handle (response_size - length got) (some bytes) ∷ t))
      more [] fits next = none_more (some []) tt (took [])
      more (b ∷ bytes) fits next =
          let u = Event.ssl_read handle (response_size - length got) (some (b ∷ bytes)) ∷ t in
          Total-mono (Collected handle (got ++ (b ∷ bytes)) u) (Collected handle got t)
            (read_loop os rounds handle (got ++ (b ∷ bytes)) u)
            (λ r v (x, p, q, l, e, w, s). (
              (b ∷ bytes) ++ x,
              p ∙ append_assoc got (b ∷ bytes) x,
              q
                  ∙ ap (λ y. y ++ x) (took (b ∷ bytes))
                  ∙ append_assoc (records handle t) (b ∷ bytes) x,
              l,
              e,
              w,
              s,
            ))
            (next (b ∷ bytes) u (omega (arith, length-append got (b ∷ bytes)))
              (omega (arith, length-append got (b ∷ bytes))))

      reading :
          (r : Option Bytes)
          → Next
          → Total (Collected handle got t) (
              (elim (Option.map (take (response_size - length got)) r) as (λ _. M Bytes) [
                | none ↦ pure got
                | some bytes ↦ elim bytes [
                  | [] ↦ pure got
                  | b ∷ rest ↦ read_loop os rounds handle (got ++ (b ∷ rest))
                ]
              ])
                (Event.ssl_read handle
                    (response_size - length got)
                    (Option.map (take (response_size - length got)) r)
                  ∷ t))
      reading none next = none_more none tt (sym (append-nil (records handle t)))
      reading (some waiting) next =
          more (take (response_size - length got) waiting)
            (omega (arith, length-take (response_size - length got) waiting)) next

set-append :
    (xs : Bytes) (y : ℕ) (ys : Bytes) (v : ℕ) → set (xs ++ (y ∷ ys)) (length xs) v ≡ xs ++ (v ∷ ys)
set-append [] y ys v = refl
set-append (x ∷ xs) y ys v = ap (◌∷◌ x) (set-append xs y ys v)

-- The receiving loop ends by its own test within `RESPONSE_SIZE + 1` rounds, at an `SSL_read` that
-- gives nothing; its result is all that it took from the handle, in order, and fits the array.
pub read_loop_lem :
    (os : Kernel) (handle : ℕ) (t : Trace)
    → Total
        (λ r u.
          (records handle u ≡ records handle t ++ r)
          × (length r ≤ response_size)
          × ReadEnded u
          × (writes u ≡ writes t)
          × SameBooks t u)
        (read_loop os (suc response_size) handle [] t)
read_loop_lem os handle t =
    Total-mono (Collected handle [] t) _ (read_loop os (suc response_size) handle [] t)
      (λ r u (x, p, q, l, e, w, s). (rw p q, l, e, w, s))
      (read_loop-Collected os handle (suc response_size) [] t (omega arith) (omega arith))

-- The NUL goes behind what was received, whatever the array holds there.
put_nul-fill :
    (buffer got : Bytes)
    → length got < length buffer
    → (rest : Bytes) × (put_nul (fill buffer got) (length got) ≡ some (got ++ (0 ∷ rest)))
unfolding put_nul fill
put_nul-fill buffer got h =
    go (drop (length got) buffer) (omega (arith, length-drop (length got) buffer))
  where
    go :
        (ys : Bytes)
        → 0 < length ys
        → (rest : Bytes) × (put_nul (got ++ ys) (length got) ≡ some (got ++ (0 ∷ rest)))
    go [] k = absurd (omega arith)
    go (y ∷ ys) k = (ys, ground (arith, length-append got (y ∷ ys), set-append got y ys 0))

-- Every response that fits in the first 4096 bytes is printed up to its first NUL.
pub response_text_lem :
    (spare : ℕ) (got : Bytes)
    → length got ≤ response_size
    → response_text spare got ≡ some (upto_nul got)
unfolding response_text zeroed
response_text_lem spare got h =
    let array = replicate response_size 0 ++ (spare ∷ []) in
    let stored = put_nul-fill array got (
      omega (
        arith,
        length-append (replicate response_size 0) (spare ∷ []),
        length-replicate {A = ℕ} response_size 0,
      )) in
    rw (stored.1, response_text) (c_string-append-zero got stored.0)
