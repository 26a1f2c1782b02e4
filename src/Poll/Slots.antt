-- ===== src/Poll/Slots.antt =====
-- The array of `pollfd`s as the list of the descriptors in its first `nfds` slots.
use mathlib.Core.Path.{subst}
use native.Mathlib.Numerals.{add-one}
use linux_network_programmin.Base.{
  ℕ, zero, suc, ◌+◌, ◌-◌, ◌≤◌, ◌<◌, ◌≡◌, refl, ap, sym, ◌∙◌, Bool, true, List, [], ◌∷◌, ◌++◌, Perm,
  arith, length, get_or, set, take, map, length-set, length-map, length-replicate, take-set_ge,
  take-suc, get_or-set_self, get_or-set_ne,
}
use linux_network_programmin.Base.Swap.{swap_remove-perm}
use linux_network_programmin.Socket.Listen.{max_connection}
use linux_network_programmin.Poll.{
  PollFd, Server, slot, empty_slot, initial, refresh, add_client, drop_client,
}

abbrev pub fd_of : PollFd → ℕ
fd_of p = p.fd

abbrev pub table : Server → List ℕ
table s = take s.nfds (map fd_of s.fds)

-- The listening socket keeps the first slot, and the slots in use are some of the array's.
pub record IsValid (sock : ℕ) (s : Server) : Type 0 where
  pub size : length s.fds ≡ max_connection
  pub listener : (slot s 0).fd ≡ sock
  pub used : 1 ≤ s.nfds
  pub room : s.nfds ≤ max_connection

pub map-set {ℓ κ} :
    {A : Type ℓ} {B : Type κ} (f : A → B) (xs : List A) (i : ℕ) (v : A)
    → map f (set xs i v) ≡ set (map f xs) i (f v)
map-set f [] i v = refl
map-set f (x ∷ xs) zero v = refl
map-set f (x ∷ xs) (suc i) v = ap (◌∷◌ (f x)) (map-set f xs i v)

pub get_or-map {ℓ κ} :
    {A : Type ℓ} {B : Type κ} (f : A → B) (xs : List A) (i : ℕ) (d : A)
    → get_or (map f xs) i (f d) ≡ f (get_or xs i d)
get_or-map f [] i d = refl
get_or-map f (x ∷ xs) zero d = refl
get_or-map f (x ∷ xs) (suc i) d = get_or-map f xs i d

pub length-refresh :
    (ready : ℕ → Bool) (i n : ℕ) (slots : List PollFd)
    → length (refresh ready i n slots) ≡ length slots
unfolding refresh
length-refresh ready i zero slots = refl
length-refresh ready i (suc n) [] = refl
length-refresh ready i (suc n) (p ∷ slots) = ap suc (length-refresh ready (i + 1) n slots)

-- `poll` changes no descriptor.
pub map-refresh :
    (ready : ℕ → Bool) (i n : ℕ) (slots : List PollFd)
    → map fd_of (refresh ready i n slots) ≡ map fd_of slots
unfolding refresh
map-refresh ready i zero slots = refl
map-refresh ready i (suc n) [] = refl
map-refresh ready i (suc n) (p ∷ slots) = ap (◌∷◌ p.fd) (map-refresh ready (i + 1) n slots)

pub table-refresh :
    (ready : ℕ → Bool) (s : Server)
    → table (record s { fds = refresh ready 0 s.nfds s.fds }) ≡ table s
table-refresh ready s = ap (take s.nfds) (map-refresh ready 0 s.nfds s.fds)

pub refresh-IsValid :
    (sock : ℕ) (ready : ℕ → Bool) (s : Server)
    → IsValid sock s
    → IsValid sock (record s { fds = refresh ready 0 s.nfds s.fds })
refresh-IsValid sock ready s v = record {
  size = length-refresh ready 0 s.nfds s.fds ∙ v.size;
  listener =
      sym (get_or-map fd_of (refresh ready 0 s.nfds s.fds) 0 empty_slot)
      ∙ ap (λ xs. get_or xs 0 0) (map-refresh ready 0 s.nfds s.fds)
      ∙ get_or-map fd_of s.fds 0 empty_slot
      ∙ v.listener;
  used = v.used;
  room = v.room;
}

pub initial-IsValid : (sock : ℕ) → IsValid sock (initial sock)
unfolding initial
initial-IsValid sock = record {
  size = ap suc (length-replicate (max_connection - 1) empty_slot);
  listener = refl;
  used = omega arith;
  room = omega arith;
}

pub table-initial : (sock : ℕ) → table (initial sock) ≡ sock ∷ []
unfolding initial
table-initial sock = refl

pub add_client-IsValid :
    (sock fd : ℕ) (s : Server) → IsValid sock s → IsValid sock (add_client s fd)
unfolding add_client
add_client-IsValid sock fd s v = ground (
  arith,
  length-set s.fds s.nfds (record { fd = fd; events = true; revents = (slot s s.nfds).revents }),
  get_or-set_ne s.fds s.nfds 0
      (record { fd = fd; events = true; revents = (slot s s.nfds).revents }) empty_slot,
)

pub drop_client-IsValid :
    (sock i : ℕ) (s : Server) → IsValid sock s → 1 ≤ i → i < s.nfds → IsValid sock (drop_client s i)
unfolding drop_client
drop_client-IsValid sock i s v h k = ground (
  arith,
  length-set s.fds i (record (slot s i) { fd = (slot s (s.nfds - 1)).fd }),
  get_or-set_ne s.fds i 0 (record (slot s i) { fd = (slot s (s.nfds - 1)).fd }) empty_slot,
)

add_client-room :
    (fd : ℕ) (s : Server)
    → s.nfds < max_connection
    → add_client s fd ≡ record {
      fds = set s.fds s.nfds (record { fd = fd; events = true; revents = (slot s s.nfds).revents });
      nfds = s.nfds + 1;
    }
unfolding add_client
add_client-room fd s h = ground arith

pub take-set_last :
    (n v : ℕ) (xs : List ℕ) → n < length xs → take (n + 1) (set xs n v) ≡ take n xs ++ (v ∷ [])
take-set_last n v xs h =
    rw (add-one, take-suc n (set xs n v) 0 (omega (arith, length-set xs n v)))
      (rw (take-set_ge n n xs v (omega arith), get_or-set_self xs n v 0 h) refl)

-- With room in the array, a client comes to the end of the table.
pub table-add_client :
    (sock fd : ℕ) (s : Server)
    → IsValid sock s
    → s.nfds < max_connection
    → table (add_client s fd) ≡ table s ++ (fd ∷ [])
table-add_client sock fd s v h =
    rw (add_client-room fd s h, map-set)
      (take-set_last s.nfds fd (map fd_of s.fds) (omega (arith, length-map s.fds fd_of, v.size)))

-- A full array takes no client.
pub add_client-full : (fd : ℕ) (s : Server) → max_connection ≤ s.nfds → add_client s fd ≡ s
unfolding add_client
add_client-full fd s h = ground arith

-- A client that is dropped leaves the table, and nobody else does.
pub table-drop_client :
    (sock i : ℕ) (s : Server)
    → IsValid sock s
    → i < s.nfds
    → Perm ((slot s i).fd ∷ table (drop_client s i)) (table s)
unfolding drop_client
table-drop_client sock i s v h =
    rw (map-set, ← get_or-map fd_of s.fds i empty_slot)
      (rw (← get_or-map fd_of s.fds (s.nfds - 1) empty_slot) (
        subst (λ n. Perm (swapped (s.nfds - 1)) (take n (map fd_of s.fds))) (last s.nfds v.used)
          (swap_remove-perm (s.nfds - 1) i 0 (map fd_of s.fds) (omega arith)
            (omega (arith, length-map s.fds fd_of, v.size)))))
  where
    swapped : ℕ → List ℕ
    swapped m =
        get_or (map fd_of s.fds) i 0
        ∷ take m (set (map fd_of s.fds) i (get_or (map fd_of s.fds) m 0))

    last : (n : ℕ) → 1 ≤ n → suc (n - 1) ≡ n
    last n k = omega arith
