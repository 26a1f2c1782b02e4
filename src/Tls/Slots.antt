-- ===== src/Tls/Slots.antt =====
-- The arrays `fds` and `arr_ssl` of `run_server` in
-- 01_networking_libraries/openssl/src/ssl_client_server.c, as one array of slots.
pub mod Laws
pub mod Changes
use linux_network_programmin.Base.{
  ℕ, zero, suc, ◌+◌, ◌-◌, Bool, true, false, ◌&&◌, List, [], ◌∷◌, ◌++◌, Option, none, some, get_or,
  set, replicate,
}
use linux_network_programmin.Socket.Listen.{max_connection}

-- `fds[i]`, with the POLLIN bit of its two masks, and `arr_ssl[i]`: -1 and NULL are `none`.
pub record Slot : Type 0 where
  pub fd : Option ℕ
  pub events : Bool
  pub revents : Bool
  pub ssl : Option ℕ

abbrev pub free_slot : Slot
free_slot = record { fd = none; events = false; revents = false; ssl = none }

pub record Slots : Type 0 where
  pub slots : List Slot
  pub nfds : ℕ

abbrev pub slot_at : Slots → ℕ → Slot
slot_at s i = get_or s.slots i free_slot

-- The arrays at the head of the loop.
unfoldable pub initial_slots : ℕ → ℕ → Slots
initial_slots sock_server handle = record {
  slots =
      record { fd = some sock_server; events = true; revents = false; ssl = some handle }
      ∷ replicate (max_connection - 1) free_slot;
  nfds = 1;
}

-- What is there of an optional field, over the slots.
abbrev pub opt : Option ℕ → List ℕ
opt none = []
opt (some a) = a ∷ []

abbrev pub present : (Slot → Option ℕ) → List Slot → List ℕ
present f [] = []
present f (p ∷ slots) = opt (f p) ++ present f slots

-- `poll` gives no event to an entry whose descriptor is negative.
abbrev pub polled : Option ℕ → Bool → Bool
polled none ready = false
polled (some fd) ready = ready

-- What `poll` writes over all of the array.
unfoldable pub poll_slots : (ℕ → Bool) → ℕ → List Slot → List Slot
poll_slots ready i [] = []
poll_slots ready i (p ∷ slots) =
    record p { revents = polled p.fd (p.events && ready i) } ∷ poll_slots ready (i + 1) slots

-- A client in slot `nfds`, with `nfds++`.
unfoldable pub take_slot : Slots → ℕ → ℕ → Slots
take_slot s fd handle = record {
  slots =
      set s.slots s.nfds
        (record (slot_at s s.nfds) { fd = some fd; events = true; ssl = some handle });
  nfds = s.nfds + 1;
}

-- Slot `nfds` after a client whose `SSL_accept` failed.
unfoldable pub undo_slot : Slots → Slots
undo_slot s = record s {
  slots = set s.slots s.nfds (record (slot_at s s.nfds) { fd = none; events = true; ssl = none });
}

-- The last slot in use moves into slot `i`, and is cleared.
unfoldable pub drop_slot : Slots → ℕ → Slots
drop_slot s i =
    let last = slot_at s (s.nfds - 1) in
    let moved = set s.slots i (record (slot_at s i) { fd = last.fd; ssl = last.ssl }) in
    record {
      slots =
          set moved (s.nfds - 1)
            (record (get_or moved (s.nfds - 1) free_slot) { fd = none; ssl = none });
      nfds = s.nfds - 1;
    }
