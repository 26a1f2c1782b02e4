-- ===== src/FirstSteps/Single.antt =====
-- `main` of 00_tutorials/01_create_a_socket.c, 03_resolve_port_number.c and
-- 04_connect_http_server.c. A protocol that is not found is a NULL that they read through.
use linux_network_programmin.Base.{
  ℕ, ◌≡◌, ◌≢◌, refl, ap, ◌⊎◌, inl, inr, ℤ, pos, negsuc, is_nonzero, List, [], ◌∷◌, Option, none,
  some, if◌then◌else◌, arith, Option-cases,
}
use linux_network_programmin.Sys.{
  Bytes, Kernel, Event, Trace, M, pure, raise_fault, ◌>>=◌, ◌>>◌, checked, report_error,
  freeaddrinfo, close, getprotobyname, getservbyname, getaddrinfo, socket, connect,
}
use linux_network_programmin.Sys.Loop.{Total, Total-if}
use linux_network_programmin.Sys.Resources.{open_fds, open_addrs, erase_head}
use linux_network_programmin.Socket.Listen.Laws.{SameOpen, ResolvesSome}
use linux_network_programmin.CString.{text}
use linux_network_programmin.FirstSteps.Send.{cpp_hostname}

-- A socket that was made is closed.
closing : ℤ → M ℤ
closing (negsuc n) = pure (pos 0)
closing (pos fd_sock) = do close fd_sock; pure (pos 0)

-- The service is found or not.
service_status : Option ℕ → M ℤ
service_status none = do report_error "Can not resolve service http"; pure (negsuc 0)
service_status (some s_port) = pure (pos 0)

module _ (os : Kernel) where
  unfoldable pub create_main : M ℤ
  unfolding closing
  create_main = do
    proto ← getprotobyname os
    p_proto ← checked proto
    fd_sock ← socket os
    closing fd_sock

  unfoldable pub port_main : M ℤ
  unfolding service_status
  port_main = do
    proto ← getprotobyname os
    p_name ← checked proto
    service ← getservbyname os
    service_status service

  -- The address is copied before the list is freed.
  reach : ℕ → Option (List ℕ) → M ℤ
  reach sock_fd none = do report_error "getaddrinfo() failed"; pure (negsuc 0)
  reach sock_fd (some []) = raise_fault
  reach sock_fd (some (addr ∷ rest)) = do
    freeaddrinfo
    rc ← connect os sock_fd addr
    if is_nonzero rc
        then (do report_error "connect() failed"; pure (negsuc 0))
        else (do close sock_fd; pure (pos 0))

  resolving : ℤ → M ℤ
  unfolding reach
  resolving (negsuc n) = do report_error "socket() return invalid fd"; pure (negsuc 0)
  resolving (pos sock_fd) = do
    addrs ← getaddrinfo os (some cpp_hostname) (text "80")
    reach sock_fd addrs

  unfoldable pub connect_main : M ℤ
  unfolding resolving
  connect_main = do
    proto ← getprotobyname os
    p_proto ← checked proto
    sock_fd ← socket os
    resolving sock_fd

-- The protocol database knows TCP.
abbrev pub ProtocolKnown : Kernel → Type 0
ProtocolKnown os = (t : Trace) → os.on_getprotobyname t ≢ none

-- With status 0 nothing is left open, and with status -1 nothing or the socket.
abbrev pub Tried : Trace → ℤ → Trace → Type 0
Tried t (pos status) u = (status ≡ 0) × SameOpen t u
Tried t (negsuc n) u =
    (n ≡ 0)
    × (SameOpen t u ⊎ ((fd : ℕ) × (open_fds u ≡ fd ∷ open_fds t) × (open_addrs u ≡ open_addrs t)))

module _ (os : Kernel) where
  -- Program 04, from any trace, has no undefined behaviour. With status 0 it leaves nothing open,
  -- and with the status -1 of an early return nothing or its socket. (The protocol is known, and a
  -- success of the resolver names an address.)
  pub connect_main_lem :
      ProtocolKnown os → ResolvesSome os → (t : Trace) → Total (Tried t) (connect_main os t)
  unfolding connect_main getprotobyname socket getaddrinfo report_error freeaddrinfo connect close
  connect_main_lem known some_addr t = elim (Option-cases (os.on_getprotobyname t)) [
    | inl null ↦ absurd (known t null)
    | inr (proto, e) ↦
        rw (e, connect_main)
          (made (os.on_socket _) (Event.getprotobyname (some proto) ∷ t) refl refl)
  ]
    where
      reached :
          (fd : ℕ) (r : Option (List ℕ)) (u : Trace) (host : Option Bytes) (port : Bytes)
          → r ≢ some []
          → open_fds u ≡ fd ∷ open_fds t
          → open_addrs u ≡ open_addrs t
          → Total (Tried t) (reach os fd r (Event.getaddrinfo host port r ∷ u))
      reached fd none u host port ne h k = (refl, inr (fd, h, k))
      reached fd (some []) u host port ne h k = absurd (ne refl)
      reached fd (some (a ∷ rest)) u host port ne h k =
          Total-if (Tried t) (is_nonzero (os.on_connect _ fd a)) _ _ _
            (λ _. (refl, inr (fd, h, omega (arith, k))))
            (λ _. (refl, (rw h (erase_head fd (open_fds t)), omega (arith, k))))

      made :
          (r : ℤ) (u : Trace)
          → open_fds u ≡ open_fds t
          → open_addrs u ≡ open_addrs t
          → Total (Tried t) (resolving os r (Event.socket r ∷ u))
      made (negsuc n) u h k = (refl, inl (h, k))
      made (pos fd) u h k = reached fd _ _ _ _ (some_addr _ _ _) (ap (◌∷◌ fd) h) k
