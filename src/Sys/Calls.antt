-- ===== src/Sys/Calls.antt =====
-- The calls, each with the event that it leaves behind.
use Prim.Native.String.{String}
use mathlib.Core.Option
use linux_network_programmin.Base.{ℕ, ℤ, Bool, List, ◌∷◌, Option, take}
use linux_network_programmin.Sys.Types.{Event, Bytes, Kernel, ok, M}

-- `report_error`: a line on standard error.
unfoldable pub report_error : String → M (Unit {0})
report_error message t = ok tt (Event.report_error message ∷ t)

unfoldable pub print_usage : M (Unit {0})
print_usage t = ok tt (Event.print_usage ∷ t)

unfoldable pub freeaddrinfo : M (Unit {0})
freeaddrinfo t = ok tt (Event.freeaddrinfo ∷ t)

unfoldable pub close : ℕ → M (Unit {0})
close fd t = ok tt (Event.close fd ∷ t)

unfoldable pub sleep : ℕ → M (Unit {0})
sleep seconds t = ok tt (Event.sleep seconds ∷ t)

module _ (os : Kernel) where
  unfoldable pub getprotobyname : M (Option ℕ)
  getprotobyname t = let r = os.on_getprotobyname t in ok r (Event.getprotobyname r ∷ t)

  -- The port in network byte order.
  unfoldable pub getservbyname : M (Option ℕ)
  getservbyname t = let r = os.on_getservbyname t in ok r (Event.getservbyname r ∷ t)

  -- A host, NULL for any, and a port.
  unfoldable pub getaddrinfo : Option Bytes → Bytes → M (Option (List ℕ))
  getaddrinfo host port t =
      let r = os.on_getaddrinfo t host port in ok r (Event.getaddrinfo host port r ∷ t)

  unfoldable pub socket : M ℤ
  socket t = let r = os.on_socket t in ok r (Event.socket r ∷ t)

  unfoldable pub fcntl_getfl : ℕ → M ℤ
  fcntl_getfl fd t = let r = os.on_getfl t fd in ok r (Event.fcntl_getfl fd r ∷ t)

  unfoldable pub fcntl_setfl : ℕ → ℕ → M ℤ
  fcntl_setfl fd flags t = let r = os.on_setfl t fd flags in ok r (Event.fcntl_setfl fd flags r ∷ t)

  unfoldable pub setsockopt : ℕ → M ℤ
  setsockopt fd t = let r = os.on_setsockopt t fd in ok r (Event.setsockopt fd r ∷ t)

  unfoldable pub bind : ℕ → ℕ → M ℤ
  bind fd addr t = let r = os.on_bind t fd addr in ok r (Event.bind fd addr r ∷ t)

  unfoldable pub connect : ℕ → ℕ → M ℤ
  connect fd addr t = let r = os.on_connect t fd addr in ok r (Event.connect fd addr r ∷ t)

  unfoldable pub listen : ℕ → ℕ → M ℤ
  listen fd backlog t = let r = os.on_listen t fd backlog in ok r (Event.listen fd backlog r ∷ t)

  unfoldable pub accept : ℕ → M ℤ
  accept fd t = let r = os.on_accept t fd in ok r (Event.accept fd r ∷ t)

  -- The result, and which indices of the array have POLLIN.
  unfoldable pub poll : List ℕ → M (ℤ × (ℕ → Bool))
  poll fds t = let r = os.on_poll t fds in ok (r, os.poll_in t fds) (Event.poll r ∷ t)

  -- The result, and which descriptors stay in the set.
  unfoldable pub select : ℕ → M (ℤ × (ℕ → Bool))
  select nfds t = let r = os.on_select t nfds in ok (r, os.select_in t) (Event.select r ∷ t)

  -- At most `len` bytes; `none` for -1.
  unfoldable pub recv : ℕ → ℕ → M (Option Bytes)
  recv fd len t = let r = Option.map (take len) (os.on_recv t fd) in ok r (Event.recv fd len r ∷ t)

  unfoldable pub send : ℕ → Bytes → M ℤ
  send fd bytes t = let r = os.on_send t fd bytes in ok r (Event.send fd bytes r ∷ t)

  -- At most `size - 1` bytes of the next line; `none` for NULL.
  unfoldable pub fgets : ℕ → M (Option Bytes)
  fgets room t = let r = Option.map (take room) (os.on_fgets t) in ok r (Event.fgets room r ∷ t)

  unfoldable pub time : M ℕ
  time t = let r = os.on_time t in ok r (Event.time r ∷ t)

  -- A look at `errno`: it changes nothing.
  unfoldable pub errno_would_block : M Bool
  errno_would_block t = ok (os.would_block t) t

  -- A thread that serves a client.
  unfoldable pub pthread_create : ℕ → M ℤ
  pthread_create fd t = let r = os.on_pthread_create t in ok r (Event.pthread_create fd r ∷ t)

  unfoldable pub pthread_detach : M ℤ
  pthread_detach t = let r = os.on_pthread_detach t in ok r (Event.pthread_detach r ∷ t)

  -- At most `len` bytes of a datagram, and its sender.
  unfoldable pub recvfrom : ℕ → ℕ → M (Option (Bytes × ℕ))
  recvfrom fd len t =
      let r = Option.map (λ (d : Bytes × ℕ). (take len d.0, d.1)) (os.on_recvfrom t fd) in
      ok r (Event.recvfrom fd len r ∷ t)

  unfoldable pub sendto : ℕ → Bytes → ℕ → M ℤ
  sendto fd bytes addr t =
      let r = os.on_sendto t fd bytes addr in ok r (Event.sendto fd bytes addr r ∷ t)
