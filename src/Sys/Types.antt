-- ===== src/Sys/Types.antt =====
-- Events, traces, the kernel's answers, and the state monad of the programs.
use Prim.Native.String.{String}
use linux_network_programmin.Base.{ℕ, ℤ, Bool, List, Option}

abbrev pub Bytes : Type 0
Bytes = List ℕ

-- A call with its arguments (a file descriptor first) and its result.
pub data Event : Type 0 where
  getprotobyname : Option ℕ → Event
  getservbyname : Option ℕ → Event
  getaddrinfo : Option Bytes → Bytes → Option (List ℕ) → Event
  freeaddrinfo : Event
  socket : ℤ → Event
  fcntl_getfl : ℕ → ℤ → Event
  fcntl_setfl : ℕ → ℕ → ℤ → Event
  setsockopt : ℕ → ℤ → Event
  bind : ℕ → ℕ → ℤ → Event
  connect : ℕ → ℕ → ℤ → Event
  listen : ℕ → ℕ → ℤ → Event
  accept : ℕ → ℤ → Event
  poll : ℤ → Event
  select : ℤ → Event
  recv : ℕ → ℕ → Option Bytes → Event
  send : ℕ → Bytes → ℤ → Event
  close : ℕ → Event
  fgets : ℕ → Option Bytes → Event
  time : ℕ → Event
  report_error : String → Event
  print_usage : Event
  -- A thread for a client's descriptor.
  pthread_create : ℕ → ℤ → Event
  pthread_detach : ℤ → Event
  -- Datagrams, with the address of the other side.
  recvfrom : ℕ → ℕ → Option (Bytes × ℕ) → Event
  sendto : ℕ → Bytes → ℕ → ℤ → Event
  sleep : ℕ → Event
  ssl_ctx_new : Option ℕ → Event
  ssl_ctx_free : Event
  ssl_use_certificate : ℤ → Event
  ssl_use_private_key : ℤ → Event
  ssl_new : Option ℕ → Event
  ssl_set_fd : ℕ → ℕ → Event
  ssl_accept : ℕ → ℤ → Event
  ssl_connect : ℕ → ℤ → Event
  ssl_read : ℕ → ℕ → Option Bytes → Event
  ssl_write : ℕ → Bytes → ℤ → Event
  ssl_shutdown : ℕ → Event
  ssl_free : ℕ → Event

abbrev pub Trace : Type 0
Trace = List Event

-- What the system answers to each call after a trace. A pointer that may be NULL and a result
-- that may be negative with nothing beside it are options; addresses are opaque numbers.
pub record Kernel : Type 0 where
  pub on_getprotobyname : Trace → Option ℕ
  pub on_getservbyname : Trace → Option ℕ
  pub on_getaddrinfo : Trace → Option Bytes → Bytes → Option (List ℕ)
  pub on_socket : Trace → ℤ
  pub on_getfl : Trace → ℕ → ℤ
  pub on_setfl : Trace → ℕ → ℕ → ℤ
  pub on_setsockopt : Trace → ℕ → ℤ
  pub on_bind : Trace → ℕ → ℕ → ℤ
  pub on_connect : Trace → ℕ → ℕ → ℤ
  pub on_listen : Trace → ℕ → ℕ → ℤ
  pub on_accept : Trace → ℕ → ℤ
  -- The result of `poll`, and whether POLLIN is set for each index of the array.
  pub on_poll : Trace → List ℕ → ℤ
  pub poll_in : Trace → List ℕ → ℕ → Bool
  -- The result of `select`, and which descriptors it leaves in its set.
  pub on_select : Trace → ℕ → ℤ
  pub select_in : Trace → ℕ → Bool
  -- The bytes that wait at a socket; `recv` delivers as many as its length argument allows.
  pub on_recv : Trace → ℕ → Option Bytes
  pub on_send : Trace → ℕ → Bytes → ℤ
  -- The next line of standard input, its end of line included; `none` at the end of the input.
  pub on_fgets : Trace → Option Bytes
  pub on_time : Trace → ℕ
  -- `errno == EAGAIN || errno == EWOULDBLOCK` after a call that failed.
  pub would_block : Trace → Bool
  pub on_pthread_create : Trace → ℤ
  pub on_pthread_detach : Trace → ℤ
  -- The next datagram with its sender; `recvfrom` delivers what fits.
  pub on_recvfrom : Trace → ℕ → Option (Bytes × ℕ)
  pub on_sendto : Trace → ℕ → Bytes → ℕ → ℤ
  -- OpenSSL: contexts and handles are opaque numbers; `none` is NULL, or a result that is not
  -- positive.
  pub on_ssl_ctx_new : Trace → Option ℕ
  pub on_ssl_use_certificate : Trace → ℤ
  pub on_ssl_use_private_key : Trace → ℤ
  pub on_ssl_new : Trace → Option ℕ
  pub on_ssl_accept : Trace → ℕ → ℤ
  pub on_ssl_connect : Trace → ℕ → ℤ
  pub on_ssl_read : Trace → ℕ → Option Bytes
  pub on_ssl_write : Trace → ℕ → Bytes → ℤ

pub data Run (A : Type 0) : Type 0 where
  ok : A → Trace → Run A
  fault : Run A

abbrev pub M : Type 0 → Type 0
M A = Trace → Run A

abbrev pub pure : {A : Type 0} → A → M A
pure a t = ok a t

abbrev pub raise_fault : {A : Type 0} → M A
raise_fault t = fault

infixl 5 ◌>>=◌ ◌>>◌
abbrev pub ◌>>=◌ : {A B : Type 0} → M A → (A → M B) → M B
◌>>=◌ m f t = elim (m t) [ ok a t' ↦ f a t' | fault ↦ fault ]

abbrev pub ◌>>◌ : {B : Type 0} → M (Unit {0}) → M B → M B
m >> k = m >>= λ _. k

-- A read or write that is in bounds, or undefined behaviour.
abbrev pub checked : {A : Type 0} → Option A → M A
checked (Option.some a) = pure a
checked Option.none = raise_fault
