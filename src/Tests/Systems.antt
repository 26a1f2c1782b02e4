-- ===== src/Tests/Systems.antt =====
-- Systems that answer every call in one way, and a table of the poll server.
use linux_network_programmin.Base.{pos, true, [], ◌∷◌, ◌++◌, some, arith, length, replicate}
use mathlib.Core.Option.{some-injective}
use linux_network_programmin.Sys.{Kernel}
use linux_network_programmin.CString.{text}
use linux_network_programmin.Socket.Listen.Laws.{ResolvesSome}
use linux_network_programmin.Poll.Clients.{ShortMessages}
use linux_network_programmin.Redirect.Transfer.Laws.{SendsWithin}
use linux_network_programmin.Select.Accounts.{AcceptsSmall}
use linux_network_programmin.Tls.Server.Events.{HandlesMade, ShortRecords}
use linux_network_programmin.Select.Run.{SocketsSmall}

-- Every call succeeds; each client sends "quit", and the user types it.
abbrev pub quitting : Kernel
quitting = record {
  on_getprotobyname = λ t. some 6;
  on_getservbyname = λ t. some 20480;
  on_getaddrinfo = λ t host port. some (1 ∷ []);
  on_socket = λ t. pos 3;
  on_getfl = λ t fd. pos 2;
  on_setfl = λ t fd flags. pos 0;
  on_setsockopt = λ t fd. pos 0;
  on_bind = λ t fd addr. pos 0;
  on_connect = λ t fd addr. pos 0;
  on_listen = λ t fd backlog. pos 0;
  on_accept = λ t fd. pos 4;
  on_poll = λ t fds. pos 1;
  poll_in = λ t fds i. true;
  on_select = λ t nfds. pos 1;
  select_in = λ t fd. true;
  on_recv = λ t fd. some (text "quit");
  on_send = λ t fd bytes. pos (length bytes);
  on_fgets = λ t. some (text "quit" ++ (13 ∷ 10 ∷ []));
  on_time = λ t. 1700000000;
  would_block = λ t. true;
  on_pthread_create = λ t. pos 0;
  on_pthread_detach = λ t. pos 0;
  on_recvfrom = λ t fd. some (text "hello", 9);
  on_sendto = λ t fd bytes addr. pos (length bytes);
  on_ssl_ctx_new = λ t. some 1;
  on_ssl_use_certificate = λ t. pos 1;
  on_ssl_use_private_key = λ t. pos 1;
  on_ssl_new = λ t. some 8;
  on_ssl_accept = λ t handle. pos 1;
  on_ssl_connect = λ t handle. pos 1;
  on_ssl_read = λ t handle. some (text "quit");
  on_ssl_write = λ t handle bytes. pos (length bytes);
}

-- A client that fills the server's buffer.
abbrev pub flooding : Kernel
flooding = record quitting { on_recv = λ t fd. some (replicate 1024 65) }

pub quitting-ResolvesSome : ResolvesSome quitting
quitting-ResolvesSome t host port e = cc

pub quitting-ShortMessages : ShortMessages quitting
quitting-ShortMessages t fd bytes e = rw (← some-injective _ _ e) (omega arith)

pub quitting-SendsWithin : SendsWithin quitting
quitting-SendsWithin t fd bytes n e = ground arith

pub quitting-AcceptsSmall : AcceptsSmall quitting
quitting-AcceptsSmall t sock fd e = ground (arith, e)

pub quitting-SocketsSmall : SocketsSmall quitting
quitting-SocketsSmall t fd e = ground (arith, e)

pub quitting-HandlesMade : HandlesMade quitting
quitting-HandlesMade t e = cc

pub quitting-ShortRecords : ShortRecords quitting
quitting-ShortRecords t handle bytes e = rw (← some-injective _ _ e) (omega arith)
