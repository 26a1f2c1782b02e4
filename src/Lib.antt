-- ===== src/Lib.antt =====
-- The network programs of the tutorials, as functions on a trace of calls, and what holds of them.
--
-- The repository is a collection of programs in C, each a file that stands alone, and a small HTTP
-- server in C++ of several files. The servers and clients of 00_tutorials have the same shape:
-- `main` chooses `run_server` or `run_client` by its one argument; each resolves a name, makes a
-- socket, binds or connects it, and loops. Parts that several programs repeat line by line are
-- modelled once.
--
-- The parts and their files:
--   * Base: native numbers, lists with native indices, the C `int`s that calls return, and
--     `htons`.
--   * Sys: the calls of the C library and the kernel. `Event` is a call with its arguments and its
--     result, `Trace` the calls so far, newest first, and `M A` takes a trace to a value and a
--     longer trace, or to `fault` for undefined behaviour. `Kernel` is a parameter everywhere: a
--     function for each call, from the trace before it to its result. Sys/Loop has `while (1)`,
--     run for a number of rounds, and the rules by which an invariant goes through it; Sys/Partial
--     the same rules where a fault is allowed. Sys/Resources reads off a trace which descriptors
--     and how many address lists are open, and what was sent; Sys/Arrivals which clients came to a
--     server, and for which of them it had no room.
--   * CString: arrays of bytes and the strings in them: `strcmp`, `strcspn`, `strstr`, `strlen`,
--     `sprintf` of decimal numbers. A store or a search past the end of an array is a fault.
--   * Socket: the set-up of the listening and of the connected socket, with every early return
--     (`run_server` and `run_client` of 00_tutorials/12_multiplexing_select_client_server.c up to
--     their loops; programs 11 and 13 have the same lines for the server, 09, 11 and 13 for the
--     client).
--   * Poll: the loop of 00_tutorials/13_multiplexing_poll_client_server.c, an array of `pollfd`s
--     with `nfds` in use. Poll/Slots is about the array, Poll/Clients about one ready client,
--     Poll/Accounts and Poll/Run about descriptors, Poll/Ready about the pass over the clients.
--   * Select: the loop of 00_tutorials/12_multiplexing_select_client_server.c, an array of client
--     descriptors, an `fd_set`, and the largest descriptor. It serves one client by Poll.exchange.
--   * NonBlocking: the server of 00_tutorials/11_non_blocking_sockets.c, whose state is one client
--     descriptor, and in NonBlocking/Client its client.
--   * Session: the thread of a client in 00_tutorials/09_multithread_client_server.c, and Threads,
--     the accepting loop with all the threads: `Step` is one round of the loop or of one thread,
--     `Reach` any sequence of them.
--   * Simple: the server of 00_tutorials/08_simple_client_server.c, with the session of program 09
--     in its inner loop, and in Simple/Client its client. Socket/Reuse is the set-up of 08 and 09.
--   * Udp: 00_tutorials/10_peer_to_peer_client_server.c, the server that answers datagrams, and in
--     Udp/Client its client, whose state is the address that it sends to.
--   * Broadcast: the threads of 00_tutorials/14_broadcasting.c.
--   * Client: the interactive client of programs 09, 12 and 13.
--   * Programs: `main`, whose status is none while the loop that it runs goes on, and the poll,
--     select, non-blocking, simple, datagram and TLS programs as a whole.
--   * Redirect: `perform_http_request` of 00_tutorials/07_http_redirection.c. Redirect/Location
--     finds the new host, Redirect/Transfer sends and receives, and Redirect/Leaks counts what the
--     recursion leaves open.
--   * Tls: 01_networking_libraries/openssl/src/ssl_client_server.c. The set-up of its server is in
--     Tls itself, its arrays of descriptors and handles in Tls/Slots, its loop and its end in
--     Tls/Server, and its client in Tls/Client. The calls of OpenSSL are in Sys/Tls, with what a
--     trace leaves of contexts and handles, and what they do is a parameter.
--   * FirstSteps: `main` of 00_tutorials/05_send_first_http_request.c in FirstSteps/Send, of
--     00_tutorials/06_receive_http_response.c in FirstSteps/Receive, and of 01, 03 and 04 in
--     FirstSteps/Single.
--   * Curl: one transfer of 01_networking_libraries/libcurl/src/curl_multithreaded.cpp, with the
--     name of its file, and that of basic_curl.cpp. `Library`, libcurl and the files, is a
--     parameter, and the calls are a list of their own.
--   * Https: 01_networking_libraries/openssl/src/https_client.c, one request and its response.
--   * HttpServer: the C++ server of 01_networking_libraries/my_http_server. Parser is
--     `HTTPParser::parse`, Response `HTTPResponse`, Router `HTTPRouter::route` on a file system
--     that is a parameter (`Files`, in which every call may throw), Handler `handle_client`, Setup
--     `setup_socket`, and Loop `HTTPServer::start` and `main`. Parser/Lines, Parser/Numbers and
--     Parser/Laws are about text, Loop/Books and Loop/Laws about descriptors, Loop/Exchange about
--     one client from its arrival to its end.
--   * Tests: runs on concrete kernels.
--
-- Bounds and fuel. A server or client loop runs for a number of rounds that is a parameter, and
-- theorems hold for every number. The pass over the poll clients has a round for each entry of the
-- table, and the scan of the `fd_set` FD_SETSIZE rounds, as many as there are descriptors in it.
-- The transfer loops of the HTTP request and its recursion have fuel, with theorems that say how
-- much is enough. The parser's loop over header lines has a round for each byte of its text, and
-- the pass over the table of the C++ server MAX_CONNECTION rounds. The pass of the TLS server has
-- MAX_CONNECTION rounds too, where one more would be a fault, and the HTTPS client reads with
-- RESPONSE_SIZE + 1 rounds. Arrays have the sizes of the source (1024 bytes, 100 slots, six bytes
-- for the text of a port), and the host is little-endian with 32-bit `int` and 64-bit `long`; the
-- sum that program 05 keeps is a 64-bit `ssize_t`, whose overflow is a fault.
--
-- Hypotheses on the kernel are named where they are used: a success of `getaddrinfo` gives an
-- address (ResolvesSome), a message or a datagram does not fill its buffer (ShortMessages,
-- ShortDatagrams, ShortRecords), `SSL_new` gives a handle (HandlesMade), `send` takes no more than
-- it is given (SendsWithin), descriptors fit an `fd_set` (SocketsSmall, AcceptsSmall), the port of
-- a service has 16 bits (PortsSmall), a peer sends fewer bytes than an array has (BriefResponses),
-- and an iteration over a map with at most one entry gives that entry (IsOrder).
--
-- Not modelled: what is printed to the standard output or logged, and the `getnameinfo` before it;
-- signals; the cell with a descriptor that program 09 gives to a thread; `main` of program 14 and
-- the threads of that program beside each other; programs 00 and 02 of 00_tutorials, which print;
-- what OpenSSL does inside its calls, and the report of its errors; and of the libcurl samples the
-- threads, the version report and the multi handle, whose transfers are in the library.
pub mod Base
pub mod Sys
pub mod CString
pub mod Socket
pub mod Poll
pub mod Redirect
pub mod FirstSteps
pub mod Session
pub mod Client
pub mod Simple
pub mod Threads
pub mod Udp
pub mod Broadcast
pub mod Tls
pub mod Https
pub mod Curl
pub mod HttpServer
pub mod Select
pub mod NonBlocking
pub mod Programs
pub mod Tests
