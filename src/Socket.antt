-- ===== src/Socket.antt =====
-- The set-up that the TCP programs share: the port in
-- 00_tutorials/13_multiplexing_poll_client_server.c (and the same lines of the other programs),
-- the listening socket and the connected socket.
pub mod Port
pub mod Listen
pub mod Connect
pub mod Reuse
