-- ===== src/Tests.antt =====
-- Runs of the programs on concrete systems, and the theorems at concrete inputs.
pub mod Systems
pub mod Servers
pub mod Clients
pub mod Http
pub mod Programs
pub mod Secure
pub mod FirstSteps
pub mod Curl
pub mod Select
pub mod Threads
pub mod HttpServer
pub mod Datagrams
