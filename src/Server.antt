-- ===== src/Server.antt =====
-- server/: the framing of requests, accounts and sessions, and what is done with a request.
mod Runs
pub mod Framing
pub mod Sessions
pub mod Handshake
pub mod Connections
pub mod Multiplexer
pub mod Listener
pub mod Traffic
