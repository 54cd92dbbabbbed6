-- ===== src/Client.antt =====
-- cmd/chimera-client/main.go: the SOCKS5 side and the choice of the transport.
pub mod Socks
pub mod Select
pub mod Options
mod Tests
