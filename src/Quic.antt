-- ===== src/Quic.antt =====
-- internal/quicx: the QUIC server and its UDP sessions, and the client.
pub mod Admission
pub mod Handler
pub mod Config
pub mod Cert
pub mod Client
pub mod Start
pub mod UdpSession
pub mod UdpConn
pub mod Sample
mod Tests
