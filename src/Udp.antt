-- ===== src/Udp.antt =====
-- internal/quicx/udp_codec.go: UDP packets in fragments, one fragment to an HTTP Datagram.
pub mod Frame
pub mod Encoder
pub mod Decoder
pub mod Roundtrip
mod Tests
