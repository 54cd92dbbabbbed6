-- ===== src/Auth.antt =====
-- internal/quicx/auth.go: request authentication of the H3 carrier.
pub mod Replay
pub mod Token
mod Tests
