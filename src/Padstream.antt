-- ===== src/Padstream.antt =====
-- internal/padstream/padstream.go: a byte stream in frames with random padding.
pub mod Frames
pub mod Conn
pub mod Roundtrip
pub mod Ending
pub mod Keeping
mod Tests
