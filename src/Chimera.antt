-- ===== src/Chimera.antt =====
-- internal/chimera: the session protocol of the TCP carrier and the guard on targets.
pub mod Session
pub mod Ip
pub mod Address
pub mod Guard
pub mod Resolve
mod Tests
