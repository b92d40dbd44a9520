-- ===== src/Schedule.antt =====
-- tls13.go: HKDF over SM3 and the TLS 1.3 key schedule.
pub mod Hkdf
pub mod Expand
pub mod Label
pub mod Keys
pub mod Material
mod Tests
