-- ===== src/Sm4.antt =====
-- sm4.go: PKCS#7 padding, and encryption block by block.
pub mod Padding
pub mod Ecb
mod Tests
