-- ===== src/Record.antt =====
-- The record layer of conn.go and cipher.go: record types and alerts, the AEAD mode with its
-- sequence numbers, reading and writing records on the connection.
pub mod Alert
pub mod InnerType
pub mod Xor
pub mod Gcm
pub mod Nonce
pub mod Layer
pub mod Keeps
pub mod Transfer
mod Tests
use cnnic_gmtls.Base.{ℕ, List}

-- `recordType`
abbrev pub change_cipher_spec : ℕ
change_cipher_spec = 20

abbrev pub alert : ℕ
alert = 21

abbrev pub handshake : ℕ
handshake = 22

abbrev pub application_data : ℕ
application_data = 23

abbrev pub version_tls10 : ℕ
version_tls10 = 0x0301

abbrev pub version_tls12 : ℕ
version_tls12 = 0x0303

abbrev pub version_tls13 : ℕ
version_tls13 = 0x0304

-- What `readRecord` returns; the sequence number of the Go struct is never set.
pub record Record : Type 0 where
  pub typ : ℕ
  pub version : ℕ
  pub length' : ℕ
  pub content : List ℕ
