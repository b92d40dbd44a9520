-- ===== src/Message.antt =====
-- handshake.go and tls13_cert.go: the handshake messages, a child for each.
pub mod Extensions
pub mod ClientHello
pub mod ServerHello
pub mod EncryptedExtensions
pub mod CertificateVerify
pub mod Finished
pub mod Certificate
pub mod CertificateRequest
pub mod RequestContent
mod Tests
use cnnic_gmtls.Base.{ℕ}

abbrev pub type_client_hello : ℕ
type_client_hello = 1

abbrev pub type_server_hello : ℕ
type_server_hello = 2

abbrev pub type_new_session_ticket : ℕ
type_new_session_ticket = 4

abbrev pub type_encrypted_extensions : ℕ
type_encrypted_extensions = 8

abbrev pub type_certificate : ℕ
type_certificate = 11

abbrev pub type_certificate_request : ℕ
type_certificate_request = 13

abbrev pub type_certificate_verify : ℕ
type_certificate_verify = 15

abbrev pub type_finished : ℕ
type_finished = 20

abbrev pub type_message_hash : ℕ
type_message_hash = 254
