-- ===== src/Extension.antt =====
-- extensions.go: an extension is a 16-bit type and its data. The children model the marshal and
-- parse functions; texts are their bytes.
pub mod Sni
pub mod Alpn
pub mod Uint16List
pub mod KeyShare
pub mod Modes
mod Tests
use cnnic_gmtls.Base.{ℕ, List, []}

pub record Extension : Type 0 where
  pub ext_type : ℕ
  pub ext_data : List ℕ

-- `Extension{}`, what a marshal function returns when there is nothing to send.
abbrev pub no_extension : Extension
no_extension = record { ext_type = 0; ext_data = [] }

abbrev pub extension_server_name : ℕ
extension_server_name = 0

abbrev pub extension_status_request : ℕ
extension_status_request = 5

abbrev pub extension_supported_curves : ℕ
extension_supported_curves = 10

abbrev pub extension_supported_points : ℕ
extension_supported_points = 11

abbrev pub extension_signature_algorithms : ℕ
extension_signature_algorithms = 13

abbrev pub extension_alpn : ℕ
extension_alpn = 16

abbrev pub extension_encrypt_then_mac : ℕ
extension_encrypt_then_mac = 22

abbrev pub extension_extended_master_secret : ℕ
extension_extended_master_secret = 23

abbrev pub extension_session_ticket : ℕ
extension_session_ticket = 35

abbrev pub extension_pre_shared_key : ℕ
extension_pre_shared_key = 41

abbrev pub extension_supported_versions : ℕ
extension_supported_versions = 43

abbrev pub extension_psk_modes : ℕ
extension_psk_modes = 45

abbrev pub extension_key_share : ℕ
extension_key_share = 51

-- signature_algorithms_cert, a plain 50 in the code.
abbrev pub extension_signature_algorithms_cert : ℕ
extension_signature_algorithms_cert = 50

-- The signature schemes of SM2, and its curve.
abbrev pub pkcs1_with_sm2_sm3 : ℕ
pkcs1_with_sm2_sm3 = 1

abbrev pub ecdsa_with_sm2_sm3 : ℕ
ecdsa_with_sm2_sm3 = 3

abbrev pub sm2_sm3 : ℕ
sm2_sm3 = 0x0708

abbrev pub curve_sm2 : ℕ
curve_sm2 = 41
