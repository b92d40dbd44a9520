-- ===== src/Suite.antt =====
-- cipher.go: the table of cipher suites and the look-up by number. A suite's key exchange, which
-- the choice compares, is a list of bytes; its other words are strings.
pub mod Selection
pub mod Choice
mod Tests
use Prim.Native.String.{String}
use cnnic_gmtls.Base.{ℕ, List, [], ◌∷◌, Bool, true, false, ◌==◌, if◌then◌else◌, Option, none, some}
use cnnic_gmtls.Record.{version_tls13}

abbrev pub tls_sm4_gcm_sm3 : ℕ
tls_sm4_gcm_sm3 = 0x1306

abbrev pub tls_sm4_ccm_sm3 : ℕ
tls_sm4_ccm_sm3 = 0x1307

abbrev pub tls_sm4_gcm_sm3_alt : ℕ
tls_sm4_gcm_sm3_alt = 0x00C6

abbrev pub tls_sm4_ccm_sm3_alt : ℕ
tls_sm4_ccm_sm3_alt = 0x00C7

pub record CipherSuiteInfo : Type 0 where
  pub id : ℕ
  pub name : String
  pub key_exchange : List ℕ
  pub encryption : String
  pub hash : String
  pub key_len : ℕ
  pub iv_len : ℕ
  pub fixed_iv_len : ℕ
  pub explicit_iv_len : ℕ
  pub mac_len : ℕ
  pub tag_len : ℕ
  pub is_aead : Bool
  pub min_tls_version : ℕ
  pub max_tls_version : ℕ

abbrev pub sm2dhe : List ℕ
sm2dhe = b'S' ∷ b'M' ∷ b'2' ∷ b'D' ∷ b'H' ∷ b'E' ∷ []

-- The two entries of `cipherSuites`.
abbrev pub gcm_suite : CipherSuiteInfo
gcm_suite = record {
  id = tls_sm4_gcm_sm3;
  name = "TLS_SM4_GCM_SM3";
  key_exchange = b'A' ∷ b'n' ∷ b'y' ∷ [];
  encryption = "SM4-GCM";
  hash = "SM3";
  key_len = 16;
  iv_len = 12;
  fixed_iv_len = 12;
  explicit_iv_len = 0;
  mac_len = 0;
  tag_len = 16;
  is_aead = true;
  min_tls_version = version_tls13;
  max_tls_version = version_tls13;
}

abbrev pub ccm_suite : CipherSuiteInfo
ccm_suite = record gcm_suite {
  id = tls_sm4_ccm_sm3;
  name = "TLS_SM4_CCM_SM3";
  encryption = "SM4-CCM";
}

-- `GetCipherSuiteByID` on the table that `init` fills: the alternative numbers have a clone of
-- their suite.
unfoldable pub cipher_suite_by_id : ℕ → Option CipherSuiteInfo
cipher_suite_by_id id =
    if id == tls_sm4_gcm_sm3
    then some gcm_suite
    else if id == tls_sm4_ccm_sm3
    then some ccm_suite
    else if id == tls_sm4_gcm_sm3_alt
    then some (record gcm_suite { id = tls_sm4_gcm_sm3_alt })
    else if id == tls_sm4_ccm_sm3_alt
    then some (record ccm_suite { id = tls_sm4_ccm_sm3_alt })
    else none
