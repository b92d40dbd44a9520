-- ===== src/Suite/Tests.antt =====
-- The theorems on the choice of a suite at concrete lists.
use cnnic_gmtls.Base.{ℕ, ◌≡◌, ◌⊎◌, refl, List, [], ◌∷◌, true, bytes_equal}
use cnnic_gmtls.Record.{version_tls13}
use cnnic_gmtls.Suite.{CipherSuiteInfo, gcm_suite, cipher_suite_by_id}
use cnnic_gmtls.Suite.Selection.{
  normalize_cipher_suite_id, cipher_suite_for_version, contains_uint16, supports_sm2_signature,
  try_suite, chosen_id, find_first, is_acceptable, select_loop, select_cipher_suite, preferences,
}
use cnnic_gmtls.Suite.Choice.{FirstServed, select_cipher_suite-first, select_cipher_suite-version}

-- The client offers the standard number, the server prefers CCM and then GCM's other number.
abbrev alternative : CipherSuiteInfo
alternative = record gcm_suite { id = 0x00C6 }

abbrev schemes : List ℕ
schemes = 0x0708 ∷ []

select_cipher_suite-first_example :
    FirstServed
      (0x00C6 ∷ [])
      version_tls13
      (41 ∷ [])
      schemes
      (preferences (0x00C6 ∷ []) (0x1307 ∷ 0x1306 ∷ []))
      alternative
unfolding select_cipher_suite select_loop try_suite chosen_id find_first is_acceptable
    supports_sm2_signature preferences normalize_cipher_suite_id cipher_suite_by_id
    cipher_suite_for_version contains_uint16 bytes_equal
select_cipher_suite-first_example =
    select_cipher_suite-first (0x00C6 ∷ []) (0x1307 ∷ 0x1306 ∷ []) version_tls13 (41 ∷ []) schemes
      alternative refl

select_cipher_suite-version_example :
    (version_tls13 ≡ version_tls13) × ((schemes ≡ []) ⊎ (supports_sm2_signature schemes ≡ true))
unfolding select_cipher_suite select_loop try_suite chosen_id find_first is_acceptable
    supports_sm2_signature preferences normalize_cipher_suite_id cipher_suite_by_id
    cipher_suite_for_version contains_uint16 bytes_equal
select_cipher_suite-version_example =
    select_cipher_suite-version (0x00C6 ∷ []) (0x1307 ∷ 0x1306 ∷ []) version_tls13 (41 ∷ []) schemes
      alternative refl
