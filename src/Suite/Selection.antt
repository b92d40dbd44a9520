-- ===== src/Suite/Selection.antt =====
-- conn.go: `normalizeCipherSuiteID`, `cipherSuiteForVersion`, `containsUint16`,
-- `supportsSM2Signature`, `selectALPNProtocol`, `selectCipherSuite`, `clientOfferedCipherSuite`.
use cnnic_gmtls.Base.{
  ℕ, List, [], ◌∷◌, Bool, false, not, ◌&&◌, ◌||◌, ltb, leb, ◌==◌, if◌then◌else◌, Option, none, some,
  length, bytes_equal,
}
use cnnic_gmtls.Extension.{sm2_sm3, pkcs1_with_sm2_sm3, ecdsa_with_sm2_sm3, curve_sm2}
use cnnic_gmtls.Suite.{
  sm2dhe, CipherSuiteInfo, cipher_suite_by_id, tls_sm4_gcm_sm3, tls_sm4_ccm_sm3,
  tls_sm4_gcm_sm3_alt, tls_sm4_ccm_sm3_alt,
}

unfoldable pub normalize_cipher_suite_id : ℕ → ℕ
normalize_cipher_suite_id id =
    if id == tls_sm4_gcm_sm3_alt
    then tls_sm4_gcm_sm3
    else if id == tls_sm4_ccm_sm3_alt
    then tls_sm4_ccm_sm3
    else id

unfoldable pub cipher_suite_for_version : Option CipherSuiteInfo → ℕ → Bool
cipher_suite_for_version none version = false
cipher_suite_for_version (some suite) version =
    leb suite.min_tls_version version && leb version suite.max_tls_version

unfoldable pub contains_uint16 : List ℕ → ℕ → Bool
contains_uint16 [] v = false
contains_uint16 (x ∷ xs) v = (x == v) || contains_uint16 xs v

unfoldable pub supports_sm2_signature : List ℕ → Bool
unfolding contains_uint16
supports_sm2_signature list =
    contains_uint16 list sm2_sm3
    || contains_uint16 list pkcs1_with_sm2_sm3
    || contains_uint16 list ecdsa_with_sm2_sm3

-- Strings are lists of bytes here, and the empty one is no protocol.
unfoldable pub contains_string : List (List ℕ) → List ℕ → Bool
contains_string [] s = false
contains_string (x ∷ xs) s = bytes_equal x s || contains_string xs s

-- The inner loop over the client's list is `containsString` with the sides swapped.
unfoldable pub select_alpn_protocol : List (List ℕ) → List (List ℕ) → List ℕ
select_alpn_protocol [] client_protos = []
select_alpn_protocol (sp ∷ sps) client_protos =
    let rest = select_alpn_protocol sps client_protos in
    if contains_string client_protos sp then sp else rest

-- The first number of a list that passes a test.
unfoldable pub find_first : (ℕ → Bool) → List ℕ → Option ℕ
find_first test [] = none
find_first test (x ∷ xs) = let rest = find_first test xs in if test x then some x else rest

-- The exact number of the client's list, or one of the same suite.
unfoldable pub chosen_id : List ℕ → ℕ → Option ℕ
unfolding find_first normalize_cipher_suite_id
chosen_id client_suites srv_id = elim (find_first (λ c. c == srv_id) client_suites) [
  | some c ↦ some c
  | none ↦
      find_first (λ c. normalize_cipher_suite_id c == normalize_cipher_suite_id srv_id)
        client_suites
]

-- Whether a suite passes the three tests of the loop.
unfoldable pub is_acceptable : ℕ → List ℕ → List ℕ → CipherSuiteInfo → Bool
unfolding cipher_suite_for_version contains_uint16 supports_sm2_signature
is_acceptable version client_curves client_sig_schemes suite =
    cipher_suite_for_version (some suite) version
    && not (
        bytes_equal suite.key_exchange sm2dhe
        && ltb 0 (length client_curves)
        && not (contains_uint16 client_curves curve_sm2))
    && not (ltb 0 (length client_sig_schemes) && not (supports_sm2_signature client_sig_schemes))

-- One round of the loop: the suite that it returns, if it does.
unfoldable pub try_suite : List ℕ → ℕ → List ℕ → List ℕ → ℕ → Option CipherSuiteInfo
unfolding chosen_id is_acceptable cipher_suite_by_id
try_suite client_suites version client_curves client_sig_schemes srv_id =
    elim (chosen_id client_suites srv_id) [
      | none ↦ none
      | some id ↦ elim (cipher_suite_by_id id) [
        | none ↦ none
        | some suite ↦
            if is_acceptable version client_curves client_sig_schemes suite
            then some suite
            else none
      ]
    ]

unfoldable pub select_loop : List ℕ → ℕ → List ℕ → List ℕ → List ℕ → Option CipherSuiteInfo
unfolding try_suite
select_loop client_suites version client_curves client_sig_schemes [] = none
select_loop client_suites version client_curves client_sig_schemes (p ∷ ps) =
    let rest = select_loop client_suites version client_curves client_sig_schemes ps in
    elim (try_suite client_suites version client_curves client_sig_schemes p) [
      | some suite ↦ some suite
      | none ↦ rest
    ]

-- The server's list if it has one, else the client's.
unfoldable pub preferences : List ℕ → List ℕ → List ℕ
preferences client_suites server_suites =
    if ltb 0 (length server_suites) then server_suites else client_suites

unfoldable pub select_cipher_suite : List ℕ → List ℕ → ℕ → List ℕ → List ℕ → Option CipherSuiteInfo
unfolding select_loop preferences
select_cipher_suite client_suites server_suites version client_curves client_sig_schemes =
    select_loop client_suites version client_curves client_sig_schemes
      (preferences client_suites server_suites)

unfoldable pub client_offered_cipher_suite : List ℕ → ℕ → Bool
unfolding normalize_cipher_suite_id
client_offered_cipher_suite [] id = false
client_offered_cipher_suite (v ∷ vs) id =
    (normalize_cipher_suite_id v == normalize_cipher_suite_id id)
    || client_offered_cipher_suite vs id
