-- ===== src/Handshake/Verify.antt =====
-- verify.go: the verification of the peer's certificate. Building and checking the chain is the
-- X.509 library's work; here is what it is asked.
use cnnic_gmtls.Base.{
  ℕ, List, [], ◌∷◌, not, ◌&&◌, ◌==◌, ltb, Bool, true, if◌then◌else◌, Option, none, some, Outcome,
  ◌>>◌, fail_if, length, drop,
}
use cnnic_gmtls.Handshake.{X509, Config}
use cnnic_gmtls.Message.Certificate.{Certificate}

-- `ExtKeyUsageServerAuth` and `ExtKeyUsageClientAuth`.
abbrev pub server_auth : ℕ
server_auth = 1

abbrev pub client_auth : ℕ
client_auth = 2

unfoldable pub all_certificates : X509 → List (List ℕ) → Bool
all_certificates x [] = true
all_certificates x (d ∷ ds) = x.is_certificate d && all_certificates x ds

-- The certificates behind the leaf; no pool is made if there are none.
unfoldable pub intermediates : Certificate → Option (List (List ℕ))
intermediates cert = if ltb 1 (length cert.chain) then some (drop 1 cert.chain) else none

unfoldable pub dns_name : List ℕ → Option (List ℕ)
dns_name [] = none
dns_name (b ∷ bs) = some (b ∷ bs)

module _ (x : X509) (now : ℕ) where
  unfoldable pub verify_peer_certificate : Certificate → Option ℕ → ℕ → List ℕ → Outcome (Unit {0})
  unfolding all_certificates intermediates dns_name
  verify_peer_certificate cert roots usage name = do
    fail_if (length cert.raw == 0) "gmtls: missing peer certificate"
    fail_if (not (x.is_certificate cert.raw)) "x509: malformed certificate"
    fail_if (not (all_certificates x (drop 1 cert.chain))) "x509: malformed certificate"
    fail_if (not (x.verify cert.raw (intermediates cert) roots usage (dns_name name) now))
        "x509: certificate is not valid"

  -- The pool of the configuration, or that of the system.
  abbrev pub roots_of : Config → Option ℕ
  roots_of config = elim config.root_cas [ some p ↦ some p | none ↦ x.system_pool ]

  -- The name of the configuration, or the one that was sent; none if the check is switched off.
  unfoldable pub expected_name : Config → List ℕ → List ℕ
  expected_name config client_server_name =
      if config.skip_server_name_verify
      then []
      else if length config.server_name == 0
      then client_server_name
      else config.server_name

  unfoldable pub verify_server_certificate : Config → List ℕ → Certificate → Outcome (Unit {0})
  unfolding verify_peer_certificate expected_name
  verify_server_certificate config client_server_name cert =
      verify_peer_certificate cert (roots_of config) server_auth
        (expected_name config client_server_name)

  unfoldable pub verify_client_certificate : Config → Certificate → Outcome (Unit {0})
  unfolding verify_peer_certificate
  verify_client_certificate config cert =
      verify_peer_certificate cert config.client_cas client_auth []
