-- ===== src/Handshake/Tests.antt =====
-- The theorems on the handshakes at concrete values.
use cnnic_gmtls.Base.{
  ℕ, ◌≡◌, ◌↔◌, ◌⊎◌, ◌≢◌, err, message, refl, List, [], ◌∷◌, true, false, none, some, ok, replicate,
}
use cnnic_gmtls.Base.Runs.{Runs}
use cnnic_gmtls.Handshake.{X509, Library, Config, Conn, handshake_complete}
use cnnic_gmtls.Handshake.ClientHello.{offered_suites}
use cnnic_gmtls.Handshake.ClientSafety.{client-Runs, client-ServerProved}
use cnnic_gmtls.Handshake.ServerProof.{ServerProved}
use cnnic_gmtls.Handshake.ClientProof.{ClientProved}
use cnnic_gmtls.Handshake.Run.{new_conn, client, server}
use cnnic_gmtls.Handshake.ServerHello.{accept_suite}
use cnnic_gmtls.Handshake.ServerSafety.{server-Runs, server-ClientProved}
use cnnic_gmtls.Handshake.Suites.{accept_suite-cases}
use cnnic_gmtls.Handshake.Accepted.{IsAccepted, verify_server_certificate-eq-ok_iff}
use cnnic_gmtls.Handshake.Verify.{verify_server_certificate}
use cnnic_gmtls.Message.Certificate.{Certificate}
use cnnic_gmtls.Record.Layer.{NetConn}
use cnnic_gmtls.Samples.{toy_aead, toy_sm3, toy_curve, toy_curve25519}
use cnnic_gmtls.Suite.{gcm_suite}

abbrev toy_x509 : X509
toy_x509 = record {
  is_certificate = λ d. true;
  reader = record {
    certificate_key = λ d. some (record { x = 1; y = 2 });
    subject_public_key = λ d. none;
  };
  system_pool = some 0;
  verify = λ leaf between roots usage name now. true;
}

abbrev library : Library
library = record {
  aead = toy_aead;
  sm3 = toy_sm3;
  curve = toy_curve;
  curve25519 = toy_curve25519;
  x509 = toy_x509;
}

-- The peer has sent a fatal alert.
abbrev net : NetConn
net = record { incoming = 21 ∷ 3 ∷ 3 ∷ 0 ∷ 2 ∷ 2 ∷ 40 ∷ []; outgoing = []; is_open = true }

abbrev cert : Certificate
cert = record { raw = 48 ∷ []; chain = (48 ∷ []) ∷ []; public_key = some (record { x = 1; y = 2 }) }

abbrev config : Config
config = record {
  cipher_suites = [];
  certificates = cert ∷ [];
  private_key = some (record { d = 7 });
  sign_certificates = [];
  sign_private_key = none;
  insecure_skip_verify = false;
  skip_server_name_verify = false;
  require_client_cert = true;
  root_cas = none;
  client_cas = some 1;
  server_name = 97 ∷ [];
  next_protos = [];
  session_tickets = [];
}

abbrev entropy : List ℕ
entropy = replicate 200 9

client-Runs_example :
    Runs
      (client library 5 net config entropy)
      (λ t. handshake_complete t ≡ false)
      (λ _ t. handshake_complete t ≡ true)
client-Runs_example = client-Runs library 5 net config entropy

server-Runs_example :
    Runs
      (server library 5 net config entropy)
      (λ t. handshake_complete t ≡ false)
      (λ _ t. handshake_complete t ≡ true)
server-Runs_example = server-Runs library 5 net config entropy

client-ServerProved_example :
    Runs
      (client library 5 net config entropy)
      (λ t. handshake_complete t ≡ false)
      (λ _ t. (handshake_complete t ≡ true) × ServerProved library 5 config config.server_name t)
client-ServerProved_example = client-ServerProved library 5 net config entropy refl

server-ClientProved_example :
    Runs
      (server library 5 net config entropy)
      (λ t. handshake_complete t ≡ false)
      (λ _ t. (handshake_complete t ≡ true) × ClientProved library 5 config t)
server-ClientProved_example = server-ClientProved library 5 net config entropy refl refl

-- A client that has sent its ClientHello.
abbrev offering : Conn
offering = record (new_conn true net config entropy) { client_cipher_suites = offered_suites }

abbrev ccm_id : ℕ
ccm_id = 0x00C7

accept_suite-cases_example :
    (((ccm_id ≡ 0x00C6) ⊎ (ccm_id ≡ 0x1306))
      × (accept_suite library ccm_id offering
          ≡ (ok tt, record offering { cipher_suite = some (record gcm_suite { id = ccm_id }) })))
    ⊎ ((ccm_id ≢ 0x00C6)
        × (ccm_id ≢ 0x1306)
        × (accept_suite library ccm_id offering
            ≡ (err (message "gmtls: server selected unsupported cipher suite 0x%04x"), offering)))
accept_suite-cases_example = accept_suite-cases library ccm_id offering refl

verify_server_certificate-eq-ok_iff_example :
    (verify_server_certificate toy_x509 5 config [] cert ≡ ok tt)
    ↔ IsAccepted toy_x509 5 config [] cert
verify_server_certificate-eq-ok_iff_example =
    verify_server_certificate-eq-ok_iff toy_x509 5 config [] cert
