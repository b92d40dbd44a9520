-- ===== src/Handshake.antt =====
-- conn.go: `Conn` and `Config` with the fields that the handshakes use. A nil slice, string or
-- pointer to key material is the empty one; `Client` and `Server` make a nil configuration an empty
-- one, so it is never nil. The certificates and keys for encryption are stored and never used.
pub mod Content
pub mod Reading
pub mod Messages
pub mod Verify
pub mod Accepted
pub mod Secrets
pub mod ClientHello
pub mod Shared
pub mod ServerHello
pub mod Auth
pub mod Send
pub mod Keeps
pub mod Outcomes
pub mod SendKeeps
pub mod SecretsKeep
pub mod Proofs
pub mod HelloKeeps
pub mod ServerHelloKeeps
pub mod CertificateRead
pub mod ServerProof
pub mod ServerFlight
pub mod ClientSafety
pub mod AcceptKeeps
pub mod ClientProof
pub mod ClientFlight
pub mod ServerSafety
pub mod Suites
pub mod Accept
pub mod Run
mod Tests
use cnnic_gmtls.Base.{ℕ, List, [], ◌++◌, Bool, Option, Outcome}
use cnnic_gmtls.Base.State.{Action}
use cnnic_gmtls.Extension.KeyShare.{KeyShareEntry}
use cnnic_gmtls.Message.Certificate.{Certificate}
use cnnic_gmtls.Record.Gcm.{Aead}
use cnnic_gmtls.Record.Layer.{RecordLayer}
use cnnic_gmtls.Schedule.Hkdf.{Sm3}
use cnnic_gmtls.Schedule.Material.{KeyMaterial}
use cnnic_gmtls.Sm2.{PrivateKey, Curve}
use cnnic_gmtls.Sm2.Pem.{CertificateReader}
use cnnic_gmtls.Suite.{CipherSuiteInfo}
use cnnic_gmtls.Ticket.{SessionTicket}
use cnnic_gmtls.X25519.{Curve25519}

-- The X.509 library. A pool of certificates is only handed to it, and is a number here. The last
-- arguments of `verify` are the usage, the name if one is asked for, and the time.
pub record X509 : Type 0 where
  pub is_certificate : List ℕ → Bool
  pub reader : CertificateReader
  pub system_pool : Option ℕ
  pub verify : List ℕ → Option (List (List ℕ)) → Option ℕ → ℕ → Option (List ℕ) → ℕ → Bool

-- All that comes from outside the repository.
pub record Library : Type 0 where
  pub aead : Aead
  pub sm3 : Sm3
  pub curve : Curve
  pub curve25519 : Curve25519
  pub x509 : X509

pub record Config : Type 0 where
  pub cipher_suites : List ℕ
  pub certificates : List Certificate
  pub private_key : Option PrivateKey
  pub sign_certificates : List Certificate
  pub sign_private_key : Option PrivateKey
  pub insecure_skip_verify : Bool
  pub skip_server_name_verify : Bool
  pub require_client_cert : Bool
  pub root_cas : Option ℕ
  pub client_cas : Option ℕ
  pub server_name : List ℕ
  pub next_protos : List (List ℕ)
  pub session_tickets : List SessionTicket

-- The record layer and `tls13HandshakeBuf`, the bytes of handshake messages not yet taken.
pub record Wire : Type 0 where
  pub layer : RecordLayer
  pub handshake_buf : List ℕ

-- `TLS13KeyMaterial`: the key exchange, and the keys derived from it.
pub record Shares : Type 0 where
  pub client_private_share : Option PrivateKey
  pub client_x25519_private_key : List ℕ
  pub server_public_share : List ℕ
  pub shared_secret : List ℕ
  pub keys : KeyMaterial

-- `transcript` is what was written to the running hash, whose `Sum` is the hash of it; `entropy` is
-- what `rand.Reader` has still to give.
pub record Conn : Type 0 where
  pub wire : Wire
  pub config : Config
  pub cipher_suite : Option CipherSuiteInfo
  pub client_random : List ℕ
  pub server_random : List ℕ
  pub local_cert : Option Certificate
  pub local_priv : Option PrivateKey
  pub peer_cert : Option Certificate
  pub key_material : Shares
  pub transcript : List ℕ
  pub client_hello_hash : List ℕ
  pub last_client_hello : List ℕ
  pub last_server_hello : List ℕ
  pub client_cert_requested : Bool
  pub cert_req_context : List ℕ
  pub server_finished_hash : List ℕ
  pub hello_retry : Bool
  pub requested_group : ℕ
  pub session_id : List ℕ
  pub client_hello_cnt : ℕ
  pub did_resume : Bool
  pub client_server_name : List ℕ
  pub server_name : List ℕ
  pub negotiated_proto : List ℕ
  pub peer_protos : List (List ℕ)
  pub client_sig_schemes : List ℕ
  pub client_supported_curves : List ℕ
  pub client_cipher_suites : List ℕ
  pub client_key_share : Option KeyShareEntry
  pub entropy : List ℕ

-- Steps of the parts.
abbrev pub wire_on_layer : {A : Type 0} → Action RecordLayer A → Action Wire A
wire_on_layer m w = let (r, l) = m w.layer in (r, record w { layer = l })

abbrev pub on_wire : {A : Type 0} → Action Wire A → Action Conn A
on_wire m s = let (r, w) = m s.wire in (r, record s { wire = w })

abbrev pub on_layer : {A : Type 0} → Action RecordLayer A → Action Conn A
on_layer m = on_wire (wire_on_layer m)

-- A step that takes bytes of the random source.
abbrev pub on_entropy : {A : Type 0} → (List ℕ → Outcome A × List ℕ) → Action Conn A
on_entropy f s = let (r, rest) = f s.entropy in (r, record s { entropy = rest })

-- `c.transcriptHash.Write(data)`
abbrev pub add_to_transcript : List ℕ → Conn → Conn
add_to_transcript msg s = record s { transcript = s.transcript ++ msg }

-- `c.isClient`
abbrev pub is_client : Conn → Bool
is_client s = s.wire.layer.is_client

abbrev pub handshake_complete : Conn → Bool
handshake_complete s = s.wire.layer.handshake_complete
