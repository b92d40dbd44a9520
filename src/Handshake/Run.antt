-- ===== src/Handshake/Run.antt =====
-- conn.go: `clientHandshakeTLS13`, `serverHandshakeTLS13`, the constructors `Client` and `Server`,
-- and `ConnectionState`.
use cnnic_gmtls.Base.{
  ℕ, List, [], ◌∷◌, Bool, true, false, not, ◌||◌, if◌then◌else◌, Option, none, some, Outcome, ok,
  err, panic, stuck, message, eof, hello_retry_request, replicate,
}
use cnnic_gmtls.Base.State.{Action, ◌>>=◌, ◌>>◌, modify, lift}
use cnnic_gmtls.Extension.{curve_sm2}
use cnnic_gmtls.Handshake.{Library, Config, Conn, on_layer, on_entropy, is_client}
use cnnic_gmtls.Handshake.Accept.{read_client_hello_tls13, send_server_hello_tls13}
use cnnic_gmtls.Handshake.Auth.{
  client_context, server_context, read_encrypted_extensions, read_certificate_tls13,
  read_client_certificate_tls13, read_certificate_verify_tls13, read_finished_tls13,
}
use cnnic_gmtls.Handshake.ClientHello.{send_client_hello_tls13_with_group, read_random}
use cnnic_gmtls.Handshake.Secrets.{
  no_shares, is_none, new_mode, update_layer, set_in_cipher, set_out_cipher, set_client_encrypted,
  derive_tls13_application_keys, derive_tls13_server_app_keys, setup_application_traffic_keys,
  setup_server_application_traffic_keys_for_client,
}
use cnnic_gmtls.Handshake.Send.{
  send_encrypted_extensions, send_certificate_tls13, send_certificate_request_tls13,
  send_certificate_verify_tls13, send_finished_tls13,
}
use cnnic_gmtls.Handshake.ServerHello.{read_server_hello_tls13}
use cnnic_gmtls.Message.Certificate.{Certificate}
use cnnic_gmtls.Record.{change_cipher_spec, version_tls13}
use cnnic_gmtls.Record.Layer.{NetConn, write_record}
use cnnic_gmtls.Sm2.{PrivateKey}

abbrev pub complete : Conn → Conn
complete = update_layer (λ l. record l { handshake_complete = true })

-- The client's handshake keys are in use, for writing and for reading.
abbrev pub start_client_writing : Action Conn (Unit {0})
start_client_writing s =
    if s.wire.layer.client_encrypted
    then (ok tt, s)
    else (lift (new_mode s.key_material.keys.client_handshake) >>= λ m.
          modify (λ s. set_out_cipher m (set_client_encrypted s)))
        s

abbrev pub start_server_reading : Action Conn (Unit {0})
start_server_reading s =
    if not (not s.wire.layer.client_encrypted || is_none s.wire.layer.in_cipher)
    then (ok tt, s)
    else (lift (new_mode s.key_material.keys.client_handshake) >>= λ m.
          modify (λ s. set_in_cipher m (set_client_encrypted s)))
        s

module _ (lib : Library) (now : ℕ) where
  -- After a HelloRetryRequest: a change of cipher spec, and the hellos again for the group.
  unfoldable pub retry : Action Conn (Unit {0})
  retry s =
      if s.hello_retry
      then (on_layer (write_record lib.aead change_cipher_spec (1 ∷ []))
            >> ((λ s. send_client_hello_tls13_with_group lib now s.requested_group s)
                >> read_server_hello_tls13 lib))
          s
      else (err hello_retry_request, s)

  -- The error of a HelloRetryRequest is handled, any other one ends the handshake.
  abbrev pub or_retry : Outcome (Unit {0}) × Conn → Outcome (Unit {0}) × Conn
  or_retry (err hello_retry_request, s) = retry s
  or_retry (err eof, s) = (err eof, s)
  or_retry (err (message m), s) = (err (message m), s)
  or_retry (ok u, s) = (ok u, s)
  or_retry (panic, s) = (panic, s)
  or_retry (stuck, s) = (stuck, s)

  unfoldable pub exchange_hellos : Action Conn (Unit {0})
  unfolding retry
  exchange_hellos = do
    send_client_hello_tls13_with_group lib now curve_sm2
    λ s. or_retry (read_server_hello_tls13 lib s)

  -- The client's certificate, if the server asked for one.
  unfoldable pub answer_request : Action Conn (Unit {0})
  answer_request s =
      if not s.client_cert_requested
      then (ok tt, s)
      else if is_none s.local_cert || is_none s.local_priv
      then (err (message "gmtls: server requested client certificate, but none configured"), s)
      else (start_client_writing
            >> (send_certificate_tls13 lib >> send_certificate_verify_tls13 lib))
          s

  -- What the client reads of the server's proof, from EncryptedExtensions to Finished.
  unfoldable pub read_server_flight : Action Conn (Unit {0})
  read_server_flight = do
    read_encrypted_extensions lib
    read_certificate_tls13 lib now
    read_certificate_verify_tls13 lib server_context
    read_finished_tls13 lib

  -- The last part: the keys for application data.
  unfoldable pub finish : Action Conn (Unit {0})
  finish = do
    derive_tls13_application_keys lib
    modify setup_application_traffic_keys
    modify complete

  -- What the client does after the server's Finished.
  unfoldable pub send_client_flight : Action Conn (Unit {0})
  unfolding answer_request
  send_client_flight = do
    derive_tls13_server_app_keys lib
    modify (λ s. if is_client s then setup_server_application_traffic_keys_for_client s else s)
    answer_request
    send_finished_tls13 lib

  unfoldable pub client_handshake_tls13 : Action Conn (Unit {0})
  unfolding exchange_hellos read_server_flight send_client_flight finish
  client_handshake_tls13 = do
    modify (λ s. record s { transcript = [] })
    exchange_hellos
    read_server_flight
    send_client_flight
    finish

  -- Whether the server asks for the client's certificate.
  abbrev pub requests_certificate : Conn → Bool
  requests_certificate s = s.config.require_client_cert || not (is_none s.config.client_cas)

  -- What the server sends, from ServerHello to Finished.
  unfoldable pub send_server_flight : Action Conn (Unit {0})
  send_server_flight = do
    send_server_hello_tls13 lib
    send_encrypted_extensions lib
    (λ s. if requests_certificate s then send_certificate_request_tls13 lib s else (ok tt, s))
    send_certificate_tls13 lib
    send_certificate_verify_tls13 lib
    send_finished_tls13 lib

  -- What the server reads of the client's proof.
  unfoldable pub read_client_flight : Action Conn (Unit {0})
  read_client_flight = do
    (λ s.
        if requests_certificate s
        then (read_client_certificate_tls13 lib now
              >> read_certificate_verify_tls13 lib client_context)
            s
        else (ok tt, s))
    read_finished_tls13 lib

  unfoldable pub server_handshake_tls13 : Action Conn (Unit {0})
  unfolding send_server_flight read_client_flight finish
  server_handshake_tls13 = do
    modify (λ s. record s { transcript = [] })
    read_client_hello_tls13 lib
    send_server_flight
    start_server_reading
    read_client_flight
    finish

-- The certificate for signing, or the first of the others.
unfoldable pub local_certificate : Config → Option Certificate
local_certificate config = elim config.sign_certificates [
  | cert ∷ rest ↦ some cert
  | [] ↦ elim config.certificates [ [] ↦ none | cert ∷ rest ↦ some cert ]
]

unfoldable pub local_key : Config → Option PrivateKey
local_key config = elim config.sign_private_key [ some k ↦ some k | none ↦ config.private_key ]

-- The connection that `Client` and `Server` start with; a random is zeros until it is read.
unfoldable pub new_conn : Bool → NetConn → Config → List ℕ → Conn
unfolding local_certificate local_key
new_conn is_client conn config entropy = record {
  wire = record {
    layer = record {
      conn = conn;
      is_client = is_client;
      version = version_tls13;
      in_cipher = none;
      out_cipher = none;
      client_encrypted = false;
      server_encrypted = false;
      handshake_complete = false;
      next_record_version = 0;
    };
    handshake_buf = [];
  };
  config = config;
  cipher_suite = none;
  client_random = replicate 32 0;
  server_random = replicate 32 0;
  local_cert = local_certificate config;
  local_priv = local_key config;
  peer_cert = none;
  key_material = no_shares;
  transcript = [];
  client_hello_hash = [];
  last_client_hello = [];
  last_server_hello = [];
  client_cert_requested = false;
  cert_req_context = [];
  server_finished_hash = [];
  hello_retry = false;
  requested_group = 0;
  session_id = [];
  client_hello_cnt = 0;
  did_resume = false;
  client_server_name = if is_client then config.server_name else [];
  server_name = [];
  negotiated_proto = [];
  peer_protos = if is_client then config.next_protos else [];
  client_sig_schemes = [];
  client_supported_curves = [];
  client_cipher_suites = [];
  client_key_share = none;
  entropy = entropy;
}

module _ (lib : Library) (now : ℕ) where
  -- `Client(conn, config)`, with the connection as it is left also if there is an error.
  unfoldable pub client : NetConn → Config → List ℕ → Outcome (Unit {0}) × Conn
  unfolding new_conn
  client conn config entropy =
      (on_entropy (read_random 32) >>= λ random.
      modify (λ s. record s { client_random = random }) >> client_handshake_tls13 lib now)
        (new_conn true conn config entropy)

  unfoldable pub server : NetConn → Config → List ℕ → Outcome (Unit {0}) × Conn
  unfolding new_conn
  server conn config entropy =
      (on_entropy (read_random 32) >>= λ random.
      modify (λ s. record s { server_random = random }) >> server_handshake_tls13 lib now)
        (new_conn false conn config entropy)

pub record ConnectionState : Type 0 where
  pub version : ℕ
  pub cipher_suite : ℕ
  pub negotiated_proto : List ℕ
  pub server_name : List ℕ
  pub peer_certificates : List (Option Certificate)
  pub handshake_complete : Bool
  pub did_resume : Bool

-- `ConnectionState`; the suite's pointer is followed.
unfoldable pub connection_state : Conn → Outcome ConnectionState
connection_state s = elim s.cipher_suite [
  | none ↦ panic
  | some suite ↦ ok (record {
    version = s.wire.layer.version;
    cipher_suite = suite.id;
    negotiated_proto = s.negotiated_proto;
    server_name = s.server_name;
    peer_certificates = s.peer_cert ∷ [];
    handshake_complete = s.wire.layer.handshake_complete;
    did_resume = s.did_resume;
  })
]
