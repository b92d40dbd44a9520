-- ===== src/Handshake/Accept.antt =====
-- conn.go: the server's side of the hellos: `readClientHelloTLS13` and `sendServerHelloTLS13`.
use cnnic_gmtls.Base.{
  ℕ, List, [], ◌∷◌, ◌++◌, Bool, not, ◌&&◌, ◌||◌, ◌==◌, ltb, if◌then◌else◌, Option, none, some, ok,
  err, message, length,
}
use cnnic_gmtls.Base.State.{Action, ◌>>=◌, ◌>>◌, pure, gets, modify, lift, raise_if}
use cnnic_gmtls.Extension.{
  Extension, extension_key_share, extension_supported_curves, extension_signature_algorithms,
  extension_alpn, extension_supported_versions, curve_sm2,
}
use cnnic_gmtls.Extension.Alpn.{parse_alpn_extension}
use cnnic_gmtls.Extension.KeyShare.{
  KeyShareEntry, parse_key_share_client_hello, marshal_key_share_server_hello_extension,
}
use cnnic_gmtls.Extension.Uint16List.{
  parse_supported_curves_extension, parse_signature_algorithms_extension,
  parse_supported_versions_client_hello,
}
use cnnic_gmtls.Handshake.{Library, Conn, on_layer, on_entropy}
use cnnic_gmtls.Handshake.ClientHello.{curve_x25519, offered_suites, read_random}
use cnnic_gmtls.Handshake.Secrets.{
  derive_tls13_keys, is_none, new_mode, the_suite, set_out_cipher, set_server_encrypted,
}
use cnnic_gmtls.Handshake.Send.{send}
use cnnic_gmtls.Message.ClientHello as ClientHello
use cnnic_gmtls.Message.ServerHello as ServerHello
use cnnic_gmtls.Record.{handshake, version_tls12, version_tls13}
use cnnic_gmtls.Record.Layer.{read_record}
use cnnic_gmtls.Sm2.{PrivateKey}
use cnnic_gmtls.Sm2.Keys.{
  generate_sm2_key_pair_for_tls13, parse_sm2_public_key, derive_sm2_ecdh_shared_secret,
}
use cnnic_gmtls.Suite.Selection.{
  contains_uint16, supports_sm2_signature, select_cipher_suite, select_alpn_protocol,
}
use cnnic_gmtls.X25519.{generate_x25519_key, derive_x25519_shared_secret}

-- The local variables that the loop over the extensions sets.
pub record Offered : Type 0 where
  pub key_shares : List KeyShareEntry
  pub supported_versions : List ℕ

-- One extension of a ClientHello.
unfoldable pub take_extension : Extension → Offered → Action Conn Offered
take_extension e o s =
    if e.ext_type == extension_key_share
    then (lift (parse_key_share_client_hello e.ext_data) >>= λ shares.
          pure (record o { key_shares = shares }))
        s
    else if e.ext_type == extension_supported_curves
    then (lift (parse_supported_curves_extension e.ext_data) >>= λ curves.
          modify (λ s. record s { client_supported_curves = curves }) >> pure o)
        s
    else if e.ext_type == extension_signature_algorithms
    then (lift (parse_signature_algorithms_extension e.ext_data) >>= λ schemes.
          modify (λ s. record s { client_sig_schemes = schemes }) >> pure o)
        s
    else if e.ext_type == extension_alpn
    then (lift (parse_alpn_extension e.ext_data) >>= λ protos.
          modify (λ s. record s { peer_protos = protos }) >> pure o)
        s
    else if e.ext_type == extension_supported_versions
    then (lift (parse_supported_versions_client_hello e.ext_data) >>= λ versions.
          pure (record o { supported_versions = versions }))
        s
    else (ok o, s)

unfoldable pub take_extensions : List Extension → Offered → Action Conn Offered
unfolding take_extension
take_extensions [] o s = (ok o, s)
take_extensions (e ∷ es) o s = (take_extension e o >>= take_extensions es) s

unfoldable pub find_group : ℕ → List KeyShareEntry → Option KeyShareEntry
find_group group [] = none
find_group group (e ∷ es) =
    let rest = find_group group es in if e.group == group then some e else rest

-- The share of SM2 first, then that of X25519; the field keeps what it has if there is neither.
unfoldable pub choose_key_share : Option KeyShareEntry → List KeyShareEntry → Option KeyShareEntry
unfolding find_group
choose_key_share old shares = elim (find_group curve_sm2 shares) [
  | some e ↦ some e
  | none ↦ elim old [ some e ↦ some e | none ↦ find_group curve_x25519 shares ]
]

-- The suites of the configuration, or the two of SM4-GCM.
unfoldable pub server_suites : List ℕ → List ℕ
server_suites [] = offered_suites
server_suites (v ∷ vs) = v ∷ vs

-- Whether version 1.3 is missing from the client's versions.
abbrev pub is_old : Offered → Bool
is_old o =
    (length o.supported_versions == 0) || not (contains_uint16 o.supported_versions version_tls13)

-- Whether the client has signature schemes, and none of SM2.
abbrev pub cannot_sign : Conn → Bool
cannot_sign s =
    ltb 0 (length s.client_sig_schemes) && not (supports_sm2_signature s.client_sig_schemes)

-- The protocol, if both ends have a list.
abbrev pub choose_protocol : Conn → Conn
choose_protocol s =
    if ltb 0 (length s.config.next_protos) && ltb 0 (length s.peer_protos)
    then record s { negotiated_proto = select_alpn_protocol s.config.next_protos s.peer_protos }
    else s

abbrev pub choose_suite : List ℕ → Conn → Conn
choose_suite suites s = record s {
  cipher_suite =
      select_cipher_suite suites (server_suites s.config.cipher_suites) version_tls13
        s.client_supported_curves s.client_sig_schemes;
}

abbrev pub choose_share : List KeyShareEntry → Conn → Conn
choose_share shares s = record s { client_key_share = choose_key_share s.client_key_share shares }

module _ (lib : Library) where
  unfoldable pub choose_parameters : ClientHello.ClientHelloMsg → Offered → Action Conn (Unit {0})
  unfolding server_suites choose_key_share
  choose_parameters hello o = do
    raise_if (is_old o) (message "gmtls: client does not support TLS 1.3")
    unsigned ← gets cannot_sign
    raise_if unsigned (message "gmtls: client does not support SM2 signature algorithms")
    modify (choose_suite hello.cipher_suites)
    unsuited ← gets (λ s. is_none s.cipher_suite)
    raise_if unsuited (message "gmtls: no common cipher suite for TLS 1.3")
    raise_if (length o.key_shares == 0)
        (message "gmtls: missing key_share extension in ClientHello")
    modify (choose_share o.key_shares)
    unshared ← gets (λ s. is_none s.client_key_share)
    raise_if unshared (message "gmtls: no supported key_share found in ClientHello")
    modify choose_protocol

  unfoldable pub read_client_hello_tls13 : Action Conn (Unit {0})
  unfolding take_extensions choose_parameters
  read_client_hello_tls13 = do
    rec ← on_layer (read_record lib.aead)
    raise_if (not (rec.typ == handshake)) (message "gmtls: expected handshake record")
    modify (λ s. record s {
      transcript = s.transcript ++ rec.content;
      client_hello_hash = lib.sm3.hash rec.content;
    })
    hello ← lift (ClientHello.unmarshal rec.content)
    modify (λ s. record s {
      client_random = hello.random;
      session_id = hello.session_id;
      client_cipher_suites = hello.cipher_suites;
    })
    o ← take_extensions hello.extensions (record { key_shares = []; supported_versions = [] })
    choose_parameters hello o

  abbrev pub set_shared : List ℕ → List ℕ → Conn → Conn
  set_shared secret share s =
      let m = s.key_material in
      record s { key_material = record m { shared_secret = secret; server_public_share = share } }

  abbrev pub keep_private : PrivateKey → Conn → Conn
  keep_private priv s =
      let m = s.key_material in
      record s { key_material = record m { client_private_share = some priv } }

  abbrev pub keep_x25519 : List ℕ → Conn → Conn
  keep_x25519 priv s =
      let m = s.key_material in
      record s { key_material = record m { client_x25519_private_key = priv } }

  abbrev pub answer_sm2 : List ℕ → Action Conn KeyShareEntry
  answer_sm2 peer = do
    (priv, share) ← on_entropy (generate_sm2_key_pair_for_tls13 lib.curve)
    key ← lift (parse_sm2_public_key lib.curve peer)
    secret ← lift (derive_sm2_ecdh_shared_secret lib.curve priv key)
    modify (λ s. set_shared secret share (keep_private priv s))
    pure (record { group = curve_sm2; key_exchange = share })

  abbrev pub answer_x25519 : List ℕ → Action Conn KeyShareEntry
  answer_x25519 peer = do
    (priv, share) ← on_entropy (generate_x25519_key lib.curve25519)
    secret ← lift (derive_x25519_shared_secret lib.curve25519 priv peer)
    modify (λ s. set_shared secret share (keep_x25519 priv s))
    pure (record { group = curve_x25519; key_exchange = share })

  abbrev pub answer : Option KeyShareEntry → Action Conn KeyShareEntry
  answer none s = (err (message "gmtls: missing client key_share"), s)
  answer (some e) s =
      if e.group == curve_sm2
      then answer_sm2 e.key_exchange s
      else if e.group == curve_x25519
      then answer_x25519 e.key_exchange s
      else (err (message "gmtls: unsupported key_share group 0x%04x"), s)

  -- The server's key pair for the client's group, and the shared secret.
  unfoldable pub answer_share : Action Conn KeyShareEntry
  answer_share s = answer s.client_key_share s

  abbrev pub server_hello : Conn → ℕ → KeyShareEntry → ServerHello.ServerHelloMsg
  server_hello s suite_id entry = record {
    version = version_tls12;
    random = s.server_random;
    session_id = s.session_id;
    cipher_suite = suite_id;
    compression = 0;
    extensions =
        record { ext_type = extension_supported_versions; ext_data = 3 ∷ 4 ∷ [] }
        ∷ marshal_key_share_server_hello_extension entry
        ∷ [];
  }

  unfoldable pub send_server_hello_tls13 : Action Conn (Unit {0})
  unfolding answer_share
  send_server_hello_tls13 = do
    random ← on_entropy (read_random 32)
    modify (λ s. record s { server_random = random })
    entry ← answer_share
    suite ← λ s. lift (the_suite s) s
    data' ← gets (λ s. ServerHello.marshal (server_hello s suite.id entry))
    send lib data'
    derive_tls13_keys lib
    m ← λ s. lift (new_mode s.key_material.keys.server_handshake) s
    modify (λ s. set_out_cipher m (set_server_encrypted s))
