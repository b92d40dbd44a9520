-- ===== src/Handshake/ClientHello.antt =====
-- conn.go: `sendClientHelloTLS13WithGroup`.
use cnnic_gmtls.Base.{
  ℕ, ◌+◌, List, [], ◌∷◌, ◌++◌, ◌==◌, if◌then◌else◌, Option, none, some, Outcome, ok, err, message,
  length, take, drop, leb,
}
use cnnic_gmtls.Base.State.{Action, ◌>>=◌, ◌>>◌, pure, modify, lift}
use cnnic_gmtls.Extension.{
  Extension, extension_session_ticket, extension_encrypt_then_mac, extension_extended_master_secret,
  extension_supported_versions, sm2_sm3, curve_sm2,
}
use cnnic_gmtls.Extension.Alpn.{marshal_alpn_extension}
use cnnic_gmtls.Extension.KeyShare.{KeyShareEntry, marshal_key_share_extension}
use cnnic_gmtls.Extension.Modes.{
  psk_mode_dhe, marshal_psk_kex_modes_extension, marshal_ec_point_formats_extension,
  marshal_empty_extension,
}
use cnnic_gmtls.Extension.Sni.{marshal_sni_extension}
use cnnic_gmtls.Extension.Uint16List.{
  marshal_signature_algorithms_extension, marshal_signature_algorithms_cert_extension,
  marshal_supported_curves_extension,
}
use cnnic_gmtls.Handshake.{Library, Conn, on_layer, on_entropy}
use cnnic_gmtls.Handshake.Secrets.{no_shares, update_layer}
use cnnic_gmtls.Message.ClientHello.{ClientHelloMsg, marshal}
use cnnic_gmtls.Record.{handshake, version_tls10, version_tls12}
use cnnic_gmtls.Record.Layer.{write_record}
use cnnic_gmtls.Sm2.Keys.{generate_sm2_key_pair_for_tls13}
use cnnic_gmtls.Suite.{tls_sm4_gcm_sm3, tls_sm4_gcm_sm3_alt}
use cnnic_gmtls.Ticket.Binder.{compute_binder}
use cnnic_gmtls.Ticket.Offer.{PskInfo, build_psk_info, set_binder, rebuild_extensions_with_psk}
use cnnic_gmtls.X25519.{generate_x25519_key}

abbrev pub curve_x25519 : ℕ
curve_x25519 = 29

abbrev pub offered_suites : List ℕ
offered_suites = tls_sm4_gcm_sm3_alt ∷ tls_sm4_gcm_sm3 ∷ []

-- `io.ReadFull(rand.Reader, b)` for `n` bytes.
unfoldable pub read_random : ℕ → List ℕ → Outcome (List ℕ) × List ℕ
read_random n entropy =
    if leb n (length entropy)
    then (ok (take n entropy), drop n entropy)
    else (err (message "unexpected EOF"), [])

-- An extension with something to say.
abbrev optional : List ℕ → Extension → List Extension
optional [] e = []
optional (b ∷ bs) e = e ∷ []

abbrev optional_alpn : List (List ℕ) → List Extension
optional_alpn [] = []
optional_alpn (p ∷ ps) = marshal_alpn_extension (p ∷ ps) ∷ []

abbrev psk_extension : Option PskInfo → List Extension
psk_extension none = []
psk_extension (some p) = p.ext ∷ []

-- The share's group first.
abbrev supported_groups : ℕ → List ℕ
supported_groups group =
    if group == curve_x25519 then curve_x25519 ∷ curve_sm2 ∷ [] else curve_sm2 ∷ curve_x25519 ∷ []

unfoldable pub client_hello_extensions :
    ℕ → KeyShareEntry → Option PskInfo → List ℕ → List (List ℕ) → List Extension
client_hello_extensions group entry psk server_name protos =
    optional server_name (marshal_sni_extension server_name)
    ++ (marshal_ec_point_formats_extension
        ∷ marshal_supported_curves_extension (supported_groups group)
        ∷ marshal_empty_extension extension_session_ticket
        ∷ marshal_empty_extension extension_encrypt_then_mac
        ∷ marshal_empty_extension extension_extended_master_secret
        ∷ marshal_signature_algorithms_extension (sm2_sm3 ∷ [])
        ∷ marshal_signature_algorithms_cert_extension (sm2_sm3 ∷ [])
        ∷ record { ext_type = extension_supported_versions; ext_data = 2 ∷ 3 ∷ 4 ∷ [] }
        ∷ marshal_psk_kex_modes_extension (psk_mode_dhe ∷ [])
        ∷ marshal_key_share_extension (entry ∷ [])
        ∷ (optional_alpn protos ++ psk_extension psk))

-- 0x00FF is the renegotiation signal.
abbrev pub client_hello : Conn → List Extension → ClientHelloMsg
client_hello s exts = record {
  version = version_tls12;
  random = s.client_random;
  session_id = s.session_id;
  cipher_suites = offered_suites ++ (0x00FF ∷ []);
  compression_methods = 0 ∷ [];
  extensions = exts;
}

module _ (lib : Library) where
  -- A private key of the other group stays from the first ClientHello.
  abbrev pub sm2_entry : Action Conn KeyShareEntry
  sm2_entry = do
    (priv, share) ← on_entropy (generate_sm2_key_pair_for_tls13 lib.curve)
    modify (λ s. record s {
      key_material = record no_shares {
        client_private_share = some priv;
        client_x25519_private_key = s.key_material.client_x25519_private_key;
      };
    })
    pure (record { group = curve_sm2; key_exchange = share })

  abbrev pub x25519_entry : Action Conn KeyShareEntry
  x25519_entry = do
    (priv, share) ← on_entropy (generate_x25519_key lib.curve25519)
    modify (λ s. record s {
      key_material = record no_shares {
        client_private_share = s.key_material.client_private_share;
        client_x25519_private_key = priv;
      };
    })
    pure (record { group = curve_x25519; key_exchange = share })

  -- The key pair of the group, and the entry that is sent.
  unfoldable pub generate_share : ℕ → Action Conn KeyShareEntry
  generate_share group s =
      if group == curve_sm2
      then sm2_entry s
      else if group == curve_x25519
      then x25519_entry s
      else (err (message "gmtls: unsupported key_share group 0x%04x"), s)

  -- The session id is kept for the second ClientHello.
  unfoldable pub choose_session_id : Action Conn (Unit {0})
  unfolding read_random
  choose_session_id s =
      if length s.session_id == 0
      then (on_entropy (read_random 32) >>= λ id. modify (λ s. record s { session_id = id })) s
      else (ok tt, s)

  -- The message, with the binder if a ticket is offered.
  abbrev pub put_binder : Conn → List Extension → Option PskInfo → Action Conn (List ℕ)
  put_binder s exts none = pure (marshal (client_hello s exts))
  put_binder s exts (some p) = do
    binder ← lift (compute_binder lib.sm3 p.psk (marshal (client_hello s exts)))
    pure (marshal (client_hello s (rebuild_extensions_with_psk exts (set_binder p binder))))

  unfoldable pub build_client_hello : ℕ → ℕ → KeyShareEntry → Action Conn (List ℕ)
  unfolding client_hello_extensions
  build_client_hello now group entry s =
      let psk = build_psk_info now s.config.session_tickets in
      let exts = client_hello_extensions group entry psk s.client_server_name s.peer_protos in
      put_binder s exts psk s

  -- The first ClientHello goes out in a record of version 1.0.
  abbrev pub hello_sent : List ℕ → Conn → Conn
  hello_sent data' s =
      let version : ℕ = if s.client_hello_cnt == 0 then version_tls10 else version_tls12 in
      update_layer (λ l. record l { next_record_version = version })
        (record s {
          last_client_hello = data';
          transcript = s.transcript ++ data';
          client_hello_hash = lib.sm3.hash data';
          client_hello_cnt = s.client_hello_cnt + 1;
        })

  unfoldable pub send_client_hello_tls13_with_group : ℕ → ℕ → Action Conn (Unit {0})
  unfolding generate_share choose_session_id build_client_hello
  send_client_hello_tls13_with_group now group = do
    modify (λ s. record s { client_cipher_suites = offered_suites })
    entry ← generate_share group
    choose_session_id
    data' ← build_client_hello now group entry
    modify (hello_sent data')
    on_layer (write_record lib.aead handshake data')
