-- ===== src/Handshake/Auth.antt =====
-- conn.go: reading the messages that authenticate the peer: `readEncryptedExtensions`,
-- `readCertificateTLS13`, `readClientCertificateTLS13`, `readCertificateVerifyTLS13` and
-- `readFinishedTLS13`.
use cnnic_gmtls.Base.{
  ℕ, zero, suc, ◌+◌, List, [], ◌∷◌, ◌++◌, Bool, not, ◌&&◌, ◌==◌, ltb, if◌then◌else◌, Option, none,
  some, Outcome, ok, err, stuck, message, length, get_or, replicate, bytes_equal,
}
use cnnic_gmtls.Base.State.{Action, ◌>>=◌, ◌>>◌, modify, lift, raise_if}
use cnnic_gmtls.Extension.{Extension, extension_alpn, sm2_sm3}
use cnnic_gmtls.Extension.Alpn.{parse_alpn_extension}
use cnnic_gmtls.Handshake.{Library, Config, Conn, on_wire, add_to_transcript, is_client}
use cnnic_gmtls.Handshake.Reading.{read_tls13_handshake_msg}
use cnnic_gmtls.Handshake.Secrets.{
  new_mode, set_in_cipher, set_client_encrypted, set_server_encrypted, transcript_hash,
}
use cnnic_gmtls.Handshake.Verify.{verify_server_certificate, verify_client_certificate}
use cnnic_gmtls.Message.{type_certificate_request, type_certificate}
use cnnic_gmtls.Message.Certificate as CertificateMsg
use cnnic_gmtls.Message.Certificate.{Certificate}
use cnnic_gmtls.Message.CertificateRequest as CertificateRequestMsg
use cnnic_gmtls.Message.CertificateVerify as CertificateVerify
use cnnic_gmtls.Message.EncryptedExtensions as EncryptedExtensions
use cnnic_gmtls.Message.Finished as Finished
use cnnic_gmtls.Schedule.Keys.{derive_finished_key, verify_data_tls13}
use cnnic_gmtls.Schedule.Material.{TrafficKeys}
use cnnic_gmtls.Sm2.{PublicKey}
use cnnic_gmtls.Sm2.Pem.{parse_sm2_public_key_from_certificate}
use cnnic_gmtls.Sm2.Signing.{handshake_id, sm2_tls13_verify_with_id}
use cnnic_gmtls.Suite.Selection.{contains_string}

-- "TLS 1.3, server CertificateVerify", and with "client".
abbrev context_text : List ℕ → List ℕ
context_text role =
    b'T'
    ∷ b'L'
    ∷ b'S'
    ∷ b' '
    ∷ b'1'
    ∷ b'.'
    ∷ b'3'
    ∷ b','
    ∷ b' '
    ∷ (role
        ++ (b' ' ∷ b'C' ∷ b'e' ∷ b'r' ∷ b't' ∷ b'i' ∷ b'f' ∷ b'i' ∷ b'c' ∷ b'a' ∷ b't' ∷ b'e' ∷ b'V'
            ∷ b'e' ∷ b'r' ∷ b'i' ∷ b'f' ∷ b'y' ∷ []))

abbrev pub server_context : List ℕ
server_context = context_text (b's' ∷ b'e' ∷ b'r' ∷ b'v' ∷ b'e' ∷ b'r' ∷ [])

abbrev pub client_context : List ℕ
client_context = context_text (b'c' ∷ b'l' ∷ b'i' ∷ b'e' ∷ b'n' ∷ b't' ∷ [])

-- `tls13CertVerifySigned`: the context string and the hash behind 64 spaces.
unfoldable pub cert_verify_signed : List ℕ → List ℕ → List ℕ
cert_verify_signed context hash = replicate 64 32 ++ (context ++ (0 ∷ hash))

-- The key of the peer's own certificate, no other one of the chain.
abbrev pub key_of : Option Certificate → Option PublicKey
key_of none = none
key_of (some cert) = cert.public_key

abbrev pub peer_key : Conn → Option PublicKey
peer_key s = key_of s.peer_cert

abbrev pub verified : Outcome Bool → Outcome (Unit {0})
verified (ok v) =
    if v then ok tt else err (message "gmtls: CertificateVerify signature verification failed")
verified (err e) = err e
verified Outcome.panic = Outcome.panic
verified stuck = stuck

-- The handshake keys of the other side.
abbrev pub peer_handshake : Conn → TrafficKeys
peer_handshake s =
    let keys = s.key_material.keys in
    if is_client s then keys.server_handshake else keys.client_handshake

-- The cipher for reading starts again with the handshake keys of the other side.
unfoldable pub restart_reading : Action Conn (Unit {0})
restart_reading = do
  modify (λ s. if is_client s then set_server_encrypted s else set_client_encrypted s)
  m ← λ s. lift (new_mode (peer_handshake s)) s
  modify (set_in_cipher m)

module _ (lib : Library) where
  abbrev pub read_msg : Action Conn (List ℕ)
  read_msg = on_wire (read_tls13_handshake_msg lib.aead)

  abbrev pub read_key : List ℕ → Outcome PublicKey
  read_key = parse_sm2_public_key_from_certificate lib.curve lib.x509.reader

  -- One protocol of the peer's choice; none is no choice.
  unfoldable pub accept_protocol : List (List ℕ) → Action Conn (Unit {0})
  accept_protocol [] s = (ok tt, s)
  accept_protocol (p ∷ []) s =
      if ltb 0 (length s.peer_protos) && not (contains_string s.peer_protos p)
      then (err (message "gmtls: server selected unsupported ALPN protocol %q"), s)
      else (ok tt, record s { negotiated_proto = p })
  accept_protocol (p ∷ q ∷ ps) s =
      (err (message "gmtls: invalid ALPN protocol list in EncryptedExtensions"), s)

  unfoldable pub accept_extension : Extension → Action Conn (Unit {0})
  unfolding accept_protocol
  accept_extension e s =
      if e.ext_type == extension_alpn
      then (lift (parse_alpn_extension e.ext_data) >>= accept_protocol) s
      else (ok tt, s)

  unfoldable pub accept_extensions : List Extension → Action Conn (Unit {0})
  unfolding accept_extension
  accept_extensions [] s = (ok tt, s)
  accept_extensions (e ∷ es) s = (accept_extension e >>= λ _. accept_extensions es) s

  unfoldable pub read_encrypted_extensions : Action Conn (Unit {0})
  unfolding accept_extensions
  read_encrypted_extensions = do
    msg ← read_msg
    exts ← lift (EncryptedExtensions.unmarshal msg)
    accept_extensions exts
    modify (add_to_transcript msg)

  -- A request for a certificate of the client is noted.
  unfoldable pub take_request : List ℕ → Action Conn (Unit {0})
  take_request msg = do
    modify (λ s. record s { client_cert_requested = Bool.true })
    context ← lift (CertificateRequestMsg.parse msg)
    modify (λ s. record s { cert_req_context = context })
    modify (add_to_transcript msg)

  -- Whether the client verifies the certificate of the server.
  abbrev pub verifies_server : Conn → Bool
  verifies_server s = not s.config.insecure_skip_verify && is_client s

  unfoldable pub take_certificate : ℕ → List ℕ → Action Conn (Unit {0})
  take_certificate now msg = do
    cert ← lift (CertificateMsg.parse read_key msg)
    modify (λ s. record s { peer_cert = some cert })
    (λ s.
        if verifies_server s
        then (verify_server_certificate lib.x509 now s.config s.client_server_name cert, s)
        else (ok tt, s))
    modify (add_to_transcript msg)

  -- The loop of `readCertificateTLS13`, with at most `fuel` messages.
  unfoldable pub read_certificate_loop : ℕ → ℕ → Action Conn (Unit {0})
  unfolding take_request take_certificate
  read_certificate_loop now zero s = (stuck, s)
  read_certificate_loop now (suc fuel) s =
      (read_msg >>= λ msg t.
      let next = (take_request msg >>= λ _. read_certificate_loop now fuel) t in
      let t' = get_or msg 0 0 in
      if t' == type_certificate_request
      then next
      else if t' == type_certificate
      then take_certificate now msg t
      else (
        err (message "gmtls: unexpected handshake message %d while waiting for Certificate"),
        t,
      ))
        s

  -- A message takes at least its header from the connection or the buffer.
  unfoldable pub read_certificate_tls13 : ℕ → Action Conn (Unit {0})
  unfolding read_certificate_loop
  read_certificate_tls13 now s =
      let w = s.wire in
      read_certificate_loop now (suc (length w.handshake_buf + length w.layer.conn.incoming)) s

  -- The check against the pool for clients, if there is one.
  abbrev pub check_pool : ℕ → Config → Certificate → Option ℕ → Outcome (Unit {0})
  check_pool now config cert none = ok tt
  check_pool now config cert (some p) =
      if not config.insecure_skip_verify && ltb 0 (length cert.raw)
      then verify_client_certificate lib.x509 now config cert
      else ok tt

  unfoldable pub check_client_certificate : ℕ → Config → Certificate → Outcome (Unit {0})
  check_client_certificate now config cert =
      if config.require_client_cert && not (ltb 0 (length cert.raw))
      then err (message "gmtls: client certificate required")
      else check_pool now config cert config.client_cas

  unfoldable pub read_client_certificate_tls13 : ℕ → Action Conn (Unit {0})
  unfolding check_client_certificate
  read_client_certificate_tls13 now = do
    msg ← read_msg
    raise_if (not (get_or msg 0 0 == type_certificate))
        (message "gmtls: expected client Certificate, got %d")
    cert ← lift (CertificateMsg.parse read_key msg)
    modify (λ s. record s { peer_cert = some cert })
    λ s. lift (check_client_certificate now s.config cert) s
    modify (add_to_transcript msg)

  abbrev pub check_with : List ℕ → List ℕ → List ℕ → Option PublicKey → Outcome (Unit {0})
  check_with context hash signature none =
      err (message "gmtls: no peer certificate for signature verification")
  check_with context hash signature (some key) = verified (
      sm2_tls13_verify_with_id lib.curve key (cert_verify_signed context hash) signature
        handshake_id)

  unfoldable pub check_signature : List ℕ → List ℕ → Conn → Outcome (Unit {0})
  unfolding cert_verify_signed
  check_signature context signature s =
      check_with context (transcript_hash lib s) signature (peer_key s)

  unfoldable pub read_certificate_verify_tls13 : List ℕ → Action Conn (Unit {0})
  unfolding check_signature
  read_certificate_verify_tls13 context = do
    msg ← read_msg
    m ← lift (CertificateVerify.unmarshal msg)
    raise_if (not (m.algorithm == sm2_sm3))
        (message "gmtls: CertificateVerify has unexpected signature algorithm")
    (λ s.
        if s.config.insecure_skip_verify
        then (ok tt, s)
        else (check_signature context m.signature s, s))
    modify (add_to_transcript msg)

  abbrev pub compare : List ℕ → Conn → Outcome (List ℕ) → Outcome (Unit {0})
  compare verify_data s (ok finished_key) =
      if not
        (bytes_equal verify_data (verify_data_tls13 lib.sm3 finished_key (transcript_hash lib s)))
      then err (message "gmtls: Finished verify_data verification failed")
      else ok tt
  compare verify_data s (err e) = err e
  compare verify_data s Outcome.panic = Outcome.panic
  compare verify_data s stuck = stuck

  unfoldable pub check_finished : List ℕ → Conn → Outcome (Unit {0})
  check_finished verify_data s =
      compare verify_data s (derive_finished_key lib.sm3 (peer_handshake s).secret)

  abbrev pub keep_finished_hash : Conn → Conn
  keep_finished_hash s = record s { server_finished_hash = transcript_hash lib s }

  unfoldable pub read_finished_tls13 : Action Conn (Unit {0})
  unfolding check_finished restart_reading
  read_finished_tls13 = do
    msg ← read_msg
    verify_data ← lift (Finished.unmarshal msg)
    (λ s. if s.config.insecure_skip_verify then (ok tt, s) else (check_finished verify_data s, s))
    modify (add_to_transcript msg)
    modify (λ s. if is_client s then keep_finished_hash s else s)
    restart_reading
