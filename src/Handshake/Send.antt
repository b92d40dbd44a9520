-- ===== src/Handshake/Send.antt =====
-- conn.go: the messages that both ends, or the server, send: `sendEncryptedExtensions`,
-- `sendCertificateTLS13`, `sendCertificateRequestTLS13`, `sendCertificateVerifyTLS13` and
-- `sendFinishedTLS13`.
use cnnic_gmtls.Base.{
  ℕ, List, [], ◌∷◌, Bool, not, ◌||◌, ltb, if◌then◌else◌, Option, none, some, ok, err, message,
  length,
}
use cnnic_gmtls.Base.State.{Action, ◌>>=◌, ◌>>◌, gets, modify, lift}
use cnnic_gmtls.Extension.{Extension, sm2_sm3}
use cnnic_gmtls.Extension.Alpn.{marshal_alpn_extension}
use cnnic_gmtls.Handshake.{Library, Conn, on_layer, on_entropy, add_to_transcript, is_client}
use cnnic_gmtls.Handshake.Auth.{client_context, server_context, cert_verify_signed}
use cnnic_gmtls.Handshake.Secrets.{
  is_none, new_mode, set_out_cipher, set_client_encrypted, set_server_encrypted, transcript_hash,
}
use cnnic_gmtls.Message.Certificate as CertificateMsg
use cnnic_gmtls.Message.Certificate.{Certificate}
use cnnic_gmtls.Message.CertificateRequest as CertificateRequestMsg
use cnnic_gmtls.Message.CertificateVerify as CertificateVerify
use cnnic_gmtls.Message.EncryptedExtensions as EncryptedExtensions
use cnnic_gmtls.Message.Finished as Finished
use cnnic_gmtls.Record.{handshake}
use cnnic_gmtls.Record.Layer.{write_record}
use cnnic_gmtls.Schedule.Keys.{derive_finished_key, verify_data_tls13}
use cnnic_gmtls.Schedule.Material.{TrafficKeys}
use cnnic_gmtls.Sm2.Signing.{handshake_id, sm2_tls13_sign_with_id}

abbrev alpn_of : List ℕ → List Extension
alpn_of [] = []
alpn_of (b ∷ bs) = marshal_alpn_extension ((b ∷ bs) ∷ []) ∷ []

-- The handshake keys of this end.
abbrev pub own_handshake : Conn → TrafficKeys
own_handshake s =
    let keys = s.key_material.keys in
    if is_client s then keys.client_handshake else keys.server_handshake

-- Whether this end sends with a cipher.
abbrev pub sends_with_cipher : Conn → Bool
sends_with_cipher s =
    let l = s.wire.layer in
    not
      (not (if l.is_client then l.client_encrypted else l.server_encrypted) || is_none l.out_cipher)

abbrev pub set_own_encrypted : Conn → Conn
set_own_encrypted s = if is_client s then set_client_encrypted s else set_server_encrypted s

-- The handshake keys of this end are in use for writing.
unfoldable pub start_writing : Action Conn (Unit {0})
start_writing s =
    if sends_with_cipher s
    then (ok tt, s)
    else (lift (new_mode (own_handshake s)) >>= λ m.
          modify (λ s. set_own_encrypted (set_out_cipher m s)))
        s

module _ (lib : Library) where
  -- A message goes into the transcript and out as a handshake record.
  unfoldable pub send : List ℕ → Action Conn (Unit {0})
  send data' = do modify (add_to_transcript data'); on_layer (write_record lib.aead handshake data')

  unfoldable pub send_encrypted_extensions : Action Conn (Unit {0})
  unfolding send
  send_encrypted_extensions s = send (EncryptedExtensions.marshal (alpn_of s.negotiated_proto)) s

  abbrev pub send_this : Option Certificate → Action Conn (Unit {0})
  send_this none s = (err (message "gmtls: missing local certificate"), s)
  send_this (some cert) s = send (CertificateMsg.marshal cert s.cert_req_context) s

  unfoldable pub send_certificate_tls13 : Action Conn (Unit {0})
  unfolding send
  send_certificate_tls13 s = send_this s.local_cert s

  unfoldable pub send_certificate_request_tls13 : Action Conn (Unit {0})
  unfolding send
  send_certificate_request_tls13 s =
      let schemes : List ℕ =
        if ltb 0 (length s.client_sig_schemes) then s.client_sig_schemes else (sm2_sm3 ∷ []) in
      send (CertificateRequestMsg.marshal schemes) s

  -- What is signed, with the context of this end.
  abbrev pub own_signed : Conn → List ℕ
  own_signed s =
      cert_verify_signed (if is_client s then client_context else server_context)
        (transcript_hash lib s)

  unfoldable pub send_certificate_verify_tls13 : Action Conn (Unit {0})
  unfolding send cert_verify_signed
  send_certificate_verify_tls13 s =
      (on_entropy (sm2_tls13_sign_with_id lib.curve s.local_priv (own_signed s) handshake_id)
          >>= λ signature.
              send
                (CertificateVerify.marshal (record { algorithm = sm2_sm3; signature = signature })))
        s

  -- Of the two ends the server keeps the hash.
  abbrev pub keep_own_finished_hash : Conn → Conn
  keep_own_finished_hash s =
      if is_client s then s else record s { server_finished_hash = transcript_hash lib s }

  unfoldable pub send_finished_tls13 : Action Conn (Unit {0})
  unfolding start_writing
  send_finished_tls13 = do
    finished_key ← λ s. lift (derive_finished_key lib.sm3 (own_handshake s).secret) s
    data' ←
        gets
          (λ s. Finished.marshal (verify_data_tls13 lib.sm3 finished_key (transcript_hash lib s)))
    modify (add_to_transcript data')
    modify keep_own_finished_hash
    start_writing
    on_layer (write_record lib.aead handshake data')
