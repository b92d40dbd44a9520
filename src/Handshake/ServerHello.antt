-- ===== src/Handshake/ServerHello.antt =====
-- conn.go: `readServerHelloTLS13`.
use cnnic_gmtls.Base.{
  ℕ, suc, List, [], ◌∷◌, ◌++◌, Bool, true, not, ◌&&◌, ◌==◌, leb, ltb, if◌then◌else◌, Option, none,
  some, Outcome, ok, err, message, hello_retry_request, length, get_or, bytes_equal,
}
use cnnic_gmtls.Base.State.{Action, ◌>>=◌, ◌>>◌, raise, gets, modify, lift, raise_if}
use cnnic_gmtls.Extension.{Extension, extension_pre_shared_key}
use cnnic_gmtls.Extension.KeyShare.{KeyShareEntry}
use cnnic_gmtls.Handshake.{Library, Conn, on_layer}
use cnnic_gmtls.Handshake.Reading.{read_past_change_cipher_spec}
use cnnic_gmtls.Handshake.Secrets.{
  derive_tls13_keys, is_none, new_mode, set_in_cipher, set_server_encrypted,
}
use cnnic_gmtls.Handshake.Shared.{
  find_extension, retry_group, server_key_share, check_supported_version, client_shared_secret,
}
use cnnic_gmtls.Message.{type_server_hello, type_message_hash}
use cnnic_gmtls.Message.ServerHello.{ServerHelloMsg, unmarshal}
use cnnic_gmtls.Record.{Record, handshake, version_tls13}
use cnnic_gmtls.Suite.{CipherSuiteInfo, cipher_suite_by_id}
use cnnic_gmtls.Suite.Selection.{client_offered_cipher_suite, cipher_suite_for_version}

-- `helloRetryRequestRandom`
abbrev pub hello_retry_request_random : List ℕ
hello_retry_request_random =
    0xCF ∷ 0x21 ∷ 0xAD ∷ 0x74 ∷ 0xE5 ∷ 0x9A ∷ 0x61 ∷ 0x11 ∷ 0xBE ∷ 0x1D ∷ 0x8C ∷ 0x02 ∷ 0x1E ∷ 0x65
    ∷ 0xB8 ∷ 0x91 ∷ 0xC2 ∷ 0xA2 ∷ 0x11 ∷ 0x16 ∷ 0x7A ∷ 0xBB ∷ 0x8C ∷ 0x5E ∷ 0x07 ∷ 0x9E ∷ 0x09
    ∷ 0xE2 ∷ 0xC8 ∷ 0xA8 ∷ 0x33 ∷ 0x9C ∷ []

-- A ServerHello by its record and its first byte.
abbrev pub is_server_hello : Record → Bool
is_server_hello rec =
    (rec.typ == handshake)
    && ltb 0 (length rec.content)
    && (get_or rec.content 0 0 == type_server_hello)

module _ (lib : Library) where
  -- The message that stands for the first ClientHello, and the HelloRetryRequest behind it.
  unfoldable pub retry_transcript : List ℕ → List ℕ → List ℕ
  retry_transcript first_hello retry =
      (type_message_hash ∷ 0 ∷ 0 ∷ 32 ∷ lib.sm3.hash first_hello) ++ retry

  -- A HelloRetryRequest is handed to the caller as an error.
  unfoldable pub take_retry : ServerHelloMsg → List ℕ → Action Conn (Unit {0})
  unfolding retry_transcript
  take_retry hello content = do
    group ← lift (retry_group hello.extensions)
    raise_if (group == 0) (message "gmtls: HelloRetryRequest missing key_share group")
    empty ← gets (λ s. length s.last_client_hello == 0)
    raise_if empty (message "gmtls: missing ClientHello for HRR")
    modify (λ s. record s {
      transcript = retry_transcript s.last_client_hello content;
      hello_retry = true;
      requested_group = group;
    })
    raise hello_retry_request

  -- The first part: only a HelloRetryRequest ends here.
  unfoldable pub check_retry : Record → Action Conn (Unit {0})
  unfolding take_retry
  check_retry rec s =
      if is_server_hello rec
      then (lift (unmarshal rec.content) >>= λ hello t.
            if (length hello.random == 32) && bytes_equal hello.random hello_retry_request_random
            then take_retry hello rec.content t
            else (ok tt, t))
          s
      else (ok tt, s)

  abbrev pub set_suite : Option CipherSuiteInfo → Action Conn (Unit {0})
  set_suite suite = modify (λ s. record s { cipher_suite = suite })

  unfoldable pub accept_suite : ℕ → Action Conn (Unit {0})
  accept_suite id = do
    refused ← gets (λ s.
        ltb 0 (length s.client_cipher_suites)
        && not (client_offered_cipher_suite s.client_cipher_suites id))
    raise_if refused (message "gmtls: server selected unsupported cipher suite 0x%04x")
    let suite = cipher_suite_by_id id
    set_suite suite
    raise_if (is_none suite) (message "gmtls: unsupported cipher suite 0x%04x")
    raise_if (not (cipher_suite_for_version suite version_tls13))
        (message "gmtls: cipher suite not valid for TLS 1.3: 0x%04x")

  abbrev pub keep_share : Option KeyShareEntry → Conn → Conn
  keep_share none s = s
  keep_share (some e) s =
      let m = s.key_material in
      record s { key_material = record m { server_public_share = e.key_exchange } }

  -- A `selected_identity` marks the session as resumed.
  abbrev pub note_resumption : Option (List ℕ) → Conn → Conn
  note_resumption none s = s
  note_resumption (some d) s = if leb 2 (length d) then record s { did_resume = true } else s

  abbrev pub need_share : Option KeyShareEntry → Outcome KeyShareEntry
  need_share none = err (message "gmtls: server did not send key_share extension")
  need_share (some e) = ok e

  abbrev pub set_secret : List ℕ → Conn → Conn
  set_secret secret s =
      let m = s.key_material in record s { key_material = record m { shared_secret = secret } }

  -- The extensions, and the secret.
  unfoldable pub accept_share : List Extension → Action Conn (Unit {0})
  accept_share exts = do
    share ← lift (server_key_share exts)
    modify (keep_share share)
    modify (note_resumption (find_extension extension_pre_shared_key exts))
    entry ← lift (need_share share)
    lift (check_supported_version exts)
    secret ← λ s. lift (client_shared_secret lib s.key_material entry) s
    modify (set_secret secret)

  -- The server's handshake keys are in use for reading.
  unfoldable pub start_reading : Action Conn (Unit {0})
  start_reading = do
    modify set_server_encrypted
    m ← λ s. lift (new_mode s.key_material.keys.server_handshake) s
    modify (set_in_cipher m)

  unfoldable pub read_server_hello_tls13 : Action Conn (Unit {0})
  unfolding check_retry accept_suite accept_share start_reading
  read_server_hello_tls13 = do
    rec ← on_layer (λ l. read_past_change_cipher_spec lib.aead (suc (length l.conn.incoming)) l)
    check_retry rec
    raise_if (not (rec.typ == handshake)) (message "gmtls: expected handshake record")
    modify (λ s. record s {
      transcript = s.transcript ++ rec.content;
      last_server_hello = rec.content;
    })
    hello ← lift (unmarshal rec.content)
    modify (λ s. record s { server_random = hello.random })
    accept_suite hello.cipher_suite
    accept_share hello.extensions
    derive_tls13_keys lib
    start_reading
