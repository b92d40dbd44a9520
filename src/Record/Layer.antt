-- ===== src/Record/Layer.antt =====
-- conn.go: `writeRecord` and `readRecord`, with the fields of `Conn` that they use, and the network
-- connection below them.
use cnnic_gmtls.Base.{
  ℕ, ◌+◌, ◌*◌, ◌%◌, List, [], ◌∷◌, ◌++◌, Bool, not, ◌&&◌, ◌==◌, leb, if◌then◌else◌, Option, none,
  some, ok, err, message, eof, length, take, drop, get_or, put_uint16,
}
use cnnic_gmtls.Base.State.{Action, ◌>>=◌, ◌>>◌, gets, modify, lift}
use cnnic_gmtls.Record.{
  Record, change_cipher_spec, alert, application_data, version_tls12, version_tls13,
}
use cnnic_gmtls.Record.InnerType.{strip_inner_content_type}
use cnnic_gmtls.Record.Gcm.{Aead, Sm4GcmMode, encrypt, decrypt}

-- A `net.Conn`: the bytes that are still to come before the end of the stream, and those sent.
pub record NetConn : Type 0 where
  pub incoming : List ℕ
  pub outgoing : List ℕ
  pub is_open : Bool

-- The part of `Conn` that the record layer uses. Every cipher that the code stores is a
-- `SM4GCMMode`.
pub record RecordLayer : Type 0 where
  pub conn : NetConn
  pub is_client : Bool
  pub version : ℕ
  pub in_cipher : Option Sm4GcmMode
  pub out_cipher : Option Sm4GcmMode
  pub client_encrypted : Bool
  pub server_encrypted : Bool
  pub handshake_complete : Bool
  pub next_record_version : ℕ

-- `io.ReadFull(c.conn, b)` for a slice of `n` bytes.
unfoldable pub read_full : ℕ → Action RecordLayer (List ℕ)
read_full n s =
    let c = s.conn in
    if not c.is_open
    then (err (message "use of closed network connection"), s)
    else if leb n (length c.incoming)
    then (ok (take n c.incoming), record s { conn = record c { incoming = drop n c.incoming } })
    else (
      (if length c.incoming == 0 then err eof else err (message "unexpected EOF")),
      record s { conn = record c { incoming = [] } },
    )

-- `c.conn.Write(b)`
unfoldable pub write_bytes : List ℕ → Action RecordLayer (Unit {0})
write_bytes b s =
    let c = s.conn in
    if c.is_open
    then (ok tt, record s { conn = record c { outgoing = c.outgoing ++ b } })
    else (err (message "use of closed network connection"), s)

-- Whether records of this end, or of the other end, are encrypted.
abbrev pub sends_encrypted : RecordLayer → Bool
sends_encrypted s = if s.is_client then s.client_encrypted else s.server_encrypted

abbrev pub receives_encrypted : RecordLayer → Bool
receives_encrypted s = if s.is_client then s.server_encrypted else s.client_encrypted

abbrev set_out : List ℕ × Sm4GcmMode → Action RecordLayer (ℕ × List ℕ)
set_out (payload, m) s = (ok (application_data, payload), record s { out_cipher = some m })

abbrev set_in : List ℕ × Sm4GcmMode → Action RecordLayer (List ℕ)
set_in (payload, m) s = (ok payload, record s { in_cipher = some m })

-- The second half: the header, with a version that is set for one record or fixed.
unfoldable pub frame : ℕ → ℕ → List ℕ → List ℕ
frame out_type version payload =
    out_type ∷ (put_uint16 version ++ (put_uint16 (length payload) ++ payload))

abbrev pub record_version : RecordLayer → ℕ
record_version s =
    if s.next_record_version == 0
    then (if leb version_tls13 s.version then version_tls12 else s.version)
    else s.next_record_version

-- After the handshake the inner type is stripped from application data; an alert inside becomes
-- an alert record, and any other inner type is left in place.
unfoldable pub strip_after_handshake : ℕ → ℕ → ℕ → List ℕ → RecordLayer → Record
strip_after_handshake typ version n payload s =
    let plain : Record = record { typ = typ; version = version; length' = n; content = payload } in
    let stripped : Record = elim (strip_inner_content_type payload) [
      | ok (content, inner) ↦
          if inner == alert
          then record {
            typ = alert;
            version = version;
            length' = length content % 65536;
            content = content;
          }
          else if inner == application_data
          then record plain { content = content }
          else plain
      | _ ↦ plain
    ] in
    if leb version_tls13 s.version && (typ == application_data) && s.handshake_complete
    then stripped
    else plain

module _ (a : Aead) where
  -- The first half of `writeRecord`: the outer type and the payload.
  unfoldable pub protect : ℕ → List ℕ → Action RecordLayer (ℕ × List ℕ)
  protect typ content s = elim s.out_cipher [
    | none ↦ (ok (typ, content), s)
    | some m ↦
        if sends_encrypted s
        then (lift (encrypt a typ content m) >>= set_out) s
        else (ok (typ, content), s)
  ]

  unfoldable pub write_record : ℕ → List ℕ → Action RecordLayer (Unit {0})
  unfolding write_bytes
  write_record typ content = do
    (out_type, payload) ← protect typ content
    version ← gets record_version
    modify (λ s. record s { next_record_version = 0 })
    write_bytes (frame out_type version payload)

  -- Change of cipher spec and alert are not decrypted.
  unfoldable pub unprotect : ℕ → List ℕ → Action RecordLayer (List ℕ)
  unprotect typ payload s = elim s.in_cipher [
    | none ↦ (ok payload, s)
    | some m ↦
        if not (typ == change_cipher_spec) && not (typ == alert) && receives_encrypted s
        then (lift (decrypt a payload m) >>= set_in) s
        else (ok payload, s)
  ]

  unfoldable pub read_record : Action RecordLayer Record
  read_record = do
    header ← read_full 5
    let typ = get_or header 0 0
    let version = get_or header 1 0 * 256 + get_or header 2 0
    let n = get_or header 3 0 * 256 + get_or header 4 0
    payload ← read_full n
    content ← unprotect typ payload
    gets (strip_after_handshake typ version n content)
