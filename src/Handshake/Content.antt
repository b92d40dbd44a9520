-- ===== src/Handshake/Content.antt =====
-- conn.go: what `readTLS13HandshakeMsg` takes from a record and from its buffer.
use cnnic_gmtls.Base.{
  ℕ, ◌+◌, ◌*◌, List, ◌∷◌, not, ◌==◌, leb, if◌then◌else◌, Option, none, some, Outcome, ok, err,
  message, ◌>>=◌, length, take, drop,
}
use cnnic_gmtls.Record.{
  Record, change_cipher_spec, alert, handshake, application_data, version_tls13,
}
use cnnic_gmtls.Record.Alert.{alert_error}
use cnnic_gmtls.Record.InnerType.{strip_inner_content_type}

-- The first message of the buffer, with its header, and the rest, if the message is all there.
unfoldable pub take_message : List ℕ → Option (List ℕ × List ℕ)
take_message (t ∷ a ∷ b ∷ c ∷ rest) =
    let total : ℕ = 4 + (a * 65536 + b * 256 + c) in
    let buf : List ℕ = t ∷ a ∷ b ∷ c ∷ rest in
    if leb total (length buf) then some (take total buf, drop total buf) else none
take_message _ = none

-- Of the inner types only a handshake message goes on.
unfoldable pub inner_content : List ℕ × ℕ → Outcome (Option (List ℕ))
inner_content (stripped, inner) =
    if inner == alert
    then err (alert_error stripped)
    else if not (inner == handshake)
    then err (message "gmtls: unexpected inner content type %d")
    else ok (some stripped)

-- What a record adds to the buffer: nothing if it is a change of cipher spec.
unfoldable pub handshake_content : ℕ → Record → Outcome (Option (List ℕ))
unfolding inner_content
handshake_content version rec =
    if rec.typ == change_cipher_spec
    then ok none
    else if rec.typ == alert
    then err (alert_error rec.content)
    else if not (rec.typ == application_data)
    then err (message "gmtls: expected encrypted ApplicationData record, got type=%d")
    else if leb version_tls13 version
    then (strip_inner_content_type rec.content >>= inner_content)
    else ok (some rec.content)
