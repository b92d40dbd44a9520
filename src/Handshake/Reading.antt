-- ===== src/Handshake/Reading.antt =====
-- conn.go: `readTLS13HandshakeMsg`, which takes a handshake message from as many encrypted records
-- as it needs.
use cnnic_gmtls.Base.{
  ℕ, zero, suc, List, ◌++◌, ◌==◌, if◌then◌else◌, Option, none, some, ok, stuck, length,
}
use cnnic_gmtls.Base.State.{Action, ◌>>=◌, lift}
use cnnic_gmtls.Handshake.{Wire, wire_on_layer}
use cnnic_gmtls.Handshake.Content.{take_message, handshake_content}
use cnnic_gmtls.Record.{Record, change_cipher_spec}
use cnnic_gmtls.Record.Gcm.{Aead}
use cnnic_gmtls.Record.Layer.{RecordLayer, read_record}

unfoldable pub add_content : Option (List ℕ) → Action Wire (Unit {0})
add_content none w = (ok tt, w)
add_content (some plaintext) w = (ok tt, record w { handshake_buf = w.handshake_buf ++ plaintext })

module _ (a : Aead) where
  -- One record of the loop.
  unfoldable pub receive : Action Wire (Unit {0})
  unfolding handshake_content add_content
  receive = do
    rec ← wire_on_layer (read_record a)
    content ← λ w. lift (handshake_content w.layer.version rec) w
    add_content content

  unfoldable pub read_messages : ℕ → Action Wire (List ℕ)
  unfolding take_message
  read_messages zero w = (stuck, w)
  read_messages (suc fuel) w = elim (take_message w.handshake_buf) [
    | some (msg, rest) ↦ (ok msg, record w { handshake_buf = rest })
    | none ↦ (receive >>= λ _. read_messages fuel) w
  ]

  unfoldable pub read_tls13_handshake_msg : Action Wire (List ℕ)
  read_tls13_handshake_msg w = read_messages (suc (length w.layer.conn.incoming)) w

  -- The loop of `readServerHelloTLS13` that skips changes of cipher spec.
  unfoldable pub read_past_change_cipher_spec : ℕ → Action RecordLayer Record
  read_past_change_cipher_spec zero s = (stuck, s)
  read_past_change_cipher_spec (suc fuel) s =
      (read_record a >>= λ rec l.
      let rest = read_past_change_cipher_spec fuel l in
      if rec.typ == change_cipher_spec then rest else (ok rec, l))
        s
