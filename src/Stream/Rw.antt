-- ===== src/Stream/Rw.antt =====
-- conn.go: `Conn.Read` and `Conn.Write`.
use cnnic_gmtls.Base.{
  ℕ, zero, suc, List, not, ◌==◌, ltb, leb, if◌then◌else◌, Option, none, some, ok, err, stuck,
  message, length, take, drop,
}
use cnnic_gmtls.Base.State.{Action, ◌>>=◌, ◌>>◌, pure, raise_if}
use cnnic_gmtls.Record.{alert, application_data, version_tls13}
use cnnic_gmtls.Record.Alert.{alert_error_with_close_notify}
use cnnic_gmtls.Record.Gcm.{Aead}
use cnnic_gmtls.Record.Layer.{read_record, write_record}
use cnnic_gmtls.Schedule.Hkdf.{Sm3}
use cnnic_gmtls.Stream.{Stream, on_layer}
use cnnic_gmtls.Stream.Tickets.{unwrap_application_data}

-- The end of `Read` for a slice of `n` bytes: what does not fit is kept for the next call.
unfoldable pub deliver : ℕ → List ℕ → Action Stream (List ℕ)
deliver n payload s = (
  ok (take n payload),
  if ltb n (length payload) then record s { app_read_buf = drop n payload } else s,
)

-- `continue` after a record that was consumed.
abbrev pub or_deliver : ℕ → Action Stream (List ℕ) → Option (List ℕ) → Action Stream (List ℕ)
or_deliver n rest none = rest
or_deliver n rest (some payload) = deliver n payload

module _ (a : Aead) (h : Sm3) where
  -- Before version 1.3 nothing is unwrapped.
  unfoldable pub unwrap : ℕ → List ℕ → Action Stream (Option (List ℕ))
  unwrap now payload s =
      if leb version_tls13 s.layer.version
      then unwrap_application_data h now payload s
      else (ok (some payload), s)

  -- The loop of `Read`, with at most `fuel` records.
  unfoldable pub read_loop : ℕ → ℕ → ℕ → Action Stream (List ℕ)
  read_loop now zero n s = (stuck, s)
  read_loop now (suc fuel) n s =
      (on_layer (read_record a) >>= λ rec.
      raise_if (rec.typ == alert) (alert_error_with_close_notify rec.content)
      >> (raise_if (not (rec.typ == application_data)) (message "gmtls: expected application data")
          >> (unwrap now rec.content >>= or_deliver n (read_loop now fuel n))))
        s

  -- `Read(b)` for `len(b)` equal to `n`: the bytes that are copied to `b`.
  unfoldable pub read : ℕ → ℕ → Action Stream (List ℕ)
  read now n s =
      if not s.layer.handshake_complete
      then (err (message "gmtls: handshake not complete"), s)
      else if ltb 0 (length s.app_read_buf)
      then (ok (take n s.app_read_buf), record s { app_read_buf = drop n s.app_read_buf })
      else read_loop now (suc (length s.layer.conn.incoming)) n s

  -- `Write(b)`: the number of bytes that it reports.
  unfoldable pub write : List ℕ → Action Stream ℕ
  write b s =
      if not s.layer.handshake_complete
      then (err (message "gmtls: handshake not complete"), s)
      else (on_layer (write_record a application_data b) >> pure (length b)) s
