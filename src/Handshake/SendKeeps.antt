-- ===== src/Handshake/SendKeeps.antt =====
-- conn.go: the runs of the steps that both ends take after the hellos, and their states.
use cnnic_gmtls.Base.{ℕ, refl, List, Bool, true, false, if◌then◌else◌, Option, none, some}
use cnnic_gmtls.Base.State.{modify, lift}
use cnnic_gmtls.Base.Keeping.{Keeping, Keeping-bind, Keeping-lift, Keeping-if}
use cnnic_gmtls.Handshake.{Library, Conn, on_entropy, add_to_transcript, is_client}
use cnnic_gmtls.Handshake.Keeps.{
  Extends, Extends-refl, extending, unchanged, Keeping-write, Keeping-on_entropy,
}
use cnnic_gmtls.Handshake.Outcomes.{
  new_sm4_gcm_mode-NotStuck, derive_finished_key-NotStuck, sm2_tls13_sign_with_id-NotStuck,
}
use cnnic_gmtls.Handshake.Secrets.{new_mode, update_layer, set_out_cipher}
use cnnic_gmtls.Handshake.Send.{
  send, send_certificate_tls13, send_certificate_verify_tls13, send_finished_tls13,
  send_encrypted_extensions, send_certificate_request_tls13, start_writing, own_handshake,
  set_own_encrypted, sends_with_cipher, send_this, own_signed, keep_own_finished_hash,
}
use cnnic_gmtls.Message.Certificate.{Certificate}
use cnnic_gmtls.Message.Finished as Finished
use cnnic_gmtls.Record.{handshake}
use cnnic_gmtls.Record.Gcm.{Sm4GcmMode}
use cnnic_gmtls.Record.Keeps.{Keeps, Keeps-refl}
use cnnic_gmtls.Schedule.Keys.{derive_finished_key, verify_data_tls13}
use cnnic_gmtls.Sm2.Signing.{handshake_id, sm2_tls13_sign_with_id}
use cnnic_gmtls.Record.Layer.{RecordLayer}

pub Extends-add_to_transcript : (d : List ℕ) (s : Conn) → Extends s (add_to_transcript d s)
Extends-add_to_transcript d s = record {
  stays = record { same_config = refl; same_name = refl; same_layer = Keeps-refl s.wire.layer };
  same_cert = refl;
  same_client = refl;
  same_server = refl;
  more = d;
  transcript_is = refl;
}

-- The flags and ciphers of the record layer.
pub Extends-update_layer :
    (f : RecordLayer → RecordLayer) (s : Conn)
    → Keeps s.wire.layer (f s.wire.layer)
    → Extends s (update_layer f s)
Extends-update_layer f s k = unchanged s (update_layer f s) refl refl k refl refl refl refl

pub Extends-if :
    (test : Bool) (s t u : Conn) → Extends s t → Extends s u → Extends s (if test then t else u)
Extends-if true s t u h k = h
Extends-if false s t u h k = k

set_own_Extends : (m : Sm4GcmMode) (s : Conn) → Extends s (set_own_encrypted (set_out_cipher m s))
set_own_Extends m s =
    let t = set_out_cipher m s in
    Extends-if (is_client t) s _ _
      (Extends-update_layer (λ l. record l { out_cipher = some m; client_encrypted = true }) s
        (record { same_side = refl; same_version = refl; same_complete = refl }))
      (Extends-update_layer (λ l. record l { out_cipher = some m; server_encrypted = true }) s
        (record { same_side = refl; same_version = refl; same_complete = refl }))

module _ (lib : Library) where
  keep_own_Extends : (s : Conn) → Extends s (keep_own_finished_hash lib s)
  keep_own_Extends s = Extends-if (is_client s) s s _ (Extends-refl s) (
      unchanged s (record s { server_finished_hash = lib.sm3.hash s.transcript }) refl refl
        (Keeps-refl s.wire.layer) refl refl refl refl)

  pub send-Keeps : (d : List ℕ) (s : Conn) → Keeping extending (send lib d) s
  unfolding send
  send-Keeps d s =
      Keeping-bind extending s (modify (add_to_transcript d) s) _ (Extends-add_to_transcript d s)
        (λ _ t. Keeping-write lib.aead handshake d t)

  pub send_encrypted_extensions-Keeps :
      (s : Conn) → Keeping extending (send_encrypted_extensions lib) s
  unfolding send_encrypted_extensions
  send_encrypted_extensions-Keeps s = send-Keeps _ s

  pub send_certificate_request-Keeps :
      (s : Conn) → Keeping extending (send_certificate_request_tls13 lib) s
  unfolding send_certificate_request_tls13
  send_certificate_request-Keeps s = send-Keeps _ s

  send_this-Keeps :
      (cert : Option Certificate) (s : Conn) → Keeping extending (send_this lib cert) s
  send_this-Keeps none s = Extends-refl s
  send_this-Keeps (some cert) s = send-Keeps _ s

  pub send_certificate-Keeps : (s : Conn) → Keeping extending (send_certificate_tls13 lib) s
  unfolding send_certificate_tls13
  send_certificate-Keeps s = send_this-Keeps s.local_cert s

  pub send_certificate_verify-Keeps :
      (s : Conn) → Keeping extending (send_certificate_verify_tls13 lib) s
  unfolding send_certificate_verify_tls13
  send_certificate_verify-Keeps s =
      let sign = sm2_tls13_sign_with_id lib.curve s.local_priv (own_signed lib s) handshake_id in
      Keeping-bind extending s (on_entropy sign s) _
        (Keeping-on_entropy sign s (
          sm2_tls13_sign_with_id-NotStuck lib.curve s.local_priv (own_signed lib s) handshake_id
            s.entropy))
        (λ signature t. send-Keeps _ t)

  -- A change of the record layer's keys.
  start_writing-Keeps : (s : Conn) → Keeping extending (start_writing) s
  unfolding start_writing
  start_writing-Keeps s = Keeping-if extending s (sends_with_cipher s) _ _ (Extends-refl s) (
      Keeping-bind extending s (lift (new_mode (own_handshake s)) s) _
        (Keeping-lift extending (new_mode (own_handshake s)) s (new_sm4_gcm_mode-NotStuck _ _))
        (λ m t. set_own_Extends m t))

  pub send_finished-Keeps : (s : Conn) → Keeping extending (send_finished_tls13 lib) s
  unfolding send_finished_tls13
  send_finished-Keeps s =
      let finished_key = derive_finished_key lib.sm3 (own_handshake s).secret in
      Keeping-bind extending s (finished_key, s) _
        (Keeping-lift extending finished_key s
          (derive_finished_key-NotStuck lib.sm3 (own_handshake s).secret))
        (λ key t.
          let d = Finished.marshal (verify_data_tls13 lib.sm3 key (lib.sm3.hash t.transcript)) in
          Keeping-bind extending t (modify (add_to_transcript d) t) _
            (Extends-add_to_transcript d t)
            (λ _ u.
              Keeping-bind extending u (modify (keep_own_finished_hash lib) u) _
                (keep_own_Extends u)
                (λ _ v.
                  Keeping-bind extending v (start_writing v) _ (start_writing-Keeps v)
                    (λ _ w. Keeping-write lib.aead handshake d w))))
