-- ===== src/Handshake/SecretsKeep.antt =====
-- conn.go: the runs of the steps that make the keys for application data, and their states.
use cnnic_gmtls.Base.{
  ℕ, ◌≡◌, refl, List, true, not, ◌||◌, ◌==◌, if◌then◌else◌, Option, none, some, Outcome, ok, err,
  panic, stuck, length,
}
use cnnic_gmtls.Base.Keeping.{Keeping, Keeping-bind, Keeping-lift, Keeping-if}
use cnnic_gmtls.Base.Runs.{Runs, Runs-after, NotStuck}
use cnnic_gmtls.Handshake.{Library, Conn, is_client}
use cnnic_gmtls.Handshake.Keeps.{Extends, Extends-refl, Extends-trans, extending, unchanged}
use cnnic_gmtls.Handshake.Outcomes.{derive_keys-NotStuck, new_sm4_gcm_mode-NotStuck}
use cnnic_gmtls.Handshake.Run.{
  complete, finish, answer_request, start_client_writing, send_client_flight, start_server_reading,
}
use cnnic_gmtls.Handshake.Secrets.{
  the_suite, app_keys, set_up, set_both, finished_hash, new_mode, set_in_cipher, set_out_cipher,
  is_none, derive_tls13_application_keys, derive_tls13_server_app_keys,
  setup_application_traffic_keys, setup_server_application_traffic_keys_for_client,
}
use cnnic_gmtls.Handshake.SendKeeps.{
  Extends-update_layer, Extends-if, send_certificate-Keeps, send_certificate_verify-Keeps,
  send_finished-Keeps,
}
use cnnic_gmtls.Handshake.Send.{send_certificate_tls13}
use cnnic_gmtls.Record.Gcm.{Sm4GcmMode}
use cnnic_gmtls.Record.Keeps.{Keeps-refl}
use cnnic_gmtls.Schedule.Keys.{label_client_traffic, label_server_traffic}
use cnnic_gmtls.Schedule.Material.{TrafficKeys, derive_keys}
use cnnic_gmtls.Suite.{CipherSuiteInfo}

suite-NotStuck :
    (suite : Option CipherSuiteInfo) (s : Conn)
    → NotStuck (the_suite (record s { cipher_suite = suite }))
unfolding NotStuck
suite-NotStuck none s = tt
suite-NotStuck (some suite) s = tt

pub the_suite-NotStuck : (s : Conn) → NotStuck (the_suite s)
the_suite-NotStuck s = suite-NotStuck s.cipher_suite s

set_up-Extends :
    (m : Outcome Sm4GcmMode) (f : Sm4GcmMode → Conn → Conn) (s : Conn)
    → ((k : Sm4GcmMode) → Extends s (f k s))
    → Extends s (set_up m f s)
set_up-Extends (ok k) f s h = h k
set_up-Extends (err x) f s h = Extends-refl s
set_up-Extends panic f s h = Extends-refl s
set_up-Extends stuck f s h = Extends-refl s

set_in_Extends : (m : Sm4GcmMode) (s : Conn) → Extends s (set_in_cipher m s)
set_in_Extends m s =
    Extends-update_layer (λ l. record l { in_cipher = some m }) s
      (record { same_side = refl; same_version = refl; same_complete = refl })

set_out_Extends : (m : Sm4GcmMode) (s : Conn) → Extends s (set_out_cipher m s)
set_out_Extends m s =
    Extends-update_layer (λ l. record l { out_cipher = some m }) s
      (record { same_side = refl; same_version = refl; same_complete = refl })

set_both-Extends : (i o : TrafficKeys) (s : Conn) → Extends s (set_both i o s)
set_both-Extends i o s = set_up-Extends (new_mode i) _ s (λ m. Extends-trans (set_in_Extends m s) (
    set_up-Extends (new_mode o) set_out_cipher (set_in_cipher m s)
      (λ k. set_out_Extends k (set_in_cipher m s))))

setup-Extends : (s : Conn) → Extends s (setup_application_traffic_keys s)
unfolding setup_application_traffic_keys
setup-Extends s =
    let keys = s.key_material.keys in
    Extends-if (is_client s) s _ _ (set_both-Extends keys.server_app keys.client_app s)
      (set_both-Extends keys.client_app keys.server_app s)

setup_client-Extends : (s : Conn) → Extends s (setup_server_application_traffic_keys_for_client s)
unfolding setup_server_application_traffic_keys_for_client
setup_client-Extends s =
    let app = s.key_material.keys.server_app in
    Extends-if (not (is_client s) || (length app.key == 0) || (length app.iv == 0)) s _ _
      (Extends-refl s) (set_up-Extends (new_mode app) set_in_cipher s (λ m. set_in_Extends m s))

module _ (lib : Library) where
  app_keys-Keeps : (label : List ℕ) (s : Conn) → Keeping extending (app_keys lib label) s
  app_keys-Keeps label s =
      Keeping-bind extending s (the_suite s, s) _
        (Keeping-lift extending (the_suite s) s (the_suite-NotStuck s))
        (λ suite t.
          let d =
            derive_keys lib.sm3 suite.key_len suite.iv_len t.key_material.keys.master_secret label
              (finished_hash lib t) in
          Keeping-lift extending d t (derive_keys-NotStuck lib.sm3 _ _ _ _ _))

  derive_application_keys-Keeps :
      (s : Conn) → Keeping extending (derive_tls13_application_keys lib) s
  unfolding derive_tls13_application_keys
  derive_application_keys-Keeps s =
      Keeping-if extending s (length s.key_material.keys.master_secret == 0) _ _ (Extends-refl s) (
        Keeping-bind extending s (app_keys lib label_client_traffic s) _
          (app_keys-Keeps label_client_traffic s)
          (λ client_app t.
            Keeping-bind extending t (app_keys lib label_server_traffic t) _
              (app_keys-Keeps label_server_traffic t)
              (λ server_app u.
                unchanged u _ refl refl (Keeps-refl u.wire.layer) refl refl refl refl)))

  derive_server_app_keys-Keeps : (s : Conn) → Keeping extending (derive_tls13_server_app_keys lib) s
  unfolding derive_tls13_server_app_keys
  derive_server_app_keys-Keeps s =
      Keeping-if extending s (not (is_client s) || (length s.key_material.keys.master_secret == 0))
        _ _ (Extends-refl s)
        (Keeping-bind extending s (app_keys lib label_server_traffic s) _
          (app_keys-Keeps label_server_traffic s)
          (λ server_app u. unchanged u _ refl refl (Keeps-refl u.wire.layer) refl refl refl refl))

  start_writing-Keeps : (s : Conn) → Keeping extending (start_client_writing) s
  start_writing-Keeps s =
      Keeping-if extending s s.wire.layer.client_encrypted _ _ (Extends-refl s) (
        Keeping-bind extending s (new_mode s.key_material.keys.client_handshake, s) _
          (Keeping-lift extending (new_mode s.key_material.keys.client_handshake) s
            (new_sm4_gcm_mode-NotStuck _ _))
          (λ m t.
            Extends-update_layer (λ l. record l { client_encrypted = true; out_cipher = some m }) t
              (record { same_side = refl; same_version = refl; same_complete = refl })))

  module _ (now : ℕ) where
    answer_request-Keeps : (s : Conn) → Keeping extending (answer_request lib now) s
    unfolding answer_request
    answer_request-Keeps s =
        Keeping-if extending s (not s.client_cert_requested) _ _ (Extends-refl s) (
          Keeping-if extending s (is_none s.local_cert || is_none s.local_priv) _ _ (Extends-refl s)
            (Keeping-bind extending s (start_client_writing s) _ (start_writing-Keeps s) (λ _ t.
              Keeping-bind extending t (send_certificate_tls13 lib t) _
                (send_certificate-Keeps lib t) (λ _ u. send_certificate_verify-Keeps lib u))))

    pub send_client_flight-Keeps : (s : Conn) → Keeping extending (send_client_flight lib now) s
    unfolding send_client_flight
    send_client_flight-Keeps s =
        Keeping-bind extending s (derive_tls13_server_app_keys lib s) _
          (derive_server_app_keys-Keeps s)
          (λ _ t.
            Keeping-bind extending t
              (ok tt, if is_client t then setup_server_application_traffic_keys_for_client t else t)
              _ (Extends-if (is_client t) t _ t (setup_client-Extends t) (Extends-refl t))
              (λ _ u.
                Keeping-bind extending u (answer_request lib now u) _ (answer_request-Keeps u)
                  (λ _ v. send_finished-Keeps lib v)))

    pub start_server_reading-Keeps : (s : Conn) → Keeping extending (start_server_reading) s
    start_server_reading-Keeps s =
        Keeping-if extending s
          (not (not s.wire.layer.client_encrypted || is_none s.wire.layer.in_cipher)) _ _
          (Extends-refl s)
          (Keeping-bind extending s (new_mode s.key_material.keys.client_handshake, s) _
            (Keeping-lift extending (new_mode s.key_material.keys.client_handshake) s
              (new_sm4_gcm_mode-NotStuck _ _))
            (λ m t.
              Extends-update_layer (λ l. record l { client_encrypted = true; in_cipher = some m }) t
                (record { same_side = refl; same_version = refl; same_complete = refl })))

    -- The last part marks the connection as ready, and keeps the rest.
    pub finish-Runs :
        (s : Conn)
        → Runs (finish lib now s) (Extends s) (λ _ t. (u : Conn) × Extends s u × (t ≡ complete u))
    unfolding finish
    finish-Runs s =
        Runs-after (Extends s) (λ _ t. Extends s t) _ (derive_tls13_application_keys lib s) _
          (derive_application_keys-Keeps s)
          (λ _ t h. (setup_application_traffic_keys t, Extends-trans h (setup-Extends t), refl))
