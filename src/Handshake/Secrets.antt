-- ===== src/Handshake/Secrets.antt =====
-- conn.go: the keys of a connection: `deriveTLS13Keys`, `deriveTLS13ApplicationKeys`,
-- `deriveTLS13ServerAppKeys`, and their use in the record layer.
use cnnic_gmtls.Base.{
  ℕ, List, [], ◌∷◌, Bool, true, false, ◌||◌, ◌==◌, not, if◌then◌else◌, Option, none, some, Outcome,
  ok, panic, length, replicate,
}
use cnnic_gmtls.Base.State.{Action, ◌>>=◌, gets, modify, lift}
use cnnic_gmtls.Handshake.{Library, Conn, Shares, is_client}
use cnnic_gmtls.Record.Gcm.{Sm4GcmMode, new_sm4_gcm_mode}
use cnnic_gmtls.Record.Layer.{RecordLayer}
use cnnic_gmtls.Schedule.Keys.{label_client_traffic, label_server_traffic}
use cnnic_gmtls.Schedule.Material.{TrafficKeys, KeyMaterial, no_keys, derive_keys, derive_all_keys}
use cnnic_gmtls.Suite.{CipherSuiteInfo}

abbrev pub no_material : KeyMaterial
no_material = record {
  client_handshake = no_keys;
  server_handshake = no_keys;
  client_app = no_keys;
  server_app = no_keys;
  master_secret = [];
  resumption_master_secret = [];
}

abbrev pub no_shares : Shares
no_shares = record {
  client_private_share = none;
  client_x25519_private_key = [];
  server_public_share = [];
  shared_secret = [];
  keys = no_material;
}

-- Changes of the record layer.
abbrev pub update_layer : (RecordLayer → RecordLayer) → Conn → Conn
update_layer f s = let w = s.wire in record s { wire = record w { layer = f w.layer } }

abbrev pub set_in_cipher : Sm4GcmMode → Conn → Conn
set_in_cipher m = update_layer (λ l. record l { in_cipher = some m })

abbrev pub set_out_cipher : Sm4GcmMode → Conn → Conn
set_out_cipher m = update_layer (λ l. record l { out_cipher = some m })

abbrev pub set_client_encrypted : Conn → Conn
set_client_encrypted = update_layer (λ l. record l { client_encrypted = true })

abbrev pub set_server_encrypted : Conn → Conn
set_server_encrypted = update_layer (λ l. record l { server_encrypted = true })

-- `NewSM4GCMMode` for a key with its IV. `newTLS13GCM` sets the sequence numbers of the new mode to
-- 0, which they are.
abbrev pub new_mode : TrafficKeys → Outcome Sm4GcmMode
new_mode k = new_sm4_gcm_mode k.key k.iv

abbrev pub is_none : {A : Type 0} → Option A → Bool
is_none none = true
is_none (some a) = false

abbrev pub set_keys : KeyMaterial → Conn → Conn
set_keys keys s = let m = s.key_material in record s { key_material = record m { keys = keys } }

-- The cipher suite, whose pointer is followed.
abbrev pub the_suite : Conn → Outcome CipherSuiteInfo
the_suite s = elim s.cipher_suite [ some suite ↦ ok suite | none ↦ panic ]

module _ (lib : Library) where
  -- `c.transcriptHash.Sum(nil)`
  abbrev pub transcript_hash : Conn → List ℕ
  transcript_hash s = lib.sm3.hash s.transcript

  abbrev pub known_secret : List ℕ → List ℕ
  known_secret [] = replicate 32 0
  known_secret (b ∷ bs) = b ∷ bs

  -- The new material has the shared secret and the derived keys, and nothing else.
  unfoldable pub derive_tls13_keys : Action Conn (Unit {0})
  derive_tls13_keys = do
    shared ← gets (λ s. known_secret s.key_material.shared_secret)
    suite ← λ s. lift (the_suite s) s
    keys ← λ s.
        lift (derive_all_keys lib.sm3 suite.key_len suite.iv_len shared (transcript_hash s) []) s
    modify (λ s. record s {
      key_material = record {
        client_private_share = none;
        client_x25519_private_key = [];
        server_public_share = [];
        shared_secret = shared;
        keys = keys;
      };
    })

  -- The hash up to the server's Finished, or the present one if it was not kept.
  abbrev pub finished_hash : Conn → List ℕ
  finished_hash s = elim s.server_finished_hash [ [] ↦ transcript_hash s | b ∷ bs ↦ b ∷ bs ]

  -- `deriveTLS13AppKeys` with the master secret.
  abbrev pub app_keys : List ℕ → Action Conn TrafficKeys
  app_keys label = do
    suite ← λ s. lift (the_suite s) s
    λ s.
        lift
          (derive_keys lib.sm3 suite.key_len suite.iv_len s.key_material.keys.master_secret label
            (finished_hash s))
          s

  unfoldable pub derive_tls13_application_keys : Action Conn (Unit {0})
  derive_tls13_application_keys s =
      if length s.key_material.keys.master_secret == 0
      then (ok tt, s)
      else (app_keys label_client_traffic >>= λ client_app.
            app_keys label_server_traffic >>= λ server_app. modify (λ s.
              let keys = s.key_material.keys in
              set_keys (record keys { client_app = client_app; server_app = server_app }) s))
          s

  unfoldable pub derive_tls13_server_app_keys : Action Conn (Unit {0})
  derive_tls13_server_app_keys s =
      if not (is_client s) || (length s.key_material.keys.master_secret == 0)
      then (ok tt, s)
      else (app_keys label_server_traffic >>= λ server_app. modify (λ s.
            let keys = s.key_material.keys in set_keys (record keys { server_app = server_app }) s))
          s

-- An error of `newTLS13GCM` ends the set-up without being reported.
abbrev pub set_up : Outcome Sm4GcmMode → (Sm4GcmMode → Conn → Conn) → Conn → Conn
set_up (ok m) f s = f m s
set_up _ f s = s

-- The cipher for reading first: without it the other one is not made.
abbrev pub set_both : TrafficKeys → TrafficKeys → Conn → Conn
set_both incoming outgoing =
    set_up (new_mode incoming)
      (λ m s. set_up (new_mode outgoing) set_out_cipher (set_in_cipher m s))

unfoldable pub setup_application_traffic_keys : Conn → Conn
setup_application_traffic_keys s =
    let keys = s.key_material.keys in
    if is_client s
    then set_both keys.server_app keys.client_app s
    else set_both keys.client_app keys.server_app s

unfoldable pub setup_server_application_traffic_keys_for_client : Conn → Conn
setup_server_application_traffic_keys_for_client s =
    let app = s.key_material.keys.server_app in
    if not (is_client s) || (length app.key == 0) || (length app.iv == 0)
    then s
    else set_up (new_mode app) set_in_cipher s
