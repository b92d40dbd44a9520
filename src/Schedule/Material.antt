-- ===== src/Schedule/Material.antt =====
-- tls13.go: `TLS13KeyMaterial` and `DeriveAllKeys`; conn.go: the application keys.
use cnnic_gmtls.Base.{ℕ, ◌≡◌, ◌<◌, arith, List, [], ◌∷◌, some, Outcome, ok, ◌>>=◌, length}
use cnnic_gmtls.Schedule.Hkdf.{Sm3, hkdf_extract, zeros}
use cnnic_gmtls.Schedule.Expand.{hkdf_expand_label_lem}
use cnnic_gmtls.Schedule.Keys.{
  derive_secret, derive_early_secret, derive_handshake_secret, derive_master_secret,
  derive_traffic_keys, derive_resumption_master_secret, label_client_handshake, label_derived,
  label_key, label_iv, label_res_master, label_server_handshake, label_client_traffic,
  label_server_traffic, empty_hash,
}

-- A traffic secret with the key and the IV that are expanded from it.
pub record TrafficKeys : Type 0 where
  pub secret : List ℕ
  pub key : List ℕ
  pub iv : List ℕ

abbrev pub no_keys : TrafficKeys
no_keys = record { secret = []; key = []; iv = [] }

-- The derived part of `TLS13KeyMaterial`: the fields `ClientHandshakeKey`, `ClientHandshakeIV`,
-- `ClientHandshakeTrafficSecret` are `client_handshake`, and so on.
pub record KeyMaterial : Type 0 where
  pub client_handshake : TrafficKeys
  pub server_handshake : TrafficKeys
  pub client_app : TrafficKeys
  pub server_app : TrafficKeys
  pub master_secret : List ℕ
  pub resumption_master_secret : List ℕ

module _ (h : Sm3) (key_len iv_len : ℕ) where
  -- `deriveTLS13AppKeys`, and the same steps in `DeriveAllKeys`.
  unfoldable pub derive_keys : List ℕ → List ℕ → List ℕ → Outcome TrafficKeys
  derive_keys base label transcript_hash = do
    secret ← derive_secret h base label transcript_hash
    (key, iv) ← derive_traffic_keys h secret key_len iv_len
    ok (record { secret = secret; key = key; iv = iv })

  -- The two application keys, if the hash of the finished handshake is at hand.
  unfoldable pub derive_app_keys : List ℕ → List ℕ → Outcome (TrafficKeys × TrafficKeys)
  unfolding derive_keys
  derive_app_keys master_secret [] = ok (no_keys, no_keys)
  derive_app_keys master_secret (b ∷ finished_hash) = do
    client_app ← derive_keys master_secret label_client_traffic (b ∷ finished_hash)
    server_app ← derive_keys master_secret label_server_traffic (b ∷ finished_hash)
    ok (client_app, server_app)

  -- `DeriveAllKeys`; its argument `clientHelloHash` is not used.
  unfoldable pub derive_all_keys : List ℕ → List ℕ → List ℕ → Outcome KeyMaterial
  unfolding derive_keys derive_app_keys
  derive_all_keys shared_secret server_hello_hash finished_hash = do
    let early_secret = derive_early_secret h []
    handshake_secret ← derive_handshake_secret h early_secret shared_secret
    client_handshake ← derive_keys handshake_secret label_client_handshake server_hello_hash
    server_handshake ← derive_keys handshake_secret label_server_handshake server_hello_hash
    master_secret ← derive_master_secret h handshake_secret
    resumption ← derive_resumption_master_secret h master_secret
    (client_app, server_app) ← derive_app_keys master_secret finished_hash
    ok (record {
      client_handshake = client_handshake;
      server_handshake = server_handshake;
      client_app = client_app;
      server_app = server_app;
      master_secret = master_secret;
      resumption_master_secret = resumption;
    })

-- The sizes that `NewSM4GCMMode` asks for.
pub record AreKeys (k : TrafficKeys) : Type 0 where
  pub secret_size : length k.secret ≡ 32
  pub key_size : length k.key ≡ 16
  pub iv_size : length k.iv ≡ 12

pub record IsMaterial (km : KeyMaterial) : Type 0 where
  pub client_handshake_are : AreKeys km.client_handshake
  pub server_handshake_are : AreKeys km.server_handshake
  pub client_app_are : AreKeys km.client_app
  pub server_app_are : AreKeys km.server_app
  pub master_size : length km.master_secret ≡ 32
  pub resumption_size : length km.resumption_master_secret ≡ 32

module _ (h : Sm3) where
  derive_keys_lem :
      (base label hash : List ℕ)
      → length label < 250
      → length hash < 256
      → (k : TrafficKeys) × (derive_keys h 16 12 base label hash ≡ ok k) × AreKeys k
  unfolding derive_keys derive_secret derive_traffic_keys
  derive_keys_lem base label hash l c =
      let (s, es, ls) = hkdf_expand_label_lem h base label hash 32 l c in
      let (k, ek, lk) = hkdf_expand_label_lem h s label_key [] 16 (omega arith) (omega arith) in
      let (v, ev, lv) = hkdf_expand_label_lem h s label_iv [] 12 (omega arith) (omega arith) in
      (
        record { secret = s; key = k; iv = v },
        rw (es, ek, ev),
        record { secret_size = ls; key_size = lk; iv_size = lv },
      )

  -- With the key sizes of the suites, `DeriveAllKeys` always returns, and every key, IV and secret
  -- has its size. The hashes are those of a transcript, and that of the finished handshake is given.
  pub derive_all_keys_lem :
      (shared hello : List ℕ) (b : ℕ) (finished : List ℕ)
      → length hello < 256
      → length (b ∷ finished) < 256
      → (km : KeyMaterial) × (derive_all_keys h 16 12 shared hello (b ∷ finished) ≡ ok km)
        × IsMaterial km
  unfolding derive_all_keys derive_handshake_secret derive_master_secret
      derive_resumption_master_secret derive_secret
  derive_all_keys_lem shared hello b finished l f =
      let e : length (empty_hash h) < 256 = omega (arith, h.length-hash []) in
      let early = derive_early_secret h [] in
      let (d, ed, ld) =
        hkdf_expand_label_lem h early label_derived (empty_hash h) 32 (omega arith) e in
      let hs = hkdf_extract h shared (some d) in
      let (ch, ech, kch) = derive_keys_lem hs label_client_handshake hello (omega arith) l in
      let (sh, esh, ksh) = derive_keys_lem hs label_server_handshake hello (omega arith) l in
      let (d', ed', ld') =
        hkdf_expand_label_lem h hs label_derived (empty_hash h) 32 (omega arith) e in
      let ms = hkdf_extract h zeros (some d') in
      let (rm, erm, lrm) =
        hkdf_expand_label_lem h ms label_res_master (empty_hash h) 32 (omega arith) e in
      let (ca, eca, kca) = derive_keys_lem ms label_client_traffic (b ∷ finished) (omega arith) f in
      let (sa, esa, ksa) = derive_keys_lem ms label_server_traffic (b ∷ finished) (omega arith) f in
      (
        record {
          client_handshake = ch;
          server_handshake = sh;
          client_app = ca;
          server_app = sa;
          master_secret = ms;
          resumption_master_secret = rm;
        },
        rw (ed, ech, esh, ed', erm, eca, esa),
        record {
          client_handshake_are = kch;
          server_handshake_are = ksh;
          client_app_are = kca;
          server_app_are = ksa;
          master_size = unfold hkdf_extract in (h.length-hmac d' zeros);
          resumption_size = lrm;
        },
      )
