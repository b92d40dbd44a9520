-- ===== src/Handshake/Outcomes.antt =====
-- How the functions on bytes end that the handshakes call.
use Prim.Native.String.{String}
use cnnic_gmtls.Base.{
  ℕ, arith, List, [], ◌∷◌, Bool, true, false, Outcome, ok, err, panic, stuck, Option, none, some,
  fail_if, get_byte,
}
use cnnic_gmtls.Base.Runs.{NotStuck, IsReturn-NotStuck, NotStuck-ok, NotStuck-bind}
use cnnic_gmtls.Handshake.{X509}
use cnnic_gmtls.Handshake.Verify.{verify_peer_certificate}
use cnnic_gmtls.Message.Certificate.{Certificate}
use cnnic_gmtls.Message.EncryptedExtensions as EncryptedExtensions
use cnnic_gmtls.Message.EncryptedExtensions.{unmarshal_encrypted_extensions-IsReturn}
use cnnic_gmtls.Message.Finished as Finished
use cnnic_gmtls.Sm2.{PublicKey, PrivateKey, Curve}
use cnnic_gmtls.Sm2.Bytes.{fill_32}
use cnnic_gmtls.Sm2.Keys.{
  encode_point, encode_pair, generate_sm2_key_pair_for_tls13, parse_sm2_public_key,
  derive_sm2_ecdh_shared_secret,
}
use cnnic_gmtls.Sm2.Signing.{
  signed, sign_with, sm2_gmsm_public_key, sm2_tls13_sign_with_id, sm2_tls13_verify_with_id,
}
use cnnic_gmtls.Ticket.Binder.{compute_binder}
use cnnic_gmtls.X25519.{Curve25519, generate_x25519_key, derive_x25519_shared_secret}
use cnnic_gmtls.Message.CertificateVerify as CertificateVerify
use cnnic_gmtls.Record.Gcm.{new_sm4_gcm_mode}
use cnnic_gmtls.Schedule.Hkdf.{Sm3, hkdf_expand_label}
use cnnic_gmtls.Schedule.Keys.{
  derive_secret, derive_handshake_secret, derive_master_secret, derive_traffic_keys,
  derive_resumption_master_secret, derive_finished_key,
}
use cnnic_gmtls.Schedule.Material.{derive_keys, derive_app_keys, derive_all_keys}

pub new_sm4_gcm_mode-NotStuck : (key iv : List ℕ) → NotStuck (new_sm4_gcm_mode key iv)
unfolding new_sm4_gcm_mode NotStuck
new_sm4_gcm_mode-NotStuck key iv = ground arith

module _ (h : Sm3) where
  pub expand-NotStuck :
      (secret label context : List ℕ) (n : ℕ)
      → NotStuck (hkdf_expand_label h secret label context n)
  unfolding hkdf_expand_label NotStuck
  expand-NotStuck secret label context n = ground arith

  pub derive_finished_key-NotStuck : (key : List ℕ) → NotStuck (derive_finished_key h key)
  unfolding derive_finished_key
  derive_finished_key-NotStuck key = expand-NotStuck key _ [] _

  pub derive_keys-NotStuck :
      (key_len iv_len : ℕ) (base label hash : List ℕ)
      → NotStuck (derive_keys h key_len iv_len base label hash)
  unfolding derive_keys derive_secret derive_traffic_keys
  derive_keys-NotStuck key_len iv_len base label hash =
      NotStuck-bind _ _ (expand-NotStuck base label hash _) (λ secret.
        NotStuck-bind _ _
          (NotStuck-bind _ _ (expand-NotStuck secret _ [] key_len)
            (λ key. NotStuck-bind _ _ (expand-NotStuck secret _ [] iv_len) (λ iv. NotStuck-ok _)))
          (λ r. NotStuck-ok _))

  derive_app_keys-NotStuck :
      (key_len iv_len : ℕ) (master hash : List ℕ)
      → NotStuck (derive_app_keys h key_len iv_len master hash)
  unfolding derive_app_keys NotStuck
  derive_app_keys-NotStuck key_len iv_len master [] = tt
  derive_app_keys-NotStuck key_len iv_len master (b ∷ hash) =
      NotStuck-bind _ _ (derive_keys-NotStuck key_len iv_len master _ (b ∷ hash))
        (λ c. NotStuck-bind _ _ (derive_keys-NotStuck key_len iv_len master _ (b ∷ hash)) (λ s. tt))

  pub derive_all_keys-NotStuck :
      (key_len iv_len : ℕ) (shared hello finished : List ℕ)
      → NotStuck (derive_all_keys h key_len iv_len shared hello finished)
  unfolding derive_all_keys derive_handshake_secret derive_master_secret
      derive_resumption_master_secret derive_secret
  derive_all_keys-NotStuck key_len iv_len shared hello finished =
      NotStuck-bind _ _ (NotStuck-bind _ _ (expand-NotStuck _ _ _ _) (λ d. NotStuck-ok _)) (λ hs.
        NotStuck-bind _ _ (derive_keys-NotStuck key_len iv_len hs _ hello) (λ c.
          NotStuck-bind _ _ (derive_keys-NotStuck key_len iv_len hs _ hello) (λ s.
            NotStuck-bind _ _ (NotStuck-bind _ _ (expand-NotStuck _ _ _ _) (λ d. NotStuck-ok _))
              (λ ms. NotStuck-bind _ _ (expand-NotStuck ms _ _ _) (λ r.
                NotStuck-bind _ _ (derive_app_keys-NotStuck key_len iv_len ms finished)
                  (λ q. NotStuck-ok _))))))

pub fail_if-NotStuck : (test : Bool) (text : String) → NotStuck (fail_if test text)
unfolding NotStuck
fail_if-NotStuck true text = tt
fail_if-NotStuck false text = tt

pub unmarshal_certificate_verify-NotStuck : (d : List ℕ) → NotStuck (CertificateVerify.unmarshal d)
unfolding CertificateVerify.unmarshal NotStuck
unmarshal_certificate_verify-NotStuck [] = tt
unmarshal_certificate_verify-NotStuck (t ∷ []) = ground arith
unmarshal_certificate_verify-NotStuck (t ∷ a ∷ []) = ground arith
unmarshal_certificate_verify-NotStuck (t ∷ a ∷ b ∷ []) = ground arith
unmarshal_certificate_verify-NotStuck (t ∷ a ∷ b ∷ c ∷ []) = ground arith
unmarshal_certificate_verify-NotStuck (t ∷ a ∷ b ∷ c ∷ e ∷ []) = ground arith
unmarshal_certificate_verify-NotStuck (t ∷ a ∷ b ∷ c ∷ e ∷ f ∷ []) = ground arith
unmarshal_certificate_verify-NotStuck (t ∷ a ∷ b ∷ c ∷ e ∷ f ∷ x ∷ []) = ground arith
unmarshal_certificate_verify-NotStuck (t ∷ a ∷ b ∷ c ∷ e ∷ f ∷ x ∷ y ∷ d) = ground arith

pub unmarshal_finished-NotStuck : (d : List ℕ) → NotStuck (Finished.unmarshal d)
unfolding Finished.unmarshal NotStuck
unmarshal_finished-NotStuck [] = tt
unmarshal_finished-NotStuck (t ∷ []) = ground arith
unmarshal_finished-NotStuck (t ∷ a ∷ []) = ground arith
unmarshal_finished-NotStuck (t ∷ a ∷ b ∷ []) = ground arith
unmarshal_finished-NotStuck (t ∷ a ∷ b ∷ c ∷ d) = ground arith

pub unmarshal_encrypted_extensions-NotStuck :
    (d : List ℕ) → NotStuck (EncryptedExtensions.unmarshal d)
unfolding EncryptedExtensions.unmarshal get_byte NotStuck
unmarshal_encrypted_extensions-NotStuck [] = tt
unmarshal_encrypted_extensions-NotStuck (b ∷ d) =
    IsReturn-NotStuck (λ _. Unit) _ (unmarshal_encrypted_extensions-IsReturn b d)

fill_32-NotStuck : (v : ℕ) → NotStuck (fill_32 v)
unfolding fill_32 NotStuck
fill_32-NotStuck v = ground arith

encode_point-NotStuck : (key : PublicKey) → NotStuck (encode_point key)
unfolding encode_point
encode_point-NotStuck key =
    NotStuck-bind _ _ (fill_32-NotStuck key.x)
      (λ xs. NotStuck-bind _ _ (fill_32-NotStuck key.y) (λ ys. NotStuck-ok _))

module _ (c : Curve) where
  encode_pair-NotStuck :
      (r : Option (PrivateKey × PublicKey) × List ℕ) → NotStuck (encode_pair c r).0
  unfolding NotStuck
  encode_pair-NotStuck (none, rest) = tt
  encode_pair-NotStuck (some (priv, key), rest) =
      NotStuck-bind _ _ (encode_point-NotStuck key) (λ share. tt)

  pub generate_sm2_key_pair-NotStuck :
      (entropy : List ℕ) → NotStuck (generate_sm2_key_pair_for_tls13 c entropy).0
  unfolding generate_sm2_key_pair_for_tls13
  generate_sm2_key_pair-NotStuck entropy = encode_pair-NotStuck (c.generate_key entropy)

  pub parse_sm2_public_key-NotStuck : (d : List ℕ) → NotStuck (parse_sm2_public_key c d)
  unfolding parse_sm2_public_key NotStuck
  parse_sm2_public_key-NotStuck d = ground arith

  pub derive_sm2_ecdh_shared_secret-NotStuck :
      (priv : PrivateKey) (key : PublicKey) → NotStuck (derive_sm2_ecdh_shared_secret c priv key)
  unfolding derive_sm2_ecdh_shared_secret fill_32 NotStuck
  derive_sm2_ecdh_shared_secret-NotStuck priv key = ground arith

  pub sm2_tls13_verify_with_id-NotStuck :
      (key : PublicKey) (msg sig uid : List ℕ)
      → NotStuck (sm2_tls13_verify_with_id c key msg sig uid)
  unfolding sm2_tls13_verify_with_id sm2_gmsm_public_key NotStuck
  sm2_tls13_verify_with_id-NotStuck key msg sig uid = ground arith

  signed-NotStuck : (r : Option (List ℕ) × List ℕ) → NotStuck (signed c r).0
  unfolding NotStuck
  signed-NotStuck (none, rest) = tt
  signed-NotStuck (some s, rest) = tt

  sign_with-NotStuck :
      (uid msg entropy : List ℕ) (d : Outcome ℕ) → NotStuck (sign_with c uid msg entropy d).0
  unfolding NotStuck
  sign_with-NotStuck uid msg entropy (ok d) = signed-NotStuck (c.sign_asn1 d uid msg entropy)
  sign_with-NotStuck uid msg entropy (err x) = tt
  sign_with-NotStuck uid msg entropy panic = tt
  sign_with-NotStuck uid msg entropy stuck = tt

  pub sm2_tls13_sign_with_id-NotStuck :
      (priv : Option PrivateKey) (msg uid entropy : List ℕ)
      → NotStuck (sm2_tls13_sign_with_id c priv msg uid entropy).0
  unfolding sm2_tls13_sign_with_id NotStuck
  sm2_tls13_sign_with_id-NotStuck none msg uid entropy = tt
  sm2_tls13_sign_with_id-NotStuck (some priv) msg uid entropy = sign_with-NotStuck uid msg entropy _

module _ (c : Curve25519) where
  pub generate_x25519_key-NotStuck : (entropy : List ℕ) → NotStuck (generate_x25519_key c entropy).0
  unfolding generate_x25519_key NotStuck
  generate_x25519_key-NotStuck entropy = ground arith

  pub derive_x25519_shared_secret-NotStuck :
      (priv peer : List ℕ) → NotStuck (derive_x25519_shared_secret c priv peer)
  unfolding derive_x25519_shared_secret NotStuck
  derive_x25519_shared_secret-NotStuck priv peer = ground arith

pub verify_peer_certificate-NotStuck :
    (x : X509) (now : ℕ) (cert : Certificate) (roots : Option ℕ) (usage : ℕ) (name : List ℕ)
    → NotStuck (verify_peer_certificate x now cert roots usage name)
unfolding verify_peer_certificate NotStuck
verify_peer_certificate-NotStuck x now cert roots usage name = ground arith

pub compute_binder-NotStuck : (h : Sm3) (psk hello : List ℕ) → NotStuck (compute_binder h psk hello)
unfolding compute_binder
compute_binder-NotStuck h psk hello =
    NotStuck-bind _ _ (expand-NotStuck h _ _ [] _)
      (λ k. NotStuck-bind _ _ (derive_finished_key-NotStuck h k) (λ f. NotStuck-ok _))
