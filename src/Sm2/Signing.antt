-- ===== src/Sm2/Signing.antt =====
-- sm2_gmsm.go: the signatures of CertificateVerify.

use cnnic_gmtls.Base.{
  ℕ, List, [], ◌∷◌, ◌++◌, Bool, not, ◌||◌, ◌==◌, leb, if◌then◌else◌, Option, none, some, Outcome,
  ok, err, message, ◌>>=◌, ◌>>◌, fail_if, length, take, drop,
}
use cnnic_gmtls.Sm2.{PublicKey, PrivateKey, Curve}
use cnnic_gmtls.Sm2.Bytes.{set_bytes, low_bytes, bound}

-- `sm2TLS13HandshakeID`: "TLSv1.3+GM+Cipher+Suite"
abbrev pub handshake_id : List ℕ
handshake_id =
    b'T' ∷ b'L' ∷ b'S' ∷ b'v' ∷ b'1' ∷ b'.' ∷ b'3' ∷ b'+' ∷ b'G' ∷ b'M' ∷ b'+' ∷ b'C' ∷ b'i' ∷ b'p'
    ∷ b'h' ∷ b'e' ∷ b'r' ∷ b'+' ∷ b'S' ∷ b'u' ∷ b'i' ∷ b't' ∷ b'e' ∷ []

module _ (c : Curve) where
  -- `sm2GMSMPublicKey`: the bytes that stand for the key.
  unfoldable pub sm2_gmsm_public_key : PublicKey → Outcome (List ℕ)
  sm2_gmsm_public_key key = do
    fail_if (leb (bound 32) key.x || leb (bound 32) key.y) "gmtls: invalid SM2 public key size"
    let key_bytes : List ℕ = 4 ∷ (low_bytes 32 key.x ++ low_bytes 32 key.y)
    fail_if (not (c.is_public_key key_bytes)) "sm2: invalid public key"
    ok key_bytes

  -- `sm2GMSMPrivateKey`, of a key that is not nil.
  unfoldable pub sm2_gmsm_private_key : PrivateKey → Outcome ℕ
  sm2_gmsm_private_key priv = do
    fail_if (priv.d == 0) "gmtls: invalid SM2 private key"
    fail_if (not (c.is_private_key priv.d)) "sm2: invalid private key"
    ok priv.d

  abbrev pub signed : Option (List ℕ) × List ℕ → Outcome (List ℕ) × List ℕ
  signed (none, rest) = (err (message "sm2: cannot sign"), rest)
  signed (some signature, rest) = (ok signature, rest)

  abbrev pub sign_with : List ℕ → List ℕ → List ℕ → Outcome ℕ → Outcome (List ℕ) × List ℕ
  sign_with uid msg entropy (ok d) = signed (c.sign_asn1 d uid msg entropy)
  sign_with uid msg entropy _ = (err (message "gmtls: invalid SM2 private key"), entropy)

  -- `sm2TLS13SignWithID` with `raw` false, from the bytes of `rand.Reader`. No key is the nil key.
  unfoldable pub sm2_tls13_sign_with_id :
      Option PrivateKey → List ℕ → List ℕ → List ℕ → Outcome (List ℕ) × List ℕ
  unfolding sm2_gmsm_private_key
  sm2_tls13_sign_with_id none msg uid entropy =
      (err (message "gmtls: invalid SM2 private key"), entropy)
  sm2_tls13_sign_with_id (some priv) msg uid entropy =
      sign_with uid msg entropy (sm2_gmsm_private_key priv)

  -- A signature of 64 bytes is taken for the two numbers, any other one for ASN.1.
  abbrev accepts : List ℕ → List ℕ → List ℕ → List ℕ → Bool
  accepts key_bytes uid msg sig =
      if length sig == 64
      then c.verify key_bytes uid msg (set_bytes (take 32 sig)) (set_bytes (drop 32 sig))
      else c.verify_asn1 key_bytes uid msg sig

  unfoldable pub sm2_tls13_verify_with_id : PublicKey → List ℕ → List ℕ → List ℕ → Outcome Bool
  unfolding sm2_gmsm_public_key
  sm2_tls13_verify_with_id key msg sig uid = do
    key_bytes ← sm2_gmsm_public_key key
    ok (accepts key_bytes uid msg sig)
