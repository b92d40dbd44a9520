-- ===== src/Sm2.antt =====
-- sm2.go: the keys. The curve is the library's, so its operations are a parameter.
pub mod Bytes
pub mod Keys
pub mod Pem
pub mod Signing
mod Tests
use cnnic_gmtls.Base.{ℕ, List, Bool, Option}

-- The coordinates of a point, unsigned as `big.Int.SetBytes` makes them.
pub record PublicKey : Type 0 where
  pub x : ℕ
  pub y : ℕ

pub record PrivateKey : Type 0 where
  pub d : ℕ

-- The SM2 library: the curve, the generation of a key from the bytes of a random source, which is
-- handed back, and the signatures, in which a public key is its 65 bytes.
pub record Curve : Type 0 where
  pub is_on_curve : ℕ → ℕ → Bool
  pub scalar_mult : ℕ → ℕ → ℕ → ℕ × ℕ
  pub generate_key : List ℕ → Option (PrivateKey × PublicKey) × List ℕ
  pub is_private_key : ℕ → Bool
  pub is_public_key : List ℕ → Bool
  pub sign_asn1 : ℕ → List ℕ → List ℕ → List ℕ → Option (List ℕ) × List ℕ
  pub verify : List ℕ → List ℕ → List ℕ → ℕ → ℕ → Bool
  pub verify_asn1 : List ℕ → List ℕ → List ℕ → List ℕ → Bool
