-- ===== src/X25519/Tests.antt =====
-- The theorem on the private key at concrete bytes.
use cnnic_gmtls.Base.{◌≡◌, replicate, Returns}
use cnnic_gmtls.X25519.{generate_x25519_key}
use cnnic_gmtls.X25519.Bounds.{IsScalar, generate_x25519_key-IsScalar}
use cnnic_gmtls.Samples.{toy_curve25519}

generate_x25519_key-IsScalar_example :
    Returns
      ((generate_x25519_key toy_curve25519 (replicate 40 255)).0)
      (λ keys. IsScalar keys.0 × (keys.1 ≡ toy_curve25519.scalar_base_mult keys.0))
generate_x25519_key-IsScalar_example =
    generate_x25519_key-IsScalar toy_curve25519 (replicate 40 255)
