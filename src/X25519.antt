-- ===== src/X25519.antt =====
-- x25519.go: the key exchange on Curve25519, whose arithmetic is the library's.
pub mod Bounds
mod Tests
use cnnic_gmtls.Base.{
  ℕ, ◌+◌, ◌/◌, ◌*◌, ◌%◌, List, [], ◌∷◌, ◌++◌, not, leb, ◌==◌, if◌then◌else◌, Outcome, ok, err,
  message, ◌>>=◌, ◌>>◌, fail_if, length, take, drop, get_or,
}
use cnnic_gmtls.Sm2.Keys.{is_all_zero}

-- `ScalarMult` and `ScalarBaseMult` of golang.org/x/crypto/curve25519.
pub record Curve25519 : Type 0 where
  pub scalar_mult : List ℕ → List ℕ → List ℕ
  pub scalar_base_mult : List ℕ → List ℕ

-- `privateKey[0] &= 248`, `privateKey[31] &= 127`, `privateKey[31] |= 64` on bytes.
unfoldable pub clamp : List ℕ → List ℕ
clamp key =
    let low : ℕ = get_or key 0 0 / 8 * 8 in
    let high : ℕ = get_or key 31 0 % 64 + 64 in (low ∷ take 30 (drop 1 key)) ++ (high ∷ [])

module _ (c : Curve25519) where
  -- `GenerateX25519KeyWithReader`, and `GenerateX25519Key` on `rand.Reader`: the private key and the
  -- public key from 32 bytes of the source, and what is left of it.
  unfoldable pub generate_x25519_key : List ℕ → Outcome (List ℕ × List ℕ) × List ℕ
  unfolding clamp
  generate_x25519_key entropy =
      let key = clamp (take 32 entropy) in
      if leb 32 (length entropy)
      then (ok (key, c.scalar_base_mult key), drop 32 entropy)
      else (err (message "unexpected EOF"), [])

  unfoldable pub derive_x25519_shared_secret : List ℕ → List ℕ → Outcome (List ℕ)
  unfolding is_all_zero
  derive_x25519_shared_secret private_key peer_public_key = do
    fail_if (not (length private_key == 32)) "gmtls: invalid key length for X25519"
    fail_if (not (length peer_public_key == 32)) "gmtls: invalid key length for X25519"
    let shared = c.scalar_mult private_key peer_public_key
    fail_if (is_all_zero shared) "gmtls: X25519 shared secret is all-zero (invalid peer public key)"
    ok shared
