-- ===== src/X25519/Bounds.antt =====
-- x25519.go: the private keys that `GenerateX25519Key` makes.
use cnnic_gmtls.Base.{
  ℕ, ◌+◌, ◌*◌, ◌/◌, ◌%◌, ◌≡◌, ◌≤◌, ◌<◌, refl, ap, ◌∙◌, arith, List, [], ◌∷◌, ◌++◌, length,
  length-append, length-take, length-drop, take, drop, get_or, get_or-append_right, leb, Returns,
  Bool-cases, inl, inr,
}
use cnnic_gmtls.X25519.{Curve25519, clamp, generate_x25519_key}

-- A scalar of 32 bytes: a multiple of 8, below 2^255, with bit 254 set.
pub record IsScalar (key : List ℕ) : Type 0 where
  pub size : length key ≡ 32
  pub low_bits : get_or key 0 0 % 8 ≡ 0
  pub high_bit : 64 ≤ get_or key 31 0
  pub top_bit : get_or key 31 0 < 128

clamp-IsScalar : (d : List ℕ) → length d ≡ 32 → IsScalar (clamp d)
unfolding clamp
clamp-IsScalar d h =
    let middle = take 30 (drop 1 d) in
    let low = get_or d 0 0 / 8 * 8 in
    let high = get_or d 31 0 % 64 + 64 in
    let n : length middle ≡ 30 = length-take 30 (drop 1 d) (omega (arith, length-drop 1 d, h)) in
    let front : length (low ∷ middle) ≡ 31 = omega (arith, n) in
    let index : 31 ≡ 0 + length (low ∷ middle) = omega (arith, front) in
    let at_31 : get_or ((low ∷ middle) ++ (high ∷ [])) 31 0 ≡ high =
      ap (λ (i : ℕ). get_or ((low ∷ middle) ++ (high ∷ [])) i 0) index
      ∙ get_or-append_right (low ∷ middle) (high ∷ []) 0 0 in
    record {
      size = omega (arith, front, length-append (low ∷ middle) (high ∷ []));
      low_bits = omega arith;
      high_bit = rw at_31 (omega arith);
      top_bit = rw at_31 (omega arith);
    }

-- The private key that is made from any random bytes is a scalar of RFC 7748: 32 bytes, a multiple
-- of 8, below 2^255 and with bit 254 set; the public key is made of this private key.
pub generate_x25519_key-IsScalar :
    (c : Curve25519) (entropy : List ℕ)
    → Returns
        ((generate_x25519_key c entropy).0)
        (λ keys. IsScalar keys.0 × (keys.1 ≡ c.scalar_base_mult keys.0))
unfolding generate_x25519_key
generate_x25519_key-IsScalar c entropy = elim (Bool-cases (leb 32 (length entropy))) [
  | inl e ↦
      rw e (clamp-IsScalar (take 32 entropy) (length-take 32 entropy (ground (arith, e))), refl)
  | inr e ↦ rw e tt
]
