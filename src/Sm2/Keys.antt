-- ===== src/Sm2/Keys.antt =====
-- sm2.go: the key exchange of TLS 1.3, `GenerateSM2KeyPairForTLS13`, `ParseSM2PublicKey`,
-- `DeriveSM2ECDHSharedSecret` and `isAllZero`.
use cnnic_gmtls.Base.{
  ℕ, ◌+◌, ◌<◌, ◌≡◌, refl, sym, ap, ◌∙◌, arith, List, [], ◌∷◌, ◌++◌, Bool, true, false, not, ◌&&◌,
  ◌==◌, Option, none, some, Outcome, ok, err, message, ◌>>=◌, ◌>>◌, fail_if, get_or, Returns,
  Bool-cases, inl, inr, length, length-append, take, drop, take-append, drop-append,
}
use cnnic_gmtls.Sm2.{PublicKey, PrivateKey, Curve}
use cnnic_gmtls.Sm2.Bytes.{
  set_bytes, low_bytes, bound, fill_32, set_bytes-low_bytes, length-low_bytes, fill_32_lem,
}

unfoldable pub is_all_zero : List ℕ → Bool
is_all_zero [] = true
is_all_zero (x ∷ xs) = (x == 0) && is_all_zero xs

-- The uncompressed encoding of a point. Coordinates of the curve have 32 bytes at most; the padding
-- of longer ones, which the code does not refuse, is not modelled and is a panic here.
unfoldable pub encode_point : PublicKey → Outcome (List ℕ)
unfolding fill_32
encode_point key = do xs ← fill_32 key.x; ys ← fill_32 key.y; ok (4 ∷ (xs ++ ys))

module _ (c : Curve) where
  -- The private key and the share.
  abbrev pub encode_pair :
      Option (PrivateKey × PublicKey) × List ℕ → Outcome (PrivateKey × List ℕ) × List ℕ
  encode_pair (none, rest) = (err (message "sm2: cannot generate a key"), rest)
  encode_pair (some (priv, key), rest) = (encode_point key >>= λ share. ok (priv, share), rest)

  -- The keys from the bytes of `rand.Reader`, and those that are left.
  unfoldable pub generate_sm2_key_pair_for_tls13 : List ℕ → Outcome (PrivateKey × List ℕ) × List ℕ
  generate_sm2_key_pair_for_tls13 entropy = encode_pair (c.generate_key entropy)

  unfoldable pub parse_sm2_public_key : List ℕ → Outcome PublicKey
  parse_sm2_public_key pub_bytes = do
    fail_if (not (length pub_bytes == 65)) "sm2: invalid public key length"
    fail_if (not (get_or pub_bytes 0 0 == 4)) "sm2: invalid public key format (not uncompressed)"
    let x = set_bytes (take 32 (drop 1 pub_bytes))
    let y = set_bytes (drop 33 pub_bytes)
    fail_if (not (c.is_on_curve x y)) "sm2: public key not on curve"
    ok (record { x = x; y = y })

  unfoldable pub derive_sm2_ecdh_shared_secret : PrivateKey → PublicKey → Outcome (List ℕ)
  unfolding is_all_zero fill_32
  derive_sm2_ecdh_shared_secret priv key = do
    result ← fill_32 (c.scalar_mult key.x key.y priv.d).0
    fail_if (is_all_zero result)
        "gmtls: SM2 ECDH shared secret is all-zero (invalid peer public key)"
    ok result

  parse-point :
      (xs ys : List ℕ)
      → length xs ≡ 32
      → length ys ≡ 32
      → c.is_on_curve (set_bytes xs) (set_bytes ys) ≡ true
      → parse_sm2_public_key (4 ∷ (xs ++ ys)) ≡ ok (record { x = set_bytes xs; y = set_bytes ys })
  unfolding parse_sm2_public_key
  parse-point xs ys lx ly on =
      let size : (length (xs ++ ys) + 1 == 65) ≡ true =
        ground (arith, length-append xs ys, lx, ly) in
      let front : take 32 (xs ++ ys) ≡ xs =
        ap (λ (n : ℕ). take n (xs ++ ys)) (sym lx) ∙ take-append xs ys in
      let back : drop 32 (xs ++ ys) ≡ ys =
        ap (λ (n : ℕ). drop n (xs ++ ys)) (sym lx) ∙ drop-append xs ys in
      rw (front, back, on) (ground (arith, size))

  -- The share that is sent is read back as the point, with the coordinates that a field element has.
  pub parse-encode_point :
      (key : PublicKey)
      → key.x < bound 32
      → key.y < bound 32
      → c.is_on_curve key.x key.y ≡ true
      → (encode_point key >>= parse_sm2_public_key) ≡ ok key
  unfolding encode_point
  parse-encode_point key hx hy on =
      let xs = low_bytes 32 key.x in
      let ys = low_bytes 32 key.y in
      let ex = set_bytes-low_bytes 32 key.x hx in
      let ey = set_bytes-low_bytes 32 key.y hy in
      rw (fill_32_lem key.x hx, fill_32_lem key.y hy)
        (parse-point xs ys (length-low_bytes 32 key.x) (length-low_bytes 32 key.y) (rw (ex, ey) on)
          ∙ rw (ex, ey) refl)

  -- A shared secret has 32 bytes that are not all zero, and the calculation panics only if the
  -- library's coordinate does not fit them.
  pub derive_sm2_ecdh_shared_secret-Returns :
      (priv : PrivateKey) (key : PublicKey)
      → (c.scalar_mult key.x key.y priv.d).0 < bound 32
      → Returns (derive_sm2_ecdh_shared_secret priv key) (λ secret.
        (length secret ≡ 32)
        × (is_all_zero secret ≡ false)
        × (set_bytes secret ≡ (c.scalar_mult key.x key.y priv.d).0))
  unfolding derive_sm2_ecdh_shared_secret
  derive_sm2_ecdh_shared_secret-Returns priv key h =
      let x = (c.scalar_mult key.x key.y priv.d).0 in
      let d = low_bytes 32 x in
      rw (fill_32_lem x h) (elim (Bool-cases (is_all_zero d)) [
        | inl e ↦ rw e tt
        | inr e ↦ rw e (length-low_bytes 32 x, e, set_bytes-low_bytes 32 x h)
      ])
