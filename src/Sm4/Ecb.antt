-- ===== src/Sm4/Ecb.antt =====
-- sm4.go: `SM4Encrypt` and `SM4Decrypt`. A block of the Go loop is cut off the front of what is
-- left.
use cnnic_gmtls.Base.{
  ℕ, zero, suc, ◌+◌, ◌*◌, ◌/◌, ◌%◌, ◌≡◌, refl, sym, ap, ◌∙◌, arith, List, [], ◌∷◌, ◌++◌, not, ◌==◌,
  if◌then◌else◌, Outcome, ok, panic, ◌>>◌, fail_if, length, length-append, length-take, length-drop,
  take, drop, take-append-drop, take-append, drop-append,
}
use cnnic_gmtls.Sm4.Padding.{pkcs7_pad, pkcs7_unpad_strict, unpad-pad, length-pkcs7_pad}

-- The block cipher of the gmsm library: with a key of 16 bytes, two inverse maps on blocks of 16.
pub record BlockCipher : Type 0 where
  pub encrypt_block : List ℕ → List ℕ → List ℕ
  pub decrypt_block : List ℕ → List ℕ → List ℕ
  pub length-encrypt_block :
      (key block : List ℕ)
      → length key ≡ 16
      → length block ≡ 16
      → length (encrypt_block key block) ≡ 16
  pub decrypt-encrypt_block :
      (key block : List ℕ)
      → length key ≡ 16
      → length block ≡ 16
      → decrypt_block key (encrypt_block key block) ≡ block

-- The loop, for `n` blocks.
unfoldable pub map_blocks : (List ℕ → List ℕ) → ℕ → List ℕ → List ℕ
map_blocks f zero d = []
map_blocks f (suc n) d = f (take 16 d) ++ map_blocks f n (drop 16 d)

module _ (c : BlockCipher) where
  -- `NewSM4Cipher` panics on a key of another size.
  unfoldable pub sm4_encrypt : List ℕ → List ℕ → Outcome (List ℕ)
  sm4_encrypt key plaintext =
      let padded = pkcs7_pad plaintext 16 in
      if length key == 16
      then ok (map_blocks (c.encrypt_block key) (length padded / 16) padded)
      else panic

  unfoldable pub sm4_decrypt : List ℕ → List ℕ → Outcome (List ℕ)
  sm4_decrypt key ciphertext =
      fail_if (not (length ciphertext % 16 == 0))
        "sm4: ciphertext is not a multiple of the block size"
      >> (if length key == 16
          then pkcs7_unpad_strict
              (map_blocks (c.decrypt_block key) (length ciphertext / 16) ciphertext)
          else panic)

  length-map_blocks :
      (key : List ℕ) (n : ℕ) (d : List ℕ)
      → length key ≡ 16
      → length d ≡ n * 16
      → length (map_blocks (c.encrypt_block key) n d) ≡ n * 16
  unfolding map_blocks
  length-map_blocks key zero d k l = omega arith
  length-map_blocks key (suc n) d k l =
      let head = length-take 16 d (omega (arith, l)) in
      omega (
        arith,
        l,
        length-drop 16 d,
        c.length-encrypt_block key (take 16 d) k head,
        length-append (c.encrypt_block key (take 16 d))
            (map_blocks (c.encrypt_block key) n (drop 16 d)),
        length-map_blocks key n (drop 16 d) k (omega (arith, l, length-drop 16 d)),
      )

  map_blocks-inverse :
      (key : List ℕ) (n : ℕ) (d : List ℕ)
      → length key ≡ 16
      → length d ≡ n * 16
      → map_blocks (c.decrypt_block key) n (map_blocks (c.encrypt_block key) n d) ≡ d
  unfolding map_blocks
  map_blocks-inverse key zero [] k l = refl
  map_blocks-inverse key zero (x ∷ xs) k l = absurd (omega (arith, l))
  map_blocks-inverse key (suc n) d k l =
      let head = length-take 16 d (omega (arith, l)) in
      let block = c.encrypt_block key (take 16 d) in
      let size : length block ≡ 16 = c.length-encrypt_block key (take 16 d) k head in
      let rest = map_blocks (c.encrypt_block key) n (drop 16 d) in
      let first : take 16 (block ++ rest) ≡ block =
        ap (λ (i : ℕ). take i (block ++ rest)) (sym size) ∙ take-append block rest in
      let behind : drop 16 (block ++ rest) ≡ rest =
        ap (λ (i : ℕ). drop i (block ++ rest)) (sym size) ∙ drop-append block rest in
      ap
        (λ (b : List ℕ).
          c.decrypt_block key b ++ map_blocks (c.decrypt_block key) n (drop 16 (block ++ rest)))
        first
      ∙ ap (λ (b : List ℕ). c.decrypt_block key block ++ map_blocks (c.decrypt_block key) n b)
          behind
      ∙ ap (λ (b : List ℕ). b ++ map_blocks (c.decrypt_block key) n rest)
          (c.decrypt-encrypt_block key (take 16 d) k head)
      ∙ ap (λ (b : List ℕ). take 16 d ++ b)
          (map_blocks-inverse key n (drop 16 d) k (omega (arith, l, length-drop 16 d)))
      ∙ take-append-drop 16 d

  -- With a key of 16 bytes every text is encrypted, and what comes out is decrypted to the text.
  pub sm4_decrypt-encrypt :
      (key plaintext : List ℕ)
      → length key ≡ 16
      → (sealed : List ℕ) × (sm4_encrypt key plaintext ≡ ok sealed)
        × (sm4_decrypt key sealed ≡ ok plaintext)
  unfolding sm4_encrypt sm4_decrypt
  sm4_decrypt-encrypt key plaintext k =
      let padded = pkcs7_pad plaintext 16 in
      let n = length plaintext / 16 + 1 in
      let full : length padded ≡ n * 16 = length-pkcs7_pad plaintext in
      let blocks : length padded / 16 ≡ n = omega (arith, full) in
      let sealed = map_blocks (c.encrypt_block key) n padded in
      let size : length sealed ≡ n * 16 = length-map_blocks key n padded k full in
      let whole : length sealed % 16 ≡ 0 = omega (arith, size) in
      let count : length sealed / 16 ≡ n = omega (arith, size) in
      (
        sealed,
        ground (arith, k, blocks),
        ground (
          arith,
          k,
          whole,
          count,
          map_blocks-inverse key n padded k full,
          unpad-pad plaintext 16 (omega arith) (omega arith),
        ),
      )
