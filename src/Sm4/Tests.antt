-- ===== src/Sm4/Tests.antt =====
-- The theorems on padding and encryption at concrete texts.
use cnnic_gmtls.Base.{ℕ, ◌≡◌, ◌<◌, ◌↔◌, refl, arith, List, [], ◌∷◌, ok, replicate}
use cnnic_gmtls.Sm4.Padding.{pkcs7_unpad_strict, unpad-eq-ok_iff}
use cnnic_gmtls.Sm4.Ecb.{sm4_encrypt, sm4_decrypt, sm4_decrypt-encrypt}
use cnnic_gmtls.Samples.{toy_cipher}

unpad-eq-ok_iff_example :
    (pkcs7_unpad_strict (9 ∷ 2 ∷ 2 ∷ []) ≡ ok (9 ∷ []))
    ↔ ((p : ℕ) × ((0 < p) × (p < 256) × (9 ∷ 2 ∷ 2 ∷ [] ≡ 9 ∷ replicate p p)))
unpad-eq-ok_iff_example =
    unpad-eq-ok_iff (9 ∷ 2 ∷ 2 ∷ []) (9 ∷ []) (omega arith, (omega arith, (omega arith, tt)))

sm4_decrypt-encrypt_example :
    (sealed : List ℕ) × (sm4_encrypt toy_cipher (replicate 16 1) (7 ∷ []) ≡ ok sealed)
    × (sm4_decrypt toy_cipher (replicate 16 1) sealed ≡ ok (7 ∷ []))
sm4_decrypt-encrypt_example = sm4_decrypt-encrypt toy_cipher (replicate 16 1) (7 ∷ []) refl
