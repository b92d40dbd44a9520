-- ===== src/Record/Tests.antt =====
-- The theorems on records at concrete values.
use cnnic_gmtls.Base.{
  ℕ, ◌+◌, ◌≡◌, ◌≢◌, ◌↔◌, refl, arith, List, [], ◌∷◌, ok, length, replicate, IsByte, All-replicate,
}
use cnnic_gmtls.Record.{handshake}
use cnnic_gmtls.Record.Gcm.{Sm4GcmMode, InStep, encrypt, decrypt, decrypt-encrypt}
use cnnic_gmtls.Record.Nonce.{nonce_injective}
use cnnic_gmtls.Record.InnerType.{strip_inner_content_type, inner_plaintext, strip-eq-ok_iff}
use cnnic_gmtls.Samples.{toy_aead, mode, in_step}

decrypt-encrypt_example :
    (sealed : List ℕ) × (w' : Sm4GcmMode) × (r' : Sm4GcmMode) × (encrypt toy_aead handshake
        (7 ∷ 8 ∷ [])
        mode
      ≡ ok (sealed, w'))
    × (length sealed ≡ 2 + 17)
    × (decrypt toy_aead sealed mode ≡ ok (7 ∷ 8 ∷ handshake ∷ [], r'))
    × InStep w' r'
decrypt-encrypt_example =
    decrypt-encrypt toy_aead handshake (7 ∷ 8 ∷ []) mode mode in_step (omega arith)

abbrev padded : List ℕ
padded = 9 ∷ handshake ∷ 0 ∷ 0 ∷ []

strip-eq-ok_iff_example :
    (strip_inner_content_type padded ≡ ok (9 ∷ [], handshake))
    ↔ ((handshake ≢ 0) × ((n : ℕ) × (padded ≡ inner_plaintext (9 ∷ []) handshake n)))
strip-eq-ok_iff_example = strip-eq-ok_iff padded (9 ∷ []) handshake

abbrev sequence : ℕ
sequence = 258

nonce_injective_example : sequence ≡ sequence
nonce_injective_example =
    nonce_injective (replicate 12 2) sequence sequence refl
      (All-replicate IsByte 12 2 (omega arith)) (omega arith) (omega arith) refl
