-- ===== src/Schedule/Tests.antt =====
-- The theorems on the key schedule at concrete values.
use cnnic_gmtls.Base.{ℕ, ◌+◌, ◌/◌, ◌≡◌, refl, arith, List, [], ◌∷◌, ok, length, replicate, take}
use cnnic_gmtls.Schedule.Hkdf.{hkdf_expand}
use cnnic_gmtls.Schedule.Expand.{blocks, hkdf_expand-eq-blocks}
use cnnic_gmtls.Schedule.Label.{hkdf_label_injective}
use cnnic_gmtls.Schedule.Keys.{label_key}
use cnnic_gmtls.Schedule.Material.{KeyMaterial, IsMaterial, derive_all_keys, derive_all_keys_lem}
use cnnic_gmtls.Samples.{toy_sm3}

hkdf_expand-eq-blocks_example :
    (hkdf_expand toy_sm3 (1 ∷ []) (2 ∷ []) 40
      ≡ take 40 (blocks toy_sm3 (1 ∷ []) (2 ∷ []) ((40 + 31) / 32)))
    × (length (hkdf_expand toy_sm3 (1 ∷ []) (2 ∷ []) 40) ≡ 40)
hkdf_expand-eq-blocks_example = hkdf_expand-eq-blocks toy_sm3 (1 ∷ []) (2 ∷ []) 40

abbrev context : List ℕ
context = 5 ∷ []

abbrev size : ℕ
size = 16

hkdf_label_injective_example : (label_key ≡ label_key) × (context ≡ context) × (size ≡ size)
hkdf_label_injective_example =
    hkdf_label_injective label_key label_key context context size size (omega arith) (omega arith)
      (omega arith) (omega arith) (omega arith) (omega arith) refl

derive_all_keys_lem_example :
    (km : KeyMaterial) × (derive_all_keys toy_sm3 16 12
        (3 ∷ [])
        (replicate 32 4)
        (5 ∷ replicate 31 6)
      ≡ ok km)
    × IsMaterial km
derive_all_keys_lem_example =
    derive_all_keys_lem toy_sm3 (3 ∷ []) (replicate 32 4) 5 (replicate 31 6) (omega arith)
      (omega arith)
