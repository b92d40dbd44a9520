-- ===== src/Schedule/Expand.antt =====
-- tls13.go: `SM3HKDFExpand`, and the HKDF-Expand of RFC 5869.
use cnnic_gmtls.Base.{
  ℕ, zero, suc, ◌+◌, ◌-◌, ◌*◌, ◌/◌, ◌%◌, ◌≡◌, ◌<◌, refl, sym, ap, ◌∙◌, arith, ok, lt→ltb, List, [],
  ◌∷◌, ◌++◌, length, length-append, take, drop, drop-append, length-take, take-eq_of_length_le,
}
use cnnic_gmtls.Schedule.Hkdf.{
  Sm3, expand_round, expand_rounds, hkdf_expand, hkdf_label, hkdf_expand_label,
}

module _ (h : Sm3) (secret info : List ℕ) where
  -- T(0) is empty and T(i) = HMAC(secret, T(i-1) ∥ info ∥ i).
  pub block : ℕ → List ℕ
  block zero = []
  block (suc i) = h.hmac secret (block i ++ (info ++ ((suc i % 256) ∷ [])))

  -- T(1) ∥ … ∥ T(n).
  pub blocks : ℕ → List ℕ
  unfolding block
  blocks zero = []
  blocks (suc n) = blocks n ++ block (suc n)

  length-blocks : (n : ℕ) → length (blocks n) ≡ n * 32
  unfolding blocks
  length-blocks zero = refl
  length-blocks (suc n) = omega (
    arith,
    length-append (blocks n) (block (suc n)),
    length-blocks n,
    h.length-hmac secret (block n ++ (info ++ ((suc n % 256) ∷ []))),
  )

  -- The last 32 bytes of the blocks so far are the last block.
  last_block : (n : ℕ) → take 32 (drop (n * 32) (blocks (suc n))) ≡ block (suc n)
  unfolding blocks
  last_block n =
      let size = h.length-hmac secret (block n ++ (info ++ ((suc n % 256) ∷ []))) in
      ap (λ (k : ℕ). take 32 (drop k (blocks n ++ block (suc n)))) (sym (length-blocks n))
      ∙ ap (take 32) (drop-append (blocks n) (block (suc n)))
      ∙ take-eq_of_length_le 32 (block (suc n)) (omega (arith, size))

  blocks_step :
      (n : ℕ)
      → blocks (suc n) ≡ blocks n ++ h.hmac secret (block n ++ (info ++ ((suc n % 256) ∷ [])))
  unfolding blocks
  blocks_step n = refl

  expand_round-blocks : (n : ℕ) → expand_round h secret info (suc n) (blocks n) ≡ blocks (suc n)
  unfolding expand_round
  expand_round-blocks zero = unfold blocks in refl
  expand_round-blocks (suc n) =
      let e : (suc (suc n) - 2) * 32 ≡ n * 32 = omega arith in
      rw (lt→ltb 1 (suc (suc n)) (omega arith), e, last_block n, blocks_step (suc n))

  expand_rounds-blocks :
      (left n : ℕ) → expand_rounds h secret info left (suc n) (blocks n) ≡ blocks (n + left)
  unfolding expand_rounds
  expand_rounds-blocks zero n = ap blocks (omega arith)
  expand_rounds-blocks (suc left) n =
      let e : suc n + 1 ≡ suc (suc n) = omega arith in
      rw (e, expand_round-blocks n) (expand_rounds-blocks left (suc n) ∙ ap blocks (omega arith))

  -- The result is the first bytes of T(1) ∥ … ∥ T(n), for the least n that gives enough of them,
  -- and it has the length that is asked for.
  pub hkdf_expand-eq-blocks :
      (key_len : ℕ)
      → (hkdf_expand h secret info key_len ≡ take key_len (blocks ((key_len + 31) / 32)))
        × (length (hkdf_expand h secret info key_len) ≡ key_len)
  unfolding hkdf_expand
  hkdf_expand-eq-blocks key_len =
      let n = (key_len + 31) / 32 in
      let e : (key_len + 32 - 1) / 32 ≡ n = omega arith in
      let z : 0 + n ≡ n = omega arith in
      let run : expand_rounds h secret info n 1 [] ≡ blocks n =
        unfold blocks in (expand_rounds-blocks n 0) ∙ ap blocks z in
      rw (e, run) (refl, length-take key_len (blocks n) (omega (arith, length-blocks n)))

-- HKDF-Expand-Label returns as many bytes as it is asked for.
pub hkdf_expand_label_lem :
    (h : Sm3) (secret label context : List ℕ) (n : ℕ)
    → length label < 250
    → length context < 256
    → (out : List ℕ) × (hkdf_expand_label h secret label context n ≡ ok out) × (length out ≡ n)
unfolding hkdf_expand_label
hkdf_expand_label_lem h secret label context n l c = (
  hkdf_expand h secret (hkdf_label label context n) n,
  ground arith,
  (hkdf_expand-eq-blocks h secret (hkdf_label label context n) n).1,
)
