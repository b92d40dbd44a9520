-- ===== src/Schedule/Hkdf.antt =====
-- tls13.go: `SM3HKDFExtract`, `SM3HKDFExpand`, `SM3HKDFExpandLabel`.
use cnnic_gmtls.Base.{
  ℕ, zero, suc, ◌+◌, ◌-◌, ◌*◌, ◌/◌, ◌%◌, ◌≡◌, List, [], ◌∷◌, ◌++◌, ◌||◌, ltb, if◌then◌else◌, Option,
  none, some, Outcome, ok, panic, length, take, drop, replicate, put_uint16,
}

-- `SM3` and `SM3HMAC`: the hash is the gmsm library's and the HMAC that of `crypto/hmac`. Both
-- return 32 bytes.
pub record Sm3 : Type 0 where
  pub hash : List ℕ → List ℕ
  pub hmac : List ℕ → List ℕ → List ℕ
  pub length-hash : (d : List ℕ) → length (hash d) ≡ 32
  pub length-hmac : (key d : List ℕ) → length (hmac key d) ≡ 32

-- `SM3HashSize`
abbrev pub hash_size : ℕ
hash_size = 32

abbrev pub zeros : List ℕ
zeros = replicate 32 0

-- `[]byte("tls13 ")`
abbrev pub label_prefix : List ℕ
label_prefix = b't' ∷ b'l' ∷ b's' ∷ b'1' ∷ b'3' ∷ b' ' ∷ []

-- `hkdfLabel`: the length, the prefixed label and the context, the two with their lengths.
unfoldable pub hkdf_label : List ℕ → List ℕ → ℕ → List ℕ
hkdf_label label context key_len =
    let full_label : List ℕ = label_prefix ++ label in
    put_uint16 key_len
    ++ ((length full_label % 256) ∷ (full_label ++ ((length context % 256) ∷ context)))

module _ (h : Sm3) where
  -- A nil salt stands for zeros.
  unfoldable pub hkdf_extract : List ℕ → Option (List ℕ) → List ℕ
  hkdf_extract secret none = h.hmac zeros secret
  hkdf_extract secret (some salt) = h.hmac salt secret

  -- Round `i` of the loop, from 1 on: `T(i-1)` is read back from the result.
  unfoldable pub expand_round : List ℕ → List ℕ → ℕ → List ℕ → List ℕ
  expand_round secret info i result =
      let previous = if ltb 1 i then take 32 (drop ((i - 2) * 32) result) else [] in
      result ++ h.hmac secret (previous ++ (info ++ ((i % 256) ∷ [])))

  unfoldable pub expand_rounds : List ℕ → List ℕ → ℕ → ℕ → List ℕ → List ℕ
  expand_rounds secret info zero i result = result
  expand_rounds secret info (suc left) i result =
      expand_rounds secret info left (i + 1) (expand_round secret info i result)

  unfoldable pub hkdf_expand : List ℕ → List ℕ → ℕ → List ℕ
  hkdf_expand secret info key_len =
      take key_len (expand_rounds secret info ((key_len + hash_size - 1) / hash_size) 1 [])

  unfoldable pub hkdf_expand_label : List ℕ → List ℕ → List ℕ → ℕ → Outcome (List ℕ)
  hkdf_expand_label secret label context key_len =
      if ltb 255 (length label_prefix + length label) || ltb 255 (length context)
      then panic
      else ok (hkdf_expand secret (hkdf_label label context key_len) key_len)
