-- ===== src/Record/InnerType.antt =====
-- conn.go: the inner plaintext of a TLS 1.3 record, content ∥ type ∥ zeros.
use cnnic_gmtls.Base.{
  ℕ, zero, suc, ◌+◌, ◌-◌, ◌≡◌, ◌≢◌, ◌↔◌, refl, sym, ap, ◌∙◌, arith, List, [], ◌∷◌, ◌++◌, Bool, ◌||◌,
  ◌==◌, ◌⊎◌, inl, inr, if◌then◌else◌, Outcome, ok, ◌>>◌, fail_if, replicate, length, length-append,
  length-replicate, get_or, get_or-append_right, get_or-replicate, take, take-append,
}
use cnnic_gmtls.Record.{change_cipher_spec, alert, handshake, application_data}
use native.Mathlib.Decide.{ℕ_discrete}
use mathlib.Core.Path.{ap₂}

-- `for end > 0 && data[end-1] == 0 { end-- }`
unfoldable pub skip_zeros : List ℕ → ℕ → ℕ
skip_zeros d zero = zero
skip_zeros d (suc end') =
    let before = skip_zeros d end' in if get_or d end' 0 == 0 then before else suc end'

-- `stripTLS13InnerContentType`, which `extractTLS13InnerContentType` is another name of.
unfoldable pub strip_inner_content_type : List ℕ → Outcome (List ℕ × ℕ)
unfolding skip_zeros
strip_inner_content_type d = do
  fail_if (length d == 0) "gmtls: empty TLS 1.3 record"
  let end' = skip_zeros d (length d)
  fail_if (end' == 0) "gmtls: TLS 1.3 record has no inner content type"
  ok (take (end' - 1) d, get_or d (end' - 1) 0)

-- `isTLS13InnerTypeByte`
unfoldable pub is_inner_type_byte : ℕ → Bool
is_inner_type_byte b =
    (b == change_cipher_spec) || (b == alert) || (b == handshake) || (b == application_data)

-- An inner plaintext: the content, its type and `n` zeros.
abbrev pub inner_plaintext : List ℕ → ℕ → ℕ → List ℕ
inner_plaintext content t n = content ++ (t ∷ replicate n 0)

skip_zeros-zeros : (m k : ℕ) → skip_zeros (replicate m 0) k ≡ 0
unfolding skip_zeros
skip_zeros-zeros m zero = refl
skip_zeros-zeros m (suc k) = ground (arith, get_or-replicate {A = ℕ} m k 0, skip_zeros-zeros m k)

type_at : (content : List ℕ) (t n : ℕ) → get_or (inner_plaintext content t n) (length content) 0 ≡ t
type_at content t n =
    let e : length content ≡ 0 + length content = omega arith in
    ap (λ (i : ℕ). get_or (inner_plaintext content t n) i 0) e
    ∙ get_or-append_right content (t ∷ replicate n 0) 0 0

zero_at :
    (content : List ℕ) (t n k : ℕ)
    → get_or (inner_plaintext content t n) (k + suc (length content)) 0 ≡ 0
zero_at content t n k =
    let e : k + suc (length content) ≡ suc k + length content = omega arith in
    ap (λ (i : ℕ). get_or (inner_plaintext content t n) i 0) e
    ∙ get_or-append_right content (t ∷ replicate n 0) (suc k) 0
    ∙ get_or-replicate {A = ℕ} n k 0

skip_zeros-inner :
    (content : List ℕ) (t n k : ℕ)
    → t ≢ 0
    → skip_zeros (inner_plaintext content t n) (k + suc (length content)) ≡ suc (length content)
unfolding skip_zeros
skip_zeros-inner content t n zero h =
    let e : 0 + suc (length content) ≡ suc (length content) = omega arith in
    rw e (ground (arith, type_at content t n))
skip_zeros-inner content t n (suc k) h =
    let e : suc k + suc (length content) ≡ suc (k + suc (length content)) = omega arith in
    rw e (ground (arith, zero_at content t n k, skip_zeros-inner content t n k h))

pub strip-inner_plaintext :
    (content : List ℕ) (t n : ℕ)
    → t ≢ 0
    → strip_inner_content_type (inner_plaintext content t n) ≡ ok (content, t)
unfolding strip_inner_content_type
strip-inner_plaintext content t n h =
    let d = inner_plaintext content t n in
    let l : length d ≡ n + suc (length content) =
      omega (arith, length-append content (t ∷ replicate n 0), length-replicate {A = ℕ} n 0) in
    let p : suc (length content) - 1 ≡ length content = omega arith in
    let e : skip_zeros d (length d) ≡ suc (length content) =
      ap (skip_zeros d) l ∙ skip_zeros-inner content t n n h in
    ground (arith, l, e, p, type_at content t n, take-append content (t ∷ replicate n 0))

strip-zeros : (m : ℕ) → (r : List ℕ × ℕ) → strip_inner_content_type (replicate m 0) ≢ ok r
unfolding strip_inner_content_type
strip-zeros m r e = ground (arith, skip_zeros-zeros m (length (replicate {A = ℕ} m 0)))

-- Every list of bytes is all zeros, or an inner plaintext in one way.
inner_plaintext-cases :
    (d : List ℕ)
    → ((m : ℕ) × (d ≡ replicate m 0))
      ⊎ ((c : List ℕ) × (t : ℕ) × (n : ℕ) × (t ≢ 0) × (d ≡ inner_plaintext c t n))
inner_plaintext-cases [] = inl (0, refl)
inner_plaintext-cases (b ∷ bs) = elim (inner_plaintext-cases bs) [
  | inl (m, e) ↦ elim (ℕ_discrete b 0) [
    | yes z ↦ inl (suc m, ap₂ (λ (x : ℕ) (xs : List ℕ). x ∷ xs) z e)
    | no z ↦ inr ([], b, m, z, ap (λ (xs : List ℕ). b ∷ xs) e)
  ]
  | inr (c, t, n, z, e) ↦ inr (b ∷ c, t, n, z, ap (λ (xs : List ℕ). b ∷ xs) e)
]

-- Stripping answers a content and a type exactly for the bytes that are this content, this type,
-- which is not zero, and any number of zeros.
pub strip-eq-ok_iff :
    (d content : List ℕ) (t : ℕ)
    → (strip_inner_content_type d ≡ ok (content, t))
      ↔ ((t ≢ 0) × ((n : ℕ) × (d ≡ inner_plaintext content t n)))
strip-eq-ok_iff d content t = (
  λ h. elim (inner_plaintext-cases d) [
    | inl (m, e) ↦ absurd (strip-zeros m (content, t) (ap strip_inner_content_type (sym e) ∙ h))
    | inr (c, u, n, z, e) ↦
        let same : ok (content, t) ≡ ok (c, u) =
          sym h ∙ ap strip_inner_content_type e ∙ strip-inner_plaintext c u n z in
        (ground (arith, same), (n, cc (same, e)))
  ],
  λ (z, (n, e)). ap strip_inner_content_type e ∙ strip-inner_plaintext content t n z,
)
