-- ===== src/Sm4/Padding.antt =====
-- sm4.go: `PKCS7Pad` and `PKCS7UnpadStrict`.
use cnnic_gmtls.Base.{
  ℕ, zero, suc, ◌+◌, ◌-◌, ◌*◌, ◌/◌, ◌%◌, ◌≡◌, ◌≤◌, ◌<◌, ◌↔◌, refl, sym, ap, ◌∙◌, arith, List, [],
  ◌∷◌, ◌++◌, All, Bool, true, not, ◌&&◌, ◌||◌, ltb, ◌==◌, inl, inr, Bool-cases, Outcome, ok, ◌>>◌,
  fail_if, length, length-append, length-replicate, take, drop, get_or, replicate, take-append,
  drop-append, get_or-append_right, take-append-drop, length-drop,
}
use native.Mathlib.Nat.{mod-lt}

unfoldable pub pkcs7_pad : List ℕ → ℕ → List ℕ
pkcs7_pad content block_size =
    let padding = block_size - length content % block_size in
    content ++ replicate padding (padding % 256)

-- The loop over the bytes of the padding.
unfoldable pub all_bytes_are : ℕ → List ℕ → Bool
all_bytes_are b [] = true
all_bytes_are b (x ∷ xs) = (x == b) && all_bytes_are b xs

unfoldable pub pkcs7_unpad_strict : List ℕ → Outcome (List ℕ)
unfolding all_bytes_are
pkcs7_unpad_strict d = do
  fail_if (length d == 0) "pkcs7: empty data"
  let padding = get_or d (length d - 1) 0
  fail_if ((padding == 0) || ltb (length d) padding) "pkcs7: invalid padding size"
  fail_if (not (all_bytes_are (padding % 256) (drop (length d - padding) d)))
      "pkcs7: invalid padding"
  ok (take (length d - padding) d)

all_bytes_are-replicate : (b n : ℕ) → all_bytes_are b (replicate n b) ≡ true
unfolding all_bytes_are
all_bytes_are-replicate b zero = refl
all_bytes_are-replicate b (suc n) = ground (arith, all_bytes_are-replicate b n)

replicate-all_bytes_are :
    (b : ℕ) (xs : List ℕ) → all_bytes_are b xs ≡ true → xs ≡ replicate (length xs) b
unfolding all_bytes_are
replicate-all_bytes_are b [] h = refl
replicate-all_bytes_are b (x ∷ xs) h = elim (Bool-cases (x == b)) [
  | inl y ↦ ground (arith, y, h, replicate-all_bytes_are b xs)
  | inr n ↦ ground (arith, n, h)
]

last-replicate : (p b : ℕ) → get_or (b ∷ replicate p b) p 0 ≡ b
last-replicate zero b = refl
last-replicate (suc p) b = last-replicate p b

-- The last byte of a padded text.
last-padded :
    (content : List ℕ) (p b : ℕ)
    → 0 < p
    → get_or (content ++ replicate p b) (length (content ++ replicate p b) - 1) 0 ≡ b
last-padded content zero b h = absurd (omega arith)
last-padded content (suc p) b h =
    let d : List ℕ = content ++ (b ∷ replicate p b) in
    let last : length d - 1 ≡ p + length content =
      omega (arith, length-append content (b ∷ replicate p b), length-replicate {A = ℕ} p b) in
    ap (λ (i : ℕ). get_or d i 0) last
    ∙ get_or-append_right content (b ∷ replicate p b) p 0
    ∙ last-replicate p b

-- Any number of bytes of this value behind `content` are stripped.
unpad-padded :
    (content : List ℕ) (p : ℕ)
    → 0 < p
    → p < 256
    → pkcs7_unpad_strict (content ++ replicate p p) ≡ ok content
unfolding pkcs7_unpad_strict
unpad-padded content p h k =
    let d : List ℕ = content ++ replicate p p in
    let size : length d ≡ length content + p =
      omega (arith, length-append content (replicate {A = ℕ} p p), length-replicate {A = ℕ} p p) in
    let front : length d - p ≡ length content = omega (arith, size) in
    let byte : p % 256 ≡ p = omega arith in
    ground (
      arith,
      last-padded content p p h,
      size,
      front,
      byte,
      drop-append content (replicate p p),
      take-append content (replicate p p),
      all_bytes_are-replicate p p,
    )

-- What is padded to blocks of a size up to 255 is unpadded to itself.
pub unpad-pad :
    (content : List ℕ) (block_size : ℕ)
    → 0 < block_size
    → block_size < 256
    → pkcs7_unpad_strict (pkcs7_pad content block_size) ≡ ok content
unfolding pkcs7_pad
unpad-pad content n h k =
    let p = n - length content % n in
    let small : length content % n < n = mod-lt (length content) h in
    let byte : p % 256 ≡ p = omega (arith, small) in
    ap (λ (b : ℕ). pkcs7_unpad_strict (content ++ replicate p b)) byte
    ∙ unpad-padded content p (omega (arith, small)) (omega (arith, small))

-- A padded text fills whole blocks of 16 bytes.
pub length-pkcs7_pad :
    (content : List ℕ) → length (pkcs7_pad content 16) ≡ (length content / 16 + 1) * 16
unfolding pkcs7_pad
length-pkcs7_pad content =
    let p = 16 - length content % 16 in
    omega
      (arith, length-append content (replicate p (p % 256)), length-replicate {A = ℕ} p (p % 256))

get_or-small : (d : List ℕ) (i : ℕ) → All (λ b. b < 256) d → get_or d i 0 < 256
get_or-small [] i h = omega arith
get_or-small (x ∷ xs) zero h = h.0
get_or-small (x ∷ xs) (suc i) h = get_or-small xs i h.1

-- What the guards of the unpadding let through.
unpad-ok :
    (d content : List ℕ)
    → pkcs7_unpad_strict d ≡ ok content
    → let p = get_or d (length d - 1) 0 in
      (0 < p)
      × (p ≤ length d)
      × (all_bytes_are (p % 256) (drop (length d - p) d) ≡ true)
      × (take (length d - p) d ≡ content)
unfolding pkcs7_unpad_strict
unpad-ok d content e =
    let p = get_or d (length d - 1) 0 in
    elim (Bool-cases (length d == 0)) [
      | inl y ↦ ground (arith, y, e)
      | inr y ↦ elim (Bool-cases ((p == 0) || ltb (length d) p)) [
        | inl z ↦ ground (arith, y, z, e)
        | inr z ↦ elim (Bool-cases (all_bytes_are (p % 256) (drop (length d - p) d))) [
          | inl w ↦ (ground (arith, z), ground (arith, z), w, ground (arith, y, z, w, e))
          | inr w ↦ ground (arith, y, z, w, e)
        ]
      ]
    ]

unpad-ok_padded :
    (d content : List ℕ)
    → All (λ b. b < 256) d
    → pkcs7_unpad_strict d ≡ ok content
    → (p : ℕ) × ((0 < p) × (p < 256) × (d ≡ content ++ replicate p p))
unpad-ok_padded d content h e =
    let p = get_or d (length d - 1) 0 in
    let (pos, fits, same, front) = unpad-ok d content e in
    let small : p < 256 = get_or-small d (length d - 1) h in
    let byte : p % 256 ≡ p = omega (arith, small) in
    let behind : List ℕ = drop (length d - p) d in
    let size : length behind ≡ p = omega (arith, length-drop (length d - p) d, fits) in
    let bytes : behind ≡ replicate p p =
      replicate-all_bytes_are (p % 256) behind same
      ∙ ap (λ (n : ℕ). replicate n (p % 256)) size
      ∙ ap (replicate p) byte in
    (
      p,
      (
        pos,
        small,
        sym (take-append-drop (length d - p) d)
            ∙ ap (λ (xs : List ℕ). xs ++ behind) front
            ∙ ap (λ (xs : List ℕ). content ++ xs) bytes,
      ),
    )

-- On bytes, unpadding answers `content` exactly for those that are `content` and `p` bytes of
-- the value `p`, for some `p` from 1 to 255.
pub unpad-eq-ok_iff :
    (d content : List ℕ)
    → All (λ b. b < 256) d
    → (pkcs7_unpad_strict d ≡ ok content)
      ↔ ((p : ℕ) × ((0 < p) × (p < 256) × (d ≡ content ++ replicate p p)))
unpad-eq-ok_iff d content h = (
  unpad-ok_padded d content h,
  λ (p, (pos, small, e)). ap pkcs7_unpad_strict e ∙ unpad-padded content p pos small,
)
