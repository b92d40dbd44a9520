-- ===== src/Sm2/Bytes.antt =====
-- `big.Int.SetBytes` and `big.Int.Bytes` of the Go library: a number and its bytes, the highest first.
use cnnic_gmtls.Base.{
  ℕ, zero, suc, ◌+◌, ◌*◌, ◌/◌, ◌%◌, ◌<◌, ◌≡◌, refl, ◌∙◌, arith, List, [], ◌∷◌, ◌++◌, length,
  length-append, leb, leb→le, Bool-cases, inl, inr, if◌then◌else◌, Outcome, ok, panic,
}

abbrev pub bytes_to_nat : ℕ → List ℕ → ℕ
bytes_to_nat acc [] = acc
bytes_to_nat acc (b ∷ bs) = bytes_to_nat (acc * 256 + b) bs

abbrev pub set_bytes : List ℕ → ℕ
set_bytes = bytes_to_nat 0

-- The last `n` bytes of a number.
unfoldable pub low_bytes : ℕ → ℕ → List ℕ
low_bytes zero v = []
low_bytes (suc n) v = low_bytes n (v / 256) ++ ((v % 256) ∷ [])

abbrev pub bound : ℕ → ℕ
bound zero = 1
bound (suc n) = 256 * bound n

-- `copy(result[32-len(b):], b)` for the bytes `b` of a number, which panics on a negative index.
unfoldable pub fill_32 : ℕ → Outcome (List ℕ)
fill_32 v = if leb (bound 32) v then panic else ok (low_bytes 32 v)

bytes_to_nat-snoc :
    (acc : ℕ) (xs : List ℕ) (b : ℕ)
    → bytes_to_nat acc (xs ++ (b ∷ [])) ≡ bytes_to_nat acc xs * 256 + b
bytes_to_nat-snoc acc [] b = refl
bytes_to_nat-snoc acc (x ∷ xs) b = bytes_to_nat-snoc (acc * 256 + x) xs b

pub set_bytes-low_bytes : (n v : ℕ) → v < bound n → set_bytes (low_bytes n v) ≡ v
unfolding low_bytes
set_bytes-low_bytes zero v h = omega arith
set_bytes-low_bytes (suc n) v h =
    bytes_to_nat-snoc 0 (low_bytes n (v / 256)) (v % 256)
    ∙ omega (arith, set_bytes-low_bytes n (v / 256) (omega arith))

pub length-low_bytes : (n v : ℕ) → length (low_bytes n v) ≡ n
unfolding low_bytes
length-low_bytes zero v = refl
length-low_bytes (suc n) v =
    omega
      (arith, length-append (low_bytes n (v / 256)) ((v % 256) ∷ []), length-low_bytes n (v / 256))

pub fill_32_lem : (v : ℕ) → v < bound 32 → fill_32 v ≡ ok (low_bytes 32 v)
unfolding fill_32
fill_32_lem v h = elim (Bool-cases (leb (bound 32) v)) [
  | inl e ↦ absurd (omega (arith, leb→le (bound 32) v e))
  | inr e ↦ rw e refl
]
