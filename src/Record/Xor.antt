-- ===== src/Record/Xor.antt =====
-- Exclusive or on bytes, from a table that is checked by evaluation.
use Prim.Native.Nat.{bit_xor}
use cnnic_gmtls.Base.{
  ℕ, zero, suc, ◌<◌, ◌≡◌, refl, arith, Bool, true, false, if◌then◌else◌, Bool-cases, inl, inr, ltb,
  ltb→lt, ltb→le, ◌==◌, ==→eq, List, [], ◌∷◌, All, IsByte, length,
}

-- Whether the exclusive or with `a` undoes itself on the bytes below a bound.
undone_row : ℕ → ℕ → Bool
undone_row a zero = true
undone_row a (suc b) = if bit_xor a (bit_xor a b) == b then undone_row a b else false

-- The rows of all bytes below a bound.
undone_table : ℕ → Bool
unfolding undone_row
undone_table zero = true
undone_table (suc a) = if undone_row a 256 then undone_table a else false

row-entry : (a bound b : ℕ) → undone_row a bound ≡ true → b < bound → bit_xor a (bit_xor a b) ≡ b
unfolding undone_row
row-entry a zero b h l = absurd (omega arith)
row-entry a (suc n) b h l = elim (Bool-cases (bit_xor a (bit_xor a n) == n)) [
  | inr e ↦ ground (arith, e, h)
  | inl e ↦ elim (Bool-cases (ltb b n)) [
    | inl below ↦ row-entry a n b (ground (arith, e, h)) (ltb→lt b n below)
    | inr here ↦ let last : b ≡ n = omega (arith, ltb→le b n here) in rw last (==→eq _ n e)
  ]
]

table-row : (bound a : ℕ) → undone_table bound ≡ true → a < bound → undone_row a 256 ≡ true
unfolding undone_table
table-row zero a h l = absurd (omega arith)
table-row (suc n) a h l = elim (Bool-cases (undone_row n 256)) [
  | inr e ↦ ground (arith, e, h)
  | inl e ↦ elim (Bool-cases (ltb a n)) [
    | inl below ↦ table-row n a (ground (arith, e, h)) (ltb→lt a n below)
    | inr here ↦ let last : a ≡ n = omega (arith, ltb→le a n here) in rw last e
  ]
]

bytes_undone : undone_table 256 ≡ true
unfolding undone_table undone_row
bytes_undone = refl

pub xor-xor : (a b : ℕ) → IsByte a → IsByte b → bit_xor a (bit_xor a b) ≡ b
xor-xor a b ha hb = row-entry a 256 b (table-row 256 a bytes_undone ha) hb

-- The loop `nonce[i] ^= seq[i]`, over two slices of one length.
unfoldable pub xor_bytes : List ℕ → List ℕ → List ℕ
xor_bytes [] ys = []
xor_bytes (x ∷ xs) [] = x ∷ xs
xor_bytes (x ∷ xs) (y ∷ ys) = bit_xor x y ∷ xor_bytes xs ys

pub length-xor_bytes : (xs ys : List ℕ) → length (xor_bytes xs ys) ≡ length xs
unfolding xor_bytes
length-xor_bytes [] ys = refl
length-xor_bytes (x ∷ xs) [] = refl
length-xor_bytes (x ∷ xs) (y ∷ ys) = omega (arith, length-xor_bytes xs ys)

pub xor_bytes_injective :
    (iv xs ys : List ℕ)
    → length xs ≡ length iv
    → length ys ≡ length iv
    → All IsByte iv
    → All IsByte xs
    → All IsByte ys
    → xor_bytes iv xs ≡ xor_bytes iv ys
    → xs ≡ ys
unfolding xor_bytes
xor_bytes_injective [] [] [] l k h hx hy e = refl
xor_bytes_injective [] [] (y ∷ ys) l k h hx hy e = absurd (omega arith)
xor_bytes_injective [] (x ∷ xs) ys l k h hx hy e = absurd (omega arith)
xor_bytes_injective (a ∷ iv) [] ys l k h hx hy e = absurd (omega arith)
xor_bytes_injective (a ∷ iv) (x ∷ xs) [] l k h hx hy e = absurd (omega arith)
xor_bytes_injective (a ∷ iv) (x ∷ xs) (y ∷ ys) l k h hx hy e = ground (
  arith,
  xor_bytes_injective iv xs ys (omega arith) (omega arith) h.1 hx.1 hy.1,
  xor-xor a x h.0 hx.0,
  xor-xor a y h.0 hy.0,
)
