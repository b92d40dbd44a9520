-- ===== src/Base/Cursor.antt =====
-- The reads of `Bytes`, on what the writes produce and on other input.
use Prim.Native.Nat.{ℕ, zero, suc, ◌+◌, ◌*◌, ◌%◌, ◌≤◌, ◌<◌}
use mathlib.Core.Path.{◌≡◌, refl}
use mathlib.Core.List.{List, [], ◌∷◌, ◌++◌}
use native.Mathlib.Omega.{arith}
use Prim.Native.String.{String}
use cnnic_gmtls.Base.Tests.{ltb, le→ltb}
use cnnic_gmtls.Base.Lists.{
  length, All, length-append, take-append, drop-append, length-take, length-drop,
}
use cnnic_gmtls.Base.Results.{Outcome, ok, ◌>>◌, fail_if, Returns}
use cnnic_gmtls.Base.Bytes.{
  IsUint16, put_uint16, put_uint24, put_uint32, get_byte, get_uint16, get_uint24, get_uint32, split,
  get_uint16s, put_uint16s, vector8, vector16,
}

pub get_uint16-put :
    (v : ℕ) (rest : List ℕ) → v < 65536 → get_uint16 (put_uint16 v ++ rest) ≡ ok (v, rest)
unfolding get_uint16
get_uint16-put v rest h = ground arith

pub get_uint24-put :
    (v : ℕ) (rest : List ℕ) → v < 16777216 → get_uint24 (put_uint24 v ++ rest) ≡ ok (v, rest)
unfolding get_uint24
get_uint24-put v rest h = ground arith

pub get_uint32-put :
    (v : ℕ) (rest : List ℕ) → v < 4294967296 → get_uint32 (put_uint32 v ++ rest) ≡ ok (v, rest)
unfolding get_uint32
get_uint32-put v rest h = ground arith

pub split-append : (xs rest : List ℕ) → split (length xs) (xs ++ rest) ≡ ok (xs, rest)
unfolding split
split-append xs rest =
    ground (arith, length-append xs rest, take-append xs rest, drop-append xs rest)

pub get_uint16s-put :
    (vs rest : List ℕ)
    → All IsUint16 vs
    → get_uint16s (length vs) (put_uint16s vs ++ rest) ≡ ok (vs, rest)
unfolding get_uint16s
get_uint16s-put [] rest h = refl
get_uint16s-put (v ∷ vs) rest h = ground (arith, get_uint16s-put vs rest h.1)

pub length-put_uint16s : (vs : List ℕ) → length (put_uint16s vs) ≡ 2 * length vs
length-put_uint16s [] = omega arith
length-put_uint16s (v ∷ vs) = omega (arith, length-put_uint16s vs)

-- `vector8` reads back a vector that is written with its length.
pub vector8-append :
    (m m' : String) (xs rest : List ℕ)
    → length xs < 256
    → vector8 m m' ((length xs % 256) ∷ (xs ++ rest)) ≡ ok (xs, rest)
unfolding vector8
vector8-append m m' xs rest h =
    ground (arith, length-append xs rest, take-append xs rest, drop-append xs rest)

pub vector16-append :
    (m m' : String) (xs rest : List ℕ)
    → length xs < 65536
    → vector16 m m' (put_uint16 (length xs) ++ (xs ++ rest)) ≡ ok (xs, rest)
unfolding vector16
vector16-append m m' xs rest h =
    ground (arith, length-append xs rest, take-append xs rest, drop-append xs rest)

-- A read that the length covers comes back, and moves the cursor by what it took.
pub get_byte-Returns :
    (d : List ℕ) → 1 ≤ length d → Returns (get_byte d) (λ r. length r.1 + 1 ≡ length d)
unfolding get_byte
get_byte-Returns [] h = absurd (omega arith)
get_byte-Returns (a ∷ d) h = omega arith

pub get_uint16-Returns :
    (d : List ℕ) → 2 ≤ length d → Returns (get_uint16 d) (λ r. length r.1 + 2 ≡ length d)
unfolding get_uint16
get_uint16-Returns [] h = absurd (omega arith)
get_uint16-Returns (a ∷ []) h = absurd (omega arith)
get_uint16-Returns (a ∷ b ∷ d) h = omega arith

pub get_uint24-Returns :
    (d : List ℕ) → 3 ≤ length d → Returns (get_uint24 d) (λ r. length r.1 + 3 ≡ length d)
unfolding get_uint24
get_uint24-Returns [] h = absurd (omega arith)
get_uint24-Returns (a ∷ []) h = absurd (omega arith)
get_uint24-Returns (a ∷ b ∷ []) h = absurd (omega arith)
get_uint24-Returns (a ∷ b ∷ c ∷ d) h = omega arith

pub split-Returns :
    (n : ℕ) (d : List ℕ)
    → n ≤ length d
    → Returns (split n d) (λ r. (length r.0 ≡ n) × (length r.1 + n ≡ length d))
unfolding split
split-Returns n d h = ground (arith, length-take n d, length-drop n d)

pub get_uint16s-Returns :
    (n : ℕ) (d : List ℕ)
    → 2 * n ≤ length d
    → Returns (get_uint16s n d) (λ r. (length r.0 ≡ n) × (length r.1 + 2 * n ≡ length d))
unfolding get_uint16s
get_uint16s-Returns zero d h = omega arith
get_uint16s-Returns (suc n) [] h = absurd (omega arith)
get_uint16s-Returns (suc n) (a ∷ []) h = absurd (omega arith)
get_uint16s-Returns (suc n) (a ∷ b ∷ d) h = ground (arith, get_uint16s-Returns n d)

pub vector8-Returns :
    (m m' : String) (d : List ℕ)
    → Returns (vector8 m m' d) (λ r. length r.0 + length r.1 + 1 ≡ length d)
unfolding vector8
vector8-Returns m m' [] = ground arith
vector8-Returns m m' (a ∷ d) = ground (arith, length-take a d, length-drop a d)

pub vector16-Returns :
    (m m' : String) (d : List ℕ)
    → Returns (vector16 m m' d) (λ r. length r.0 + length r.1 + 2 ≡ length d)
unfolding vector16
vector16-Returns m m' [] = ground arith
vector16-Returns m m' (a ∷ []) = ground arith
vector16-Returns m m' (a ∷ b ∷ d) =
    ground (arith, length-take (a * 256 + b) d, length-drop (a * 256 + b) d)

-- A guard on a length that is there is passed.
pub need {ℓ} :
    {A : Type ℓ} (a b : ℕ) (text : String) {k r : Outcome A}
    → b ≤ a
    → k ≡ r
    → (fail_if (ltb a b) text >> k) ≡ r
need a b text h e = rw (le→ltb a b h) e
