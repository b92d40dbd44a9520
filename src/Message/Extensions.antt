-- ===== src/Message/Extensions.antt =====
-- handshake.go: the block of extensions that both hellos and EncryptedExtensions end with, and the
-- header that both hellos begin with.
use cnnic_gmtls.Base.{
  ℕ, zero, suc, ◌+◌, ◌*◌, ◌≤◌, ◌<◌, ◌≡◌, refl, arith, List, [], ◌∷◌, ◌++◌, not, ltb, ◌==◌,
  if◌then◌else◌, length, length-append, All, append-nil, Outcome, ok, stuck, ◌>>=◌, ◌>>◌, fail_if,
  IsReturn, Returns, Returns-bind, IsUint16, put_uint16, put_uint24, get_byte, get_uint16, split,
  take-append, drop-append, length-drop, take,
}
use cnnic_gmtls.Extension.{Extension}
use Prim.Native.String.{String}

abbrev pub put_extension : Extension → List ℕ
put_extension e = put_uint16 e.ext_type ++ (put_uint16 (length e.ext_data) ++ e.ext_data)

abbrev pub put_extensions : List Extension → List ℕ
put_extensions [] = []
put_extensions (e ∷ es) = put_extension e ++ put_extensions es

-- With no extension the code writes the length 0, as this does.
abbrev pub marshal_extensions : List Extension → List ℕ
marshal_extensions es = put_uint16 (length (put_extensions es)) ++ put_extensions es

-- One round of the loops `for offset < extEnd`; the cursor ends at `extEnd`.
unfoldable pub parse_extension : String → String → List ℕ → Outcome (Extension × List ℕ)
unfolding get_uint16 split
parse_extension short truncated rest = do
  fail_if (ltb (length rest) 4) short
  (ext_type, rest) ← get_uint16 rest
  (ext_data_len, rest) ← get_uint16 rest
  fail_if (ltb (length rest) ext_data_len) truncated
  (ext_data, rest) ← split ext_data_len rest
  ok (record { ext_type = ext_type; ext_data = ext_data }, rest)

-- A round takes four bytes at least.
unfoldable pub parse_extensions : String → String → ℕ → List ℕ → Outcome (List Extension)
parse_extensions m m' fuel [] = ok []
parse_extensions m m' zero (b ∷ bs) = stuck
parse_extensions m m' (suc fuel) (b ∷ bs) = do
  (ext, rest) ← parse_extension m m' (b ∷ bs)
  exts ← parse_extensions m m' fuel rest
  ok (ext ∷ exts)

-- The end of both hellos: a block that is missing or cut off is passed over.
unfoldable pub hello_extensions : List ℕ → Outcome (List Extension)
unfolding get_uint16 split
hello_extensions rest = if ltb (length rest) 2 then ok [] else do
  (ext_len, rest) ← get_uint16 rest
  if ltb (length rest) ext_len then ok [] else do
    (block, _) ← split ext_len rest
    parse_extensions "gmtls: invalid extension data" "gmtls: extension data length mismatch"
        (length block) block

-- The start of both hellos: the type, the length that is skipped, the version and the random.
unfoldable pub hello_header : ℕ → String → String → List ℕ → Outcome (ℕ × List ℕ × List ℕ)
unfolding get_byte get_uint16 split
hello_header type' invalid wrong data' = do
  fail_if (ltb (length data') 42) invalid
  (t, rest) ← get_byte data'
  fail_if (not (t == type')) wrong
  (_, rest) ← split 3 rest
  (version, rest) ← get_uint16 rest
  (random, rest) ← split 32 rest
  ok (version, random, rest)

abbrev pub IsExtension : Extension → Type 0
IsExtension e = IsUint16 e.ext_type × (length e.ext_data < 65536)

pub parse_extension-put :
    (m m' : String) (e : Extension) (rest : List ℕ)
    → IsExtension e
    → parse_extension m m' (put_extension e ++ rest) ≡ ok (e, rest)
unfolding parse_extension
parse_extension-put m m' e rest h =
    let d = e.ext_data in
    ground (arith, length-append d rest, take-append d rest, drop-append d rest)

pub parse_extensions-put :
    (m m' : String) (es : List Extension) (fuel : ℕ)
    → All IsExtension es
    → length (put_extensions es) ≤ fuel
    → parse_extensions m m' fuel (put_extensions es) ≡ ok es
unfolding parse_extensions
parse_extensions-put m m' [] fuel h f = refl
parse_extensions-put m m' (e ∷ es) zero h f = absurd (omega arith)
parse_extensions-put m m' (e ∷ es) (suc fuel) h f =
    rw (parse_extension-put m m' e (put_extensions es) h.0) (
      rw (
        parse_extensions-put m m' es fuel h.1
          (omega (arith, length-append e.ext_data (put_extensions es)))))

pub hello_extensions-marshal :
    (es : List Extension)
    → All IsExtension es
    → length (put_extensions es) < 65536
    → hello_extensions (marshal_extensions es) ≡ ok es
unfolding hello_extensions
hello_extensions-marshal es h l =
    let block = put_extensions es in
    ground (
      arith,
      append-nil block,
      take-append block [],
      parse_extensions-put "gmtls: invalid extension data" "gmtls: extension data length mismatch"
          es (length block) h,
    )

parse_extension-Returns :
    (m m' : String) (d : List ℕ) → Returns (parse_extension m m' d) (λ r. length r.1 + 4 ≤ length d)
unfolding parse_extension
parse_extension-Returns m m' [] = tt
parse_extension-Returns m m' (a ∷ []) = tt
parse_extension-Returns m m' (a ∷ b ∷ []) = tt
parse_extension-Returns m m' (a ∷ b ∷ c ∷ []) = tt
parse_extension-Returns m m' (a ∷ b ∷ c ∷ e ∷ d) = ground (arith, length-drop (c * 256 + e) d)

pub parse_extensions-IsReturn :
    (m m' : String) (fuel : ℕ) (d : List ℕ)
    → length d ≤ fuel
    → IsReturn (parse_extensions m m' fuel d)
unfolding parse_extensions
parse_extensions-IsReturn m m' fuel [] h = tt
parse_extensions-IsReturn m m' zero (a ∷ d) h = absurd (omega arith)
parse_extensions-IsReturn m m' (suc fuel) (a ∷ d) h =
    Returns-bind _ _ (parse_extension m m' (a ∷ d)) _ (parse_extension-Returns m m' (a ∷ d)) (λ r p.
      Returns-bind (λ _. Unit) _ (parse_extensions m m' fuel r.1) _
        (parse_extensions-IsReturn m m' fuel r.1 (omega arith)) (λ _ _. tt))

pub hello_extensions-IsReturn : (d : List ℕ) → IsReturn (hello_extensions d)
unfolding hello_extensions
hello_extensions-IsReturn [] = tt
hello_extensions-IsReturn (a ∷ []) = tt
hello_extensions-IsReturn (a ∷ b ∷ d) =
    let block = take (a * 256 + b) d in
    ground (
      arith,
      parse_extensions-IsReturn "gmtls: invalid extension data"
          "gmtls: extension data length mismatch" (length block) block (omega arith),
    )

pub hello_header-put :
    (type' n version : ℕ) (m m' : String) (random rest : List ℕ)
    → IsUint16 version
    → length random ≡ 32
    → 4 ≤ length rest
    → hello_header type' m m' (type' ∷ (put_uint24 n ++ (put_uint16 version ++ (random ++ rest))))
      ≡ ok (version, random, rest)
unfolding hello_header
hello_header-put type' n version m m' random rest hv hr l =
    ground (arith, length-append random rest, take-append random rest, drop-append random rest)

pub hello_header-Returns :
    (type' : ℕ) (m m' : String) (d : List ℕ)
    → Returns (hello_header type' m m' d) (λ r. length r.2 + 38 ≡ length d)
unfolding hello_header
hello_header-Returns type' m m' [] = tt
hello_header-Returns type' m m' (a ∷ []) = tt
hello_header-Returns type' m m' (a ∷ b ∷ []) = tt
hello_header-Returns type' m m' (a ∷ b ∷ c ∷ []) = tt
hello_header-Returns type' m m' (a ∷ b ∷ c ∷ e ∷ []) = tt
hello_header-Returns type' m m' (a ∷ b ∷ c ∷ e ∷ f ∷ []) = tt
hello_header-Returns type' m m' (a ∷ b ∷ c ∷ e ∷ f ∷ g ∷ d) = ground (arith, length-drop 32 d)
