-- ===== src/Extension/Uint16List.antt =====
-- extensions.go, the lists of 16-bit values: signature_algorithms, signature_algorithms_cert and
-- supported_groups; and the supported_versions of a ClientHello, parsed in conn.go.
use cnnic_gmtls.Base.{
  ℕ, ◌+◌, ◌*◌, ◌/◌, ◌%◌, ◌≤◌, ◌<◌, ◌≡◌, arith, List, [], ◌∷◌, ◌++◌, not, ltb, ◌==◌, length, All,
  append-nil, Outcome, ok, ◌>>=◌, ◌>>◌, fail_if, IsReturn, IsUint16, put_uint16, put_uint16s,
  get_byte, get_uint16, get_uint16s, get_uint16s-put, get_uint16s-Returns, length-put_uint16s,
}
use cnnic_gmtls.Extension.{
  Extension, no_extension, extension_signature_algorithms, extension_signature_algorithms_cert,
  extension_supported_curves,
}
use Prim.Native.String.{String}

-- The three marshal functions differ in the type alone.
unfoldable pub marshal_uint16_list : ℕ → List ℕ → Extension
marshal_uint16_list t [] = no_extension
marshal_uint16_list t (v ∷ vs) = record {
  ext_type = t;
  ext_data = put_uint16 (length (v ∷ vs) * 2) ++ put_uint16s (v ∷ vs);
}

unfoldable pub marshal_signature_algorithms_extension : List ℕ → Extension
unfolding marshal_uint16_list
marshal_signature_algorithms_extension = marshal_uint16_list extension_signature_algorithms

unfoldable pub marshal_signature_algorithms_cert_extension : List ℕ → Extension
unfolding marshal_uint16_list
marshal_signature_algorithms_cert_extension =
    marshal_uint16_list extension_signature_algorithms_cert

unfoldable pub marshal_supported_curves_extension : List ℕ → Extension
unfolding marshal_uint16_list
marshal_supported_curves_extension = marshal_uint16_list extension_supported_curves

-- The two parse functions differ in the texts of their errors.
unfoldable pub parse_uint16_list : String → String → String → List ℕ → Outcome (List ℕ)
unfolding get_uint16
parse_uint16_list invalid truncated odd data' = do
  fail_if (ltb (length data') 2) invalid
  (list_len, rest) ← get_uint16 data'
  fail_if (ltb (length data') (2 + list_len)) truncated
  fail_if (not (list_len % 2 == 0)) odd
  (values, _) ← get_uint16s (list_len / 2) rest
  ok values

unfoldable pub parse_signature_algorithms_extension : List ℕ → Outcome (List ℕ)
unfolding parse_uint16_list
parse_signature_algorithms_extension =
    parse_uint16_list "gmtls: invalid signature algorithms extension"
      "gmtls: signature algorithms extension truncated"
      "gmtls: invalid signature algorithms extension length"

unfoldable pub parse_supported_curves_extension : List ℕ → Outcome (List ℕ)
unfolding parse_uint16_list
parse_supported_curves_extension =
    parse_uint16_list "gmtls: invalid supported curves extension"
      "gmtls: supported curves extension truncated"
      "gmtls: invalid supported curves extension length"

-- `parseSupportedVersionsClientHello`: the length stands in one byte.
unfoldable pub parse_supported_versions_client_hello : List ℕ → Outcome (List ℕ)
unfolding get_byte
parse_supported_versions_client_hello data' = do
  fail_if (ltb (length data') 1) "gmtls: invalid supported_versions extension"
  (list_len, rest) ← get_byte data'
  fail_if (ltb (length data') (1 + list_len)) "gmtls: supported_versions truncated"
  fail_if (not (list_len % 2 == 0)) "gmtls: invalid supported_versions length"
  (versions, _) ← get_uint16s (list_len / 2) rest
  ok versions

pub parse-marshal_uint16_list :
    (m m' m'' : String) (t : ℕ) (vs : List ℕ)
    → 1 ≤ length vs
    → length vs < 32768
    → All IsUint16 vs
    → parse_uint16_list m m' m'' (marshal_uint16_list t vs).ext_data ≡ ok vs
unfolding marshal_uint16_list parse_uint16_list
parse-marshal_uint16_list m m' m'' t [] lo hi h = absurd (omega arith)
parse-marshal_uint16_list m m' m'' t (v ∷ vs) lo hi h =
    ground (
      arith,
      length-put_uint16s vs,
      append-nil (put_uint16s (v ∷ vs)),
      get_uint16s-put (v ∷ vs) [] h,
    )

-- Signature schemes and groups, 1 to 32767 numbers of 16 bits, are read back as they were
-- listed.
parse-marshal_offers :
    (vs : List ℕ)
    → 1 ≤ length vs
    → length vs < 32768
    → All IsUint16 vs
    → (parse_signature_algorithms_extension (marshal_signature_algorithms_extension vs).ext_data
        ≡ ok vs)
      × (parse_supported_curves_extension (marshal_supported_curves_extension vs).ext_data ≡ ok vs)
unfolding parse_signature_algorithms_extension marshal_signature_algorithms_extension
    parse_supported_curves_extension marshal_supported_curves_extension
parse-marshal_offers vs lo hi h =
    (parse-marshal_uint16_list _ _ _ _ vs lo hi h, parse-marshal_uint16_list _ _ _ _ vs lo hi h)

pub parse_uint16_list-IsReturn :
    (m m' m'' : String) (d : List ℕ) → IsReturn (parse_uint16_list m m' m'' d)
unfolding parse_uint16_list
parse_uint16_list-IsReturn m m' m'' [] = tt
parse_uint16_list-IsReturn m m' m'' (a ∷ []) = tt
parse_uint16_list-IsReturn m m' m'' (a ∷ b ∷ d) =
    ground (arith, get_uint16s-Returns ((a * 256 + b) / 2) d)

pub parse_supported_versions-IsReturn :
    (d : List ℕ) → IsReturn (parse_supported_versions_client_hello d)
unfolding parse_supported_versions_client_hello
parse_supported_versions-IsReturn [] = tt
parse_supported_versions-IsReturn (a ∷ d) = ground (arith, get_uint16s-Returns (a / 2) d)
