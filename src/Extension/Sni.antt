-- ===== src/Extension/Sni.antt =====
-- extensions.go, server_name: `marshalSNIExtension` and `parseSNIExtension`.
use cnnic_gmtls.Base.{
  ℕ, ◌+◌, ◌≤◌, ◌<◌, ◌≡◌, arith, List, [], ◌∷◌, ◌++◌, not, ltb, ◌==◌, length, append-nil, Outcome,
  ok, ◌>>=◌, ◌>>◌, fail_if, IsReturn, put_uint16, get_byte, get_uint16, split, take-append,
  drop-append,
}
use cnnic_gmtls.Extension.{Extension, no_extension, extension_server_name}

unfoldable pub marshal_sni_extension : List ℕ → Extension
marshal_sni_extension [] = no_extension
marshal_sni_extension (c ∷ cs) =
    let body : List ℕ = 0 ∷ (put_uint16 (length (c ∷ cs)) ++ (c ∷ cs)) in
    record { ext_type = extension_server_name; ext_data = put_uint16 (length body) ++ body }

-- Only the first name of the list is read.
unfoldable pub parse_sni_extension : List ℕ → Outcome (List ℕ)
unfolding get_byte get_uint16 split
parse_sni_extension data' = do
  fail_if (ltb (length data') 5) "gmtls: invalid SNI extension"
  (list_len, rest) ← get_uint16 data'
  fail_if (ltb (length data') (2 + list_len)) "gmtls: SNI extension truncated"
  (name_type, rest) ← get_byte rest
  fail_if (not (name_type == 0)) "gmtls: unsupported server name type"
  fail_if (ltb (length rest) 2) "gmtls: SNI extension truncated"
  (name_len, rest) ← get_uint16 rest
  fail_if (ltb (length rest) name_len) "gmtls: SNI extension truncated"
  (name, _) ← split name_len rest
  ok name

-- A host name of 1 to 65532 bytes is read back from the extension that carries it.
pub parse-marshal_sni :
    (name : List ℕ)
    → 1 ≤ length name
    → length name < 65533
    → parse_sni_extension (marshal_sni_extension name).ext_data ≡ ok name
unfolding marshal_sni_extension parse_sni_extension
parse-marshal_sni [] lo hi = absurd (omega arith)
parse-marshal_sni (c ∷ cs) lo hi =
    ground (arith, append-nil cs, take-append (c ∷ cs) [], drop-append (c ∷ cs) [])

pub parse_sni-IsReturn : (d : List ℕ) → IsReturn (parse_sni_extension d)
unfolding parse_sni_extension
parse_sni-IsReturn [] = tt
parse_sni-IsReturn (a ∷ []) = tt
parse_sni-IsReturn (a ∷ b ∷ []) = tt
parse_sni-IsReturn (a ∷ b ∷ c ∷ []) = tt
parse_sni-IsReturn (a ∷ b ∷ c ∷ e ∷ []) = tt
parse_sni-IsReturn (a ∷ b ∷ c ∷ e ∷ f ∷ d) = ground arith
