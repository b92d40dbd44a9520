-- ===== src/Message/EncryptedExtensions.antt =====
-- handshake.go: `encryptedExtensionsMsg`. The message is its list of extensions.
use cnnic_gmtls.Base.{
  ℕ, ◌+◌, ◌*◌, ◌<◌, ◌≡◌, arith, List, [], ◌∷◌, ◌++◌, not, ltb, ◌==◌, length, append-nil, All,
  Outcome, ok, ◌>>=◌, ◌>>◌, fail_if, IsReturn, put_uint24, get_byte, get_uint16, get_uint24, split,
  take, take-append,
}
use cnnic_gmtls.Extension.{Extension}
use cnnic_gmtls.Message.{type_encrypted_extensions}
use cnnic_gmtls.Message.Extensions.{
  put_extensions, marshal_extensions, parse_extensions, IsExtension, parse_extensions-put,
  parse_extensions-IsReturn,
}

unfoldable pub marshal : List Extension → List ℕ
marshal exts =
    let body = marshal_extensions exts in
    type_encrypted_extensions ∷ (put_uint24 (length body) ++ body)

-- `data[0]` is read before the length is tested.
unfoldable pub unmarshal : List ℕ → Outcome (List Extension)
unfolding get_byte get_uint16 get_uint24 split
unmarshal data' = do
  (t, rest) ← get_byte data'
  fail_if (not (t == type_encrypted_extensions)) "gmtls: not an EncryptedExtensions"
  fail_if (ltb (length data') 4) "gmtls: invalid EncryptedExtensions message"
  (msg_len, rest) ← get_uint24 rest
  fail_if (ltb (length data') (4 + msg_len)) "gmtls: EncryptedExtensions message too short"
  fail_if (ltb msg_len 2) "gmtls: invalid EncryptedExtensions length"
  (ext_len, rest) ← get_uint16 rest
  fail_if (not (msg_len == (2 + ext_len))) "gmtls: invalid EncryptedExtensions length"
  fail_if (ltb (length rest) ext_len) "gmtls: EncryptedExtensions extensions truncated"
  (block, _) ← split ext_len rest
  parse_extensions "gmtls: invalid EncryptedExtensions extension"
      "gmtls: EncryptedExtensions extension truncated" (length block) block

-- `unmarshal` reads back the extensions that `marshal` wrote, in order, if each fits its 16-bit
-- numbers and all of them the 16-bit length.
pub unmarshal-marshal_encrypted_extensions :
    (es : List Extension)
    → All IsExtension es
    → length (put_extensions es) < 65536
    → unmarshal (marshal es) ≡ ok es
unfolding unmarshal marshal
unmarshal-marshal_encrypted_extensions es h l =
    let block = put_extensions es in
    ground (
      arith,
      append-nil block,
      take-append block [],
      parse_extensions-put "gmtls: invalid EncryptedExtensions extension"
          "gmtls: EncryptedExtensions extension truncated" es (length block) h,
    )

-- Any message with a byte in it is taken or refused.
pub unmarshal_encrypted_extensions-IsReturn : (b : ℕ) (d : List ℕ) → IsReturn (unmarshal (b ∷ d))
unfolding unmarshal
unmarshal_encrypted_extensions-IsReturn t [] = ground arith
unmarshal_encrypted_extensions-IsReturn t (a ∷ []) = ground arith
unmarshal_encrypted_extensions-IsReturn t (a ∷ b ∷ []) = ground arith
unmarshal_encrypted_extensions-IsReturn t (a ∷ b ∷ c ∷ []) = ground arith
unmarshal_encrypted_extensions-IsReturn t (a ∷ b ∷ c ∷ e ∷ []) = ground arith
unmarshal_encrypted_extensions-IsReturn t (a ∷ b ∷ c ∷ e ∷ f ∷ d) =
    let block = take (e * 256 + f) d in
    ground (
      arith,
      parse_extensions-IsReturn "gmtls: invalid EncryptedExtensions extension"
          "gmtls: EncryptedExtensions extension truncated" (length block) block (omega arith),
    )
