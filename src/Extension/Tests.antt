-- ===== src/Extension/Tests.antt =====
-- The theorems on extensions at concrete values.
use cnnic_gmtls.Base.{◌≡◌, arith, [], ◌∷◌, ok}
use cnnic_gmtls.Extension.KeyShare.{
  KeyShareEntry, marshal_key_share_extension, parse_key_share_client_hello, parse-marshal_key_share,
}
use cnnic_gmtls.Extension.Sni.{marshal_sni_extension, parse_sni_extension, parse-marshal_sni}
use cnnic_gmtls.Extension.Alpn.{marshal_alpn_extension, parse_alpn_extension, parse-marshal_alpn}

abbrev share : KeyShareEntry
share = record { group = 41; key_exchange = 4 ∷ 7 ∷ 9 ∷ [] }

parse-marshal_key_share_example :
    parse_key_share_client_hello (marshal_key_share_extension (share ∷ [])).ext_data
    ≡ ok (share ∷ [])
parse-marshal_key_share_example =
    parse-marshal_key_share (share ∷ []) (omega arith) ((omega arith, omega arith), tt)
      (omega arith)

parse-marshal_sni_example :
    parse_sni_extension (marshal_sni_extension (b'c' ∷ b'n' ∷ [])).ext_data ≡ ok (b'c' ∷ b'n' ∷ [])
parse-marshal_sni_example = parse-marshal_sni (b'c' ∷ b'n' ∷ []) (omega arith) (omega arith)

parse-marshal_alpn_example :
    parse_alpn_extension (marshal_alpn_extension ((b'h' ∷ b'2' ∷ []) ∷ (b'e' ∷ []) ∷ [])).ext_data
    ≡ ok ((b'h' ∷ b'2' ∷ []) ∷ (b'e' ∷ []) ∷ [])
parse-marshal_alpn_example =
    parse-marshal_alpn ((b'h' ∷ b'2' ∷ []) ∷ (b'e' ∷ []) ∷ []) (omega arith)
      (omega arith, (omega arith, tt)) (omega arith)
