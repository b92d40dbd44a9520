-- ===== src/Sm2/Tests.antt =====
-- The theorems on the keys at concrete values.
use cnnic_gmtls.Base.{◌≡◌, refl, arith, ok, ◌>>=◌}
use cnnic_gmtls.Sm2.{PublicKey}
use cnnic_gmtls.Sm2.Keys.{encode_point, parse_sm2_public_key, parse-encode_point}
use cnnic_gmtls.Samples.{toy_curve}

abbrev key : PublicKey
key = record { x = 300; y = 5 }

parse-encode_point_example : (encode_point key >>= parse_sm2_public_key toy_curve) ≡ ok key
parse-encode_point_example = parse-encode_point toy_curve key (omega arith) (omega arith) refl
