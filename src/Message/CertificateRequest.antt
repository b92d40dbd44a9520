-- ===== src/Message/CertificateRequest.antt =====
-- tls13_cert.go: `marshalCertificateRequestTLS13` and `parseCertificateRequestTLS13`.
use cnnic_gmtls.Base.{
  ℕ, ◌+◌, ◌≡◌, arith, List, [], ◌∷◌, ◌++◌, not, ltb, ◌==◌, ◌&&◌, if◌then◌else◌, length, Outcome, ok,
  ◌>>=◌, ◌>>◌, fail_if, IsReturn, put_uint16, put_uint24, get_byte, split,
}
use cnnic_gmtls.Extension.{Extension, sm2_sm3}
use cnnic_gmtls.Extension.Uint16List.{
  marshal_signature_algorithms_extension, marshal_signature_algorithms_cert_extension,
}
use cnnic_gmtls.Message.{type_certificate_request}
use cnnic_gmtls.Message.Extensions.{put_extension}

abbrev default_schemes : List ℕ → List ℕ
default_schemes [] = sm2_sm3 ∷ []
default_schemes (s ∷ ss) = s ∷ ss

-- `Extension{}` is passed over.
abbrev put_if_present : Extension → List ℕ
put_if_present e = if (e.ext_type == 0) && (length e.ext_data == 0) then [] else put_extension e

unfoldable pub marshal : List ℕ → List ℕ
marshal sig_schemes =
    let schemes = default_schemes sig_schemes in
    let exts : List ℕ =
      put_if_present (marshal_signature_algorithms_extension schemes)
      ++ put_if_present (marshal_signature_algorithms_cert_extension schemes) in
    type_certificate_request
    ∷ (put_uint24 (1 + 0 + 2 + length exts) ++ (0 ∷ (put_uint16 (length exts) ++ exts)))

-- The context; the extensions behind it are not read.
unfoldable pub parse : List ℕ → Outcome (List ℕ)
unfolding get_byte split
parse data' = do
  fail_if (ltb (length data') 5) "gmtls: not a CertificateRequest"
  (t, rest) ← get_byte data'
  fail_if (not (t == type_certificate_request)) "gmtls: not a CertificateRequest"
  (_, rest) ← split 3 rest
  (ctx_len, rest) ← get_byte rest
  fail_if (ltb (length rest) (ctx_len + 2)) "gmtls: invalid CertificateRequest"
  (context, _) ← split ctx_len rest
  ok context

pub parse_request-marshal : (schemes : List ℕ) → parse (marshal schemes) ≡ ok []
unfolding parse marshal
parse_request-marshal schemes = ground arith

pub parse_certificate_request-IsReturn : (d : List ℕ) → IsReturn (parse d)
unfolding parse
parse_certificate_request-IsReturn [] = tt
parse_certificate_request-IsReturn (a ∷ []) = tt
parse_certificate_request-IsReturn (a ∷ b ∷ []) = tt
parse_certificate_request-IsReturn (a ∷ b ∷ c ∷ []) = tt
parse_certificate_request-IsReturn (a ∷ b ∷ c ∷ e ∷ []) = tt
parse_certificate_request-IsReturn (a ∷ b ∷ c ∷ e ∷ f ∷ d) = ground arith
