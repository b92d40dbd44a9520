-- ===== src/Message/RequestContent.antt =====
-- tls13_cert.go: the extensions of the request that `marshalCertificateRequestTLS13` writes.
use cnnic_gmtls.Base.{
  ℕ, ◌+◌, ◌*◌, ◌<◌, ◌≤◌, ◌≡◌, refl, sym, ap, ◌∙◌, arith, List, [], ◌∷◌, ◌++◌, length, length-append,
  append-nil, take-append, drop-append, All, IsUint16, ok, put_uint16, put_uint24,
  length-put_uint16s,
}
use cnnic_gmtls.Extension.{Extension}
use cnnic_gmtls.Extension.Uint16List.{
  marshal_signature_algorithms_extension, marshal_signature_algorithms_cert_extension,
  parse_signature_algorithms_extension, parse-marshal_uint16_list, marshal_uint16_list,
}
use cnnic_gmtls.Message.{type_certificate_request}
use cnnic_gmtls.Message.CertificateRequest.{marshal, parse, parse_request-marshal}
use cnnic_gmtls.Message.Extensions.{
  marshal_extensions, put_extension, put_extensions, hello_extensions, hello_extensions-marshal,
}
use cnnic_gmtls.Ticket.Parse.{parse_handshake_message}

parse_message-put :
    (t : ℕ) (body : List ℕ)
    → length body < 16777216
    → parse_handshake_message (t ∷ (put_uint24 (length body) ++ body)) ≡ ok (t, body, [])
unfolding parse_handshake_message
parse_message-put t body h =
    ground (arith, append-nil body, take-append body [], drop-append body [])

abbrev request_extensions : List ℕ → List Extension
request_extensions schemes =
    marshal_signature_algorithms_extension schemes
    ∷ marshal_signature_algorithms_cert_extension schemes
    ∷ []

length-scheme_data :
    (t v : ℕ) (vs : List ℕ)
    → length (marshal_uint16_list t (v ∷ vs)).ext_data ≡ 2 * length (v ∷ vs) + 2
unfolding marshal_uint16_list
length-scheme_data t v vs = omega (arith, length-put_uint16s vs)

length-put_extension :
    (e : Extension) (rest : List ℕ)
    → length (put_extension e ++ rest) ≡ 4 + length e.ext_data + length rest
length-put_extension e rest = omega (arith, length-append e.ext_data rest)

length-request :
    (v : ℕ) (vs : List ℕ)
    → length (put_extensions (request_extensions (v ∷ vs))) ≡ 4 * length (v ∷ vs) + 12
length-request v vs =
    let schemes = v ∷ vs in
    let a = marshal_signature_algorithms_extension schemes in
    let b = marshal_signature_algorithms_cert_extension schemes in
    let la : length a.ext_data ≡ 2 * length schemes + 2 =
      unfold marshal_signature_algorithms_extension in (length-scheme_data 13 v vs) in
    let lb : length b.ext_data ≡ 2 * length schemes + 2 =
      unfold marshal_signature_algorithms_cert_extension in (length-scheme_data 50 v vs) in
    omega (arith, length-put_extension a (put_extension b ++ []), length-put_extension b [], la, lb)

-- The message behind its type and its length, which the code counts apart.
abbrev framed : ℕ → List ℕ → List ℕ
framed size block =
    type_certificate_request ∷ (put_uint24 size ++ (0 ∷ (put_uint16 (length block) ++ block)))

framed-size :
    (block : List ℕ)
    → framed (1 + 0 + 2 + length block) block
      ≡ framed (length (0 ∷ (put_uint16 (length block) ++ block))) block
framed-size block =
    let e : 1 + 0 + 2 + length block ≡ length (0 ∷ (put_uint16 (length block) ++ block)) =
      omega arith in
    ap (λ (n : ℕ). framed n block) e

marshal-eq :
    (v : ℕ) (vs : List ℕ)
    → marshal (v ∷ vs)
      ≡ framed
          (length (0 ∷ marshal_extensions (request_extensions (v ∷ vs))))
          (put_extensions (request_extensions (v ∷ vs)))
unfolding marshal marshal_signature_algorithms_extension marshal_signature_algorithms_cert_extension
marshal-eq v vs =
    let a = put_extension (marshal_signature_algorithms_extension (v ∷ vs)) in
    let b = put_extension (marshal_signature_algorithms_cert_extension (v ∷ vs)) in
    ap (λ (block : List ℕ). framed (1 + 0 + 2 + length block) block)
      (ap (λ (r : List ℕ). a ++ r) (sym (append-nil b)))
    ∙ framed-size (put_extensions (request_extensions (v ∷ vs)))

-- The request for 1 to 16380 signature schemes of 16 bits is one handshake message of the length of
-- its body. The client's `parse` finds the empty context in it. Behind the byte of the context
-- stands a block in which the reader of extensions of handshake.go finds two: signature_algorithms,
-- which lists the schemes in order, and then signature_algorithms_cert with the same list.
pub marshal_certificate_request_lem :
    (schemes : List ℕ)
    → 1 ≤ length schemes
    → length schemes ≤ 16380
    → All IsUint16 schemes
    → (body : List ℕ) × (a : Extension) × (b : Extension) × (parse_handshake_message
          (marshal schemes)
        ≡ ok (type_certificate_request, 0 ∷ body, []))
      × (parse (marshal schemes) ≡ ok [])
      × (hello_extensions body ≡ ok (a ∷ b ∷ []))
      × (a.ext_type ≡ 13)
      × (parse_signature_algorithms_extension a.ext_data ≡ ok schemes)
      × (b.ext_type ≡ 50)
      × (parse_signature_algorithms_extension b.ext_data ≡ ok schemes)
unfolding parse_signature_algorithms_extension marshal_signature_algorithms_extension
    marshal_signature_algorithms_cert_extension
marshal_certificate_request_lem [] lo hi are = absurd (omega arith)
marshal_certificate_request_lem (v ∷ vs) lo hi are =
    let schemes = v ∷ vs in
    let exts = request_extensions schemes in
    let size = length-request v vs in
    let fits : length (marshal_extensions exts) < 65536 = omega (arith, size) in
    let data_fits : 2 * length schemes + 2 < 65536 = omega arith in
    (
      marshal_extensions exts,
      marshal_signature_algorithms_extension schemes,
      marshal_signature_algorithms_cert_extension schemes,
      ap parse_handshake_message (marshal-eq v vs)
          ∙ parse_message-put type_certificate_request (0 ∷ marshal_extensions exts)
              (omega (arith, fits)),
      parse_request-marshal schemes,
      hello_extensions-marshal exts
          (
            (omega arith, omega (arith, length-scheme_data 13 v vs)),
            ((omega arith, omega (arith, length-scheme_data 50 v vs)), tt),
          )
          (omega (arith, size)),
      refl,
      parse-marshal_uint16_list _ _ _ 13 schemes lo (omega arith) are,
      refl,
      parse-marshal_uint16_list _ _ _ 50 schemes lo (omega arith) are,
    )
