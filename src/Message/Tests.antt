-- ===== src/Message/Tests.antt =====
-- The theorems on messages at concrete values.
use cnnic_gmtls.Base.{
  ℕ, ◌+◌, ◌*◌, ◌≤◌, ◌≡◌, ◌↔◌, refl, arith, List, [], ◌∷◌, none, some, Outcome, ok, err, message,
  panic, IsReturn, replicate,
}
use cnnic_gmtls.Extension.{Extension}
use cnnic_gmtls.Message.{type_certificate_verify, type_certificate_request}
use cnnic_gmtls.Message.ClientHello as Client
use cnnic_gmtls.Message.ClientHello.{
  ClientHelloMsg, unmarshal-marshal_client_hello, unmarshal_client_hello-IsReturn,
}
use cnnic_gmtls.Message.ServerHello as Server
use cnnic_gmtls.Message.ServerHello.{
  ServerHelloMsg, unmarshal-marshal_server_hello, unmarshal_server_hello-IsReturn,
}
use cnnic_gmtls.Message.EncryptedExtensions as Encrypted
use cnnic_gmtls.Message.EncryptedExtensions.{unmarshal-marshal_encrypted_extensions}
use cnnic_gmtls.Message.CertificateVerify as Verify
use cnnic_gmtls.Message.CertificateVerify.{
  CertificateVerifyMsg, unmarshal-marshal_certificate_verify, unmarshal-eq-panic_iff,
}
use cnnic_gmtls.Message.Certificate as Chain
use cnnic_gmtls.Message.Certificate.{parse-marshal_certificate, parse_certificate-IsReturn}
use cnnic_gmtls.Message.CertificateRequest as Request
use cnnic_gmtls.Message.RequestContent.{marshal_certificate_request_lem}
use cnnic_gmtls.Message.Extensions.{hello_extensions}
use cnnic_gmtls.Extension.Uint16List.{parse_signature_algorithms_extension}
use cnnic_gmtls.Ticket.Parse.{parse_handshake_message}
use cnnic_gmtls.Sm2.{PublicKey}
use cnnic_gmtls.Sm2.Pem.{CertificateReader, parse_sm2_public_key_from_certificate}
use cnnic_gmtls.Samples.{toy_curve}

abbrev versions : Extension
versions = record { ext_type = 43; ext_data = 2 ∷ 3 ∷ 4 ∷ [] }

abbrev client_hello : ClientHelloMsg
client_hello = record {
  version = 0x0303;
  random = replicate 32 5;
  session_id = 1 ∷ 2 ∷ [];
  cipher_suites = 0x00C6 ∷ 0x1306 ∷ [];
  compression_methods = 0 ∷ [];
  extensions = versions ∷ [];
}

abbrev server_hello : ServerHelloMsg
server_hello = record {
  version = 0x0303;
  random = replicate 32 6;
  session_id = 1 ∷ 2 ∷ [];
  cipher_suite = 0x00C6;
  compression = 0;
  extensions = versions ∷ [];
}

unmarshal-marshal_client_hello_example :
    Client.unmarshal (Client.marshal client_hello) ≡ ok client_hello
unmarshal-marshal_client_hello_example = unmarshal-marshal_client_hello client_hello (record {
  version_fits = omega arith;
  random_fits = refl;
  session_id_fits = omega arith;
  suites_fit = omega arith;
  suites_are = (omega arith, (omega arith, tt));
  compression_fits = omega arith;
  extensions_are = ((omega arith, omega arith), tt);
  extensions_fit = omega arith;
})

unmarshal_client_hello-IsReturn_example : IsReturn (Client.unmarshal (1 ∷ 0 ∷ 0 ∷ 9 ∷ 3 ∷ []))
unmarshal_client_hello-IsReturn_example = unmarshal_client_hello-IsReturn (1 ∷ 0 ∷ 0 ∷ 9 ∷ 3 ∷ [])

unmarshal-marshal_server_hello_example :
    Server.unmarshal (Server.marshal server_hello) ≡ ok server_hello
unmarshal-marshal_server_hello_example = unmarshal-marshal_server_hello server_hello (record {
  version_fits = omega arith;
  random_fits = refl;
  session_id_fits = omega arith;
  suite_fits = omega arith;
  extensions_are = ((omega arith, omega arith), tt);
  extensions_fit = omega arith;
})

unmarshal_server_hello-IsReturn_example : IsReturn (Server.unmarshal (2 ∷ 0 ∷ 0 ∷ 9 ∷ 3 ∷ []))
unmarshal_server_hello-IsReturn_example = unmarshal_server_hello-IsReturn (2 ∷ 0 ∷ 0 ∷ 9 ∷ 3 ∷ [])

unmarshal-marshal_encrypted_extensions_example :
    Encrypted.unmarshal (Encrypted.marshal (versions ∷ [])) ≡ ok (versions ∷ [])
unmarshal-marshal_encrypted_extensions_example =
    unmarshal-marshal_encrypted_extensions (versions ∷ []) ((omega arith, omega arith), tt)
      (omega arith)

abbrev verify : CertificateVerifyMsg
verify = record { algorithm = 0x0708; signature = 48 ∷ 2 ∷ 1 ∷ [] }

unmarshal-marshal_certificate_verify_example : Verify.unmarshal (Verify.marshal verify) ≡ ok verify
unmarshal-marshal_certificate_verify_example =
    unmarshal-marshal_certificate_verify verify (omega arith) (omega arith)

-- Eight bytes from the peer make the call panic.
unmarshal-eq-panic_iff_example :
    (Verify.unmarshal (type_certificate_verify ∷ 0 ∷ 0 ∷ 4 ∷ 7 ∷ 8 ∷ 255 ∷ 255 ∷ []) ≡ panic)
    ↔ (65528 ≤ 255 * 256 + 255)
unmarshal-eq-panic_iff_example =
    unmarshal-eq-panic_iff 0 0 4 7 8 255 255 [] (omega arith) (omega arith) (omega arith)

abbrev no_key : List ℕ → Outcome PublicKey
no_key c = err (message "no key")

-- The point of the certificate is too short.
abbrev reader : CertificateReader
reader = record { certificate_key = λ d. none; subject_public_key = λ d. some (4 ∷ 1 ∷ []) }

parse-marshal_certificate_example :
    Chain.parse no_key (
      Chain.marshal
        (record { raw = 48 ∷ 1 ∷ []; chain = (48 ∷ 1 ∷ []) ∷ []; public_key = none })
        (9 ∷ []))
    ≡ ok (record { raw = 48 ∷ 1 ∷ []; chain = (48 ∷ 1 ∷ []) ∷ []; public_key = none })
parse-marshal_certificate_example =
    parse-marshal_certificate no_key (48 ∷ 1 ∷ []) [] none (9 ∷ []) (omega arith, tt) (omega arith)
      (omega arith)

parse_certificate-IsReturn_example : IsReturn (
    Chain.parse
      (parse_sm2_public_key_from_certificate toy_curve reader)
      (11 ∷ 0 ∷ 0 ∷ 10 ∷ 0 ∷ 0 ∷ 0 ∷ 6 ∷ 0 ∷ 0 ∷ 1 ∷ 48 ∷ 0 ∷ 0 ∷ []))
parse_certificate-IsReturn_example =
    parse_certificate-IsReturn toy_curve reader
      (11 ∷ 0 ∷ 0 ∷ 10 ∷ 0 ∷ 0 ∷ 0 ∷ 6 ∷ 0 ∷ 0 ∷ 1 ∷ 48 ∷ 0 ∷ 0 ∷ [])

abbrev schemes : List ℕ
schemes = 0x0708 ∷ 0x0403 ∷ []

marshal_certificate_request_lem_example :
    (body : List ℕ) × (a : Extension) × (b : Extension) × (parse_handshake_message
        (Request.marshal schemes)
      ≡ ok (type_certificate_request, 0 ∷ body, []))
    × (Request.parse (Request.marshal schemes) ≡ ok [])
    × (hello_extensions body ≡ ok (a ∷ b ∷ []))
    × (a.ext_type ≡ 13)
    × (parse_signature_algorithms_extension a.ext_data ≡ ok schemes)
    × (b.ext_type ≡ 50)
    × (parse_signature_algorithms_extension b.ext_data ≡ ok schemes)
marshal_certificate_request_lem_example =
    marshal_certificate_request_lem schemes (omega arith) (omega arith)
      (omega arith, (omega arith, tt))
