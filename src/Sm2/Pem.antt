-- ===== src/Sm2/Pem.antt =====
-- sm2_pem.go: `ParseSM2PublicKeyFromCertificate`.
use cnnic_gmtls.Base.{
  ℕ, arith, List, [], ◌∷◌, not, ◌==◌, length, length-drop, Option, none, some, Outcome, ok, message,
  err, ◌>>=◌, ◌>>◌, fail_if, get_byte, split, IsReturn,
}
use cnnic_gmtls.Sm2.{PublicKey, Curve}
use cnnic_gmtls.Sm2.Bytes.{set_bytes}

-- What the libraries read in a DER certificate: `ParseCertificate` of smx509, if the certificate has
-- an `ecdsa.PublicKey`; and the bits of the SubjectPublicKeyInfo, by `Unmarshal` of encoding/asn1
-- into the structure that the function declares.
pub record CertificateReader : Type 0 where
  pub certificate_key : List ℕ → Option PublicKey
  pub subject_public_key : List ℕ → Option (List ℕ)

module _ (c : Curve) where
  -- The 65 bytes of an uncompressed point; the slices panic where they are out of range.
  unfoldable pub parse_point : List ℕ → Outcome PublicKey
  unfolding get_byte split
  parse_point spk = do
    fail_if (not (length spk == 65)) "gmtls: invalid SM2 public key encoding"
    (format, rest) ← get_byte spk
    fail_if (not (format == 4)) "gmtls: invalid SM2 public key encoding"
    (xs, rest) ← split 32 rest
    (ys, _) ← split 32 rest
    fail_if (not (c.is_on_curve (set_bytes xs) (set_bytes ys))) "gmtls: SM2 public key not on curve"
    ok (record { x = set_bytes xs; y = set_bytes ys })

  abbrev parse_subject : Option (List ℕ) → Outcome PublicKey
  parse_subject none = err (message "asn1: structure error")
  parse_subject (some spk) = parse_point spk

  abbrev first_of : Option PublicKey → Outcome PublicKey → Outcome PublicKey
  first_of none other = other
  first_of (some key) other = ok key

  unfoldable pub parse_sm2_public_key_from_certificate :
      CertificateReader → List ℕ → Outcome PublicKey
  unfolding parse_point
  parse_sm2_public_key_from_certificate reader cert_der =
      first_of (reader.certificate_key cert_der)
        (parse_subject (reader.subject_public_key cert_der))

  parse_point-IsReturn : (spk : List ℕ) → IsReturn (parse_point spk)
  unfolding parse_point
  parse_point-IsReturn [] = ground arith
  parse_point-IsReturn (b ∷ bs) = ground (arith, length-drop 32 bs)

  parse_subject-IsReturn : (s : Option (List ℕ)) → IsReturn (parse_subject s)
  parse_subject-IsReturn none = tt
  parse_subject-IsReturn (some spk) = parse_point-IsReturn spk

  first_of-IsReturn :
      (k : Option PublicKey) (m : Outcome PublicKey) → IsReturn m → IsReturn (first_of k m)
  first_of-IsReturn none m h = h
  first_of-IsReturn (some key) m h = tt

  -- No certificate makes the reading of its key panic.
  pub parse_key-IsReturn :
      (reader : CertificateReader) (d : List ℕ)
      → IsReturn (parse_sm2_public_key_from_certificate reader d)
  unfolding parse_sm2_public_key_from_certificate
  parse_key-IsReturn reader d =
      first_of-IsReturn (reader.certificate_key d) _
        (parse_subject-IsReturn (reader.subject_public_key d))
