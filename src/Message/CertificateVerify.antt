-- ===== src/Message/CertificateVerify.antt =====
-- handshake.go: `certificateVerifyMsg`. Its bounds are computed in uint16, and wrap.
use cnnic_gmtls.Base.{
  ℕ, ◌+◌, ◌-◌, ◌*◌, ◌%◌, ◌≤◌, ◌<◌, ◌≡◌, ◌↔◌, arith, List, [], ◌∷◌, ◌++◌, not, ltb, ◌==◌, ◌||◌,
  if◌then◌else◌, length, append-nil, Outcome, ok, panic, ◌>>=◌, ◌>>◌, fail_if, IsReturn, IsByte,
  IsUint16, put_uint16, put_uint24, get_byte, get_uint16, split, take, take-append,
}
use cnnic_gmtls.Message.{type_certificate_verify}

pub record CertificateVerifyMsg : Type 0 where
  pub algorithm : ℕ
  pub signature : List ℕ

abbrev certificate_verify_body : CertificateVerifyMsg → List ℕ
certificate_verify_body m =
    put_uint16 m.algorithm ++ (put_uint16 (length m.signature) ++ m.signature)

unfoldable pub marshal : CertificateVerifyMsg → List ℕ
marshal m =
    let body = certificate_verify_body m in
    type_certificate_verify ∷ (put_uint24 (length body) ++ body)

-- `data[8:high]`, with the cursor behind the eight bytes.
unfoldable pub slice_from_8 : ℕ → List ℕ → Outcome (List ℕ)
slice_from_8 high rest =
    if ltb high 8 || ltb (8 + length rest) high then panic else ok (take (high - 8) rest)

unfoldable pub unmarshal : List ℕ → Outcome CertificateVerifyMsg
unfolding get_byte get_uint16 split slice_from_8
unmarshal data' = do
  (t, rest) ← get_byte data'
  fail_if (not (t == type_certificate_verify)) "gmtls: not a CertificateVerify"
  fail_if (ltb (length data') 8) "gmtls: invalid CertificateVerify"
  (_, rest) ← split 3 rest
  (algorithm, rest) ← get_uint16 rest
  (sig_len, rest) ← get_uint16 rest
  let high = (8 + sig_len) % 65536
  fail_if (ltb (length data' % 65536) high) "gmtls: invalid signature length"
  signature ← slice_from_8 high rest
  ok (record { algorithm = algorithm; signature = signature })

-- `unmarshal` reads back a signature of up to 65527 bytes, and its 16-bit algorithm.
pub unmarshal-marshal_certificate_verify :
    (m : CertificateVerifyMsg)
    → IsUint16 m.algorithm
    → length m.signature < 65528
    → unmarshal (marshal m) ≡ ok m
unfolding unmarshal marshal
unmarshal-marshal_certificate_verify m a l =
    ground (arith, append-nil m.signature, take-append m.signature [])

-- On a message of the right type that is shorter than 65536 bytes, `unmarshal` panics exactly if
-- the length field of the signature is 65528 or more: there `8 + sigLen` wraps below 8, which
-- passes the test against the length.
pub unmarshal-eq-panic_iff :
    (x y z a b s s' : ℕ) (rest : List ℕ)
    → IsByte s
    → IsByte s'
    → length rest < 65528
    → (unmarshal (type_certificate_verify ∷ x ∷ y ∷ z ∷ a ∷ b ∷ s ∷ s' ∷ rest) ≡ panic)
      ↔ (65528 ≤ s * 256 + s')
unfolding unmarshal
unmarshal-eq-panic_iff x y z a b s s' rest h h' l = (λ p. ground arith, λ p. ground arith)

-- A message shorter than 65536 bytes whose signature length is below 65528 is taken or refused.
pub unmarshal_certificate_verify-IsReturn :
    (x y z a b s s' : ℕ) (rest : List ℕ)
    → IsByte s
    → IsByte s'
    → length rest < 65528
    → s * 256 + s' < 65528
    → IsReturn (unmarshal (type_certificate_verify ∷ x ∷ y ∷ z ∷ a ∷ b ∷ s ∷ s' ∷ rest))
unfolding unmarshal
unmarshal_certificate_verify-IsReturn x y z a b s s' rest h h' l k = ground arith
