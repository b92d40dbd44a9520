-- ===== src/Message/Certificate.antt =====
-- tls13_cert.go: `marshalCertificateTLS13` and `parseCertificateTLS13`.
use cnnic_gmtls.Base.{
  ℕ, zero, suc, ◌+◌, ◌-◌, ◌≤◌, ◌<◌, ◌≡◌, refl, ◌∙◌, arith, List, [], ◌∷◌, ◌++◌, not, ltb, ◌==◌,
  if◌then◌else◌, length, length-append, All, take, replicate, Option, none, some, Outcome, ok, err,
  stuck, ◌>>=◌, ◌>>◌, fail_if, fail, IsReturn, Returns, Returns-bind, Returns-need,
  take-eq_of_length_le, put_uint24, get_byte, get_uint16, get_uint24, split, split-Returns,
  take-append, drop-append, get_uint24-Returns, get_uint16-Returns,
}
use cnnic_gmtls.Base.{Bool-cases, inl, inr}
use cnnic_gmtls.Message.{type_certificate}
use cnnic_gmtls.Sm2.{PublicKey, Curve}
use cnnic_gmtls.Sm2.Pem.{
  CertificateReader, parse_sm2_public_key_from_certificate, parse_key-IsReturn,
}

-- `Certificate` of conn.go. A raw certificate of no bytes stands for nil, a chain of no
-- certificates too.
pub record Certificate : Type 0 where
  pub raw : List ℕ
  pub chain : List (List ℕ)
  pub public_key : Option PublicKey

abbrev pub no_certificate : Certificate
no_certificate = record { raw = []; chain = []; public_key = none }

-- The certificates that are sent: the chain, or the one raw certificate.
abbrev pub cert_list : Certificate → List (List ℕ)
cert_list c = elim c.chain [
  | [] ↦ elim c.raw [ [] ↦ [] | b ∷ bs ↦ (b ∷ bs) ∷ [] ]
  | d ∷ ds ↦ d ∷ ds
]

-- Each certificate with its length, and no extensions.
abbrev pub put_certificates : List (List ℕ) → List ℕ
put_certificates [] = []
put_certificates (c ∷ cs) = put_uint24 (length c) ++ (c ++ (0 ∷ 0 ∷ put_certificates cs))

-- A context of more than 255 bytes is cut to 255 after the length of the message is computed, so
-- zeros stand behind the list.
unfoldable pub marshal : Certificate → List ℕ → List ℕ
marshal cert context =
    let entries = put_certificates (cert_list cert) in
    let sent = take 255 context in
    type_certificate
    ∷ (put_uint24 (1 + length context + 3 + length entries)
        ++ (length sent
            ∷ (sent
                ++ (put_uint24 (length entries)
                    ++ (entries ++ replicate (length context - length sent) 0)))))

-- One round of the loop `for off < entriesEnd`, the cursor ending at `entriesEnd`.
unfoldable pub parse_certificate_entry : List ℕ → Outcome (List ℕ × List ℕ)
parse_certificate_entry rest = do
  fail_if (ltb (length rest) 3) "gmtls: invalid Certificate entry length"
  (cert_len, rest) ← get_uint24 rest
  fail_if (ltb (length rest) (cert_len + 2)) "gmtls: invalid Certificate entry"
  (cert, rest) ← split cert_len rest
  (ext_len, rest) ← get_uint16 rest
  fail_if (ltb (length rest) ext_len) "gmtls: invalid Certificate extensions"
  (_, rest) ← split ext_len rest
  ok (cert, rest)

unfoldable pub parse_certificates : ℕ → List ℕ → Outcome (List (List ℕ))
parse_certificates fuel [] = ok []
parse_certificates zero (b ∷ bs) = stuck
parse_certificates (suc fuel) (b ∷ bs) = do
  (cert, rest) ← parse_certificate_entry (b ∷ bs)
  chain ← parse_certificates fuel rest
  ok (cert ∷ chain)

-- The key of the leaf; an error leaves it nil.
abbrev pub key_or_nil : Outcome PublicKey → Outcome (Option PublicKey)
key_or_nil (ok k) = ok (some k)
key_or_nil (err e) = ok none
key_or_nil Outcome.panic = Outcome.panic
key_or_nil stuck = stuck

module _ (parse_key : List ℕ → Outcome PublicKey) where
  pub of_chain : List (List ℕ) → Outcome Certificate
  of_chain [] = fail "gmtls: empty Certificate list"
  of_chain (c ∷ cs) =
      key_or_nil (parse_key c) >>= λ k. ok (record { raw = c; chain = c ∷ cs; public_key = k })

  -- `parseCertificateTLS13`, behind the type byte.
  pub parse_list : List ℕ → Outcome Certificate
  unfolding get_byte
  parse_list rest = do
    (ctx_len, rest) ← get_byte rest
    fail_if (ltb (length rest) (ctx_len + 3)) "gmtls: invalid Certificate context"
    (_, rest) ← split ctx_len rest
    (list_len, rest) ← get_uint24 rest
    fail_if (ltb (length rest) list_len) "gmtls: invalid Certificate list length"
    if list_len == 0 then ok no_certificate else do
      (entries, _) ← split list_len rest
      chain ← parse_certificates (length entries) entries
      of_chain chain

  unfoldable pub parse : List ℕ → Outcome Certificate
  unfolding get_byte split
  parse data' = do
    fail_if (ltb (length data') 4) "gmtls: not a Certificate"
    (t, rest) ← get_byte data'
    fail_if (not (t == type_certificate)) "gmtls: not a Certificate"
    fail_if (ltb (length data') 5) "gmtls: invalid Certificate"
    (_, rest) ← split 3 rest
    parse_list rest

abbrev pub IsCertificate : List ℕ → Type 0
IsCertificate c = length c < 16777216

parse_certificate_entry-put :
    (c rest : List ℕ)
    → IsCertificate c
    → parse_certificate_entry (put_uint24 (length c) ++ (c ++ (0 ∷ 0 ∷ rest))) ≡ ok (c, rest)
unfolding parse_certificate_entry get_uint16 get_uint24 split
parse_certificate_entry-put c rest h =
    let tail : List ℕ = 0 ∷ 0 ∷ rest in
    ground (arith, length-append c tail, take-append c tail, drop-append c tail)

parse_certificates-put :
    (cs : List (List ℕ)) (fuel : ℕ)
    → All IsCertificate cs
    → length (put_certificates cs) ≤ fuel
    → parse_certificates fuel (put_certificates cs) ≡ ok cs
unfolding parse_certificates
parse_certificates-put [] fuel h f = refl
parse_certificates-put (c ∷ cs) zero h f = absurd (omega arith)
parse_certificates-put (c ∷ cs) (suc fuel) h f =
    rw (parse_certificate_entry-put c (put_certificates cs) h.0) (
      rw (
        parse_certificates-put cs fuel h.1
          (omega (arith, length-append c (0 ∷ 0 ∷ put_certificates cs)))))

parse_certificate_entry-Returns :
    (d : List ℕ) → Returns (parse_certificate_entry d) (λ r. length r.1 + 5 ≤ length d)
unfolding parse_certificate_entry
parse_certificate_entry-Returns d = Returns-need _ (length d) 3 _ _ (λ e.
    Returns-bind _ _ (get_uint24 d) _ (get_uint24-Returns d e) (λ q hq.
      Returns-need _ (length q.1) (q.0 + 2) _ _ (λ f.
        Returns-bind _ _ (split q.0 q.1) _ (split-Returns q.0 q.1 (omega arith)) (λ c hc.
          Returns-bind _ _ (get_uint16 c.1) _ (get_uint16-Returns c.1 (omega arith)) (λ x hx.
            Returns-need _ (length x.1) x.0 _ _ (λ g.
              Returns-bind _ _ (split x.0 x.1) _ (split-Returns x.0 x.1 g)
                (λ y hy. omega arith)))))))

parse_certificates-IsReturn :
    (fuel : ℕ) (d : List ℕ) → length d ≤ fuel → IsReturn (parse_certificates fuel d)
unfolding parse_certificates
parse_certificates-IsReturn fuel [] h = tt
parse_certificates-IsReturn zero (a ∷ d) h = absurd (omega arith)
parse_certificates-IsReturn (suc fuel) (a ∷ d) h =
    Returns-bind _ _ (parse_certificate_entry (a ∷ d)) _ (parse_certificate_entry-Returns (a ∷ d))
      (λ r p.
        Returns-bind (λ _. Unit) _ (parse_certificates fuel r.1) _
          (parse_certificates-IsReturn fuel r.1 (omega arith)) (λ _ _. tt))

module _ (parse_key : List ℕ → Outcome PublicKey) where
  parse_list-put :
      (c : List ℕ) (cs : List (List ℕ)) (context rest : List ℕ)
      → All IsCertificate (c ∷ cs)
      → length (put_certificates (c ∷ cs)) < 16777216
      → parse_list parse_key (
          length context
          ∷ (context
              ++ (put_uint24 (length (put_certificates (c ∷ cs)))
                  ++ (put_certificates (c ∷ cs) ++ rest))))
        ≡ of_chain parse_key (c ∷ cs)
  unfolding parse_list split get_uint24
  parse_list-put c cs context rest h l =
      let entries = put_certificates (c ∷ cs) in
      let after : List ℕ = put_uint24 (length entries) ++ (entries ++ rest) in
      ground (
        arith,
        length-append context after,
        take-append context after,
        drop-append context after,
        length-append entries rest,
        take-append entries rest,
        drop-append entries rest,
        parse_certificates-put (c ∷ cs) (length entries) h,
      )

  parse_header :
      (n : ℕ) (rest : List ℕ)
      → 1 ≤ length rest
      → parse parse_key (type_certificate ∷ (put_uint24 n ++ rest)) ≡ parse_list parse_key rest
  unfolding parse
  parse_header n rest h = ground arith

  -- A chain of at least one certificate that fits the 24-bit lengths is read back, sent with a
  -- context of at most 255 bytes: the leaf becomes the raw certificate, and the key is the one
  -- parsed from the leaf, or nil if there is an error.
  pub parse-marshal_certificate :
      (c : List ℕ) (cs : List (List ℕ)) (k : Option PublicKey) (context : List ℕ)
      → All IsCertificate (c ∷ cs)
      → length (put_certificates (c ∷ cs)) < 16777216
      → length context ≤ 255
      → parse parse_key (marshal (record { raw = c; chain = c ∷ cs; public_key = k }) context) ≡ (
          key_or_nil (parse_key c) >>= λ key.
          ok (record { raw = c; chain = c ∷ cs; public_key = key }))
  unfolding marshal of_chain
  parse-marshal_certificate c cs k context h l n = rw (take-eq_of_length_le 255 context n) (
      parse_header _ _ (omega arith)
      ∙ parse_list-put c cs context (replicate (length context - length context) 0) h l)

key_or_nil-IsReturn : (m : Outcome PublicKey) → IsReturn m → IsReturn (key_or_nil m)
key_or_nil-IsReturn (ok k) h = tt
key_or_nil-IsReturn (err e) h = tt
key_or_nil-IsReturn Outcome.panic h = elim h [ ]
key_or_nil-IsReturn stuck h = elim h [ ]

module _ (parse_key : List ℕ → Outcome PublicKey)
    (total : (d : List ℕ) → IsReturn (parse_key d)) where
  of_chain-IsReturn : (cs : List (List ℕ)) → IsReturn (of_chain parse_key cs)
  unfolding of_chain
  of_chain-IsReturn [] = tt
  of_chain-IsReturn (c ∷ cs) =
      Returns-bind (λ _. Unit) _ (key_or_nil (parse_key c)) _ (key_or_nil-IsReturn _ (total c))
        (λ _ _. tt)

  parse_list-IsReturn : (n : ℕ) (d : List ℕ) → IsReturn (parse_list parse_key (n ∷ d))
  unfolding parse_list
  parse_list-IsReturn n d = Returns-need _ (length d) (n + 3) _ _ (λ e.
      Returns-bind _ _ (split n d) _ (split-Returns n d (omega arith)) (λ r p.
        Returns-bind _ _ (get_uint24 r.1) _ (get_uint24-Returns r.1 (omega arith)) (λ q _.
          Returns-need _ (length q.1) q.0 _ _ (λ f. elim (Bool-cases (q.0 == 0)) [
            | inl z ↦ rw z tt
            | inr z ↦ rw z (
                Returns-bind _ _ (split q.0 q.1) _ (split-Returns q.0 q.1 f) (λ s _.
                  Returns-bind (λ _. Unit) _ (parse_certificates (length s.0) s.0) _
                    (parse_certificates-IsReturn (length s.0) s.0 (omega arith))
                    (λ cs _. of_chain-IsReturn cs)))
          ]))))

  parse-IsReturn : (d : List ℕ) → IsReturn (parse parse_key d)
  unfolding parse
  parse-IsReturn [] = tt
  parse-IsReturn (a ∷ []) = tt
  parse-IsReturn (a ∷ b ∷ []) = tt
  parse-IsReturn (a ∷ b ∷ c ∷ []) = tt
  parse-IsReturn (a ∷ b ∷ c ∷ e ∷ []) = ground arith
  parse-IsReturn (a ∷ b ∷ c ∷ e ∷ f ∷ d) = ground (arith, parse_list-IsReturn f d)

-- No bytes make the reading of a Certificate message panic, with the key of the leaf read by
-- `ParseSM2PublicKeyFromCertificate`, and its loop ends.
pub parse_certificate-IsReturn :
    (c : Curve) (reader : CertificateReader) (d : List ℕ)
    → IsReturn (parse (parse_sm2_public_key_from_certificate c reader) d)
parse_certificate-IsReturn c reader d =
    parse-IsReturn (parse_sm2_public_key_from_certificate c reader) (parse_key-IsReturn c reader) d
