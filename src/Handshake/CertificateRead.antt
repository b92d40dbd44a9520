-- ===== src/Handshake/CertificateRead.antt =====
-- conn.go: the runs of `readEncryptedExtensions` and of `readCertificateTLS13`, and their states.
use cnnic_gmtls.Base.{
  ℕ, zero, suc, ◌<◌, ◌≡◌, refl, sym, ap, ◌∙◌, arith, List, [], ◌∷◌, Bool, true, not, ◌&&◌, ◌==◌,
  ltb, some, ok, err, message, length, get_or,
}
use cnnic_gmtls.Base.State.{Action, after, modify}
use cnnic_gmtls.Base.Keeping.{
  Preorder, Keeping, Keeping-bind, Keeping-lift, Keeping-if, Keeping-from,
}
use cnnic_gmtls.Base.Runs.{
  Runs-when, Runs, Runs-after, Runs-lift, Runs-if, Runs-weaken, Runs-into, NotStuck,
  IsReturn-NotStuck,
}
use cnnic_gmtls.Extension.{Extension, extension_alpn}
use cnnic_gmtls.Extension.Alpn.{parse_alpn_extension, parse_alpn-IsReturn}
use cnnic_gmtls.Handshake.{Library, Config, Conn, Wire, add_to_transcript, is_client}
use cnnic_gmtls.Handshake.Auth.{
  read_key, read_msg, accept_protocol, accept_extension, accept_extensions,
  read_encrypted_extensions, take_request, take_certificate, verifies_server, read_certificate_loop,
  read_certificate_tls13,
}
use cnnic_gmtls.Handshake.HelloKeeps.{steady}
use cnnic_gmtls.Handshake.Keeps.{Stays, Stays-refl, Stays-trans, staying}
use cnnic_gmtls.Handshake.Messages.{size, KeepsWire, MessageRead, read_tls13_handshake_msg-Runs}
use cnnic_gmtls.Handshake.Outcomes.{
  unmarshal_encrypted_extensions-NotStuck, verify_peer_certificate-NotStuck,
}
use cnnic_gmtls.Handshake.Reading.{read_tls13_handshake_msg}
use cnnic_gmtls.Handshake.Verify.{verify_server_certificate}
use cnnic_gmtls.Message.{type_certificate_request, type_certificate}
use cnnic_gmtls.Message.Certificate as CertificateMsg
use cnnic_gmtls.Message.Certificate.{Certificate, parse_certificate-IsReturn}
use cnnic_gmtls.Message.CertificateRequest as CertificateRequestMsg
use cnnic_gmtls.Message.CertificateRequest.{parse_certificate_request-IsReturn}
use cnnic_gmtls.Message.EncryptedExtensions as EncryptedExtensions
use cnnic_gmtls.Suite.Selection.{contains_string}
use cnnic_gmtls.Record.Keeps.{Keeps-refl}

-- A step that reads nothing.
abbrev still : Preorder Conn
still = record {
  rel = λ s t. Stays s t × (t.wire ≡ s.wire);
  rel_refl = λ s. (Stays-refl s, refl);
  rel_trans = λ h k. (Stays-trans h.0 k.0, k.1 ∙ h.1);
}

module _ (lib : Library) where
  verify_server-NotStuck :
      (now : ℕ) (config : Config) (name : List ℕ) (cert : Certificate)
      → NotStuck (verify_server_certificate lib.x509 now config name cert)
  unfolding verify_server_certificate
  verify_server-NotStuck now config name cert =
      verify_peer_certificate-NotStuck lib.x509 now cert _ _ _

  -- A message, and what follows it.
  pub Stays-read_msg :
      {B : Type 0} (s : Conn) (Q : B → Conn → Type 0) (f : List ℕ → Action Conn B)
      → ((msg : List ℕ) (w : Wire)
          → MessageRead s.wire msg w
          → Runs (f msg (record s { wire = w })) (Stays s) Q)
      → Runs (after f (read_msg lib s)) (Stays s) Q
  Stays-read_msg s Q f k =
      Runs-into (KeepsWire s.wire) (MessageRead s.wire) (Stays s) Q (λ w. record s { wire = w })
        (read_tls13_handshake_msg lib.aead s.wire) f (read_tls13_handshake_msg-Runs lib.aead s.wire)
        (λ w h. steady s (record s { wire = w }) refl refl h) k

  accept_protocol-Keeps :
      (ps : List (List ℕ)) (s : Conn) → Keeping staying (accept_protocol lib ps) s
  unfolding accept_protocol
  accept_protocol-Keeps [] s = Stays-refl s
  accept_protocol-Keeps (p ∷ []) s =
      let chosen : Conn = record s { negotiated_proto = p } in
      Keeping-if staying s (ltb 0 (length s.peer_protos) && not (contains_string s.peer_protos p))
        (err (message "gmtls: server selected unsupported ALPN protocol %q"), s) (ok tt, chosen)
        (Stays-refl s) (steady s chosen refl refl (Keeps-refl s.wire.layer))
  accept_protocol-Keeps (p ∷ q ∷ ps) s = Stays-refl s

  accept_extension-Keeps : (e : Extension) (s : Conn) → Keeping staying (accept_extension lib e) s
  unfolding accept_extension
  accept_extension-Keeps e s =
      let m = parse_alpn_extension e.ext_data in
      Keeping-if staying s (e.ext_type == extension_alpn) _ _
        (Keeping-bind staying s (m, s) (accept_protocol lib)
          (Keeping-lift staying m s
            (IsReturn-NotStuck (λ _. Unit) m (parse_alpn-IsReturn e.ext_data)))
          (λ ps t. accept_protocol-Keeps ps t))
        (Stays-refl s)

  accept_extensions-Keeps :
      (es : List Extension) (s : Conn) → Keeping staying (accept_extensions lib es) s
  unfolding accept_extensions
  accept_extensions-Keeps [] s = Stays-refl s
  accept_extensions-Keeps (e ∷ es) s =
      Keeping-bind staying s (accept_extension lib e s) (λ _. accept_extensions lib es)
        (accept_extension-Keeps e s) (λ _ t. accept_extensions-Keeps es t)

  pub read_encrypted_extensions-Keeps :
      (s : Conn) → Keeping staying (read_encrypted_extensions lib) s
  unfolding read_encrypted_extensions
  read_encrypted_extensions-Keeps s =
      Stays-read_msg s (λ _. Stays s) _
        (λ msg w h.
          let t : Conn = record s { wire = w } in
          let m = EncryptedExtensions.unmarshal msg in
          Keeping-from staying s t _ (steady s t refl refl h.0) (
            Keeping-bind staying t (m, t) _
              (Keeping-lift staying m t (unmarshal_encrypted_extensions-NotStuck msg))
              (λ exts u.
                Keeping-bind staying u (accept_extensions lib exts u)
                  (λ _. modify (add_to_transcript msg)) (accept_extensions-Keeps exts u)
                  (λ _ v. steady v _ refl refl (Keeps-refl v.wire.layer)))))

  -- What is known when the server's certificate was read.
  abbrev pub CertificateVerified : ℕ → Conn → Conn → Type 0
  CertificateVerified now s t =
      (cert : Certificate) × (t.peer_cert ≡ some cert)
      × (verify_server_certificate lib.x509 now s.config s.client_server_name cert ≡ ok tt)

  abbrev pub CertificateRead : ℕ → Conn → Conn → Type 0
  CertificateRead now s t = Stays s t × (verifies_server lib s ≡ true → CertificateVerified now s t)

  take_certificate-Runs :
      (now : ℕ) (msg : List ℕ) (s : Conn)
      → Runs (take_certificate lib now msg s) (Stays s) (λ _. CertificateRead now s)
  unfolding take_certificate
  take_certificate-Runs now msg s =
      let m = CertificateMsg.parse (read_key lib) msg in
      Runs-lift (Stays s) _ m s _
        (IsReturn-NotStuck (λ _. Unit) m (parse_certificate-IsReturn lib.curve lib.x509.reader msg))
        (Stays-refl s)
        (λ cert parses.
          let t : Conn = record s { peer_cert = some cert } in
          let same : Stays s t = steady s t refl refl (Keeps-refl s.wire.layer) in
          let check = verify_server_certificate lib.x509 now s.config s.client_server_name cert in
          Runs-when (Stays s) _ (verifies_server lib s) check t _
            (verify_server-NotStuck now s.config s.client_server_name cert) same
            (λ proof. (
              steady s (add_to_transcript msg t) refl refl (Keeps-refl s.wire.layer),
              λ verifies. (cert, refl, proof verifies),
            )))

  take_request-Keeps : (msg : List ℕ) (s : Conn) → Keeping still (take_request lib msg) s
  unfolding take_request
  take_request-Keeps msg s =
      let t : Conn = record s { client_cert_requested = true } in
      let m = CertificateRequestMsg.parse msg in
      Keeping-bind still s (ok tt, t) _ (steady s t refl refl (Keeps-refl s.wire.layer), refl)
        (λ _ t.
          Keeping-bind still t (m, t)
            (λ context.
              modify (λ u. add_to_transcript msg (record u { cert_req_context = context })))
            (Keeping-lift still m t
              (IsReturn-NotStuck (λ _. Unit) m (parse_certificate_request-IsReturn msg)))
            (λ context u. (steady u _ refl refl (Keeps-refl u.wire.layer), refl)))

  same_verifies : (s t : Conn) → Stays s t → verifies_server lib t ≡ verifies_server lib s
  same_verifies s t h =
      ap (λ (c : Config). not c.insecure_skip_verify && is_client t) h.same_config
      ∙ ap (λ (b : Bool). not s.config.insecure_skip_verify && b) h.same_layer.same_side

  -- What was verified in a later state of the same configuration.
  pub CertificateRead-from :
      (now : ℕ) (s t u : Conn) → Stays s t → CertificateRead now t u → CertificateRead now s u
  CertificateRead-from now s t u h k = (
    Stays-trans h k.0,
    λ verifies.
        let (cert, cert_is, valid) = k.1 (same_verifies s t h ∙ verifies) in
        (
          cert,
          cert_is,
          sym (
                ap
                  (λ (c : Config).
                    verify_server_certificate lib.x509 now c t.client_server_name cert)
                  h.same_config
                ∙ ap (λ (n : List ℕ). verify_server_certificate lib.x509 now s.config n cert)
                    h.same_name)
              ∙ valid,
        ),
  )

  -- The requests and the certificate fit the fuel: each message takes its header off what is left.
  read_certificate_loop-Runs :
      (now fuel : ℕ) (s : Conn)
      → size s.wire < fuel
      → Runs (read_certificate_loop lib now fuel s) (Stays s) (λ _. CertificateRead now s)
  unfolding read_certificate_loop
  read_certificate_loop-Runs now zero s h = absurd (omega arith)
  read_certificate_loop-Runs now (suc fuel) s h =
      Stays-read_msg s (λ _. CertificateRead now s) _
        (λ msg w k.
          let t : Conn = record s { wire = w } in
          let there : Stays s t = steady s t refl refl k.0 in
          let typ = get_or msg 0 0 in
          let l = k.2 in
          let lt : size w < fuel = omega arith in
          Runs-if (Stays s) _ (typ == type_certificate_request) _ _
            (λ _.
              Runs-after (Stays s) (λ _ u. Stays t u × (u.wire ≡ w)) _ (take_request lib msg t)
                (λ _. read_certificate_loop lib now fuel)
                (Runs-weaken (still.rel t) (Stays s) (λ _. still.rel t) _ (take_request lib msg t)
                  (take_request-Keeps msg t) (λ u r. Stays-trans there r.0) (λ _ u r. r))
                (λ _ u r.
                  let e = ap size r.1 in
                  let here = Stays-trans there r.0 in
                  Runs-weaken (Stays u) (Stays s) (λ _. CertificateRead now u) _
                    (read_certificate_loop lib now fuel u)
                    (read_certificate_loop-Runs now fuel u (omega (arith, e)))
                    (λ v. Stays-trans here) (λ _ v. CertificateRead-from now s u v here)))
            (λ _.
              Runs-if (Stays s) _ (typ == type_certificate) _ _
                (λ _.
                  Runs-weaken (Stays t) (Stays s) (λ _. CertificateRead now t) _
                    (take_certificate lib now msg t) (take_certificate-Runs now msg t)
                    (λ u. Stays-trans there) (λ _ u. CertificateRead-from now s t u there))
                (λ _. there)))

  pub read_certificate-Runs :
      (now : ℕ) (s : Conn)
      → Runs (read_certificate_tls13 lib now s) (Stays s) (λ _. CertificateRead now s)
  unfolding read_certificate_tls13
  read_certificate-Runs now s = read_certificate_loop-Runs now (suc (size s.wire)) s (omega arith)
