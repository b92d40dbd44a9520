-- ===== src/Handshake/ClientFlight.antt =====
-- conn.go: what a server has read when the flight of the client ends.

use cnnic_gmtls.Base.{
  ℕ, ◌≡◌, refl, sym, ap, ◌∙◌, arith, List, [], ◌++◌, append-nil, Bool, true, false, not, ◌&&◌, ◌==◌,
  ltb, if◌then◌else◌, Option, none, some, ok, length, get_or,
}
use cnnic_gmtls.Base.State.{◌>>◌}
use cnnic_gmtls.Base.Runs.{
  Runs, Runs-after, Runs-weaken, Runs-lift, Runs-guard, Runs-if, NotStuck, NotStuck-ok,
  NotStuck-err, NotStuck-if, IsReturn-NotStuck,
}
use cnnic_gmtls.Handshake.{Library, Config, Conn, add_to_transcript, is_client}
use cnnic_gmtls.Handshake.Auth.{
  read_key, client_context, check_pool, check_client_certificate, read_client_certificate_tls13,
  read_certificate_verify_tls13, read_finished_tls13, key_of, peer_handshake,
}
use cnnic_gmtls.Handshake.CertificateRead.{Stays-read_msg}
use cnnic_gmtls.Handshake.ServerProof.{Finishes-for}
use cnnic_gmtls.Handshake.HelloKeeps.{steady}
use cnnic_gmtls.Handshake.Keeps.{Stays, Stays-refl, Stays-trans, Extends}
use cnnic_gmtls.Handshake.Outcomes.{verify_peer_certificate-NotStuck}
use cnnic_gmtls.Handshake.Proofs.{
  VerifyRead, FinishedRead, read_certificate_verify-Runs, read_finished-Runs,
}
use cnnic_gmtls.Handshake.Run.{requests_certificate, read_client_flight}
use cnnic_gmtls.Handshake.Verify.{client_auth, verify_client_certificate}
use cnnic_gmtls.Message.{type_certificate}
use cnnic_gmtls.Message.Certificate as CertificateMsg
use cnnic_gmtls.Message.Certificate.{Certificate, parse_certificate-IsReturn}
use cnnic_gmtls.Handshake.ClientProof.{ClientProved}

module _ (lib : Library) (now : ℕ) where
  check_pool-NotStuck :
      (config : Config) (cert : Certificate) (p : Option ℕ)
      → NotStuck (check_pool lib now config cert p)
  unfolding verify_client_certificate
  check_pool-NotStuck config cert none = NotStuck-ok tt
  check_pool-NotStuck config cert (some p) =
      NotStuck-if (not config.insecure_skip_verify && ltb 0 (length cert.raw)) _ _
        (verify_peer_certificate-NotStuck lib.x509 now cert config.client_cas client_auth [])
        (NotStuck-ok tt)

  check_client-NotStuck :
      (config : Config) (cert : Certificate)
      → NotStuck (check_client_certificate lib now config cert)
  unfolding check_client_certificate
  check_client-NotStuck config cert =
      NotStuck-if (config.require_client_cert && not (ltb 0 (length cert.raw))) _ _
        (NotStuck-err _ _) (check_pool-NotStuck config cert config.client_cas)

  -- What is known when the client's certificate was read.
  abbrev ClientCertificateRead : Conn → Conn → Type 0
  ClientCertificateRead s t =
      Stays s t
      × ((cert : Certificate) × (t.peer_cert ≡ some cert)
          × (check_client_certificate lib now s.config cert ≡ ok tt))

  read_client_certificate-Runs :
      (s : Conn)
      → Runs (read_client_certificate_tls13 lib now s) (Stays s) (λ _. ClientCertificateRead s)
  unfolding read_client_certificate_tls13
  read_client_certificate-Runs s =
      Stays-read_msg lib s (λ _. ClientCertificateRead s) _
        (λ msg w h.
          let t : Conn = record s { wire = w } in
          let same : Stays s t = steady s t refl refl h.0 in
          let m = CertificateMsg.parse (read_key lib) msg in
          Runs-guard (Stays s) _ (not (get_or msg 0 0 == type_certificate)) _ t _ same (λ _.
            Runs-lift (Stays s) _ m t _
              (IsReturn-NotStuck (λ _. Unit) m
                (parse_certificate-IsReturn lib.curve lib.x509.reader msg))
              same
              (λ cert parses.
                let u : Conn = record t { peer_cert = some cert } in
                let there : Stays s u = steady s u refl refl h.0 in
                Runs-lift (Stays s) _ (check_client_certificate lib now s.config cert) u _
                  (check_client-NotStuck s.config cert) there
                  (λ _ checked.
                    (steady s (add_to_transcript msg u) refl refl h.0, (cert, refl, checked))))))

  -- The certificate and the signature of the client.
  abbrev Shown : Conn → Conn → Type 0
  Shown s t = (u : Conn) × ClientCertificateRead s u × VerifyRead lib client_context u t

  abbrev Asked : Conn → Conn → Type 0
  Asked s t = Stays s t × (requests_certificate lib now s ≡ true → Shown s t)

  read_requested-Runs :
      (s : Conn)
      → Runs
          (if requests_certificate lib now s
            then (read_client_certificate_tls13 lib now
                  >> read_certificate_verify_tls13 lib client_context)
                s
            else (ok tt, s))
          (Stays s)
          (λ _. Asked s)
  read_requested-Runs s =
      Runs-if (Stays s) (λ _. Asked s) (requests_certificate lib now s) _ _
        (λ _.
          Runs-after (Stays s) (λ _. ClientCertificateRead s) _
            (read_client_certificate_tls13 lib now s) _ (read_client_certificate-Runs s)
            (λ _ u k.
              Runs-weaken (Extends u) (Stays s) (λ _. VerifyRead lib client_context u) _
                (read_certificate_verify_tls13 lib client_context u)
                (read_certificate_verify-Runs lib client_context u) (λ t l. Stays-trans k.0 l.stays)
                (λ _ t l. (Stays-trans k.0 l.0.stays, λ _. (u, k, l)))))
        (λ no. (Stays-refl s, λ yes. absurd (ground (arith, no, yes))))

  -- What was proved if the server verifies the client.
  abbrev pub ProvedBy : Conn → Conn → Type 0
  ProvedBy s t =
      Stays s t
      × (s.config.insecure_skip_verify ≡ false
          → is_client s ≡ false
          → requests_certificate lib now s ≡ true
          → ClientProved lib now s.config t)

  flight-ProvedBy : (s v w : Conn) → Asked s v → FinishedRead lib v w → ProvedBy s w
  flight-ProvedBy s v w a m = (
    Stays-trans a.0 m.0.stays,
    λ secure server_side asked.
        let of_config = λ (c : Config). c.insecure_skip_verify in
        let (u, k, l) = a.1 asked in
        let (cert, cert_is, checked) = k.1 in
        let (key, verify_msg, key_is, verify_at, signed) =
          l.1 (ap of_config k.0.same_config ∙ secure) in
        let (finished_msg, finished_at, finished) = m.1 (ap of_config a.0.same_config ∙ secure) in
        let keys = v.key_material.keys in
        let side : is_client v ≡ false = a.0.same_layer.same_side ∙ server_side in
        let client_keys : w.key_material.keys.client_handshake ≡ peer_handshake v =
          m.0.same_client
          ∙ sym (
              ap (λ (b : Bool). if b then keys.server_handshake else keys.client_handshake) side) in
        record {
          cert = cert;
          cert_is = m.0.same_cert ∙ l.0.same_cert ∙ cert_is;
          checked = checked;
          key = key;
          key_is = sym (ap key_of cert_is) ∙ key_is;
          before = u.transcript;
          verify_msg = verify_msg;
          finished_msg = finished_msg;
          transcript_is = (
            [],
            finished_at
                ∙ ap (λ (r : List ℕ). r ++ finished_msg) verify_at
                ∙ sym (append-nil ((u.transcript ++ verify_msg) ++ finished_msg)),
          );
          signed = signed;
          finished = Finishes-for lib client_keys verify_at finished;
        },
  )

  pub read_client_flight-Runs :
      (s : Conn) → Runs (read_client_flight lib now s) (Stays s) (λ _. ProvedBy s)
  unfolding read_client_flight
  read_client_flight-Runs s =
      Runs-after (Stays s) (λ _. Asked s) _
        (if requests_certificate lib now s
          then (read_client_certificate_tls13 lib now
                >> read_certificate_verify_tls13 lib client_context)
              s
          else (ok tt, s))
        _ (read_requested-Runs s)
        (λ _ v a.
          Runs-weaken (Extends v) (Stays s) (λ _. FinishedRead lib v) _ (read_finished_tls13 lib v)
            (read_finished-Runs lib v) (λ w m. Stays-trans a.0 m.stays)
            (λ _ w m. flight-ProvedBy s v w a m))
