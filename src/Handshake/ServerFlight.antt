-- ===== src/Handshake/ServerFlight.antt =====
-- conn.go: what a client has read when the flight of the server ends.
use cnnic_gmtls.Base.{
  ℕ, ◌≡◌, refl, sym, ap, ◌∙◌, List, [], ◌∷◌, ◌++◌, append-nil, Bool, true, false, Outcome, ok, err,
  panic, stuck, message, eof, hello_retry_request, if◌then◌else◌,
}
use cnnic_gmtls.Base.Keeping.{Keeping, Keeping-bind, Keeping-if}
use cnnic_gmtls.Base.Runs.{Runs, Runs-after, Runs-weaken}
use cnnic_gmtls.Extension.{curve_sm2}
use cnnic_gmtls.Handshake.{Library, Config, Conn, is_client, on_layer}
use cnnic_gmtls.Handshake.Auth.{
  server_context, read_encrypted_extensions, read_certificate_tls13, read_certificate_verify_tls13,
  read_finished_tls13, key_of, peer_handshake,
}
use cnnic_gmtls.Handshake.CertificateRead.{
  read_encrypted_extensions-Keeps, CertificateRead, CertificateRead-from, read_certificate-Runs,
}
use cnnic_gmtls.Handshake.ClientHello.{send_client_hello_tls13_with_group}
use cnnic_gmtls.Handshake.HelloKeeps.{Stays-write, send_client_hello-Keeps}
use cnnic_gmtls.Handshake.Keeps.{Stays, Stays-refl, Stays-trans, staying, Extends}
use cnnic_gmtls.Handshake.Proofs.{
  VerifyRead, FinishedRead, read_certificate_verify-Runs, read_finished-Runs,
}
use cnnic_gmtls.Handshake.Run.{retry, or_retry, exchange_hellos, read_server_flight}
use cnnic_gmtls.Handshake.ServerHello.{read_server_hello_tls13}
use cnnic_gmtls.Handshake.ServerHelloKeeps.{read_server_hello-Keeps}
use cnnic_gmtls.Record.{change_cipher_spec}
use cnnic_gmtls.Record.Layer.{write_record}
use cnnic_gmtls.Handshake.ServerProof.{ServerProved, Finishes-for}

module _ (lib : Library) (now : ℕ) where
  retry-Keeps : (s : Conn) → Keeping staying (retry lib now) s
  unfolding retry
  retry-Keeps s =
      Keeping-if staying s s.hello_retry _ _
        (Keeping-bind staying s (on_layer (write_record lib.aead change_cipher_spec (1 ∷ [])) s) _
          (Stays-write lib change_cipher_spec (1 ∷ []) s)
          (λ _ t.
            Keeping-bind staying t (send_client_hello_tls13_with_group lib now t.requested_group t)
              (λ _. read_server_hello_tls13 lib)
              (send_client_hello-Keeps lib now t.requested_group t)
              (λ _ u. read_server_hello-Keeps lib u)))
        (Stays-refl s)

  or_retry-Stays :
      (s : Conn) (r : Outcome (Unit {0}) × Conn)
      → Runs r (Stays s) (λ _. Stays s)
      → Runs (or_retry lib now r) (Stays s) (λ _. Stays s)
  or_retry-Stays s (ok u, t) h = h
  or_retry-Stays s (err eof, t) h = h
  or_retry-Stays s (err (message m), t) h = h
  or_retry-Stays s (panic, t) h = h
  or_retry-Stays s (stuck, t) h = h
  or_retry-Stays s (err hello_retry_request, t) h =
      Runs-weaken (Stays t) (Stays s) (λ _. Stays t) (λ _. Stays s) (retry lib now t)
        (retry-Keeps t) (λ u. Stays-trans h) (λ _ u. Stays-trans h)

  pub exchange_hellos-Keeps : (s : Conn) → Keeping staying (exchange_hellos lib now) s
  unfolding exchange_hellos
  exchange_hellos-Keeps s =
      Keeping-bind staying s (send_client_hello_tls13_with_group lib now curve_sm2 s)
        (λ _ t. or_retry lib now (read_server_hello_tls13 lib t))
        (send_client_hello-Keeps lib now curve_sm2 s)
        (λ _ t. or_retry-Stays t (read_server_hello_tls13 lib t) (read_server_hello-Keeps lib t))

  -- What is kept, and what was proved if the client verifies the server.
  abbrev pub Proved : Conn → Conn → Type 0
  Proved s t =
      Stays s t
      × (s.config.insecure_skip_verify ≡ false
          → is_client s ≡ true
          → ServerProved lib now s.config s.client_server_name t)

  flight-Proved :
      (s u v w : Conn)
      → CertificateRead lib now s u
      → VerifyRead lib server_context u v
      → FinishedRead lib v w
      → Proved s w
  flight-Proved s u v w k l m =
      let there = Stays-trans k.0 l.0.stays in
      (
        Stays-trans there m.0.stays,
        λ secure client_side.
            let of_config = λ (c : Config). c.insecure_skip_verify in
            let (cert, cert_is, valid) = k.1 (rw (secure, client_side) refl) in
            let (key, verify_msg, key_is, verify_at, signed) =
              l.1 (ap of_config k.0.same_config ∙ secure) in
            let (finished_msg, finished_at, finished) =
              m.1 (ap of_config there.same_config ∙ secure) in
            let keys = v.key_material.keys in
            let side : is_client v ≡ true = there.same_layer.same_side ∙ client_side in
            let server_keys : w.key_material.keys.server_handshake ≡ peer_handshake v =
              m.0.same_server
              ∙ sym (
                  ap (λ (b : Bool). if b then keys.server_handshake else keys.client_handshake)
                    side) in
            record {
              cert = cert;
              cert_is = m.0.same_cert ∙ l.0.same_cert ∙ cert_is;
              valid = valid;
              key = key;
              key_is = sym (ap key_of cert_is) ∙ key_is;
              before = u.transcript;
              verify_msg = verify_msg;
              finished_msg = finished_msg;
              after_finished = [];
              transcript_is =
                  finished_at
                  ∙ ap (λ (r : List ℕ). r ++ finished_msg) verify_at
                  ∙ sym (append-nil ((u.transcript ++ verify_msg) ++ finished_msg));
              signed = signed;
              finished = Finishes-for lib server_keys verify_at finished;
            },
      )

  pub read_server_flight-Runs :
      (s : Conn) → Runs (read_server_flight lib now s) (Stays s) (λ _. Proved s)
  unfolding read_server_flight
  read_server_flight-Runs s =
      Runs-after (Stays s) (λ _. Stays s) _ (read_encrypted_extensions lib s) _
        (read_encrypted_extensions-Keeps lib s)
        (λ _ t h.
          Runs-after (Stays s) (λ _. CertificateRead lib now s) _ (read_certificate_tls13 lib now t)
            _
            (Runs-weaken (Stays t) (Stays s) (λ _. CertificateRead lib now t) _
              (read_certificate_tls13 lib now t) (read_certificate-Runs lib now t)
              (λ u. Stays-trans h) (λ _ u. CertificateRead-from lib now s t u h))
            (λ _ u k.
              Runs-after (Stays s) (λ _. VerifyRead lib server_context u) _
                (read_certificate_verify_tls13 lib server_context u) _
                (Runs-weaken (Extends u) (Stays s) (λ _. VerifyRead lib server_context u) _
                  (read_certificate_verify_tls13 lib server_context u)
                  (read_certificate_verify-Runs lib server_context u)
                  (λ v l. Stays-trans k.0 l.stays) (λ _ v l. l))
                (λ _ v l.
                  Runs-weaken (Extends v) (Stays s) (λ _. FinishedRead lib v) _
                    (read_finished_tls13 lib v) (read_finished-Runs lib v)
                    (λ w m. Stays-trans k.0 (Stays-trans l.0.stays m.stays))
                    (λ _ w m. flight-Proved s u v w k l m))))
