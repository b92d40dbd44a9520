-- ===== src/Handshake/ServerSafety.antt =====
-- conn.go: the state at the end of a server's handshake.
use mathlib.Core.Path.{subst}
use cnnic_gmtls.Base.{
  ℕ, ◌≡◌, refl, sym, ap, ◌∙◌, List, [], true, false, not, ◌||◌, if◌then◌else◌, ok,
}
use cnnic_gmtls.Base.Keeping.{Keeping, Keeping-bind, Keeping-if, Keeping-from}
use cnnic_gmtls.Base.Runs.{Runs, Runs-after, Runs-weaken}
use cnnic_gmtls.Handshake.{Library, Config, Conn, is_client, handshake_complete, on_entropy}
use cnnic_gmtls.Handshake.AcceptKeeps.{read_client_hello-Keeps, send_server_hello-Keeps}
use cnnic_gmtls.Handshake.Accept.{read_client_hello_tls13, send_server_hello_tls13}
use cnnic_gmtls.Handshake.ClientHello.{read_random}
use cnnic_gmtls.Handshake.HelloKeeps.{steady, Stays-on_entropy, read_random-NotStuck}
use cnnic_gmtls.Handshake.Keeps.{
  Stays, Stays-trans, staying, extending, Extends, Extends-refl, Extends→Stays,
}
use cnnic_gmtls.Handshake.Run.{
  complete, finish, requests_certificate, send_server_flight, start_server_reading,
  read_client_flight, server_handshake_tls13, new_conn, server,
}
use cnnic_gmtls.Handshake.Secrets.{is_none}
use cnnic_gmtls.Handshake.SecretsKeep.{start_server_reading-Keeps, finish-Runs}
use cnnic_gmtls.Handshake.Send.{
  send_encrypted_extensions, send_certificate_request_tls13, send_certificate_tls13,
  send_certificate_verify_tls13,
}
use cnnic_gmtls.Handshake.SendKeeps.{
  send_encrypted_extensions-Keeps, send_certificate_request-Keeps, send_certificate-Keeps,
  send_certificate_verify-Keeps, send_finished-Keeps,
}
use cnnic_gmtls.Record.Keeps.{Keeps-refl}
use cnnic_gmtls.Record.Layer.{NetConn}
use cnnic_gmtls.Handshake.ClientProof.{ClientProved, ClientProved-complete}
use cnnic_gmtls.Handshake.ClientFlight.{ProvedBy, read_client_flight-Runs}

module _ (lib : Library) (now : ℕ) where
  request-Keeps :
      (s : Conn)
      → Runs
          (if requests_certificate lib now s
            then send_certificate_request_tls13 lib s
            else (ok tt, s))
          (Extends s)
          (λ _. Extends s)
  request-Keeps s =
      Keeping-if extending s (requests_certificate lib now s) _ _
        (send_certificate_request-Keeps lib s) (Extends-refl s)

  send_server_flight-Keeps : (s : Conn) → Keeping staying (send_server_flight lib now) s
  unfolding send_server_flight
  send_server_flight-Keeps s =
      Keeping-bind staying s (send_server_hello_tls13 lib s) _ (send_server_hello-Keeps lib s)
        (λ _ t. Extends→Stays t _ (
          Keeping-bind extending t (send_encrypted_extensions lib t) _
            (send_encrypted_extensions-Keeps lib t)
            (λ _ u.
              Keeping-bind extending u
                (if requests_certificate lib now u
                  then send_certificate_request_tls13 lib u
                  else (ok tt, u))
                _ (request-Keeps u)
                (λ _ v.
                  Keeping-bind extending v (send_certificate_tls13 lib v) _
                    (send_certificate-Keeps lib v)
                    (λ _ w.
                      Keeping-bind extending w (send_certificate_verify_tls13 lib w) _
                        (send_certificate_verify-Keeps lib w)
                        (λ _ x. send_finished-Keeps lib x))))))

  abbrev Completed : Conn → Conn → Type 0
  Completed s t =
      (handshake_complete t ≡ true)
      × (s.config.insecure_skip_verify ≡ false
          → is_client s ≡ false
          → requests_certificate lib now s ≡ true
          → ClientProved lib now s.config t)

  Completed-from :
      (s t u w : Conn)
      → Stays s t
      → ProvedBy lib now t u
      → Extends u w
      → (t' : Conn) → t' ≡ complete w
      → Completed s t'
  Completed-from s t u w h p l t' e = (
    ap handshake_complete e,
    λ secure server_side asked.
        let same = ap (λ (c : Config). c.insecure_skip_verify) h.same_config in
        let asks =
          ap (λ (c : Config). c.require_client_cert || not (is_none c.client_cas)) h.same_config in
        let proof = p.1 (same ∙ secure) (h.same_layer.same_side ∙ server_side) (asks ∙ asked) in
        subst (λ (x : Conn). ClientProved lib now s.config x) (sym e)
          (ClientProved-complete lib now s.config u w l
            (subst (λ (c : Config). ClientProved lib now c u) h.same_config proof)),
  )

  server_handshake-Runs :
      (s : Conn) → Runs (server_handshake_tls13 lib now s) (Stays s) (λ _. Completed s)
  unfolding server_handshake_tls13
  server_handshake-Runs s =
      let s' : Conn = record s { transcript = [] } in
      let start : Stays s s' = steady s s' refl refl (Keeps-refl s.wire.layer) in
      Runs-after (Stays s) (λ _. Stays s) _ (read_client_hello_tls13 lib s') _
        (Keeping-from staying s s' _ start (read_client_hello-Keeps lib s'))
        (λ _ t h.
          Runs-after (Stays s) (λ _. Stays s) _ (send_server_flight lib now t) _
            (Keeping-from staying s t _ h (send_server_flight-Keeps t))
            (λ _ u k.
              Runs-after (Stays s) (λ _. Stays s) _ (start_server_reading u) _
                (Keeping-from staying s u _ k
                  (Extends→Stays u _ (start_server_reading-Keeps lib now u)))
                (λ _ v l.
                  Runs-after (Stays s) (λ _. ProvedBy lib now v) _ (read_client_flight lib now v) _
                    (Runs-weaken (Stays v) (Stays s) (λ _. ProvedBy lib now v) _
                      (read_client_flight lib now v) (read_client_flight-Runs lib now v)
                      (λ w. Stays-trans l) (λ _ w p. p))
                    (λ _ w p.
                      Runs-weaken (Extends w) (Stays s) _ _ (finish lib now w)
                        (finish-Runs lib now w) (λ x m. Stays-trans l (Stays-trans p.0 m.stays))
                        (λ _ t' r. Completed-from s v w r.0 l p r.1 t' r.2)))))

  server-Completed :
      (net : NetConn) (config : Config) (entropy : List ℕ)
      → Runs
          (server lib now net config entropy)
          (λ t. handshake_complete t ≡ false)
          (λ _. Completed (new_conn false net config entropy))
  unfolding server
  server-Completed net config entropy =
      let s = new_conn false net config entropy in
      let incomplete : (t : Conn) → Stays s t → handshake_complete t ≡ false =
        λ t h. unfold new_conn in h.same_layer.same_complete in
      Runs-after (λ t. handshake_complete t ≡ false) (λ _. Stays s) _
        (on_entropy (read_random 32) s) _
        (Runs-weaken (Stays s) _ (λ _. Stays s) _ (on_entropy (read_random 32) s)
          (Stays-on_entropy (read_random 32) s (read_random-NotStuck 32 s.entropy)) incomplete
          (λ _ t h. h))
        (λ random t h.
          let t' : Conn = record t { server_random = random } in
          let there : Stays s t' =
            Stays-trans h (steady t t' refl refl (Keeps-refl t.wire.layer)) in
          Runs-weaken (Stays t') _ (λ _. Completed t') _ (server_handshake_tls13 lib now t')
            (server_handshake-Runs t') (λ u k. incomplete u (Stays-trans there k))
            (λ _ u k. (
              k.0,
              λ secure server_side asked.
                  let config_is : t'.config ≡ s.config = there.same_config in
                  subst (λ (c : Config). ClientProved lib now c u) config_is
                    (k.1 (ap (λ (c : Config). c.insecure_skip_verify) config_is ∙ secure)
                      (there.same_layer.same_side ∙ server_side)
                      (ap (λ (c : Config). c.require_client_cert || not (is_none c.client_cas))
                          config_is
                        ∙ asked)),
            )))

  -- `Server` comes to an end whatever the peer sends. If it returns an error, the handshake is not
  -- complete; if it returns a connection, the handshake is complete.
  pub server-Runs :
      (net : NetConn) (config : Config) (entropy : List ℕ)
      → Runs
          (server lib now net config entropy)
          (λ t. handshake_complete t ≡ false)
          (λ _ t. handshake_complete t ≡ true)
  server-Runs net config entropy =
      Runs-weaken _ _ _ _ (server lib now net config entropy) (server-Completed net config entropy)
        (λ t h. h) (λ _ t h. h.0)

  -- A connection that `Server` returns without `InsecureSkipVerify`, where the configuration asks
  -- for a certificate of the client (`RequireClientCert` or `ClientCAs`), has the proof of the client
  -- in its transcript: the certificate of the connection passed the configuration's checks, its own
  -- key verifies the signature of the CertificateVerify message over the transcript before it, and
  -- the Finished message behind it has the MAC of the transcript under the client's handshake
  -- traffic secret.
  pub server-ClientProved :
      (net : NetConn) (config : Config) (entropy : List ℕ)
      → config.insecure_skip_verify ≡ false
      → (config.require_client_cert || not (is_none config.client_cas)) ≡ true
      → Runs
          (server lib now net config entropy)
          (λ t. handshake_complete t ≡ false)
          (λ _ t. (handshake_complete t ≡ true) × ClientProved lib now config t)
  server-ClientProved net config entropy secure asks =
      Runs-weaken _ _ _ _ (server lib now net config entropy) (server-Completed net config entropy)
        (λ t h. h) (λ _ t h. (h.0, unfold new_conn in (h.1 secure refl asks)))
