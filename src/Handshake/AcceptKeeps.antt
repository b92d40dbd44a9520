-- ===== src/Handshake/AcceptKeeps.antt =====
-- conn.go: the runs of the server's hellos, and their states.
use cnnic_gmtls.Base.{
  ℕ, refl, List, [], ◌∷◌, ◌++◌, Bool, not, ◌&&◌, ◌==◌, ltb, Option, none, some, Outcome, Error, ok,
  message, length,
}
use cnnic_gmtls.Base.State.{Action, after, modify, gets, raise_if, pure, ◌>>=◌, ◌>>◌}
use cnnic_gmtls.Base.Keeping.{Keeping, Keeping-bind, Keeping-lift, Keeping-if, Keeping-raise_if}
use cnnic_gmtls.Base.Runs.{Runs, NotStuck, IsReturn-NotStuck}
use cnnic_gmtls.Extension.{
  Extension, extension_key_share, extension_supported_curves, extension_signature_algorithms,
  extension_alpn, extension_supported_versions, curve_sm2,
}
use cnnic_gmtls.Extension.Alpn.{parse_alpn_extension, parse_alpn-IsReturn}
use cnnic_gmtls.Extension.KeyShare.{
  KeyShareEntry, parse_key_share_client_hello, parse_key_share_client-IsReturn,
}
use cnnic_gmtls.Extension.Uint16List.{
  parse_supported_curves_extension, parse_signature_algorithms_extension,
  parse_supported_versions_client_hello, parse_uint16_list-IsReturn,
  parse_supported_versions-IsReturn,
}
use cnnic_gmtls.Handshake.{Library, Conn, on_layer, on_entropy}
use cnnic_gmtls.Handshake.Accept.{
  Offered, take_extension, take_extensions, choose_parameters, read_client_hello_tls13, answer,
  is_old, cannot_sign, choose_protocol, choose_suite, choose_share, set_shared, keep_private,
  keep_x25519, answer_sm2, answer_x25519, answer_share, send_server_hello_tls13, server_hello,
}
use cnnic_gmtls.Handshake.ClientHello.{curve_x25519, read_random}
use cnnic_gmtls.Handshake.HelloKeeps.{steady, Stays-on_entropy, read_random-NotStuck}
use cnnic_gmtls.Handshake.ServerHelloKeeps.{Stays-if, derive_tls13_keys-Keeps}
use cnnic_gmtls.Handshake.Keeps.{Stays, Stays-refl, staying, Extends→Stays, Keeping-on_layer}
use cnnic_gmtls.Handshake.Outcomes.{
  generate_sm2_key_pair-NotStuck, parse_sm2_public_key-NotStuck,
  derive_sm2_ecdh_shared_secret-NotStuck, generate_x25519_key-NotStuck,
  derive_x25519_shared_secret-NotStuck, new_sm4_gcm_mode-NotStuck,
}
use cnnic_gmtls.Handshake.Secrets.{
  derive_tls13_keys, is_none, new_mode, the_suite, set_out_cipher, set_server_encrypted,
}
use cnnic_gmtls.Handshake.SecretsKeep.{the_suite-NotStuck}
use cnnic_gmtls.Handshake.Send.{send}
use cnnic_gmtls.Handshake.SendKeeps.{send-Keeps}
use cnnic_gmtls.Message.ServerHello as ServerHello
use cnnic_gmtls.Record.{handshake}
use cnnic_gmtls.Message.ClientHello as ClientHello
use cnnic_gmtls.Message.ClientHello.{unmarshal_client_hello-IsReturn}
use cnnic_gmtls.Record.Keeps.{Keeps-refl, Keeps, Reads, read_record-Runs}
use cnnic_gmtls.Base.Runs.{Runs-weaken}
use cnnic_gmtls.Record.Layer.{read_record}
use cnnic_gmtls.Sm2.Keys.{
  generate_sm2_key_pair_for_tls13, parse_sm2_public_key, derive_sm2_ecdh_shared_secret,
}
use cnnic_gmtls.X25519.{generate_x25519_key, derive_x25519_shared_secret}

-- A call and one change of the state, or none, behind it.
call-Keeps :
    {A B : Type 0} (m : Outcome A) (f : A → Action Conn B) (s : Conn)
    → NotStuck m
    → ((a : A) (t : Conn) → Runs (f a t) (Stays t) (λ _. Stays t))
    → Runs (after f (m, s)) (Stays s) (λ _. Stays s)
call-Keeps m f s h k = Keeping-bind staying s (m, s) f (Keeping-lift staying m s h) k

take_extension-Keeps :
    (e : Extension) (o : Offered) (s : Conn) → Keeping staying (take_extension e o) s
unfolding take_extension parse_supported_curves_extension parse_signature_algorithms_extension
take_extension-Keeps e o s =
    Keeping-if staying s (e.ext_type == extension_key_share) _ _
      (call-Keeps (parse_key_share_client_hello e.ext_data) _ s
        (IsReturn-NotStuck (λ _. Unit) _ (parse_key_share_client-IsReturn e.ext_data))
        (λ shares t. Stays-refl t))
      (Keeping-if staying s (e.ext_type == extension_supported_curves) _ _
        (call-Keeps (parse_supported_curves_extension e.ext_data)
          (λ curves. modify (λ s. record s { client_supported_curves = curves }) >> pure o) s
          (IsReturn-NotStuck (λ _. Unit) _ (parse_uint16_list-IsReturn _ _ _ e.ext_data))
          (λ curves t. steady t _ refl refl (Keeps-refl t.wire.layer)))
        (Keeping-if staying s (e.ext_type == extension_signature_algorithms) _ _
          (call-Keeps (parse_signature_algorithms_extension e.ext_data)
            (λ schemes. modify (λ s. record s { client_sig_schemes = schemes }) >> pure o) s
            (IsReturn-NotStuck (λ _. Unit) _ (parse_uint16_list-IsReturn _ _ _ e.ext_data))
            (λ schemes t. steady t _ refl refl (Keeps-refl t.wire.layer)))
          (Keeping-if staying s (e.ext_type == extension_alpn) _ _
            (call-Keeps (parse_alpn_extension e.ext_data)
              (λ protos. modify (λ s. record s { peer_protos = protos }) >> pure o) s
              (IsReturn-NotStuck (λ _. Unit) _ (parse_alpn-IsReturn e.ext_data))
              (λ protos t. steady t _ refl refl (Keeps-refl t.wire.layer)))
            (Keeping-if staying s (e.ext_type == extension_supported_versions) _ _
              (call-Keeps (parse_supported_versions_client_hello e.ext_data) _ s
                (IsReturn-NotStuck (λ _. Unit) _ (parse_supported_versions-IsReturn e.ext_data))
                (λ versions t. Stays-refl t))
              (Stays-refl s)))))

take_extensions-Keeps :
    (es : List Extension) (o : Offered) (s : Conn) → Keeping staying (take_extensions es o) s
unfolding take_extensions
take_extensions-Keeps [] o s = Stays-refl s
take_extensions-Keeps (e ∷ es) o s =
    Keeping-bind staying s (take_extension e o s) (take_extensions es) (take_extension-Keeps e o s)
      (λ o t. take_extensions-Keeps es o t)

choose_protocol-Stays : (s : Conn) → Stays s (choose_protocol s)
choose_protocol-Stays s =
    Stays-if (ltb 0 (length s.config.next_protos) && ltb 0 (length s.peer_protos)) s _ s
      (steady s _ refl refl (Keeps-refl s.wire.layer)) (Stays-refl s)

module _ (lib : Library) where
  choose_rest-Keeps :
      (o : Offered) (s : Conn)
      → Runs
          (after
            (λ _. gets (λ s. is_none s.client_key_share) >>= λ unshared.
              raise_if unshared (message "gmtls: no supported key_share found in ClientHello")
              >> modify choose_protocol)
            (ok tt, choose_share o.key_shares s))
          (Stays s)
          (λ _. Stays s)
  choose_rest-Keeps o s =
      Keeping-bind staying s (ok tt, choose_share o.key_shares s) _
        (steady s _ refl refl (Keeps-refl s.wire.layer))
        (λ _ t.
          Keeping-bind staying t
            (raise_if (is_none t.client_key_share)
              (message "gmtls: no supported key_share found in ClientHello") t)
            (λ _. modify choose_protocol) (Keeping-raise_if staying _ _ t)
            (λ _ u. choose_protocol-Stays u))

  choose_parameters-Keeps :
      (hello : ClientHello.ClientHelloMsg) (o : Offered) (s : Conn)
      → Keeping staying (choose_parameters lib hello o) s
  unfolding choose_parameters
  choose_parameters-Keeps hello o s =
      let refuse = λ (test : Bool) (x : Error) (t : Conn). Keeping-raise_if staying test x t in
      Keeping-bind staying s
        (raise_if (is_old o) (message "gmtls: client does not support TLS 1.3") s) _ (refuse _ _ s)
        (λ _ t.
          Keeping-bind staying t
            (raise_if (cannot_sign t)
              (message "gmtls: client does not support SM2 signature algorithms") t)
            _ (refuse _ _ t)
            (λ _ u.
              Keeping-bind staying u (modify (choose_suite hello.cipher_suites) u) _
                (steady u _ refl refl (Keeps-refl u.wire.layer))
                (λ _ v.
                  Keeping-bind staying v
                    (raise_if (is_none v.cipher_suite)
                      (message "gmtls: no common cipher suite for TLS 1.3") v)
                    _ (refuse _ _ v)
                    (λ _ w.
                      Keeping-bind staying w
                        (raise_if (length o.key_shares == 0)
                          (message "gmtls: missing key_share extension in ClientHello") w)
                        _ (refuse _ _ w) (λ _ x. choose_rest-Keeps o x)))))

  -- The share and the protocol.
  pub read_client_hello-Keeps : (s : Conn) → Keeping staying (read_client_hello_tls13 lib) s
  unfolding read_client_hello_tls13
  read_client_hello-Keeps s =
      let read = read_record lib.aead in
      Keeping-bind staying s (on_layer read s) _
        (Extends→Stays s (on_layer read s) (
          Keeping-on_layer read s (
            Runs-weaken (Keeps s.wire.layer) _ (Reads s.wire.layer) _ (read s.wire.layer)
              (read_record-Runs lib.aead s.wire.layer) (λ t h. h) (λ _ t h. h.0))))
        (λ rec t.
          Keeping-bind staying t
            (raise_if (not (rec.typ == handshake)) (message "gmtls: expected handshake record") t) _
            (Keeping-raise_if staying _ _ t)
            (λ _ u.
              Keeping-bind staying u
                (
                  ok tt,
                  record u {
                    transcript = u.transcript ++ rec.content;
                    client_hello_hash = lib.sm3.hash rec.content;
                  },
                )
                _ (steady u _ refl refl (Keeps-refl u.wire.layer))
                (λ _ v.
                  call-Keeps (ClientHello.unmarshal rec.content) _ v
                    (IsReturn-NotStuck (λ _. Unit) _ (unmarshal_client_hello-IsReturn rec.content))
                    (λ hello w.
                      Keeping-bind staying w
                        (
                          ok tt,
                          record w {
                            client_random = hello.random;
                            session_id = hello.session_id;
                            client_cipher_suites = hello.cipher_suites;
                          },
                        )
                        _ (steady w _ refl refl (Keeps-refl w.wire.layer))
                        (λ _ x.
                          Keeping-bind staying x
                            (take_extensions hello.extensions
                              (record { key_shares = []; supported_versions = [] }) x)
                            (choose_parameters lib hello)
                            (take_extensions-Keeps hello.extensions _ x)
                            (λ o y. choose_parameters-Keeps hello o y))))))

  answer_sm2-Keeps : (peer : List ℕ) (s : Conn) → Keeping staying (answer_sm2 lib peer) s
  answer_sm2-Keeps peer s =
      let generate = generate_sm2_key_pair_for_tls13 lib.curve in
      Keeping-bind staying s (on_entropy generate s) _
        (Stays-on_entropy generate s (generate_sm2_key_pair-NotStuck lib.curve s.entropy))
        (λ r t.
          call-Keeps (parse_sm2_public_key lib.curve peer) _ t
            (parse_sm2_public_key-NotStuck lib.curve peer)
            (λ key u.
              call-Keeps (derive_sm2_ecdh_shared_secret lib.curve r.0 key)
                (λ secret.
                  modify (λ s. set_shared lib secret r.1 (keep_private lib r.0 s))
                  >> pure (record { group = curve_sm2; key_exchange = r.1 }))
                u (derive_sm2_ecdh_shared_secret-NotStuck lib.curve r.0 key)
                (λ secret v. steady v _ refl refl (Keeps-refl v.wire.layer))))

  answer_x25519-Keeps : (peer : List ℕ) (s : Conn) → Keeping staying (answer_x25519 lib peer) s
  answer_x25519-Keeps peer s =
      let generate = generate_x25519_key lib.curve25519 in
      Keeping-bind staying s (on_entropy generate s) _
        (Stays-on_entropy generate s (generate_x25519_key-NotStuck lib.curve25519 s.entropy))
        (λ r t.
          call-Keeps (derive_x25519_shared_secret lib.curve25519 r.0 peer)
            (λ secret.
              modify (λ s. set_shared lib secret r.1 (keep_x25519 lib r.0 s))
              >> pure (record { group = curve_x25519; key_exchange = r.1 }))
            t (derive_x25519_shared_secret-NotStuck lib.curve25519 r.0 peer)
            (λ secret v. steady v _ refl refl (Keeps-refl v.wire.layer)))

  answer-Keeps : (e : Option KeyShareEntry) (s : Conn) → Keeping staying (answer lib e) s
  answer-Keeps none s = Stays-refl s
  answer-Keeps (some e) s =
      Keeping-if staying s (e.group == curve_sm2) _ _ (answer_sm2-Keeps e.key_exchange s) (
        Keeping-if staying s (e.group == curve_x25519) _ _ (answer_x25519-Keeps e.key_exchange s)
          (Stays-refl s))

  pub send_server_hello-Keeps : (s : Conn) → Keeping staying (send_server_hello_tls13 lib) s
  unfolding send_server_hello_tls13 answer_share
  send_server_hello-Keeps s =
      Keeping-bind staying s (on_entropy (read_random 32) s) _
        (Stays-on_entropy (read_random 32) s (read_random-NotStuck 32 s.entropy))
        (λ random t.
          Keeping-bind staying t (ok tt, record t { server_random = random }) _
            (steady t _ refl refl (Keeps-refl t.wire.layer))
            (λ _ u.
              Keeping-bind staying u (answer lib u.client_key_share u) _
                (answer-Keeps u.client_key_share u)
                (λ entry v. call-Keeps (the_suite v) _ v (the_suite-NotStuck v) (λ suite w.
                  let d = ServerHello.marshal (server_hello lib w suite.id entry) in
                  Keeping-bind staying w (send lib d w) _
                    (Extends→Stays w (send lib d w) (send-Keeps lib d w))
                    (λ _ x.
                      Keeping-bind staying x (derive_tls13_keys lib x) _
                        (derive_tls13_keys-Keeps lib x)
                        (λ _ y.
                          call-Keeps (new_mode y.key_material.keys.server_handshake)
                            (λ m. modify (λ s. set_out_cipher m (set_server_encrypted s))) y
                            (new_sm4_gcm_mode-NotStuck _ _)
                            (λ m z. steady z _ refl refl (record {
                              same_side = refl;
                              same_version = refl;
                              same_complete = refl;
                            }))))))))
