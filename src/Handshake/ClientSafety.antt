-- ===== src/Handshake/ClientSafety.antt =====
-- conn.go: the state at the end of a client's handshake.
use cnnic_gmtls.Base.{ℕ, ◌≡◌, refl, sym, ap, ◌∙◌, List, [], true, false}
use mathlib.Core.Path.{subst}
use cnnic_gmtls.Base.Runs.{Runs, Runs-after, Runs-weaken}
use cnnic_gmtls.Handshake.{Library, Config, Conn, is_client, handshake_complete, on_entropy}
use cnnic_gmtls.Handshake.ClientHello.{read_random}
use cnnic_gmtls.Handshake.HelloKeeps.{steady, Stays-on_entropy, read_random-NotStuck}
use cnnic_gmtls.Handshake.Keeps.{Stays, Stays-trans, Extends, Extends-trans}
use cnnic_gmtls.Handshake.Run.{
  exchange_hellos, read_server_flight, send_client_flight, finish, complete, client_handshake_tls13,
  new_conn, client,
}
use cnnic_gmtls.Handshake.SecretsKeep.{send_client_flight-Keeps, finish-Runs}
use cnnic_gmtls.Record.Keeps.{Keeps-refl}
use cnnic_gmtls.Record.Layer.{NetConn}
use cnnic_gmtls.Handshake.ServerProof.{
  ServerProved, ServerProved-later, ServerProved-complete, ServerProved-for,
}
use cnnic_gmtls.Handshake.ServerFlight.{exchange_hellos-Keeps, Proved, read_server_flight-Runs}

module _ (lib : Library) (now : ℕ) where
  -- The handshake of a client ends: an error leaves it incomplete, and success makes it complete
  -- with what the server proved.
  abbrev Completed : Conn → Conn → Type 0
  Completed s t =
      (handshake_complete t ≡ true)
      × (s.config.insecure_skip_verify ≡ false
          → is_client s ≡ true
          → ServerProved lib now s.config s.client_server_name t)

  finish-Completed :
      (s t u w t' : Conn)
      → Stays s t
      → Proved lib now t u
      → Extends u w
      → t' ≡ complete w
      → Completed s t'
  finish-Completed s t u w t' h p l e = (
    ap handshake_complete e,
    λ secure client_side.
        let proof =
          p.1 (ap (λ (c : Config). c.insecure_skip_verify) h.same_config ∙ secure)
            (h.same_layer.same_side ∙ client_side) in
        subst (λ (x : Conn). ServerProved lib now s.config s.client_server_name x) (sym e)
          (ServerProved-complete lib now s.config s.client_server_name w (
            ServerProved-for lib now h.same_config h.same_name
              (ServerProved-later lib now t.config t.client_server_name u w l proof))),
  )

  Completed-from : (s t u : Conn) → Stays s t → Completed t u → Completed s u
  Completed-from s t u h k = (
    k.0,
    λ secure client_side. ServerProved-for lib now h.same_config h.same_name (
        k.1 (ap (λ (c : Config). c.insecure_skip_verify) h.same_config ∙ secure)
          (h.same_layer.same_side ∙ client_side)),
  )

  client_handshake-Runs :
      (s : Conn) → Runs (client_handshake_tls13 lib now s) (Stays s) (λ _. Completed s)
  unfolding client_handshake_tls13
  client_handshake-Runs s =
      let s' : Conn = record s { transcript = [] } in
      let start : Stays s s' = steady s s' refl refl (Keeps-refl s.wire.layer) in
      Runs-after (Stays s) (λ _. Stays s) _ (exchange_hellos lib now s') _
        (Runs-weaken (Stays s') (Stays s) (λ _. Stays s') _ (exchange_hellos lib now s')
          (exchange_hellos-Keeps lib now s') (λ t. Stays-trans start) (λ _ t. Stays-trans start))
        (λ _ t h.
          Runs-after (Stays s) (λ _ u. Stays s u × Proved lib now t u) _
            (read_server_flight lib now t) _
            (Runs-weaken (Stays t) (Stays s) (λ _. Proved lib now t) _
              (read_server_flight lib now t) (read_server_flight-Runs lib now t)
              (λ u. Stays-trans h) (λ _ u p. (Stays-trans h p.0, p)))
            (λ _ u p.
              Runs-after (Stays s) (λ _. Extends u) _ (send_client_flight lib now u) _
                (Runs-weaken (Extends u) (Stays s) (λ _. Extends u) _ (send_client_flight lib now u)
                  (send_client_flight-Keeps lib now u) (λ v l. Stays-trans p.0 l.stays)
                  (λ _ v l. l))
                (λ _ v l.
                  Runs-weaken (Extends v) (Stays s) _ _ (finish lib now v) (finish-Runs lib now v)
                    (λ w m. Stays-trans p.0 (Extends-trans l m).stays)
                    (λ _ t' r. finish-Completed s t u r.0 t' h p.1 (Extends-trans l r.1) r.2))))

  client-Completed :
      (net : NetConn) (config : Config) (entropy : List ℕ)
      → Runs
          (client lib now net config entropy)
          (λ t. handshake_complete t ≡ false)
          (λ _. Completed (new_conn true net config entropy))
  unfolding client
  client-Completed net config entropy =
      let s = new_conn true net config entropy in
      let incomplete : (t : Conn) → Stays s t → handshake_complete t ≡ false =
        λ t h. unfold new_conn in h.same_layer.same_complete in
      Runs-after (λ t. handshake_complete t ≡ false) (λ _. Stays s) _
        (on_entropy (read_random 32) s) _
        (Runs-weaken (Stays s) _ (λ _. Stays s) _ (on_entropy (read_random 32) s)
          (Stays-on_entropy (read_random 32) s (read_random-NotStuck 32 s.entropy)) incomplete
          (λ _ t h. h))
        (λ random t h.
          let t' : Conn = record t { client_random = random } in
          let there : Stays s t' =
            Stays-trans h (steady t t' refl refl (Keeps-refl t.wire.layer)) in
          Runs-weaken (Stays t') _ (λ _. Completed t') _ (client_handshake_tls13 lib now t')
            (client_handshake-Runs t') (λ u k. incomplete u (Stays-trans there k))
            (λ _ u k. Completed-from s t' u there k))

  -- `Client` comes to an end whatever the peer sends. If it returns an error, the handshake is not
  -- complete; if it returns a connection, the handshake is complete.
  pub client-Runs :
      (net : NetConn) (config : Config) (entropy : List ℕ)
      → Runs
          (client lib now net config entropy)
          (λ t. handshake_complete t ≡ false)
          (λ _ t. handshake_complete t ≡ true)
  client-Runs net config entropy =
      Runs-weaken _ _ _ _ (client lib now net config entropy) (client-Completed net config entropy)
        (λ t h. h) (λ _ t h. h.0)

  -- A connection that `Client` returns without `InsecureSkipVerify` has the proof of the server in
  -- its transcript: the certificate of the connection is valid for the configuration, its own key
  -- verifies the signature of the CertificateVerify message over the transcript before it, with the
  -- algorithm sm2sig_sm3, and the Finished message behind it has the MAC of the transcript under
  -- the server's handshake traffic secret.
  pub client-ServerProved :
      (net : NetConn) (config : Config) (entropy : List ℕ)
      → config.insecure_skip_verify ≡ false
      → Runs
          (client lib now net config entropy)
          (λ t. handshake_complete t ≡ false)
          (λ _ t. (handshake_complete t ≡ true) × ServerProved lib now config config.server_name t)
  client-ServerProved net config entropy secure =
      Runs-weaken _ _ _ _ (client lib now net config entropy) (client-Completed net config entropy)
        (λ t h. h) (λ _ t h. (h.0, unfold new_conn in (h.1 secure refl)))
