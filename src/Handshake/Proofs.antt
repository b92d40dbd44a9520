-- ===== src/Handshake/Proofs.antt =====
-- conn.go: reading CertificateVerify and Finished, and the transcript behind them.
use cnnic_gmtls.Base.{
  ℕ, ◌≡◌, refl, sym, ap, ◌∙◌, arith, List, ◌++◌, Bool, true, false, not, ◌==◌, if◌then◌else◌,
  Option, none, some, Outcome, ok, err, panic, stuck, Bool-cases, inl, inr, bytes_equal,
  bytes_equal→eq, ==→eq,
}
use cnnic_gmtls.Base.State.{Action, after, modify}
use cnnic_gmtls.Base.Keeping.{Preorder, Keeping-bind, Keeping-lift}
use cnnic_gmtls.Base.Runs.{
  Runs, Runs-lift, Runs-guard, Runs-weaken, Runs-into, NotStuck, Yields, Yields-weaken, Runs-unless,
}
use cnnic_gmtls.Handshake.{Library, Conn, Wire, add_to_transcript, is_client}
use cnnic_gmtls.Handshake.Auth.{
  read_msg, verified, check_with, compare, keep_finished_hash, cert_verify_signed, peer_key,
  peer_handshake, check_signature, check_finished, read_certificate_verify_tls13,
  read_finished_tls13, restart_reading,
}
use cnnic_gmtls.Handshake.Keeps.{Extends, Extends-refl, Extends-trans, unchanged}
use cnnic_gmtls.Handshake.Reading.{read_tls13_handshake_msg}
use cnnic_gmtls.Handshake.Messages.{KeepsWire, MessageRead, read_tls13_handshake_msg-Runs}
use cnnic_gmtls.Handshake.Outcomes.{
  unmarshal_certificate_verify-NotStuck, unmarshal_finished-NotStuck,
  sm2_tls13_verify_with_id-NotStuck, derive_finished_key-NotStuck, new_sm4_gcm_mode-NotStuck,
}
use cnnic_gmtls.Handshake.SendKeeps.{Extends-add_to_transcript, Extends-update_layer}
use cnnic_gmtls.Handshake.Secrets.{
  new_mode, update_layer, set_in_cipher, set_server_encrypted, set_client_encrypted,
}
use cnnic_gmtls.Record.Keeps.{Keeps, Keeps-refl}
use cnnic_gmtls.Extension.{sm2_sm3}
use cnnic_gmtls.Message.CertificateVerify as CertificateVerify
use cnnic_gmtls.Message.Finished as Finished
use cnnic_gmtls.Schedule.Material.{TrafficKeys}
use cnnic_gmtls.Record.Layer.{RecordLayer}
use cnnic_gmtls.Schedule.Keys.{derive_finished_key, verify_data_tls13}
use cnnic_gmtls.Sm2.{PublicKey}
use cnnic_gmtls.Sm2.Signing.{handshake_id, sm2_tls13_verify_with_id}

-- A CertificateVerify message with the peer's signature, under the key of its own certificate, over
-- the transcript before the message.
pub record Signed (lib : Library) (context : List ℕ) (key : PublicKey) (before msg : List ℕ)
    : Type 0 where
  pub parsed : CertificateVerify.CertificateVerifyMsg
  pub parses : CertificateVerify.unmarshal msg ≡ ok parsed
  pub algorithm_is : parsed.algorithm ≡ sm2_sm3
  pub verifies :
      sm2_tls13_verify_with_id lib.curve key
        (cert_verify_signed context (lib.sm3.hash before))
        parsed.signature
        handshake_id
      ≡ ok true

-- A Finished message with the MAC of the transcript before it.
pub record Finishes (lib : Library) (secret before msg : List ℕ) : Type 0 where
  pub finished_key : List ℕ
  pub key_is : derive_finished_key lib.sm3 secret ≡ ok finished_key
  pub parses :
      Finished.unmarshal msg ≡ ok (verify_data_tls13 lib.sm3 finished_key (lib.sm3.hash before))

verified-Yields : (m : Outcome Bool) → NotStuck m → Yields (verified m) (λ _. m ≡ ok true)
unfolding NotStuck
verified-Yields (ok true) h = refl
verified-Yields (ok false) h = tt
verified-Yields (err x) h = tt
verified-Yields panic h = tt
verified-Yields stuck h = h

not-false : (b : Bool) → not b ≡ false → b ≡ true
not-false true h = refl
not-false false h = ground arith

-- A step that adds nothing to the transcript.
record Holds (s t : Conn) : Type 0 where
  extends : Extends s t
  same_transcript : t.transcript ≡ s.transcript

holding : Preorder Conn
holding = record {
  rel = Holds;
  rel_refl = λ s. record { extends = Extends-refl s; same_transcript = refl };
  rel_trans = λ h k. record {
    extends = Extends-trans h.extends k.extends;
    same_transcript = k.same_transcript ∙ h.same_transcript;
  };
}

Holds-update_layer :
    (f : RecordLayer → RecordLayer) (s : Conn)
    → Keeps s.wire.layer (f s.wire.layer)
    → Holds s (update_layer f s)
Holds-update_layer f s k = record { extends = Extends-update_layer f s k; same_transcript = refl }

Holds-if : (test : Bool) (s t u : Conn) → Holds s t → Holds s u → Holds s (if test then t else u)
Holds-if true s t u h k = h
Holds-if false s t u h k = k

-- The cipher for reading takes no part in what is kept.
restart_reading-Holds : (s : Conn) → Runs (restart_reading s) (Holds s) (λ _. Holds s)
unfolding restart_reading holding
restart_reading-Holds s =
    Keeping-bind holding s
      (ok tt, if is_client s then set_server_encrypted s else set_client_encrypted s) _
      (Holds-if (is_client s) s _ _
        (Holds-update_layer (λ l. record l { server_encrypted = true }) s
          (record { same_side = refl; same_version = refl; same_complete = refl }))
        (Holds-update_layer (λ l. record l { client_encrypted = true }) s
          (record { same_side = refl; same_version = refl; same_complete = refl })))
      (λ _ t.
        Keeping-bind holding t (new_mode (peer_handshake t), t) (λ m. modify (set_in_cipher m))
          (Keeping-lift holding (new_mode (peer_handshake t)) t (new_sm4_gcm_mode-NotStuck _ _))
          (λ m u.
            Holds-update_layer (λ l. record l { in_cipher = some m }) u
              (record { same_side = refl; same_version = refl; same_complete = refl })))

module _ (lib : Library) where
  -- A message, and what follows it.
  pub read_msg-then :
      {B : Type 0} (s : Conn) (Q : B → Conn → Type 0) (f : List ℕ → Action Conn B)
      → ((msg : List ℕ) (w : Wire)
          → KeepsWire s.wire w
          → Runs (f msg (record s { wire = w })) (Extends s) Q)
      → Runs (after f (read_msg lib s)) (Extends s) Q
  read_msg-then s Q f k =
      Runs-into (KeepsWire s.wire) (MessageRead s.wire) (Extends s) Q (λ w. record s { wire = w })
        (read_tls13_handshake_msg lib.aead s.wire) f (read_tls13_handshake_msg-Runs lib.aead s.wire)
        (λ w h. unchanged s (record s { wire = w }) refl refl h refl refl refl refl)
        (λ msg w h. k msg w h.0)

  check_with-Yields :
      (context hash signature : List ℕ) (k : Option PublicKey)
      → Yields (check_with lib context hash signature k) (λ _.
        (key : PublicKey) × (k ≡ some key)
        × (sm2_tls13_verify_with_id lib.curve key
              (cert_verify_signed context hash)
              signature
              handshake_id
            ≡ ok true))
  check_with-Yields context hash signature none = tt
  check_with-Yields context hash signature (some key) =
      let m =
        sm2_tls13_verify_with_id lib.curve key (cert_verify_signed context hash) signature
          handshake_id in
      Yields-weaken (λ _. m ≡ ok true) _ (verified m)
        (verified-Yields m (sm2_tls13_verify_with_id-NotStuck lib.curve key _ _ _))
        (λ _ e. (key, refl, e))

  compare-Yields :
      (verify_data : List ℕ) (s : Conn) (m : Outcome (List ℕ))
      → NotStuck m
      → Yields (compare lib verify_data s m) (λ _.
        (finished_key : List ℕ) × (m ≡ ok finished_key)
        × (verify_data ≡ verify_data_tls13 lib.sm3 finished_key (lib.sm3.hash s.transcript)))
  unfolding NotStuck
  compare-Yields verify_data s (err x) h = tt
  compare-Yields verify_data s panic h = tt
  compare-Yields verify_data s stuck h = h
  compare-Yields verify_data s (ok key) h =
      let expected = verify_data_tls13 lib.sm3 key (lib.sm3.hash s.transcript) in
      elim (Bool-cases (bytes_equal verify_data expected)) [
        | inl e ↦ rw e (key, refl, bytes_equal→eq verify_data expected e)
        | inr e ↦ rw e tt
      ]

  -- What is known when the CertificateVerify of the peer was read.
  abbrev pub VerifyRead : List ℕ → Conn → Conn → Type 0
  VerifyRead context s t =
      Extends s t
      × (s.config.insecure_skip_verify ≡ false
          → (key : PublicKey) × (msg : List ℕ) × (peer_key s ≡ some key)
            × (t.transcript ≡ s.transcript ++ msg)
            × Signed lib context key s.transcript msg)

  pub read_certificate_verify-Runs :
      (context : List ℕ) (s : Conn)
      → Runs (read_certificate_verify_tls13 lib context s) (Extends s) (λ _. VerifyRead context s)
  unfolding read_certificate_verify_tls13 check_signature
  read_certificate_verify-Runs context s =
      read_msg-then s (λ _. VerifyRead context s) _
        (λ msg w k.
          let t = record s { wire = w } in
          let same : Extends s t = unchanged s t refl refl k refl refl refl refl in
          Runs-lift (Extends s) _ (CertificateVerify.unmarshal msg) t _
            (unmarshal_certificate_verify-NotStuck msg) same
            (λ m parses.
              Runs-guard (Extends s) _ (not (m.algorithm == sm2_sm3)) _ t _ same (λ algorithm.
                Runs-unless (Extends s) _ _ s.config.insecure_skip_verify _ t _
                  (check_with-Yields context (lib.sm3.hash s.transcript) m.signature (peer_key s))
                  same
                  (λ proof. (
                    Extends-trans same (Extends-add_to_transcript msg t),
                    λ secure.
                        let (key, key_is, verifies) = proof secure in
                        (
                          key,
                          msg,
                          key_is,
                          refl,
                          record {
                            parsed = m;
                            parses = parses;
                            algorithm_is = ==→eq m.algorithm sm2_sm3 (not-false _ algorithm);
                            verifies = verifies;
                          },
                        ),
                  )))))

  -- What is known when the Finished of the peer was read.
  abbrev pub FinishedRead : Conn → Conn → Type 0
  FinishedRead s t =
      Extends s t
      × (s.config.insecure_skip_verify ≡ false
          → (msg : List ℕ) × (t.transcript ≡ s.transcript ++ msg)
            × Finishes lib (peer_handshake s).secret s.transcript msg)

  keep_finished_Holds : (s : Conn) → Holds s (keep_finished_hash lib s)
  keep_finished_Holds s = record {
    extends =
        unchanged s (record s { server_finished_hash = lib.sm3.hash s.transcript }) refl refl
          (Keeps-refl s.wire.layer) refl refl refl refl;
    same_transcript = refl;
  }

  -- The keys of the other side, after a message was read.
  same_peer_handshake :
      (s : Conn) (w : Wire)
      → KeepsWire s.wire w
      → peer_handshake (record s { wire = w }) ≡ peer_handshake s
  same_peer_handshake s w k =
      let keys = s.key_material.keys in
      ap (λ (b : Bool). if b then keys.server_handshake else keys.client_handshake) k.same_side

  -- The end of `readFinishedTLS13`, behind the check.
  after_check :
      (s : Conn) (msg verify_data : List ℕ) (w : Wire)
      → KeepsWire s.wire w
      → Finished.unmarshal msg ≡ ok verify_data
      → (s.config.insecure_skip_verify ≡ false
          → (key : List ℕ) × (derive_finished_key lib.sm3
                (peer_handshake (record s { wire = w })).secret
              ≡ ok key)
            × (verify_data ≡ verify_data_tls13 lib.sm3 key (lib.sm3.hash s.transcript)))
      → (v : Conn) → Holds (add_to_transcript msg (record s { wire = w })) v
      → Runs (restart_reading v) (Extends s) (λ _. FinishedRead s)
  unfolding holding
  after_check s msg verify_data w k parses proof v h =
      let t : Conn = record s { wire = w } in
      let there : Extends s v =
        Extends-trans (unchanged s t refl refl k refl refl refl refl)
          (Extends-trans (Extends-add_to_transcript msg t) h.extends) in
      Runs-weaken (Holds v) (Extends s) (λ _. Holds v) (λ _. FinishedRead s) (restart_reading v)
        (restart_reading-Holds v) (λ u l. Extends-trans there l.extends)
        (λ _ u l. (
          Extends-trans there l.extends,
          λ secure.
              let (key, key_is, verifies) = proof secure in
              (
                msg,
                l.same_transcript ∙ h.same_transcript,
                record {
                  finished_key = key;
                  key_is =
                      ap (λ (r : TrafficKeys). derive_finished_key lib.sm3 r.secret)
                        (sym (same_peer_handshake s w k))
                      ∙ key_is;
                  parses = parses ∙ ap ok verifies;
                },
              ),
        ))

  pub read_finished-Runs :
      (s : Conn) → Runs (read_finished_tls13 lib s) (Extends s) (λ _. FinishedRead s)
  unfolding read_finished_tls13 check_finished holding
  read_finished-Runs s =
      read_msg-then s (λ _. FinishedRead s) _
        (λ msg w k.
          let t : Conn = record s { wire = w } in
          let same : Extends s t = unchanged s t refl refl k refl refl refl refl in
          let u = add_to_transcript msg t in
          Runs-lift (Extends s) _ (Finished.unmarshal msg) t _ (unmarshal_finished-NotStuck msg)
            same
            (λ verify_data parses.
              Runs-unless (Extends s) _ _ s.config.insecure_skip_verify _ t _
                (compare-Yields verify_data t
                  (derive_finished_key lib.sm3 (peer_handshake t).secret)
                  (derive_finished_key-NotStuck lib.sm3 (peer_handshake t).secret))
                same
                (λ proof.
                  after_check s msg verify_data w k parses proof
                    (if is_client u then keep_finished_hash lib u else u)
                    (Holds-if (is_client u) u (keep_finished_hash lib u) u (keep_finished_Holds u)
                      (holding.rel_refl u)))))
