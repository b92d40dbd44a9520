-- ===== src/Handshake/ServerHelloKeeps.antt =====
-- conn.go: the runs of `readServerHelloTLS13` and of its parts, and their states.
use cnnic_gmtls.Base.{
  ℕ, zero, suc, ◌<◌, refl, arith, List, [], ◌++◌, Bool, true, false, not, ◌&&◌, ◌==◌, ltb, leb,
  if◌then◌else◌, Option, none, some, Error, ok, message, length, bytes_equal,
}
use cnnic_gmtls.Base.State.{modify, lift, raise_if, ◌>>◌, ◌>>=◌}
use cnnic_gmtls.Base.Keeping.{Keeping, Keeping-bind, Keeping-lift, Keeping-if, Keeping-raise_if}
use cnnic_gmtls.Base.Runs.{
  Runs, Runs-after, Runs-if, Runs-weaken, NotStuck, NotStuck-err, NotStuck-bind, NotStuck-if,
  IsReturn-NotStuck,
}
use cnnic_gmtls.Extension.{
  Extension, extension_key_share, extension_supported_versions, extension_pre_shared_key, curve_sm2,
}
use cnnic_gmtls.Extension.KeyShare.{
  KeyShareEntry, parse_key_share_extension, parse_key_share-IsReturn,
}
use cnnic_gmtls.Handshake.{Library, Conn, Shares, on_layer}
use cnnic_gmtls.Handshake.ClientHello.{curve_x25519}
use cnnic_gmtls.Handshake.HelloKeeps.{steady}
use cnnic_gmtls.Handshake.Keeps.{Stays, Stays-refl, staying, Extends→Stays, Keeping-on_layer}
use cnnic_gmtls.Handshake.Outcomes.{
  derive_all_keys-NotStuck, new_sm4_gcm_mode-NotStuck, parse_sm2_public_key-NotStuck,
  derive_sm2_ecdh_shared_secret-NotStuck, derive_x25519_shared_secret-NotStuck,
}
use cnnic_gmtls.Handshake.Reading.{read_past_change_cipher_spec}
use cnnic_gmtls.Handshake.Secrets.{
  derive_tls13_keys, the_suite, known_secret, is_none, new_mode, set_in_cipher,
  set_server_encrypted,
}
use cnnic_gmtls.Handshake.SecretsKeep.{the_suite-NotStuck}
use cnnic_gmtls.Handshake.ServerHello.{
  is_server_hello, take_retry, check_retry, accept_suite, accept_share, start_reading,
  read_server_hello_tls13, hello_retry_request_random, set_suite, keep_share, note_resumption,
  need_share, set_secret,
}
use cnnic_gmtls.Handshake.Shared.{
  find_extension, retry_group, server_key_share, check_supported_version, client_shared_secret,
  sm2_secret, group_of, share_of, check_version,
}
use cnnic_gmtls.Message.ServerHello.{ServerHelloMsg, unmarshal, unmarshal_server_hello-IsReturn}
use cnnic_gmtls.Record.{Record, change_cipher_spec, handshake, version_tls13}
use cnnic_gmtls.Record.Gcm.{Aead}
use cnnic_gmtls.Record.Keeps.{unread, Keeps, Keeps-refl, Keeps-trans, Reads, read_record-Runs}
use cnnic_gmtls.Record.Layer.{RecordLayer, read_record}
use cnnic_gmtls.Schedule.Material.{derive_all_keys}
use cnnic_gmtls.Sm2.{PrivateKey}
use cnnic_gmtls.Suite.{cipher_suite_by_id}
use cnnic_gmtls.Suite.Selection.{cipher_suite_for_version, client_offered_cipher_suite}

-- The loop that skips changes of cipher spec has fuel enough.
read_past-Runs :
    (a : Aead) (fuel : ℕ) (s : RecordLayer)
    → unread s < fuel
    → Runs (read_past_change_cipher_spec a fuel s) (Keeps s) (λ _. Keeps s)
unfolding read_past_change_cipher_spec
read_past-Runs a zero s h = absurd (omega arith)
read_past-Runs a (suc fuel) s h =
    Runs-after (Keeps s) (Reads s) (λ _. Keeps s) (read_record a s) _ (read_record-Runs a s)
      (λ rec t k.
        let l = k.1 in
        let lt : unread t < fuel = omega arith in
        Runs-if (Keeps s) (λ _. Keeps s) (rec.typ == change_cipher_spec) _ _
          (λ _.
            Runs-weaken (Keeps t) (Keeps s) (λ _. Keeps t) (λ _. Keeps s)
              (read_past_change_cipher_spec a fuel t) (read_past-Runs a fuel t lt)
              (λ u. Keeps-trans k.0) (λ r u. Keeps-trans k.0))
          (λ _. k.0))

key_share-NotStuck : (d : List ℕ) → NotStuck (parse_key_share_extension d)
key_share-NotStuck d = IsReturn-NotStuck (λ _. Unit) _ (parse_key_share-IsReturn d)

group_of-NotStuck : (d : Option (List ℕ)) → NotStuck (group_of d)
unfolding NotStuck
group_of-NotStuck none = tt
group_of-NotStuck (some d) =
    NotStuck-if (length d == 2) _ _ tt (NotStuck-bind _ _ (key_share-NotStuck d) (λ e. tt))

share_of-NotStuck : (d : Option (List ℕ)) → NotStuck (share_of d)
unfolding NotStuck
share_of-NotStuck none = tt
share_of-NotStuck (some d) = NotStuck-bind _ _ (key_share-NotStuck d) (λ e. tt)

check_version-NotStuck : (d : Option (List ℕ)) → NotStuck (check_version d)
unfolding NotStuck
check_version-NotStuck none = tt
check_version-NotStuck (some d) = ground arith

need_share-NotStuck : (lib : Library) (e : Option KeyShareEntry) → NotStuck (need_share lib e)
unfolding NotStuck
need_share-NotStuck lib none = tt
need_share-NotStuck lib (some e) = tt

keep_share-Stays :
    (lib : Library) (e : Option KeyShareEntry) (s : Conn) → Stays s (keep_share lib e s)
keep_share-Stays lib none s = Stays-refl s
keep_share-Stays lib (some e) s = steady s _ refl refl (Keeps-refl s.wire.layer)

pub Stays-if :
    (test : Bool) (s t u : Conn) → Stays s t → Stays s u → Stays s (if test then t else u)
Stays-if true s t u h k = h
Stays-if false s t u h k = k

note_resumption-Stays :
    (lib : Library) (d : Option (List ℕ)) (s : Conn) → Stays s (note_resumption lib d s)
note_resumption-Stays lib none s = Stays-refl s
note_resumption-Stays lib (some d) s =
    Stays-if (leb 2 (length d)) s _ s (steady s _ refl refl (Keeps-refl s.wire.layer))
      (Stays-refl s)

module _ (lib : Library) where
  sm2_secret-NotStuck : (p : Option PrivateKey) (share : List ℕ) → NotStuck (sm2_secret lib p share)
  unfolding NotStuck
  sm2_secret-NotStuck none share =
      NotStuck-bind _ _ (parse_sm2_public_key-NotStuck lib.curve share) (λ key. tt)
  sm2_secret-NotStuck (some p) share =
      NotStuck-bind _ _ (parse_sm2_public_key-NotStuck lib.curve share)
        (λ key. derive_sm2_ecdh_shared_secret-NotStuck lib.curve p key)

  client_shared_secret-NotStuck :
      (m : Shares) (e : KeyShareEntry) → NotStuck (client_shared_secret lib m e)
  unfolding client_shared_secret
  client_shared_secret-NotStuck m e =
      NotStuck-if (e.group == curve_x25519) _ _
        (derive_x25519_shared_secret-NotStuck lib.curve25519 _ _)
        (NotStuck-if (e.group == curve_sm2) _ _ (sm2_secret-NotStuck m.client_private_share _)
          (NotStuck-err _ _))

  pub derive_tls13_keys-Keeps : (s : Conn) → Keeping staying (derive_tls13_keys lib) s
  unfolding derive_tls13_keys
  derive_tls13_keys-Keeps s =
      let shared = known_secret lib s.key_material.shared_secret in
      Keeping-bind staying s (the_suite s, s) _
        (Keeping-lift staying (the_suite s) s (the_suite-NotStuck s))
        (λ suite t.
          let m =
            derive_all_keys lib.sm3 suite.key_len suite.iv_len shared (lib.sm3.hash t.transcript)
              [] in
          Keeping-bind staying t (m, t) _
            (Keeping-lift staying m t (derive_all_keys-NotStuck lib.sm3 _ _ _ _ _))
            (λ keys u. steady u _ refl refl (Keeps-refl u.wire.layer)))

  take_retry-Keeps :
      (hello : ServerHelloMsg) (content : List ℕ) (s : Conn)
      → Keeping staying (take_retry lib hello content) s
  unfolding take_retry retry_group
  take_retry-Keeps hello content s =
      let m = group_of (find_extension extension_key_share hello.extensions) in
      Keeping-bind staying s (m, s) _
        (Keeping-lift staying m s
          (group_of-NotStuck (find_extension extension_key_share hello.extensions)))
        (λ group t.
          Keeping-bind staying t (raise_if (group == 0) _ t) _ (Keeping-raise_if staying _ _ t)
            (λ _ u.
              Keeping-bind staying u
                (raise_if (length u.last_client_hello == 0)
                  (message "gmtls: missing ClientHello for HRR") u)
                _ (Keeping-raise_if staying _ _ u)
                (λ _ v. steady v _ refl refl (Keeps-refl v.wire.layer))))

  check_retry-Keeps : (rec : Record) (s : Conn) → Keeping staying (check_retry lib rec) s
  unfolding check_retry
  check_retry-Keeps rec s =
      Keeping-if staying s (is_server_hello rec) _ _
        (Keeping-bind staying s (unmarshal rec.content, s) _
          (Keeping-lift staying (unmarshal rec.content) s
            (IsReturn-NotStuck (λ _. Unit) _ (unmarshal_server_hello-IsReturn rec.content)))
          (λ hello t.
            Keeping-if staying t
              ((length hello.random == 32) && bytes_equal hello.random hello_retry_request_random) _
              _ (take_retry-Keeps hello rec.content t) (Stays-refl t)))
        (Stays-refl s)

  accept_suite-Keeps : (id : ℕ) (s : Conn) → Keeping staying (accept_suite lib id) s
  unfolding accept_suite
  accept_suite-Keeps id s =
      let invalid : Error = message "gmtls: cipher suite not valid for TLS 1.3: 0x%04x" in
      let suite = cipher_suite_by_id id in
      Keeping-bind staying s
        (raise_if
          (ltb 0 (length s.client_cipher_suites)
            && not (client_offered_cipher_suite s.client_cipher_suites id))
          (message "gmtls: server selected unsupported cipher suite 0x%04x") s)
        _ (Keeping-raise_if staying _ _ s)
        (λ _ t.
          Keeping-bind staying t (set_suite lib suite t) _
            (steady t _ refl refl (Keeps-refl t.wire.layer))
            (λ _ u.
              Keeping-bind staying u
                (raise_if (is_none suite) (message "gmtls: unsupported cipher suite 0x%04x") u)
                (λ _. raise_if (not (cipher_suite_for_version suite version_tls13)) invalid)
                (Keeping-raise_if staying _ _ u)
                (λ _ v.
                  Keeping-raise_if staying (not (cipher_suite_for_version suite version_tls13))
                    invalid v)))

  accept_share-Keeps :
      (exts : List Extension) (s : Conn) → Keeping staying (accept_share lib exts) s
  unfolding accept_share server_key_share check_supported_version
  accept_share-Keeps exts s =
      let found = find_extension extension_key_share exts in
      let versions = find_extension extension_supported_versions exts in
      Keeping-bind staying s (share_of found, s) _
        (Keeping-lift staying (share_of found) s (share_of-NotStuck found))
        (λ share t.
          Keeping-bind staying t (modify (keep_share lib share) t) _ (keep_share-Stays lib share t)
            (λ _ u.
              Keeping-bind staying u
                (modify (note_resumption lib (find_extension extension_pre_shared_key exts)) u) _
                (note_resumption-Stays lib (find_extension extension_pre_shared_key exts) u)
                (λ _ v.
                  Keeping-bind staying v (need_share lib share, v) _
                    (Keeping-lift staying (need_share lib share) v (need_share-NotStuck lib share))
                    (λ entry w.
                      Keeping-bind staying w (check_version versions, w) _
                        (Keeping-lift staying (check_version versions) w
                          (check_version-NotStuck versions))
                        (λ _ x.
                          let m = client_shared_secret lib x.key_material entry in
                          Keeping-bind staying x (m, x) (λ secret. modify (set_secret lib secret))
                            (Keeping-lift staying m x
                              (client_shared_secret-NotStuck x.key_material entry))
                            (λ secret y. steady y _ refl refl (Keeps-refl y.wire.layer)))))))

  start_reading-Keeps : (s : Conn) → Keeping staying (start_reading lib) s
  unfolding start_reading
  start_reading-Keeps s =
      let m = new_mode s.key_material.keys.server_handshake in
      Keeping-bind staying s (modify set_server_encrypted s) _
        (steady s _ refl refl
          (record { same_side = refl; same_version = refl; same_complete = refl }))
        (λ _ t.
          Keeping-bind staying t (new_mode t.key_material.keys.server_handshake, t)
            (λ m. modify (set_in_cipher m))
            (Keeping-lift staying (new_mode t.key_material.keys.server_handshake) t
              (new_sm4_gcm_mode-NotStuck _ _))
            (λ k u.
              steady u _ refl refl
                (record { same_side = refl; same_version = refl; same_complete = refl })))

  -- The rest of the work on a ServerHello, behind its record.
  read_hello-Keeps :
      (rec : Record) (s : Conn)
      → Keeping staying
          (modify (λ s. record s {
            transcript = s.transcript ++ rec.content;
            last_server_hello = rec.content;
          })
            >> (lift (unmarshal rec.content) >>= λ hello.
                modify (λ s. record s { server_random = hello.random })
                >> (accept_suite lib hello.cipher_suite
                    >> (accept_share lib hello.extensions
                        >> (derive_tls13_keys lib >> start_reading lib)))))
          s
  read_hello-Keeps rec s =
      Keeping-bind staying s
        (
          ok tt,
          record s { transcript = s.transcript ++ rec.content; last_server_hello = rec.content },
        )
        _ (steady s _ refl refl (Keeps-refl s.wire.layer))
        (λ _ t.
          Keeping-bind staying t (unmarshal rec.content, t) _
            (Keeping-lift staying (unmarshal rec.content) t
              (IsReturn-NotStuck (λ _. Unit) _ (unmarshal_server_hello-IsReturn rec.content)))
            (λ hello u.
              Keeping-bind staying u (ok tt, record u { server_random = hello.random }) _
                (steady u _ refl refl (Keeps-refl u.wire.layer))
                (λ _ v.
                  Keeping-bind staying v (accept_suite lib hello.cipher_suite v) _
                    (accept_suite-Keeps hello.cipher_suite v)
                    (λ _ w.
                      Keeping-bind staying w (accept_share lib hello.extensions w) _
                        (accept_share-Keeps hello.extensions w)
                        (λ _ x.
                          Keeping-bind staying x (derive_tls13_keys lib x) _
                            (derive_tls13_keys-Keeps x) (λ _ y. start_reading-Keeps y))))))

  pub read_server_hello-Keeps : (s : Conn) → Keeping staying (read_server_hello_tls13 lib) s
  unfolding read_server_hello_tls13
  read_server_hello-Keeps s =
      let read = λ (l : RecordLayer).
        read_past_change_cipher_spec lib.aead (suc (length l.conn.incoming)) l in
      Keeping-bind staying s (on_layer read s) _
        (Extends→Stays s (on_layer read s)
          (Keeping-on_layer read s (read_past-Runs lib.aead _ s.wire.layer (omega arith))))
        (λ rec t. Keeping-bind staying t (check_retry lib rec t) _ (check_retry-Keeps rec t) (λ _ u.
          Keeping-bind staying u
            (raise_if (not (rec.typ == handshake)) (message "gmtls: expected handshake record") u) _
            (Keeping-raise_if staying _ _ u) (λ _ v. read_hello-Keeps rec v)))
