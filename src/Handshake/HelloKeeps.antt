-- ===== src/Handshake/HelloKeeps.antt =====
-- conn.go: the runs of the client's hellos and of the steps that make keys, and their states.
use cnnic_gmtls.Base.{ℕ, ◌≡◌, refl, arith, List, ◌==◌, Option, none, some, Outcome, length}
use cnnic_gmtls.Base.State.{modify}
use cnnic_gmtls.Base.Keeping.{Keeping, Keeping-bind, Keeping-lift, Keeping-if}
use cnnic_gmtls.Base.Runs.{NotStuck}
use cnnic_gmtls.Extension.{Extension, curve_sm2}
use cnnic_gmtls.Extension.KeyShare.{KeyShareEntry}
use cnnic_gmtls.Handshake.{Library, Conn, on_layer, on_entropy}
use cnnic_gmtls.Handshake.ClientHello.{
  curve_x25519, offered_suites, read_random, generate_share, choose_session_id, put_binder,
  build_client_hello, hello_sent, sm2_entry, x25519_entry, send_client_hello_tls13_with_group,
}
use cnnic_gmtls.Handshake.Keeps.{
  Stays, Stays-refl, staying, Extends→Stays, Keeping-write, Keeping-on_entropy,
}
use cnnic_gmtls.Handshake.Outcomes.{
  generate_sm2_key_pair-NotStuck, generate_x25519_key-NotStuck, compute_binder-NotStuck,
}
use cnnic_gmtls.Record.{handshake}
use cnnic_gmtls.Record.Keeps.{Keeps, Keeps-refl}
use cnnic_gmtls.Record.Layer.{write_record}
use cnnic_gmtls.Sm2.Keys.{generate_sm2_key_pair_for_tls13}
use cnnic_gmtls.Ticket.Binder.{compute_binder}
use cnnic_gmtls.Ticket.Offer.{PskInfo}
use cnnic_gmtls.X25519.{generate_x25519_key}

-- A change that these fields take no part in.
pub steady :
    (s t : Conn)
    → t.config ≡ s.config
    → t.client_server_name ≡ s.client_server_name
    → Keeps s.wire.layer t.wire.layer
    → Stays s t
steady s t c n k = record { same_config = c; same_name = n; same_layer = k }

pub Stays-write :
    (lib : Library) (typ : ℕ) (d : List ℕ) (s : Conn)
    → Keeping staying (on_layer (write_record lib.aead typ d)) s
Stays-write lib typ d s =
    Extends→Stays s (on_layer (write_record lib.aead typ d) s) (Keeping-write lib.aead typ d s)

pub Stays-on_entropy :
    {A : Type 0} (f : List ℕ → Outcome A × List ℕ) (s : Conn)
    → NotStuck (f s.entropy).0
    → Keeping staying (on_entropy f) s
Stays-on_entropy f s h = Extends→Stays s (on_entropy f s) (Keeping-on_entropy f s h)

pub read_random-NotStuck : (n : ℕ) (entropy : List ℕ) → NotStuck (read_random n entropy).0
unfolding read_random NotStuck
read_random-NotStuck n entropy = ground arith

module _ (lib : Library) where
  sm2_entry-Keeps : (s : Conn) → Keeping staying (sm2_entry lib) s
  sm2_entry-Keeps s =
      let generate = generate_sm2_key_pair_for_tls13 lib.curve in
      Keeping-bind staying s (on_entropy generate s) _
        (Stays-on_entropy generate s (generate_sm2_key_pair-NotStuck lib.curve s.entropy))
        (λ r t. steady t _ refl refl (Keeps-refl t.wire.layer))

  x25519_entry-Keeps : (s : Conn) → Keeping staying (x25519_entry lib) s
  x25519_entry-Keeps s =
      let generate = generate_x25519_key lib.curve25519 in
      Keeping-bind staying s (on_entropy generate s) _
        (Stays-on_entropy generate s (generate_x25519_key-NotStuck lib.curve25519 s.entropy))
        (λ r t. steady t _ refl refl (Keeps-refl t.wire.layer))

  generate_share-Keeps : (group : ℕ) (s : Conn) → Keeping staying (generate_share lib group) s
  unfolding generate_share
  generate_share-Keeps group s =
      Keeping-if staying s (group == curve_sm2) _ _ (sm2_entry-Keeps s)
        (Keeping-if staying s (group == curve_x25519) _ _ (x25519_entry-Keeps s) (Stays-refl s))

  choose_session_id-Keeps : (s : Conn) → Keeping staying (choose_session_id lib) s
  unfolding choose_session_id
  choose_session_id-Keeps s =
      Keeping-if staying s (length s.session_id == 0) _ _
        (Keeping-bind staying s (on_entropy (read_random 32) s) _
          (Stays-on_entropy (read_random 32) s (read_random-NotStuck 32 s.entropy))
          (λ id t. steady t _ refl refl (Keeps-refl t.wire.layer)))
        (Stays-refl s)

  put_binder-Keeps :
      (u : Conn) (exts : List Extension) (p : Option PskInfo) (s : Conn)
      → Keeping staying (put_binder lib u exts p) s
  put_binder-Keeps u exts none s = Stays-refl s
  put_binder-Keeps u exts (some p) s =
      let m = compute_binder lib.sm3 p.psk _ in
      Keeping-bind staying s (m, s) _
        (Keeping-lift staying m s (compute_binder-NotStuck lib.sm3 p.psk _))
        (λ binder t. Stays-refl t)

  build_client_hello-Keeps :
      (now group : ℕ) (entry : KeyShareEntry) (s : Conn)
      → Keeping staying (build_client_hello lib now group entry) s
  unfolding build_client_hello
  build_client_hello-Keeps now group entry s = put_binder-Keeps s _ _ s

  pub send_client_hello-Keeps :
      (now group : ℕ) (s : Conn)
      → Keeping staying (send_client_hello_tls13_with_group lib now group) s
  unfolding send_client_hello_tls13_with_group
  send_client_hello-Keeps now group s =
      Keeping-bind staying s (modify (λ s. record s { client_cipher_suites = offered_suites }) s) _
        (steady s _ refl refl (Keeps-refl s.wire.layer))
        (λ _ t.
          Keeping-bind staying t (generate_share lib group t) _ (generate_share-Keeps group t)
            (λ entry u.
              Keeping-bind staying u (choose_session_id lib u) _ (choose_session_id-Keeps u) (λ _ v.
                Keeping-bind staying v (build_client_hello lib now group entry v) _
                  (build_client_hello-Keeps now group entry v)
                  (λ d w.
                    Keeping-bind staying w (modify (hello_sent lib d) w) _
                      (steady w _ refl refl
                        (record { same_side = refl; same_version = refl; same_complete = refl }))
                      (λ _ x. Stays-write lib handshake d x)))))
