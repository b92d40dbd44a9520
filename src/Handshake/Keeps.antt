-- ===== src/Handshake/Keeps.antt =====
-- conn.go: the relations between the states before and after a step of a handshake.
use cnnic_gmtls.Base.{ℕ, ◌≡◌, refl, sym, ap, ◌∙◌, List, [], ◌++◌, append-nil, append_assoc, Outcome}
use cnnic_gmtls.Base.State.{Action}
use cnnic_gmtls.Base.Keeping.{Preorder, Keeping, Keeping-part}
use cnnic_gmtls.Base.Runs.{Runs, NotStuck, Runs-weaken, NotStuck-Runs}
use cnnic_gmtls.Handshake.{Conn, on_layer, on_entropy}
use cnnic_gmtls.Record.Gcm.{Aead}
use cnnic_gmtls.Record.Keeps.{Keeps, Keeps-refl, Keeps-trans, write_record-Runs}
use cnnic_gmtls.Record.Layer.{RecordLayer, write_record}

-- Every step leaves the configuration, the role, the version and `handshakeComplete` as they are.
pub record Stays (s t : Conn) : Type 0 where
  pub same_config : t.config ≡ s.config
  pub same_name : t.client_server_name ≡ s.client_server_name
  pub same_layer : Keeps s.wire.layer t.wire.layer

pub Stays-refl : (s : Conn) → Stays s s
Stays-refl s = record { same_config = refl; same_name = refl; same_layer = Keeps-refl s.wire.layer }

pub Stays-trans : {s t u : Conn} → Stays s t → Stays t u → Stays s u
Stays-trans h k = record {
  same_config = k.same_config ∙ h.same_config;
  same_name = k.same_name ∙ h.same_name;
  same_layer = Keeps-trans h.same_layer k.same_layer;
}

abbrev pub staying : Preorder Conn
staying = record { rel = Stays; rel_refl = Stays-refl; rel_trans = Stays-trans }

-- From ServerHello on the handshake keys stay, and the transcript grows; once it is read the peer's
-- certificate stays too.
pub record Extends (s t : Conn) : Type 0 where
  pub stays : Stays s t
  pub same_cert : t.peer_cert ≡ s.peer_cert
  pub same_client : t.key_material.keys.client_handshake ≡ s.key_material.keys.client_handshake
  pub same_server : t.key_material.keys.server_handshake ≡ s.key_material.keys.server_handshake
  pub more : List ℕ
  pub transcript_is : t.transcript ≡ s.transcript ++ more

pub Extends-refl : (s : Conn) → Extends s s
Extends-refl s = record {
  stays = Stays-refl s;
  same_cert = refl;
  same_client = refl;
  same_server = refl;
  more = [];
  transcript_is = sym (append-nil s.transcript);
}

pub Extends-trans : {s t u : Conn} → Extends s t → Extends t u → Extends s u
Extends-trans h k = record {
  stays = Stays-trans h.stays k.stays;
  same_cert = k.same_cert ∙ h.same_cert;
  same_client = k.same_client ∙ h.same_client;
  same_server = k.same_server ∙ h.same_server;
  more = h.more ++ k.more;
  transcript_is =
      k.transcript_is
      ∙ ap (λ (r : List ℕ). r ++ k.more) h.transcript_is
      ∙ append_assoc _ h.more k.more;
}

abbrev pub extending : Preorder Conn
extending = record { rel = Extends; rel_refl = Extends-refl; rel_trans = Extends-trans }

pub Extends→Stays :
    {A : Type 0} (s : Conn) (r : Outcome A × Conn)
    → Runs r (Extends s) (λ _. Extends s)
    → Runs r (Stays s) (λ _. Stays s)
Extends→Stays s r h =
    Runs-weaken (Extends s) (Stays s) (λ _. Extends s) (λ _. Stays s) r h (λ t k. k.stays)
      (λ a t k. k.stays)

-- A change that these fields take no part in.
pub unchanged :
    (s t : Conn)
    → t.config ≡ s.config
    → t.client_server_name ≡ s.client_server_name
    → Keeps s.wire.layer t.wire.layer
    → t.peer_cert ≡ s.peer_cert
    → t.key_material.keys.client_handshake ≡ s.key_material.keys.client_handshake
    → t.key_material.keys.server_handshake ≡ s.key_material.keys.server_handshake
    → t.transcript ≡ s.transcript
    → Extends s t
unchanged s t c n l p k v e = record {
  stays = record { same_config = c; same_name = n; same_layer = l };
  same_cert = p;
  same_client = k;
  same_server = v;
  more = [];
  transcript_is = e ∙ sym (append-nil s.transcript);
}

-- A step of the record layer.
pub Keeping-on_layer :
    {A : Type 0} (m : Action RecordLayer A) (s : Conn)
    → Runs (m s.wire.layer) (Keeps s.wire.layer) (λ _. Keeps s.wire.layer)
    → Keeping extending (on_layer m) s
Keeping-on_layer m s h =
    let w = s.wire in
    Keeping-part extending (Keeps w.layer) (λ l. record s { wire = record w { layer = l } })
      (m w.layer) s h (λ l k. unchanged _ _ refl refl k refl refl refl refl)

pub Keeping-write :
    (a : Aead) (typ : ℕ) (d : List ℕ) (s : Conn)
    → Keeping extending (on_layer (write_record a typ d)) s
Keeping-write a typ d s =
    Keeping-on_layer (write_record a typ d) s (write_record-Runs a typ d s.wire.layer)

-- A step that takes random bytes.
pub Keeping-on_entropy :
    {A : Type 0} (f : List ℕ → Outcome A × List ℕ) (s : Conn)
    → NotStuck (f s.entropy).0
    → Keeping extending (on_entropy f) s
Keeping-on_entropy f s h =
    Keeping-part extending (λ _. Unit {0}) (λ rest. record s { entropy = rest }) (f s.entropy) s
      (NotStuck-Runs (f s.entropy) h)
      (λ rest _. unchanged _ _ refl refl (Keeps-refl s.wire.layer) refl refl refl refl)
