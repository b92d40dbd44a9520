-- ===== src/Handshake/ServerProof.antt =====
-- conn.go: the proof that a server leaves in the transcript of a client.
use cnnic_gmtls.Base.{ℕ, ◌≡◌, refl, ap, ◌∙◌, List, ◌++◌, some, ok, append_assoc}
use mathlib.Core.Path.{subst}
use cnnic_gmtls.Handshake.{Library, Config, Conn}
use cnnic_gmtls.Handshake.Auth.{server_context}
use cnnic_gmtls.Handshake.Keeps.{Extends}
use cnnic_gmtls.Handshake.Proofs.{Signed, Finishes}
use cnnic_gmtls.Handshake.Run.{complete}
use cnnic_gmtls.Handshake.Verify.{verify_server_certificate}
use cnnic_gmtls.Message.Certificate.{Certificate}
use cnnic_gmtls.Schedule.Keys.{derive_finished_key, verify_data_tls13}
use cnnic_gmtls.Schedule.Material.{TrafficKeys}
use cnnic_gmtls.Sm2.{PublicKey}

-- The proof of the server in the transcript: a certificate that is valid for the configuration, its
-- key's signature of the transcript, and the MAC of the transcript with the signature.
pub record ServerProved (lib : Library) (now : ℕ) (config : Config) (name : List ℕ) (t : Conn)
    : Type 0 where
  pub cert : Certificate
  pub cert_is : t.peer_cert ≡ some cert
  pub valid : verify_server_certificate lib.x509 now config name cert ≡ ok tt
  pub key : PublicKey
  pub key_is : cert.public_key ≡ some key
  pub before : List ℕ
  pub verify_msg : List ℕ
  pub finished_msg : List ℕ
  pub after_finished : List ℕ
  pub transcript_is : t.transcript ≡ ((before ++ verify_msg) ++ finished_msg) ++ after_finished
  pub signed : Signed lib server_context key before verify_msg
  pub finished :
      Finishes lib t.key_material.keys.server_handshake.secret (before ++ verify_msg) finished_msg

-- The same MAC for equal keys and transcripts.
pub Finishes-for :
    (lib : Library) {k k' : TrafficKeys} {before before' msg : List ℕ}
    → k ≡ k'
    → before' ≡ before
    → Finishes lib k'.secret before' msg
    → Finishes lib k.secret before msg
Finishes-for lib e e' h = record {
  finished_key = h.finished_key;
  key_is = ap (λ (r : TrafficKeys). derive_finished_key lib.sm3 r.secret) e ∙ h.key_is;
  parses =
      h.parses
      ∙ ap (λ (b : List ℕ). ok (verify_data_tls13 lib.sm3 h.finished_key (lib.sm3.hash b))) e';
}

-- What follows adds to the transcript, and changes nothing that was proved.
pub ServerProved-later :
    (lib : Library) (now : ℕ) (config : Config) (name : List ℕ) (s t : Conn)
    → Extends s t
    → ServerProved lib now config name s
    → ServerProved lib now config name t
ServerProved-later lib now config name s t h p = record {
  cert = p.cert;
  cert_is = h.same_cert ∙ p.cert_is;
  valid = p.valid;
  key = p.key;
  key_is = p.key_is;
  before = p.before;
  verify_msg = p.verify_msg;
  finished_msg = p.finished_msg;
  after_finished = p.after_finished ++ h.more;
  transcript_is =
      h.transcript_is
      ∙ ap (λ (r : List ℕ). r ++ h.more) p.transcript_is
      ∙ append_assoc _ p.after_finished h.more;
  signed = p.signed;
  finished = Finishes-for lib h.same_server refl p.finished;
}

-- The mark of a complete handshake is no part of the proof.
pub ServerProved-complete :
    (lib : Library) (now : ℕ) (config : Config) (name : List ℕ) (s : Conn)
    → ServerProved lib now config name s
    → ServerProved lib now config name (complete s)
ServerProved-complete lib now config name s p = record {
  cert = p.cert;
  cert_is = p.cert_is;
  valid = p.valid;
  key = p.key;
  key_is = p.key_is;
  before = p.before;
  verify_msg = p.verify_msg;
  finished_msg = p.finished_msg;
  after_finished = p.after_finished;
  transcript_is = p.transcript_is;
  signed = p.signed;
  finished = p.finished;
}

-- The certificate is valid for an equal configuration and name.
pub ServerProved-for :
    (lib : Library) (now : ℕ) {config config' : Config} {name name' : List ℕ} {s : Conn}
    → config' ≡ config
    → name' ≡ name
    → ServerProved lib now config' name' s
    → ServerProved lib now config name s
ServerProved-for lib now {config} {config'} {name} {name'} {s} e e' p =
    subst (λ (c : Config). ServerProved lib now c name s) e
      (subst (λ (n : List ℕ). ServerProved lib now config' n s) e' p)
