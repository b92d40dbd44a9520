-- ===== src/Handshake/ClientProof.antt =====
-- conn.go: the proof that a client leaves in the transcript of a server.

use cnnic_gmtls.Base.{ℕ, ◌≡◌, refl, ap, ◌∙◌, List, ◌++◌, append_assoc, some, ok}
use cnnic_gmtls.Handshake.{Library, Config, Conn}
use cnnic_gmtls.Handshake.Auth.{client_context, check_client_certificate}
use cnnic_gmtls.Handshake.ServerProof.{Finishes-for}
use cnnic_gmtls.Handshake.Keeps.{Extends}
use cnnic_gmtls.Handshake.Proofs.{Signed, Finishes}
use cnnic_gmtls.Handshake.Run.{complete}
use cnnic_gmtls.Message.Certificate.{Certificate}
use cnnic_gmtls.Sm2.{PublicKey}

-- The proof of the client in the transcript: a certificate that passed the checks of the
-- configuration, its key's signature, and the MAC of the transcript with the signature.
pub record ClientProved (lib : Library) (now : ℕ) (config : Config) (t : Conn) : Type 0 where
  pub cert : Certificate
  pub cert_is : t.peer_cert ≡ some cert
  pub checked : check_client_certificate lib now config cert ≡ ok tt
  pub key : PublicKey
  pub key_is : cert.public_key ≡ some key
  pub before : List ℕ
  pub verify_msg : List ℕ
  pub finished_msg : List ℕ
  pub transcript_is :
      (rest : List ℕ) × (t.transcript ≡ ((before ++ verify_msg) ++ finished_msg) ++ rest)
  pub signed : Signed lib client_context key before verify_msg
  pub finished :
      Finishes lib t.key_material.keys.client_handshake.secret (before ++ verify_msg) finished_msg

-- What follows adds to the transcript, and changes nothing that was proved.
pub ClientProved-complete :
    (lib : Library) (now : ℕ) (config : Config) (s u : Conn)
    → Extends s u
    → ClientProved lib now config s
    → ClientProved lib now config (complete u)
ClientProved-complete lib now config s u h p = record {
  cert = p.cert;
  cert_is = h.same_cert ∙ p.cert_is;
  checked = p.checked;
  key = p.key;
  key_is = p.key_is;
  before = p.before;
  verify_msg = p.verify_msg;
  finished_msg = p.finished_msg;
  transcript_is =
      let (rest, at) = p.transcript_is in
      (
        rest ++ h.more,
        h.transcript_is ∙ ap (λ (r : List ℕ). r ++ h.more) at ∙ append_assoc _ rest h.more,
      );
  signed = p.signed;
  finished = Finishes-for lib h.same_client refl p.finished;
}
