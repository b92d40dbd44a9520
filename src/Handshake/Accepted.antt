-- ===== src/Handshake/Accepted.antt =====
-- verify.go: an independent description of what `verifyServerCertificate` asks of the X.509 library.
use mathlib.Core.Path.{subst}
use cnnic_gmtls.Base.{
  if◌then◌else◌, ltb, ◌==◌, ℕ, ◌≡◌, ◌≤◌, ◌↔◌, refl, sym, ap, ◌∙◌, arith, List, [], ◌∷◌, Bool, true,
  false, Option, none, some, ok, length, drop, All,
}
use cnnic_gmtls.Handshake.{X509, Config}
use cnnic_gmtls.Handshake.Verify.{
  server_auth, all_certificates, intermediates, dns_name, roots_of, expected_name,
  verify_peer_certificate, verify_server_certificate,
}
use cnnic_gmtls.Message.Certificate.{Certificate}

-- The pool that the chain must end in: the configured one, or the system's if none is configured.
pub data Roots (x : X509) : Option ℕ → Option ℕ → Type 0 where
  configured : (p : ℕ) → Roots x (some p) (some p)
  system : Roots x none x.system_pool

-- The certificates that the peer sent behind its own.
pub data Between : List (List ℕ) → Option (List (List ℕ)) → Type 0 where
  nothing_sent : Between [] none
  leaf_only : (d : List ℕ) → Between (d ∷ []) none
  more : (d e : List ℕ) (es : List (List ℕ)) → Between (d ∷ e ∷ es) (some (e ∷ es))

-- The name that the certificate must have: `SkipServerNameVerify`, `ServerName` and the name of the
-- connection decide, in this order, and an empty name is none.
pub data Name : Bool → List ℕ → List ℕ → Option (List ℕ) → Type 0 where
  skipped : (own sent : List ℕ) → Name true own sent none
  own_name : (b : ℕ) (bs sent : List ℕ) → Name false (b ∷ bs) sent (some (b ∷ bs))
  sent_name : (b : ℕ) (bs : List ℕ) → Name false [] (b ∷ bs) (some (b ∷ bs))
  no_name : Name false [] [] none

-- The code computes what each of the three describes, and nothing else fits the description.
abbrev chosen_between : List (List ℕ) → Option (List (List ℕ))
chosen_between chain = if ltb 1 (length chain) then some (drop 1 chain) else none

abbrev chosen_name : Bool → List ℕ → List ℕ → Option (List ℕ)
chosen_name skip own sent = dns_name (if skip then [] else if length own == 0 then sent else own)

chosen_between_lem :
    (d e : List ℕ) (es : List (List ℕ)) → chosen_between (d ∷ e ∷ es) ≡ some (e ∷ es)
chosen_between_lem d e es = ground arith

chosen_name_lem : (b : ℕ) (bs sent : List ℕ) → chosen_name false (b ∷ bs) sent ≡ some (b ∷ bs)
unfolding dns_name
chosen_name_lem b bs sent = ground arith

Between-chosen : (chain : List (List ℕ)) → Between chain (chosen_between chain)
Between-chosen [] = nothing_sent
Between-chosen (d ∷ []) = leaf_only d
Between-chosen (d ∷ e ∷ es) =
    subst (Between (d ∷ e ∷ es)) (sym (chosen_between_lem d e es)) (more d e es)

Between-unique :
    {chain : List (List ℕ)} {ds : Option (List (List ℕ))}
    → Between chain ds
    → chosen_between chain ≡ ds
Between-unique nothing_sent = refl
Between-unique (leaf_only d) = refl
Between-unique (more d e es) = chosen_between_lem d e es

Name-chosen : (skip : Bool) (own sent : List ℕ) → Name skip own sent (chosen_name skip own sent)
unfolding dns_name
Name-chosen true own sent = skipped own sent
Name-chosen false [] [] = no_name
Name-chosen false [] (b ∷ bs) = sent_name b bs
Name-chosen false (b ∷ bs) sent =
    subst (Name false (b ∷ bs) sent) (sym (chosen_name_lem b bs sent)) (own_name b bs sent)

Name-unique :
    {skip : Bool} {own sent : List ℕ} {dns : Option (List ℕ)}
    → Name skip own sent dns
    → chosen_name skip own sent ≡ dns
unfolding dns_name
Name-unique (skipped own sent) = refl
Name-unique (own_name b bs sent) = chosen_name_lem b bs sent
Name-unique (sent_name b bs) = refl
Name-unique no_name = refl

module _ (x : X509) (now : ℕ) where
  abbrev chosen_roots : Option ℕ → Option ℕ
  chosen_roots pool = elim pool [ some p ↦ some p | none ↦ x.system_pool ]

  Roots-chosen : (pool : Option ℕ) → Roots x pool (chosen_roots pool)
  Roots-chosen none = system
  Roots-chosen (some p) = configured p

  Roots-unique : {pool roots : Option ℕ} → Roots x pool roots → chosen_roots pool ≡ roots
  Roots-unique (configured p) = refl
  Roots-unique system = refl

  pub record IsAccepted (config : Config) (name : List ℕ) (cert : Certificate) : Type 0 where
    pub sent : 1 ≤ length cert.raw
    pub leaf_is : x.is_certificate cert.raw ≡ true
    pub others_are : All (λ (d : List ℕ). x.is_certificate d ≡ true) (drop 1 cert.chain)
    pub roots : Option ℕ
    pub roots_are : Roots x config.root_cas roots
    pub between : Option (List (List ℕ))
    pub between_are : Between cert.chain between
    pub dns : Option (List ℕ)
    pub dns_is : Name config.skip_server_name_verify config.server_name name dns
    pub verified : x.verify cert.raw between roots server_auth dns now ≡ true

  all_certificates-All :
      (ds : List (List ℕ))
      → (all_certificates x ds ≡ true) ↔ All (λ (d : List ℕ). x.is_certificate d ≡ true) ds
  unfolding all_certificates
  all_certificates-All [] = (λ _. tt, λ _. refl)
  all_certificates-All (d ∷ ds) =
      let rest = all_certificates-All ds in
      (λ h. (ground (arith, h), rest.0 (ground (arith, h))), λ h. ground (arith, h.0, rest.1 h.1))

  -- The four tests of the code.
  verify_server_certificate-tests :
      (config : Config) (name : List ℕ) (cert : Certificate)
      → (verify_server_certificate x now config name cert ≡ ok tt) ↔ (
          (1 ≤ length cert.raw)
          × (x.is_certificate cert.raw ≡ true)
          × (all_certificates x (drop 1 cert.chain) ≡ true)
          × (x.verify cert.raw
                (chosen_between cert.chain)
                (roots_of x now config)
                server_auth
                (chosen_name config.skip_server_name_verify config.server_name name)
                now
              ≡ true))
  unfolding verify_server_certificate verify_peer_certificate intermediates expected_name
  verify_server_certificate-tests config name cert =
      (λ h. ground (arith, h), λ h. ground (arith, h))

  as_described :
      (config : Config) (name : List ℕ) (cert : Certificate) (a : IsAccepted config name cert)
      → x.verify cert.raw
          (chosen_between cert.chain)
          (roots_of x now config)
          server_auth
          (chosen_name config.skip_server_name_verify config.server_name name)
          now
        ≡ true
  as_described config name cert a =
      ap
        (λ (ds : Option (List (List ℕ))).
          x.verify cert.raw ds (roots_of x now config) server_auth
            (chosen_name config.skip_server_name_verify config.server_name name) now)
        (Between-unique a.between_are)
      ∙ (ap
            (λ (p : Option ℕ).
              x.verify cert.raw a.between p server_auth
                (chosen_name config.skip_server_name_verify config.server_name name) now)
            (Roots-unique a.roots_are)
          ∙ (ap (λ (n : Option (List ℕ)). x.verify cert.raw a.between a.roots server_auth n now)
                (Name-unique a.dns_is)
              ∙ a.verified))

  -- A server's certificate is accepted exactly if there is one, all the certificates that were sent
  -- can be read, and the library verifies the leaf with the others as intermediates, if there are
  -- any, against the configured pool or else the system's, for server authentication, and for the
  -- name of the configuration, or else of the connection, unless the check of names is switched off
  -- or there is no name.
  pub verify_server_certificate-eq-ok_iff :
      (config : Config) (name : List ℕ) (cert : Certificate)
      → (verify_server_certificate x now config name cert ≡ ok tt) ↔ IsAccepted config name cert
  verify_server_certificate-eq-ok_iff config name cert =
      let tests = verify_server_certificate-tests config name cert in
      (
        λ h.
            let (sent, leaf_is, others, verified) = tests.0 h in
            record {
              sent = sent;
              leaf_is = leaf_is;
              others_are = (all_certificates-All (drop 1 cert.chain)).0 others;
              roots = chosen_roots config.root_cas;
              roots_are = Roots-chosen config.root_cas;
              between = chosen_between cert.chain;
              between_are = Between-chosen cert.chain;
              dns = chosen_name config.skip_server_name_verify config.server_name name;
              dns_is = Name-chosen config.skip_server_name_verify config.server_name name;
              verified = verified;
            },
        λ a. tests.1 (
          a.sent,
          a.leaf_is,
          (all_certificates-All (drop 1 cert.chain)).1 a.others_are,
          as_described config name cert a,
        ),
      )
