-- ===== src/Suite/Choice.antt =====
-- conn.go: what `selectCipherSuite` chooses.
use cnnic_gmtls.Base.{
  ℕ, ◌≡◌, ◌⊎◌, ◌≤◌, refl, arith, List, [], ◌∷◌, ◌++◌, All, Bool, true, ◌==◌, inl, inr, none, some,
  Option-cases, Bool-cases, ap, sym, ◌∙◌, ==→eq,
}
use mathlib.Core.Option.{some-injective}
use cnnic_gmtls.Record.{version_tls13}
use cnnic_gmtls.Suite.{
  CipherSuiteInfo, cipher_suite_by_id, tls_sm4_gcm_sm3, tls_sm4_ccm_sm3, tls_sm4_gcm_sm3_alt,
}
use cnnic_gmtls.Suite.Selection.{
  normalize_cipher_suite_id, cipher_suite_for_version, contains_uint16, supports_sm2_signature,
  find_first, chosen_id, is_acceptable, try_suite, select_loop, select_cipher_suite, preferences,
}

-- What `try_suite` answers, of the number `p`.
pub record IsChoice (client_suites : List ℕ) (version : ℕ) (curves schemes : List ℕ) (p : ℕ)
    (suite : CipherSuiteInfo) : Type 0 where
  pub listed : cipher_suite_by_id suite.id ≡ some suite
  pub offered : contains_uint16 client_suites suite.id ≡ true
  pub same_suite : normalize_cipher_suite_id suite.id ≡ normalize_cipher_suite_id p
  pub acceptable : is_acceptable version curves schemes suite ≡ true

find_first-contains :
    (test : ℕ → Bool) (xs : List ℕ) (c : ℕ)
    → find_first test xs ≡ some c
    → (contains_uint16 xs c ≡ true) × (test c ≡ true)
unfolding find_first contains_uint16
find_first-contains test [] c e = ground (arith, e)
find_first-contains test (x ∷ xs) c e = elim (Bool-cases (test x)) [
  | inl y ↦
      let found : some x ≡ some c = rw y at e in
      let same : x ≡ c = some-injective x c found in (ground (arith, same), ap test (sym same) ∙ y)
  | inr n ↦ let rest = find_first-contains test xs c (rw n at e) in (ground (arith, rest.0), rest.1)
]

cipher_suite_by_id-id :
    (id : ℕ) (suite : CipherSuiteInfo) → cipher_suite_by_id id ≡ some suite → suite.id ≡ id
unfolding cipher_suite_by_id
cipher_suite_by_id-id id suite e = elim (Bool-cases (id == tls_sm4_gcm_sm3)) [
  | inl a ↦ ground (arith, a, e)
  | inr a ↦ elim (Bool-cases (id == tls_sm4_ccm_sm3)) [
    | inl b ↦ ground (arith, a, b, e)
    | inr b ↦ elim (Bool-cases (id == tls_sm4_gcm_sm3_alt)) [
      | inl c ↦ ground (arith, a, b, c, e)
      | inr c ↦ ground (arith, a, b, c, e)
    ]
  ]
]

chosen_id_lem :
    (clients : List ℕ) (p c : ℕ)
    → chosen_id clients p ≡ some c
    → (contains_uint16 clients c ≡ true)
      × (normalize_cipher_suite_id c ≡ normalize_cipher_suite_id p)
unfolding chosen_id
chosen_id_lem clients p c e = elim (Option-cases (find_first (λ x. x == p) clients)) [
  | inl nothing ↦
      let test : ℕ → Bool = λ x. normalize_cipher_suite_id x == normalize_cipher_suite_id p in
      let found = find_first-contains test clients c (rw (nothing, chosen_id) at e) in
      (found.0, ==→eq _ _ found.1)
  | inr (x, exact) ↦
      let same : x ≡ c = some-injective x c (rw (exact, chosen_id) at e) in
      let found = find_first-contains (λ x'. x' == p) clients x exact in
      (
        ap (contains_uint16 clients) (sym same) ∙ found.0,
        ap normalize_cipher_suite_id (sym same ∙ ==→eq x p found.1),
      )
]

try_suite_lem :
    (clients : List ℕ) (version : ℕ) (curves schemes : List ℕ) (p : ℕ) (suite : CipherSuiteInfo)
    → try_suite clients version curves schemes p ≡ some suite
    → IsChoice clients version curves schemes p suite
unfolding try_suite
try_suite_lem clients version curves schemes p suite e = elim (Option-cases (chosen_id clients p)) [
  | inl nothing ↦ ground (arith, e, nothing)
  | inr (c, chosen) ↦ elim (Option-cases (cipher_suite_by_id c)) [
    | inl nothing ↦ ground (arith, e, chosen, nothing)
    | inr (s, known) ↦ elim (Bool-cases (is_acceptable version curves schemes s)) [
      | inl good ↦
          let found : some s ≡ some suite = ground (arith, chosen, known, good, e) in
          let same : s ≡ suite = some-injective s suite found in
          let number : suite.id ≡ c = cipher_suite_by_id-id c suite (known ∙ found) in
          let (offered, normal) = chosen_id_lem clients p c chosen in
          record {
            listed = ap cipher_suite_by_id number ∙ known ∙ found;
            offered = ap (contains_uint16 clients) number ∙ offered;
            same_suite = ap normalize_cipher_suite_id number ∙ normal;
            acceptable = ap (is_acceptable version curves schemes) (sym same) ∙ good;
          }
      | inr bad ↦ ground (arith, e, chosen, known, bad)
    ]
  ]
]

-- The preferences up to the one that was served.
pub record FirstServed (client_suites : List ℕ) (version : ℕ) (curves schemes prefs : List ℕ)
    (suite : CipherSuiteInfo) : Type 0 where
  pub before : List ℕ
  pub behind : List ℕ
  pub served : ℕ
  pub split_at : prefs ≡ before ++ (served ∷ behind)
  pub refused : All (λ q. try_suite client_suites version curves schemes q ≡ none) before
  pub choice : IsChoice client_suites version curves schemes served suite

select_loop_lem :
    (clients : List ℕ) (version : ℕ) (curves schemes prefs : List ℕ) (suite : CipherSuiteInfo)
    → select_loop clients version curves schemes prefs ≡ some suite
    → FirstServed clients version curves schemes prefs suite
unfolding select_loop
select_loop_lem clients version curves schemes [] suite e = ground (arith, e)
select_loop_lem clients version curves schemes (p ∷ ps) suite e =
    elim (Option-cases (try_suite clients version curves schemes p)) [
      | inl nothing ↦
          let f =
            select_loop_lem clients version curves schemes ps suite
              (rw (nothing, select_loop) at e) in
          record {
            before = p ∷ f.before;
            behind = f.behind;
            served = f.served;
            split_at = ap (λ (xs : List ℕ). p ∷ xs) f.split_at;
            refused = (nothing, f.refused);
            choice = f.choice;
          }
      | inr (s, found) ↦
          let same : some s ≡ some suite = rw (found, select_loop) at e in
          record {
            before = [];
            behind = ps;
            served = p;
            split_at = refl;
            refused = tt;
            choice = try_suite_lem clients version curves schemes p suite (found ∙ same);
          }
    ]

-- The suite that is chosen is in the table under its number, the client offered this number, and
-- it passes the tests of version, curve and signature; it is the suite, up to the alternative
-- number, of a preference, and no preference before that one could be served.
pub select_cipher_suite-first :
    (clients servers : List ℕ) (version : ℕ) (curves schemes : List ℕ) (suite : CipherSuiteInfo)
    → select_cipher_suite clients servers version curves schemes ≡ some suite
    → FirstServed clients version curves schemes (preferences clients servers) suite
unfolding select_cipher_suite
select_cipher_suite-first clients servers version curves schemes suite e =
    select_loop_lem clients version curves schemes (preferences clients servers) suite e

cipher_suite_by_id-version :
    (id : ℕ) (suite : CipherSuiteInfo)
    → cipher_suite_by_id id ≡ some suite
    → (suite.min_tls_version ≡ version_tls13) × (suite.max_tls_version ≡ version_tls13)
unfolding cipher_suite_by_id
cipher_suite_by_id-version id suite e = elim (Bool-cases (id == tls_sm4_gcm_sm3)) [
  | inl a ↦ ground (arith, a, e)
  | inr a ↦ elim (Bool-cases (id == tls_sm4_ccm_sm3)) [
    | inl b ↦ ground (arith, a, b, e)
    | inr b ↦ elim (Bool-cases (id == tls_sm4_gcm_sm3_alt)) [
      | inl c ↦ ground (arith, a, b, c, e)
      | inr c ↦ ground (arith, a, b, c, e)
    ]
  ]
]

is_acceptable-version :
    (version : ℕ) (curves schemes : List ℕ) (suite : CipherSuiteInfo)
    → is_acceptable version curves schemes suite ≡ true
    → (suite.min_tls_version ≤ version)
      × (version ≤ suite.max_tls_version)
      × ((schemes ≡ []) ⊎ (supports_sm2_signature schemes ≡ true))
unfolding is_acceptable cipher_suite_for_version
is_acceptable-version version curves [] suite e = ground (arith, e)
is_acceptable-version version curves (x ∷ xs) suite e = ground (arith, e)

-- A suite is chosen for TLS 1.3 only, and for a client that lists signature schemes only if it
-- lists one of SM2.
pub select_cipher_suite-version :
    (clients servers : List ℕ) (version : ℕ) (curves schemes : List ℕ) (suite : CipherSuiteInfo)
    → select_cipher_suite clients servers version curves schemes ≡ some suite
    → (version ≡ version_tls13) × ((schemes ≡ []) ⊎ (supports_sm2_signature schemes ≡ true))
select_cipher_suite-version clients servers version curves schemes suite e =
    let c = (select_cipher_suite-first clients servers version curves schemes suite e).choice in
    let (low, high) = cipher_suite_by_id-version suite.id suite c.listed in
    let (above, below, signed) = is_acceptable-version version curves schemes suite c.acceptable in
    (omega (arith, low, high, above, below), signed)
