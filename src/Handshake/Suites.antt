-- ===== src/Handshake/Suites.antt =====
-- conn.go: the suites that a client accepts in a ServerHello.
use cnnic_gmtls.Base.{ℕ, ◌≡◌, ◌≢◌, arith, some, ok, err, message, ◌⊎◌, inl, inr, Bool-cases, ◌==◌}
use cnnic_gmtls.Handshake.{Library, Conn}
use cnnic_gmtls.Handshake.ClientHello.{offered_suites}
use cnnic_gmtls.Handshake.ServerHello.{accept_suite}
use cnnic_gmtls.Suite.{gcm_suite, cipher_suite_by_id}
use cnnic_gmtls.Suite.Selection.{
  client_offered_cipher_suite, cipher_suite_for_version, normalize_cipher_suite_id,
}

module _ (lib : Library) (id : ℕ) (s : Conn) (e : s.client_cipher_suites ≡ offered_suites) where
  accept_suite-offered :
      (id ≡ 0x00C6) ⊎ (id ≡ 0x1306)
      → accept_suite lib id s
        ≡ (ok tt, record s { cipher_suite = some (record gcm_suite { id = id }) })
  unfolding accept_suite client_offered_cipher_suite normalize_cipher_suite_id cipher_suite_by_id
      cipher_suite_for_version
  accept_suite-offered h = ground (arith, e, h)

  accept_suite-other :
      id ≢ 0x00C6
      → id ≢ 0x1306
      → accept_suite lib id s
        ≡ (err (message "gmtls: server selected unsupported cipher suite 0x%04x"), s)
  unfolding accept_suite client_offered_cipher_suite normalize_cipher_suite_id cipher_suite_by_id
      cipher_suite_for_version
  accept_suite-other h h' = ground (arith, e, h, h')

-- The number of a ServerHello behind a ClientHello of this client: 0x00C6 and 0x1306 make SM4-GCM
-- the suite of the connection, under that number; any other number, 0x00C7 and 0x1307 of SM4-CCM
-- included, is refused, and changes nothing.
pub accept_suite-cases :
    (lib : Library) (id : ℕ) (s : Conn)
    → s.client_cipher_suites ≡ offered_suites
    → (((id ≡ 0x00C6) ⊎ (id ≡ 0x1306))
        × (accept_suite lib id s
            ≡ (ok tt, record s { cipher_suite = some (record gcm_suite { id = id }) })))
      ⊎ ((id ≢ 0x00C6)
          × (id ≢ 0x1306)
          × (accept_suite lib id s
              ≡ (err (message "gmtls: server selected unsupported cipher suite 0x%04x"), s)))
accept_suite-cases lib id s e = elim (Bool-cases (id == 0x00C6)) [
  | inl a ↦
      let h : id ≡ 0x00C6 = ground (arith, a) in
      inl (inl h, accept_suite-offered lib id s e (inl h))
  | inr a ↦ elim (Bool-cases (id == 0x1306)) [
    | inl b ↦
        let h : id ≡ 0x1306 = ground (arith, b) in
        inl (inr h, accept_suite-offered lib id s e (inr h))
    | inr b ↦
        let h : id ≢ 0x00C6 = ground (arith, a) in
        let h' : id ≢ 0x1306 = ground (arith, b) in inr (h, h', accept_suite-other lib id s e h h')
  ]
]
