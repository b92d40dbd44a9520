-- ===== src/Handshake/Shared.antt =====
-- conn.go: what `readServerHelloTLS13` and `readClientHelloTLS13` take from the extensions.

use cnnic_gmtls.Base.{
  ℕ, ◌+◌, ◌*◌, List, [], ◌∷◌, ◌==◌, not, if◌then◌else◌, Option, none, some, Outcome, ok, panic,
  ◌>>=◌, ◌>>◌, fail_if, fail, length, get_or,
}
use cnnic_gmtls.Extension.{Extension, extension_key_share, extension_supported_versions, curve_sm2}
use cnnic_gmtls.Extension.KeyShare.{KeyShareEntry, parse_key_share_extension}
use cnnic_gmtls.Handshake.{Library, Shares}
use cnnic_gmtls.Handshake.ClientHello.{curve_x25519}
use cnnic_gmtls.Record.{version_tls13}
use cnnic_gmtls.Sm2.{PrivateKey}
use cnnic_gmtls.Sm2.Keys.{parse_sm2_public_key, derive_sm2_ecdh_shared_secret}
use cnnic_gmtls.X25519.{derive_x25519_shared_secret}

-- The data of the first extension of a type.
unfoldable pub find_extension : ℕ → List Extension → Option (List ℕ)
find_extension t [] = none
find_extension t (e ∷ es) =
    let rest = find_extension t es in if e.ext_type == t then some e.ext_data else rest

-- `binary.BigEndian.Uint16` of two bytes.
abbrev pub uint16_of : List ℕ → ℕ
uint16_of d = get_or d 0 0 * 256 + get_or d 1 0

abbrev pub group_of : Option (List ℕ) → Outcome ℕ
group_of none = ok 0
group_of (some d) =
    if length d == 2 then ok (uint16_of d) else (parse_key_share_extension d >>= λ e. ok e.group)

-- The group that a HelloRetryRequest asks for, 0 if there is none: two bytes, or an entry.
unfoldable pub retry_group : List Extension → Outcome ℕ
unfolding find_extension
retry_group exts = group_of (find_extension extension_key_share exts)

abbrev pub share_of : Option (List ℕ) → Outcome (Option KeyShareEntry)
share_of none = ok none
share_of (some d) = parse_key_share_extension d >>= λ e. ok (some e)

-- The key share of a ServerHello, if it has one.
unfoldable pub server_key_share : List Extension → Outcome (Option KeyShareEntry)
unfolding find_extension
server_key_share exts = share_of (find_extension extension_key_share exts)

abbrev pub check_version : Option (List ℕ) → Outcome (Unit {0})
check_version none = fail "gmtls: server did not send supported_versions extension"
check_version (some d) =
    fail_if (not (length d == 2)) "gmtls: invalid supported_versions extension in ServerHello"
    >> fail_if (not (uint16_of d == version_tls13))
        "gmtls: server selected unsupported version 0x%04x"

-- The version of a ServerHello is 1.3, in its own extension.
unfoldable pub check_supported_version : List Extension → Outcome (Unit {0})
unfolding find_extension
check_supported_version exts = check_version (find_extension extension_supported_versions exts)

module _ (lib : Library) where
  -- The client's private key of SM2 is a type assertion, which panics on nil.
  abbrev pub sm2_secret : Option PrivateKey → List ℕ → Outcome (List ℕ)
  sm2_secret none share = parse_sm2_public_key lib.curve share >>= λ key. panic
  sm2_secret (some p) share =
      parse_sm2_public_key lib.curve share >>= λ key. derive_sm2_ecdh_shared_secret lib.curve p key

  -- The secret that the client shares with the server's entry.
  unfoldable pub client_shared_secret : Shares → KeyShareEntry → Outcome (List ℕ)
  client_shared_secret m e =
      if e.group == curve_x25519
      then derive_x25519_shared_secret lib.curve25519 m.client_x25519_private_key e.key_exchange
      else if e.group == curve_sm2
      then sm2_secret m.client_private_share e.key_exchange
      else fail "gmtls: server selected unsupported group 0x%04x"
