-- ===== src/Samples.antt =====
-- Concrete instances of the parameters, for the tests: none of them is the real algorithm.
use cnnic_gmtls.Base.{
  ℕ, ◌+◌, ◌-◌, ◌*◌, ◌%◌, ◌≡◌, ◌≤◌, Bool-cases, inl, inr, length-take, refl, arith, List, [], ◌++◌,
  Bool, true, if◌then◌else◌, ltb, Option, none, some, length, length-append, length-replicate,
  replicate, take, take-append,
}
use cnnic_gmtls.Record.Gcm.{Aead, Sm4GcmMode, InStep}
use cnnic_gmtls.Record.Layer.{RecordLayer}
use cnnic_gmtls.Record.{version_tls13}
use cnnic_gmtls.Schedule.Hkdf.{Sm3}
use cnnic_gmtls.Sm2.{Curve}
use cnnic_gmtls.Sm4.Ecb.{BlockCipher}
use cnnic_gmtls.Stream.{Stream}
use cnnic_gmtls.X25519.{Curve25519}

-- The plaintext with sixteen zeros behind it.
abbrev tag : List ℕ
tag = replicate 16 0

abbrev toy_unseal : List ℕ → Option (List ℕ)
toy_unseal s = if ltb (length s) 16 then none else some (take (length s - 16) s)

pub toy_unseal-seal : (p : List ℕ) → toy_unseal (p ++ tag) ≡ some p
toy_unseal-seal p =
    let size : length (p ++ tag) ≡ length p + 16 = omega (arith, length-append p tag) in
    let front : length (p ++ tag) - 16 ≡ length p = omega (arith, size) in
    ground (arith, size, front, take-append p tag)

pub length-toy_unseal : (s p : List ℕ) → toy_unseal s ≡ some p → length p ≤ length s
length-toy_unseal s p h = elim (Bool-cases (ltb (length s) 16)) [
  | inl e ↦ absurd (ground arith)
  | inr e ↦ ground (arith, length-take (length s - 16) s)
]

abbrev pub toy_aead : Aead
toy_aead = record {
  seal = λ key nonce p ad. p ++ tag;
  unseal = λ key nonce s ad. toy_unseal s;
  unseal-seal = λ key nonce p ad k n. toy_unseal-seal p;
  length-seal = λ key nonce p ad k n. length-append p tag;
  length-unseal = λ key nonce s ad p h. length-toy_unseal s p h;
}

abbrev pub toy_sm3 : Sm3
toy_sm3 = record {
  hash = λ d. replicate 32 (length d % 256);
  hmac = λ key d. replicate 32 ((length key + length d) % 256);
  length-hash = λ d. length-replicate {A = ℕ} 32 (length d % 256);
  length-hmac = λ key d. length-replicate {A = ℕ} 32 ((length key + length d) % 256);
}

abbrev pub toy_cipher : BlockCipher
toy_cipher = record {
  encrypt_block = λ key b. b;
  decrypt_block = λ key b. b;
  length-encrypt_block = λ key b k l. l;
  decrypt-encrypt_block = λ key b k l. refl;
}

-- A mode of a key of sixteen ones and an IV of twelve twos, and two connections that use it.
abbrev pub mode : Sm4GcmMode
mode = record { key = replicate 16 1; fixed_iv = replicate 12 2; write_seq = 0; read_seq = 0 }

abbrev pub in_step : InStep mode mode
in_step = record {
  writer_is = record { key_size = refl; iv_size = refl };
  same_key = refl;
  same_iv = refl;
  same_seq = refl;
}

abbrev layer : Bool → RecordLayer
layer is_client = record {
  conn = record { incoming = []; outgoing = []; is_open = true };
  is_client = is_client;
  version = version_tls13;
  in_cipher = some mode;
  out_cipher = some mode;
  client_encrypted = true;
  server_encrypted = true;
  handshake_complete = true;
  next_record_version = 0;
}

abbrev pub stream : Bool → Stream
stream is_client = record {
  layer = layer is_client;
  app_read_buf = [];
  tickets = [];
  session_tickets = [];
  session_ticket_limit = 0;
  resumption_master_secret = [];
}

abbrev pub toy_curve : Curve
toy_curve = record {
  is_on_curve = λ x y. true;
  scalar_mult = λ x y d. (x * d, y);
  generate_key = λ source. (some (record { d = 7 }, record { x = 1; y = 2 }), source);
  is_private_key = λ d. true;
  is_public_key = λ bs. true;
  sign_asn1 = λ d id msg source. (some msg, source);
  verify = λ key id msg r s. true;
  verify_asn1 = λ key id msg sig. true;
}

abbrev pub toy_curve25519 : Curve25519
toy_curve25519 = record { scalar_mult = λ k p. p; scalar_base_mult = λ k. k }
