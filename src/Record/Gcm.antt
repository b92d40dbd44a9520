-- ===== src/Record/Gcm.antt =====
-- cipher.go: `SM4GCMMode`, the AEAD of the record layer with a sequence number for each direction.
use cnnic_gmtls.Base.{
  ℕ, ◌+◌, ◌%◌, ◌^◌, ◌≡◌, ◌≤◌, ◌<◌, ap, ◌∙◌, arith, List, [], ◌∷◌, ◌++◌, ◌==◌, not, if◌then◌else◌,
  Option, none, some, Outcome, ok, err, panic, message, ◌>>◌, fail_if, length, length-append, take,
  drop, length-take, length-drop, put_uint16, put_uint64,
}
use cnnic_gmtls.Record.{application_data}
use cnnic_gmtls.Record.Xor.{xor_bytes, length-xor_bytes}

-- `cipher.AEAD` as `NewSM4GCM` makes it: GCM over the SM4 block cipher, both from outside the
-- repository. The laws are those of the documentation: `Open` undoes `Seal`, which adds a tag of
-- 16 bytes, and returns no more bytes than it is given.
pub record Aead : Type 0 where
  pub seal : List ℕ → List ℕ → List ℕ → List ℕ → List ℕ
  pub unseal : List ℕ → List ℕ → List ℕ → List ℕ → Option (List ℕ)
  pub unseal-seal :
      (key nonce plaintext ad : List ℕ)
      → length key ≡ 16
      → length nonce ≡ 12
      → unseal key nonce (seal key nonce plaintext ad) ad ≡ some plaintext
  pub length-seal :
      (key nonce plaintext ad : List ℕ)
      → length key ≡ 16
      → length nonce ≡ 12
      → length (seal key nonce plaintext ad) ≡ length plaintext + 16
  pub length-unseal :
      (key nonce sealed ad plaintext : List ℕ)
      → unseal key nonce sealed ad ≡ some plaintext
      → length plaintext ≤ length sealed

pub record Sm4GcmMode : Type 0 where
  pub key : List ℕ
  pub fixed_iv : List ℕ
  pub write_seq : ℕ
  pub read_seq : ℕ

-- `NewSM4GCMMode`
unfoldable pub new_sm4_gcm_mode : List ℕ → List ℕ → Outcome Sm4GcmMode
new_sm4_gcm_mode key fixed_iv = do
  fail_if (not (length key == 16)) "gmtls: invalid key size for SM4-GCM"
  fail_if (not (length fixed_iv == 12)) "gmtls: invalid IV length for SM4-GCM"
  ok (record { key = key; fixed_iv = fixed_iv; write_seq = 0; read_seq = 0 })

-- The last eight bytes of the fixed IV are combined with the sequence number.
unfoldable pub nonce : List ℕ → ℕ → List ℕ
nonce fixed_iv seq = take 4 fixed_iv ++ xor_bytes (drop 4 fixed_iv) (put_uint64 seq)

-- The header of the record, with the length of what is sealed.
abbrev pub additional_data : ℕ → List ℕ
additional_data n = application_data ∷ 3 ∷ 3 ∷ put_uint16 n

module _ (a : Aead) where
  -- `Encrypt`, which always returns with no error; `NewSM4GCM` panics on a wrong key size.
  unfoldable pub encrypt : ℕ → List ℕ → Sm4GcmMode → Outcome (List ℕ × Sm4GcmMode)
  encrypt record_type plaintext m =
      let inner : List ℕ = plaintext ++ ((record_type % 256) ∷ []) in
      let sealed =
        a.seal m.key (nonce m.fixed_iv m.write_seq) inner (additional_data (length inner + 16)) in
      if length m.key == 16
      then ok (sealed, record m { write_seq = (m.write_seq + 1) % 2 ^ 64 })
      else panic

  -- `Decrypt`; the sequence number moves only if the record is authentic.
  unfoldable pub decrypt : List ℕ → Sm4GcmMode → Outcome (List ℕ × Sm4GcmMode)
  decrypt sealed m =
      let opened =
        a.unseal m.key (nonce m.fixed_iv m.read_seq) sealed (additional_data (length sealed)) in
      if length m.key == 16
      then elim opened [
        | none ↦ err (message "cipher: message authentication failed")
        | some plaintext ↦ ok (plaintext, record m { read_seq = (m.read_seq + 1) % 2 ^ 64 })
      ]
      else panic

-- What `NewSM4GCMMode` lets through.
pub record IsMode (m : Sm4GcmMode) : Type 0 where
  pub key_size : length m.key ≡ 16
  pub iv_size : length m.fixed_iv ≡ 12

-- The reader opens with the key, the IV and the sequence number that the writer seals with.
pub record InStep (writer reader : Sm4GcmMode) : Type 0 where
  pub writer_is : IsMode writer
  pub same_key : reader.key ≡ writer.key
  pub same_iv : reader.fixed_iv ≡ writer.fixed_iv
  pub same_seq : reader.read_seq ≡ writer.write_seq

pub length-nonce : (iv : List ℕ) (seq : ℕ) → length iv ≡ 12 → length (nonce iv seq) ≡ 12
unfolding nonce
length-nonce iv seq h = omega (
  arith,
  length-append (take 4 iv) (xor_bytes (drop 4 iv) (put_uint64 seq)),
  length-take 4 iv (omega arith),
  length-drop 4 iv,
  length-xor_bytes (drop 4 iv) (put_uint64 seq),
)

-- Modes made from one key and one IV are in step.
pub new-InStep :
    (key iv : List ℕ) (w r : Sm4GcmMode)
    → new_sm4_gcm_mode key iv ≡ ok w
    → new_sm4_gcm_mode key iv ≡ ok r
    → InStep w r
unfolding new_sm4_gcm_mode
new-InStep key iv w r hw hr = ground arith

module _ (a : Aead) where
  decrypt_lem :
      (sealed plaintext : List ℕ) (m : Sm4GcmMode)
      → length m.key ≡ 16
      → a.unseal m.key (nonce m.fixed_iv m.read_seq) sealed (additional_data (length sealed))
        ≡ some plaintext
      → decrypt a sealed m ≡ ok (plaintext, record m { read_seq = (m.read_seq + 1) % 2 ^ 64 })
  unfolding decrypt
  decrypt_lem sealed plaintext m k e = rw e (ground (arith, k))

  -- With modes in step and a type of one byte, `Encrypt` returns 17 bytes more than it gets,
  -- `Decrypt` opens them to the content and the type, and the modes are in step again.
  pub decrypt-encrypt :
      (record_type : ℕ) (plaintext : List ℕ) (w r : Sm4GcmMode)
      → InStep w r
      → record_type < 256
      → (sealed : List ℕ) × (w' : Sm4GcmMode) × (r' : Sm4GcmMode) × (encrypt a record_type plaintext
            w
          ≡ ok (sealed, w'))
        × (length sealed ≡ length plaintext + 17)
        × (decrypt a sealed r ≡ ok (plaintext ++ (record_type ∷ []), r'))
        × InStep w' r'
  unfolding encrypt
  decrypt-encrypt t p w r h ht =
      let inner : List ℕ = p ++ (t ∷ []) in
      let n = nonce w.fixed_iv w.write_seq in
      let ad = additional_data (length inner + 16) in
      let small : t % 256 ≡ t = omega arith in
      let sealed = a.seal w.key n inner ad in
      let size =
        a.length-seal w.key n inner ad h.writer_is.key_size
          (length-nonce w.fixed_iv w.write_seq h.writer_is.iv_size) in
      let opened =
        a.unseal-seal w.key n inner ad h.writer_is.key_size
          (length-nonce w.fixed_iv w.write_seq h.writer_is.iv_size) in
      (
        sealed,
        record w { write_seq = (w.write_seq + 1) % 2 ^ 64 },
        record r { read_seq = (r.read_seq + 1) % 2 ^ 64 },
        ground (arith, small),
        omega (arith, size, length-append p (t ∷ [])),
        decrypt_lem sealed (p ++ (t ∷ [])) r (ap length h.same_key ∙ h.writer_is.key_size)
            (rw (h.same_key, h.same_iv, h.same_seq, size) opened),
        record {
          writer_is = record { key_size = h.writer_is.key_size; iv_size = h.writer_is.iv_size };
          same_key = h.same_key;
          same_iv = h.same_iv;
          same_seq = ap (λ (k : ℕ). (k + 1) % 2 ^ 64) h.same_seq;
        },
      )
