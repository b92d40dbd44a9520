-- ===== src/Record/Transfer.antt =====
-- conn.go: a record that one end writes and the other end reads.
use cnnic_gmtls.Base.{
  ℕ, ◌+◌, ◌*◌, ◌/◌, ◌%◌, ◌≡◌, ◌<◌, refl, arith, List, [], ◌∷◌, ◌++◌, true, some, ok, length,
  length-append, take-append, drop-append, put_uint16,
}
use cnnic_gmtls.Base.State.{>>=-ok}
use cnnic_gmtls.Record.{Record, application_data}
use cnnic_gmtls.Record.Gcm.{Aead, Sm4GcmMode, encrypt, decrypt, InStep, decrypt-encrypt}
use cnnic_gmtls.Record.Layer.{
  RecordLayer, read_full, sends_encrypted, receives_encrypted, protect, frame, record_version,
  write_record, unprotect, strip_after_handshake, read_record,
}

-- The bytes `b` are what the other end has sent and this end has not read.
abbrev pub with_incoming : List ℕ → RecordLayer → RecordLayer
with_incoming b s = record s { conn = record (s.conn) { incoming = b } }

module _ (a : Aead) where
  protect_lem :
      (typ : ℕ) (content sealed : List ℕ) (s : RecordLayer) (w w' : Sm4GcmMode)
      → sends_encrypted s ≡ true
      → s.out_cipher ≡ some w
      → encrypt a typ content w ≡ ok (sealed, w')
      → protect a typ content s ≡ (ok (application_data, sealed), record s { out_cipher = some w' })
  unfolding protect
  protect_lem typ content sealed s w w' e c h = ground arith

  unprotect_lem :
      (sealed content : List ℕ) (r : RecordLayer) (m m' : Sm4GcmMode)
      → receives_encrypted r ≡ true
      → r.in_cipher ≡ some m
      → decrypt a sealed m ≡ ok (content, m')
      → unprotect a application_data sealed r ≡ (ok content, record r { in_cipher = some m' })
  unfolding unprotect
  unprotect_lem sealed content r m m' e c h = ground arith

  write_record_lem :
      (typ : ℕ) (content sealed : List ℕ) (s : RecordLayer) (w w' : Sm4GcmMode)
      → s.conn.is_open ≡ true
      → sends_encrypted s ≡ true
      → s.out_cipher ≡ some w
      → encrypt a typ content w ≡ ok (sealed, w')
      → write_record a typ content s ≡ (
        ok tt,
        record s {
          out_cipher = some w';
          next_record_version = 0;
          conn = record (s.conn) {
            outgoing = s.conn.outgoing ++ frame application_data (record_version s) sealed;
          };
        },
      )
  unfolding write_record
  write_record_lem typ content sealed s w w' o e c h =
      ground (arith, protect_lem typ content sealed s w w' e c h)

  read_full_lem :
      (xs rest : List ℕ) (r : RecordLayer)
      → r.conn.is_open ≡ true
      → read_full (length xs) (with_incoming (xs ++ rest) r) ≡ (ok xs, with_incoming rest r)
  unfolding read_full
  read_full_lem xs rest r o =
      ground (arith, length-append xs rest, take-append xs rest, drop-append xs rest)

  read_record_lem :
      (version : ℕ) (sealed content rest : List ℕ) (r : RecordLayer) (m m' : Sm4GcmMode)
      → r.conn.is_open ≡ true
      → receives_encrypted r ≡ true
      → r.in_cipher ≡ some m
      → length sealed < 65536
      → decrypt a sealed m ≡ ok (content, m')
      → let r' = record (with_incoming rest r) { in_cipher = some m' } in
        read_record a (with_incoming (frame application_data version sealed ++ rest) r) ≡ (
          ok (strip_after_handshake application_data (version % 65536) (length sealed) content r'),
          r',
        )
  unfolding read_record frame
  read_record_lem version sealed content rest r m m' o e c l h =
      let n = length sealed in
      let header : List ℕ = application_data ∷ (put_uint16 version ++ put_uint16 n) in
      let size : n / 256 % 256 * 256 + n % 256 ≡ n = omega arith in
      let vers : version / 256 % 256 * 256 + version % 256 ≡ version % 65536 = omega arith in
      >>=-ok (read_full 5) _ _ header _ (read_full_lem header (sealed ++ rest) r o) (
        rw size (
          >>=-ok (read_full n) _ _ sealed _ (read_full_lem sealed rest r o) (
            >>=-ok (unprotect a application_data sealed) _ (with_incoming rest r) content _
              (unprotect_lem sealed content (with_incoming rest r) m m' e c h) (rw vers))))

-- The writing end `s` and the reading end `r` of one direction, after keys are set.
pub record Linked (s r : RecordLayer) (w m : Sm4GcmMode) : Type 0 where
  pub writer_open : s.conn.is_open ≡ true
  pub reader_open : r.conn.is_open ≡ true
  pub writer_encrypts : sends_encrypted s ≡ true
  pub reader_decrypts : receives_encrypted r ≡ true
  pub writer_cipher : s.out_cipher ≡ some w
  pub reader_cipher : r.in_cipher ≡ some m
  pub modes : InStep w m

-- `bytes` went out at the writer, and the reader took them for the record `got`, leaving `rest`;
-- the ends are linked again.
pub record Carries (a : Aead) (typ : ℕ) (content rest : List ℕ) (s r : RecordLayer) (bytes : List ℕ)
    (got : Record) (s' r' : RecordLayer) (w m : Sm4GcmMode) : Type 0 where
  pub written : write_record a typ content s ≡ (ok tt, s')
  pub sent : s'.conn.outgoing ≡ s.conn.outgoing ++ bytes
  pub taken : read_record a (with_incoming (bytes ++ rest) r) ≡ (ok got, r')
  pub left : r'.conn.incoming ≡ rest
  pub as_before : (r'.version ≡ r.version) × (r'.handshake_complete ≡ r.handshake_complete)
  pub writer_as_before : s'.handshake_complete ≡ s.handshake_complete
  pub linked : Linked s' r' w m

module _ (a : Aead) where
  pub carries :
      (typ : ℕ) (content rest : List ℕ) (s r : RecordLayer) (w m : Sm4GcmMode)
      → Linked s r w m
      → typ < 256
      → length content + 17 < 65536
      → (v : ℕ) × (n : ℕ) × (bytes : List ℕ) × (s' : RecordLayer) × (r' : RecordLayer)
        × (w' : Sm4GcmMode) × (m' : Sm4GcmMode) × Carries a typ content rest s r bytes
            (strip_after_handshake application_data v n (content ++ (typ ∷ [])) r')
            s'
            r'
            w'
            m'
  carries typ content rest s r w m h t l =
      let (sealed, w', m', enc, size, dec, step) = decrypt-encrypt a typ content w m h.modes t in
      let v = record_version s in
      let bytes = frame application_data v sealed in
      let s' : RecordLayer = record s {
        out_cipher = some w';
        next_record_version = 0;
        conn = record (s.conn) { outgoing = s.conn.outgoing ++ bytes };
      } in
      let r' : RecordLayer = record (with_incoming rest r) { in_cipher = some m' } in
      (
        v % 65536,
        length sealed,
        bytes,
        s',
        r',
        w',
        m',
        record {
          written =
              write_record_lem a typ content sealed s w w' h.writer_open h.writer_encrypts
                h.writer_cipher enc;
          sent = refl;
          taken =
              read_record_lem a v sealed (content ++ (typ ∷ [])) rest r m m' h.reader_open
                h.reader_decrypts h.reader_cipher (omega (arith, size)) dec;
          left = refl;
          as_before = (refl, refl);
          writer_as_before = refl;
          linked = record {
            writer_open = h.writer_open;
            reader_open = h.reader_open;
            writer_encrypts = h.writer_encrypts;
            reader_decrypts = h.reader_decrypts;
            writer_cipher = refl;
            reader_cipher = refl;
            modes = step;
          };
        },
      )
