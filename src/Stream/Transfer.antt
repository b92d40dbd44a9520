-- ===== src/Stream/Transfer.antt =====
-- conn.go: what `Write` sends and `Read` gets.
use cnnic_gmtls.Base.{
  ℕ, suc, ◌+◌, ◌-◌, ◌≡◌, ◌<◌, refl, ap, ◌∙◌, arith, List, [], ◌∷◌, ◌++◌, true, false, some, Outcome,
  ok, length, length-append, get_or, ltb, inl, inr, ◌⊎◌, get_or-append_right,
}
use cnnic_gmtls.Base.State.{>>=-ok}
use cnnic_gmtls.Record.{Record, application_data, version_tls13}
use cnnic_gmtls.Record.InnerType.{
  strip_inner_content_type, is_inner_type_byte, strip-inner_plaintext,
}
use cnnic_gmtls.Record.Gcm.{Aead, Sm4GcmMode}
use cnnic_gmtls.Record.Layer.{RecordLayer, read_record, write_record, strip_after_handshake}
use cnnic_gmtls.Record.Transfer.{Linked, carries, with_incoming}
use cnnic_gmtls.Schedule.Hkdf.{Sm3}
use cnnic_gmtls.Stream.{Stream, on_layer}
use cnnic_gmtls.Stream.Tickets.{unwrap_application_data, unwrap_inner}
use cnnic_gmtls.Stream.Rw.{deliver, unwrap, read_loop, read, write}

-- A record of application data, after the handshake.
strip_after_handshake-data :
    (v n : ℕ) (content : List ℕ) (r : RecordLayer)
    → r.version ≡ version_tls13
    → r.handshake_complete ≡ true
    → strip_after_handshake application_data v n (content ++ (application_data ∷ [])) r
      ≡ record { typ = application_data; version = v; length' = n; content = content }
unfolding strip_after_handshake
strip_after_handshake-data v n content r e d =
    let stripped : strip_inner_content_type (content ++ (application_data ∷ []))
        ≡ ok (content, application_data) =
      strip-inner_plaintext content application_data 0 (ground arith) in
    ground (arith, stripped, e, d)

module _ (a : Aead) (h : Sm3) where
  read_loop_lem :
      (now fuel n : ℕ) (rec : Record) (payload : List ℕ) (s : Stream) (l : RecordLayer)
      → read_record a s.layer ≡ (ok rec, l)
      → rec.typ ≡ application_data
      → unwrap a h now rec.content (record s { layer = l })
        ≡ (ok (some payload), record s { layer = l })
      → read_loop a h now (suc fuel) n s ≡ deliver n payload (record s { layer = l })
  unfolding read_loop
  read_loop_lem now fuel n rec payload s l e t u =
      let s' = record s { layer = l } in
      let step : on_layer (read_record a) s ≡ (ok rec, s') =
        ap (λ (r : Outcome Record × RecordLayer). (r.0, record s { layer = r.1 })) e in
      >>=-ok (on_layer (read_record a)) _ s rec s' step
        (rw t (>>=-ok (unwrap a h now rec.content) _ s' (some payload) s' u refl))

  -- One record that unwraps to a payload ends the loop.
  read_lem :
      (now n : ℕ) (rec : Record) (payload : List ℕ) (s : Stream) (l : RecordLayer)
      → s.layer.handshake_complete ≡ true
      → s.app_read_buf ≡ []
      → read_record a s.layer ≡ (ok rec, l)
      → rec.typ ≡ application_data
      → unwrap a h now rec.content (record s { layer = l })
        ≡ (ok (some payload), record s { layer = l })
      → read a h now n s ≡ deliver n payload (record s { layer = l })
  unfolding read
  read_lem now n rec payload s l c b e t u =
      let empty : ltb 0 (length s.app_read_buf) ≡ false = ground (arith, b) in
      simp (c, empty) (read_loop_lem now (length s.layer.conn.incoming) n rec payload s l e t u)

  write_lem :
      (b : List ℕ) (s : Stream) (l : RecordLayer)
      → s.layer.handshake_complete ≡ true
      → write_record a application_data b s.layer ≡ (ok tt, l)
      → write a h b s ≡ (ok (length b), record s { layer = l })
  unfolding write
  write_lem b s l c e =
      let s' = record s { layer = l } in
      let step : on_layer (write_record a application_data b) s ≡ (ok tt, s') =
        ap (λ (r : Outcome (Unit {0}) × RecordLayer). (r.0, record s { layer = r.1 })) e in
      simp c (>>=-ok (on_layer (write_record a application_data b)) _ s tt s' step refl)

-- Data that `unwrapTLS13ApplicationData` leaves as it is.
abbrev pub IsPlain : List ℕ → Type 0
IsPlain b = (b ≡ []) ⊎ (is_inner_type_byte (get_or b (length b - 1) 0) ≡ false)

unwrap-IsPlain :
    (a : Aead) (h : Sm3) (now : ℕ) (b : List ℕ) (s : Stream)
    → IsPlain b
    → unwrap a h now b s ≡ (ok (some b), s)
unfolding unwrap unwrap_application_data
unwrap-IsPlain a h now b s (inl e) = ground (arith, e)
unwrap-IsPlain a h now b s (inr e) = ground (arith, e)

-- Data that ends in the type of application data: `d` and the byte 23.
unwrap-data_type :
    (a : Aead) (h : Sm3) (now : ℕ) (d : List ℕ) (s : Stream)
    → s.layer.version ≡ version_tls13
    → unwrap a h now (d ++ (application_data ∷ [])) s ≡ (ok (some d), s)
unfolding unwrap unwrap_application_data unwrap_inner is_inner_type_byte
unwrap-data_type a h now d s v =
    let b : List ℕ = d ++ (application_data ∷ []) in
    let size : length b ≡ suc (length d) = omega (arith, length-append d (application_data ∷ [])) in
    let last : length b - 1 ≡ 0 + length d = omega (arith, size) in
    let byte : get_or b (length b - 1) 0 ≡ application_data =
      ap (λ (i : ℕ). get_or b i 0) last ∙ get_or-append_right d (application_data ∷ []) 0 0 in
    let stripped : strip_inner_content_type b ≡ ok (d, application_data) =
      strip-inner_plaintext d application_data 0 (ground arith) in
    ground (arith, v, size, byte, stripped)

-- A connection whose record layer is about to read `bytes`.
abbrev pub receiving : List ℕ → Stream → Stream
receiving bytes r = record r { layer = with_incoming bytes r.layer }

-- The writing end `s` and the reading end `r`, after the handshake and with nothing kept back.
pub record Connected (s r : Stream) (w m : Sm4GcmMode) : Type 0 where
  pub layers : Linked s.layer r.layer w m
  pub writer_complete : s.layer.handshake_complete ≡ true
  pub reader_complete : r.layer.handshake_complete ≡ true
  pub reader_version : r.layer.version ≡ version_tls13
  pub nothing_kept : r.app_read_buf ≡ []

-- `Write(b)` sends `bytes`, and `Read` for `n` bytes takes them and delivers from `got`, leaving
-- `rest`; before the delivery the ends are connected again.
pub record Transfers (a : Aead) (h : Sm3) (now n : ℕ) (b got rest : List ℕ) (s r : Stream)
    (bytes : List ℕ) (s' r' : Stream) (w m : Sm4GcmMode) : Type 0 where
  pub written : write a h b s ≡ (ok (length b), s')
  pub sent : s'.layer.conn.outgoing ≡ s.layer.conn.outgoing ++ bytes
  pub taken : read a h now n (receiving (bytes ++ rest) r) ≡ deliver n got r'
  pub left : r'.layer.conn.incoming ≡ rest
  pub connected : Connected s' r' w m

module _ (a : Aead) (h : Sm3) where
  transfers :
      (now n : ℕ) (b got rest : List ℕ) (s r : Stream) (w m : Sm4GcmMode)
      → Connected s r w m
      → length b + 17 < 65536
      → ((x : Stream) → x.layer.version ≡ version_tls13 → unwrap a h now b x ≡ (ok (some got), x))
      → (bytes : List ℕ) × (s' : Stream) × (r' : Stream) × (w' : Sm4GcmMode) × (m' : Sm4GcmMode)
        × Transfers a h now n b got rest s r bytes s' r' w' m'
  transfers now n b got rest s r w m c l u =
      let (v, k, bytes, ls, lr, w', m', t) =
        carries a application_data b rest s.layer r.layer w m c.layers (ground arith) l in
      let (vers, done) = t.as_before in
      let vers' = vers ∙ c.reader_version in
      let done' = done ∙ c.reader_complete in
      let r' = record r { layer = lr } in
      let rec : Record = record { typ = application_data; version = v; length' = k; content = b } in
      let got_record : read_record a (with_incoming (bytes ++ rest) r.layer) ≡ (ok rec, lr) =
        t.taken
        ∙ ap (λ (x : Record). (ok x, lr)) (strip_after_handshake-data v k b lr vers' done') in
      (
        bytes,
        record s { layer = ls },
        r',
        w',
        m',
        record {
          written = write_lem a h b s ls c.writer_complete t.written;
          sent = t.sent;
          taken =
              read_lem a h now n rec got (receiving (bytes ++ rest) r) lr c.reader_complete
                c.nothing_kept got_record refl (u r' vers');
          left = t.left;
          connected = record {
            layers = t.linked;
            writer_complete = t.writer_as_before ∙ c.writer_complete;
            reader_complete = done';
            reader_version = vers';
            nothing_kept = c.nothing_kept;
          };
        },
      )

  -- After a handshake of TLS 1.3, with keys in step and nothing kept back, what one end writes
  -- arrives if it is shorter than 65519 bytes and empty or does not end in the byte of a record
  -- type: `Write` reports its length, and `Read` delivers all of it, up to the size asked for,
  -- keeping the rest. The ends are connected again before the delivery.
  pub read-write :
      (now n : ℕ) (b rest : List ℕ) (s r : Stream) (w m : Sm4GcmMode)
      → Connected s r w m
      → length b + 17 < 65536
      → IsPlain b
      → (bytes : List ℕ) × (s' : Stream) × (r' : Stream) × (w' : Sm4GcmMode) × (m' : Sm4GcmMode)
        × Transfers a h now n b b rest s r bytes s' r' w' m'
  read-write now n b rest s r w m c l p =
      transfers now n b b rest s r w m c l (λ x _. unwrap-IsPlain a h now b x p)

  -- Under the same conditions, data that is `d` and the byte 23, the type of application data,
  -- is reported as written in full, but `Read` delivers `d`: the last byte is lost.
  pub read-write_data_type :
      (now n : ℕ) (d rest : List ℕ) (s r : Stream) (w m : Sm4GcmMode)
      → Connected s r w m
      → length d + 18 < 65536
      → (bytes : List ℕ) × (s' : Stream) × (r' : Stream) × (w' : Sm4GcmMode) × (m' : Sm4GcmMode)
        × Transfers a h now n (d ++ (application_data ∷ [])) d rest s r bytes s' r' w' m'
  read-write_data_type now n d rest s r w m c l =
      let size = length-append d (application_data ∷ []) in
      transfers now n (d ++ (application_data ∷ [])) d rest s r w m c (omega (arith, size))
        (λ x v. unwrap-data_type a h now d x v)
