-- ===== src/Record/Keeps.antt =====
-- conn.go: the states of the record layer before and after `readRecord` and `writeRecord`.
use cnnic_gmtls.Base.{
  ℕ, ◌+◌, ◌-◌, ◌*◌, ◌≡◌, ◌≤◌, refl, ◌∙◌, arith, List, Bool, true, false, not, ◌==◌, ◌&&◌, Outcome,
  Error, ◌⊎◌, ok, err, message, eof, length, length-drop, length-take_le, length-take, get_or, take,
  leb, Bool-cases, inl, inr, Option-cases, leb→le, if◌then◌else◌,
}
use cnnic_gmtls.Base.Runs.{Runs, Runs-after, Runs-if, Runs-weaken, Runs-yields, Yields}
use cnnic_gmtls.Record.{Record, change_cipher_spec, alert}
use cnnic_gmtls.Record.InnerType.{skip_zeros, strip_inner_content_type}
use cnnic_gmtls.Record.Gcm.{Aead, Sm4GcmMode, decrypt, encrypt, nonce, additional_data}
use cnnic_gmtls.Record.Layer.{
  RecordLayer, receives_encrypted, sends_encrypted, read_full, write_bytes, unprotect, protect,
  strip_after_handshake, read_record, write_record, frame, record_version,
}

abbrev pub unread : RecordLayer → ℕ
unread s = length s.conn.incoming

pub record Keeps (s s' : RecordLayer) : Type 0 where
  pub same_side : s'.is_client ≡ s.is_client
  pub same_version : s'.version ≡ s.version
  pub same_complete : s'.handshake_complete ≡ s.handshake_complete

pub Keeps-refl : (s : RecordLayer) → Keeps s s
Keeps-refl s = record { same_side = refl; same_version = refl; same_complete = refl }

pub Keeps-trans : {s t u : RecordLayer} → Keeps s t → Keeps t u → Keeps s u
Keeps-trans h k = record {
  same_side = k.same_side ∙ h.same_side;
  same_version = k.same_version ∙ h.same_version;
  same_complete = k.same_complete ∙ h.same_complete;
}

-- A step that follows one that keeps these fields.
pub Runs-Keeps :
    {A : Type 0} (s t : RecordLayer) (P : A → RecordLayer → Type 0) (r : Outcome A × RecordLayer)
    → Keeps s t
    → Runs r (Keeps t) P
    → Runs r (Keeps s) P
Runs-Keeps s t P r k h = Runs-weaken (Keeps t) (Keeps s) P P r h (λ u. Keeps-trans k) (λ a u p. p)

end_of_stream-Runs :
    (P : List ℕ → RecordLayer → Type 0) (test : Bool) (s t : RecordLayer)
    → Keeps s t
    → Runs ((if test then err eof else err (message "unexpected EOF")), t) (Keeps s) P
end_of_stream-Runs P true s t k = k
end_of_stream-Runs P false s t k = k

Takes : ℕ → RecordLayer → List ℕ → RecordLayer → Type 0
Takes n s d s' = Keeps s s' × (unread s' + n ≡ unread s) × (length d ≡ n)

read_full-Runs : (n : ℕ) (s : RecordLayer) → Runs (read_full n s) (Keeps s) (Takes n s)
unfolding read_full Takes
read_full-Runs n s =
    let same = Keeps-refl s in
    Runs-if (Keeps s) (Takes n s) (not s.conn.is_open) _ _ (λ _. same)
      (λ _.
        Runs-if (Keeps s) (Takes n s) (leb n (length s.conn.incoming)) _ _
          (λ e.
            let l = leb→le n (length s.conn.incoming) e in
            (
              record { same_side = refl; same_version = refl; same_complete = refl },
              omega (arith, length-drop n s.conn.incoming, l),
              length-take n s.conn.incoming l,
            ))
          (λ _.
            end_of_stream-Runs (Takes n s) (length s.conn.incoming == 0) s _
              (record { same_side = refl; same_version = refl; same_complete = refl })))

Unprotects : List ℕ → RecordLayer → List ℕ → RecordLayer → Type 0
Unprotects payload s d s' = Keeps s s' × (unread s' ≡ unread s) × (length d ≤ length payload)

module _ (a : Aead) where
  decrypt-Yields :
      (payload : List ℕ) (m : Sm4GcmMode)
      → Yields (decrypt a payload m) (λ r. length r.0 ≤ length payload)
  unfolding decrypt
  decrypt-Yields payload m = elim (Bool-cases (length m.key == 16)) [
    | inr e ↦ rw e tt
    | inl e ↦
        let n = nonce m.fixed_iv m.read_seq in
        let ad = additional_data (length payload) in
        elim (Option-cases (a.unseal m.key n payload ad)) [
          | inl none_is ↦ rw (e, none_is) tt
          | inr (plain, some_is) ↦
              rw (e, some_is) (a.length-unseal m.key n payload ad plain some_is)
        ]
  ]

  unprotect-Runs :
      (typ : ℕ) (payload : List ℕ) (s : RecordLayer)
      → Runs (unprotect a typ payload s) (Keeps s) (Unprotects payload s)
  unfolding unprotect Unprotects
  unprotect-Runs typ payload s = elim (Option-cases s.in_cipher) [
    | inl e ↦ rw e (Keeps-refl _, refl, omega arith)
    | inr (m, e) ↦ rw e (
        Runs-if _ _ (not (typ == change_cipher_spec) && not (typ == alert) && receives_encrypted s)
          _ _
          (λ _.
            Runs-yields _ (λ r. length r.0 ≤ length payload) _ (decrypt a payload m) _ _
              (decrypt-Yields payload m) (Keeps-refl _)
              (λ r l.
                (record { same_side = refl; same_version = refl; same_complete = refl }, refl, l)))
          (λ _. (Keeps-refl _, refl, omega arith)))
  ]

pub strip_inner_content_type-cases :
    (d : List ℕ)
    → ((x : Error) × (strip_inner_content_type d ≡ err x))
      ⊎ ((r : List ℕ × ℕ) × (strip_inner_content_type d ≡ ok r) × (length r.0 ≤ length d))
unfolding strip_inner_content_type
strip_inner_content_type-cases d = elim (Bool-cases (length d == 0)) [
  | inl e ↦ inl (message "gmtls: empty TLS 1.3 record", rw e refl)
  | inr e ↦ elim (Bool-cases (skip_zeros d (length d) == 0)) [
    | inl z ↦ inl (message "gmtls: TLS 1.3 record has no inner content type", rw (e, z) refl)
    | inr z ↦
        let end' = skip_zeros d (length d) in
        inr
          ((take (end' - 1) d, get_or d (end' - 1) 0), rw (e, z) refl, length-take_le (end' - 1) d)
  ]
]

strip_after_handshake_le :
    (typ version n : ℕ) (payload : List ℕ) (s : RecordLayer)
    → length (strip_after_handshake typ version n payload s).content ≤ length payload
unfolding strip_after_handshake
strip_after_handshake_le typ version n payload s = elim (strip_inner_content_type-cases payload) [
  | inl (x, e) ↦ ground (arith, e)
  | inr (r, e, l) ↦ ground (arith, e, l)
]

-- A record takes its header and its content, at least, off the connection.
abbrev pub Reads : RecordLayer → Record → RecordLayer → Type 0
Reads s rec s' = Keeps s s' × (length rec.content + unread s' + 5 ≤ unread s)

module _ (a : Aead) where
  pub read_record-Runs : (s : RecordLayer) → Runs (read_record a s) (Keeps s) (Reads s)
  unfolding read_record Takes Unprotects
  read_record-Runs s =
      Runs-after (Keeps s) (Takes 5 s) _ (read_full 5 s) _ (read_full-Runs 5 s) (λ header t h.
        let typ = get_or header 0 0 in
        let n = get_or header 3 0 * 256 + get_or header 4 0 in
        Runs-after (Keeps s) (λ d u. Keeps s u × (unread u + n ≡ unread t) × (length d ≡ n)) _
          (read_full n t) _
          (Runs-weaken (Keeps t) (Keeps s) (Takes n t) _ (read_full n t) (read_full-Runs n t)
            (λ u. Keeps-trans h.0) (λ d u k. (Keeps-trans h.0 k.0, k.1, k.2)))
          (λ payload u k.
            Runs-after (Keeps s)
              (λ d v. Keeps s v × (unread v ≡ unread u) × (length d ≤ length payload)) _
              (unprotect a typ payload u) _
              (Runs-weaken (Keeps u) (Keeps s) (Unprotects payload u) _ (unprotect a typ payload u)
                (unprotect-Runs a typ payload u) (λ v. Keeps-trans k.0)
                (λ d v l. (Keeps-trans k.0 l.0, l.1, l.2)))
              (λ content v l. (
                l.0,
                omega (
                  arith,
                  strip_after_handshake_le typ (get_or header 1 0 * 256 + get_or header 2 0) n
                      content v,
                ),
              ))))

  encrypt-Yields :
      (typ : ℕ) (content : List ℕ) (m : Sm4GcmMode) → Yields (encrypt a typ content m) (λ _. Unit)
  unfolding encrypt
  encrypt-Yields typ content m = ground arith

  protect-Runs :
      (typ : ℕ) (content : List ℕ) (s : RecordLayer)
      → Runs (protect a typ content s) (Keeps s) (λ _ s'. Keeps s s')
  unfolding protect
  protect-Runs typ content s = elim (Option-cases s.out_cipher) [
    | inl e ↦ rw e (Keeps-refl _)
    | inr (m, e) ↦ rw e (
        Runs-if _ _ (sends_encrypted s) _ _
          (λ _.
            Runs-yields _ (λ _. Unit) _ (encrypt a typ content m) _ _ (encrypt-Yields typ content m)
              (Keeps-refl _)
              (λ r u. record { same_side = refl; same_version = refl; same_complete = refl }))
          (λ _. Keeps-refl _))
  ]

  write_bytes-Runs :
      (b : List ℕ) (s : RecordLayer) → Runs (write_bytes b s) (Keeps s) (λ _ s'. Keeps s s')
  unfolding write_bytes
  write_bytes-Runs b s =
      Runs-if _ _ s.conn.is_open _ _
        (λ _. record { same_side = refl; same_version = refl; same_complete = refl })
        (λ _. Keeps-refl s)

  pub write_record-Runs :
      (typ : ℕ) (content : List ℕ) (s : RecordLayer)
      → Runs (write_record a typ content s) (Keeps s) (λ _ s'. Keeps s s')
  unfolding write_record
  write_record-Runs typ content s =
      Runs-after (Keeps s) (λ _ t. Keeps s t) _ (protect a typ content s) _
        (protect-Runs typ content s)
        (λ r t h.
          let t' : RecordLayer = record t { next_record_version = 0 } in
          let same : Keeps s t' = record {
            same_side = h.same_side;
            same_version = h.same_version;
            same_complete = h.same_complete;
          } in
          let data' = frame r.0 (record_version t) r.1 in
          Runs-weaken (Keeps t') (Keeps s) (λ _ u. Keeps t' u) _ (write_bytes data' t')
            (write_bytes-Runs data' t') (λ u. Keeps-trans same) (λ _ u. Keeps-trans same))
