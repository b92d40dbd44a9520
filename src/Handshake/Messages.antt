-- ===== src/Handshake/Messages.antt =====
-- conn.go: the runs of `readTLS13HandshakeMsg` and of the loop of `readCertificateTLS13`.
use cnnic_gmtls.Base.{
  ℕ, zero, suc, ◌+◌, ◌≡◌, ◌≤◌, ◌<◌, refl, arith, List, [], ◌∷◌, leb, Option, none, some, ok,
  Bool-cases, inl, inr, ◌⊎◌, ◌*◌, take, drop, length, length-append, length-take, length-drop,
  leb→le,
}
use cnnic_gmtls.Base.State.{◌>>=◌}
use cnnic_gmtls.Base.Runs.{Runs, Runs-after, Runs-weaken, Runs-yields, Runs-into, Yields}
use cnnic_gmtls.Handshake.{Wire}
use cnnic_gmtls.Handshake.Content.{take_message, inner_content, handshake_content}
use cnnic_gmtls.Handshake.Reading.{add_content, receive, read_messages, read_tls13_handshake_msg}
use cnnic_gmtls.Record.{Record}
use cnnic_gmtls.Record.Gcm.{Aead}
use cnnic_gmtls.Record.Keeps.{
  unread, Keeps, Keeps-refl, Keeps-trans, Reads, read_record-Runs, strip_inner_content_type-cases,
}
use cnnic_gmtls.Record.Layer.{read_record}

-- The bytes that messages may still be taken from.
abbrev pub size : Wire → ℕ
size w = length w.handshake_buf + unread w.layer

abbrev pub KeepsWire : Wire → Wire → Type 0
KeepsWire w w' = Keeps w.layer w'.layer

abbrev Fits : List ℕ → Option (List ℕ) → Type 0
Fits d none = Unit
Fits d (some p) = length p ≤ length d

inner_content-Yields :
    (d : List ℕ) (r : List ℕ × ℕ) → length r.0 ≤ length d → Yields (inner_content r) (Fits d)
unfolding inner_content
inner_content-Yields d (x, t) h = ground (arith, h)

handshake_content-Yields :
    (version : ℕ) (rec : Record) → Yields (handshake_content version rec) (Fits rec.content)
unfolding handshake_content
handshake_content-Yields version rec = elim (strip_inner_content_type-cases rec.content) [
  | inl (x, e) ↦ ground (arith, e)
  | inr (r, e, l) ↦ ground (arith, e, inner_content-Yields rec.content r l)
]

Splits : List ℕ → List ℕ × List ℕ → Type 0
Splits buf r =
    (take_message buf ≡ some r) × (4 ≤ length r.0) × (length r.0 + length r.1 ≡ length buf)

take_message-cases :
    (buf : List ℕ) → (take_message buf ≡ none) ⊎ ((r : List ℕ × List ℕ) × Splits buf r)
unfolding take_message Splits
take_message-cases [] = inl refl
take_message-cases (t ∷ []) = inl refl
take_message-cases (t ∷ a ∷ []) = inl refl
take_message-cases (t ∷ a ∷ b ∷ []) = inl refl
take_message-cases (t ∷ a ∷ b ∷ c ∷ rest) =
    let total : ℕ = 4 + (a * 65536 + b * 256 + c) in
    let buf : List ℕ = t ∷ a ∷ b ∷ c ∷ rest in
    elim (Bool-cases (leb total (length buf))) [
      | inl e ↦
          let l = leb→le total (length buf) e in
          let taken = length-take total buf l in
          inr (
            (take total buf, drop total buf),
            (rw e refl, omega (arith, taken), omega (arith, taken, length-drop total buf, l)),
          )
      | inr e ↦ inl (rw e refl)
    ]

Received : Wire → Wire → Type 0
Received w w' = KeepsWire w w' × (unread w'.layer + 5 ≤ unread w.layer) × (size w' ≤ size w)

abbrev pub MessageRead : Wire → List ℕ → Wire → Type 0
MessageRead w msg w' = KeepsWire w w' × (4 ≤ length msg) × (size w' + 4 ≤ size w)

add_content-Runs :
    (w : Wire) (d : List ℕ) (p : Option (List ℕ)) (v : Wire)
    → Keeps w.layer v.layer
    → length d + unread v.layer + 5 ≤ unread w.layer
    → v.handshake_buf ≡ w.handshake_buf
    → Fits d p
    → Runs (add_content p v) (KeepsWire w) (λ _. Received w)
unfolding add_content Received
add_content-Runs w d none v k l e f = (k, omega arith, rw e (omega arith))
add_content-Runs w d (some p) v k l e f =
    (k, omega arith, rw e (omega (arith, length-append w.handshake_buf p)))

module _ (a : Aead) where
  receive-Runs : (w : Wire) → Runs (receive a w) (KeepsWire w) (λ _. Received w)
  unfolding receive
  receive-Runs w =
      Runs-into (Keeps w.layer) (Reads w.layer) (KeepsWire w) (λ _. Received w)
        (λ l. record w { layer = l }) (read_record a w.layer) _ (read_record-Runs a w.layer)
        (λ l k. k)
        (λ rec l h.
          Runs-yields (KeepsWire w) (Fits rec.content) (λ _. Received w)
            (handshake_content l.version rec) (record w { layer = l }) add_content
            (handshake_content-Yields l.version rec) h.0
            (λ p f. add_content-Runs w rec.content p (record w { layer = l }) h.0 h.1 refl f))

  pub read_messages-some :
      (fuel : ℕ) (w : Wire) (r : List ℕ × List ℕ)
      → take_message w.handshake_buf ≡ some r
      → read_messages a (suc fuel) w ≡ (ok r.0, record w { handshake_buf = r.1 })
  unfolding read_messages
  read_messages-some fuel w r e = rw (e, read_messages) refl

  pub read_messages-none :
      (fuel : ℕ) (w : Wire)
      → take_message w.handshake_buf ≡ none
      → read_messages a (suc fuel) w ≡ (receive a >>= λ _. read_messages a fuel) w
  unfolding read_messages
  read_messages-none fuel w e = rw (e, read_messages) refl

  read_messages-Runs :
      (fuel : ℕ) (w : Wire)
      → unread w.layer < fuel
      → Runs (read_messages a fuel w) (KeepsWire w) (MessageRead w)
  unfolding Splits Received
  read_messages-Runs zero w h = absurd (omega arith)
  read_messages-Runs (suc fuel) w h = elim (take_message-cases w.handshake_buf) [
    | inr (r, (found, short, total)) ↦
        rw (read_messages-some fuel w r found) (Keeps-refl w.layer, short, omega arith)
    | inl e ↦ rw (read_messages-none fuel w e) (
        Runs-after (KeepsWire w) (λ _. Received w) (MessageRead w) (receive a w) _ (receive-Runs w)
          (λ _ v k.
            Runs-weaken (KeepsWire v) (KeepsWire w) (MessageRead v) (MessageRead w)
              (read_messages a fuel v) (read_messages-Runs fuel v (let l = k.1 in omega arith))
              (λ u. Keeps-trans k.0)
              (λ msg u m. (Keeps-trans k.0 m.0, m.1, let l = k.2 in let l' = m.2 in omega arith))))
  ]

  pub read_tls13_handshake_msg-Runs :
      (w : Wire) → Runs (read_tls13_handshake_msg a w) (KeepsWire w) (MessageRead w)
  unfolding read_tls13_handshake_msg
  read_tls13_handshake_msg-Runs w = read_messages-Runs _ w (omega arith)
