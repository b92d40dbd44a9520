-- ===== src/Stream/Termination.antt =====
-- conn.go: the loop of `Read`, and what a record takes off the connection.
use cnnic_gmtls.Base.{
  ℕ, zero, suc, ◌+◌, ◌≡◌, ◌<◌, ◌≤◌, refl, ap, ◌∙◌, arith, List, not, ◌==◌, Option, none, some,
  Outcome, ok, err, panic, stuck, length, leb, ltb,
}
use cnnic_gmtls.Base.State.{Action, raise_if, Ends, Ends-after, Ends-raise_if, Ends-if}
use cnnic_gmtls.Record.{alert, application_data, version_tls13}
use cnnic_gmtls.Record.Gcm.{Aead}
use cnnic_gmtls.Base.Runs.{Runs-Ends}
use cnnic_gmtls.Record.Keeps.{unread, Keeps, Reads, read_record-Runs}
use cnnic_gmtls.Record.Layer.{RecordLayer, read_record}
use cnnic_gmtls.Schedule.Hkdf.{Sm3}
use cnnic_gmtls.Stream.{Stream, on_layer}
use cnnic_gmtls.Stream.Tickets.{unwrap_application_data}
use cnnic_gmtls.Stream.Quiet.{Quiet, unwrap-Quiet}
use cnnic_gmtls.Stream.Rw.{deliver, or_deliver, unwrap, read_loop, read}

read_record-Ends :
    (a : Aead) (s : RecordLayer) → Ends (read_record a s) (λ _ s'. unread s' + 5 ≤ unread s)
read_record-Ends a s =
    Runs-Ends (Keeps s) (Reads s) _ (read_record a s) (read_record-Runs a s)
      (λ rec t h. let l = h.1 in omega arith)

Ends-on_layer :
    {A : Type 0} (P : A → RecordLayer → Type 0) (s : Stream) (r : Outcome A × RecordLayer)
    → Ends r P
    → Ends (r.0, record s { layer = r.1 }) (λ a s'. P a s'.layer)
Ends-on_layer P s (ok a, l) h = h
Ends-on_layer P s (err e, l) h = tt
Ends-on_layer P s (panic, l) h = tt
Ends-on_layer P s (stuck, l) h = h

Ends-Quiet :
    {A : Type 0} (l : RecordLayer) (r : Outcome A × Stream)
    → Quiet l r
    → Ends r (λ _ s'. s'.layer ≡ l)
Ends-Quiet l (ok a, s) h = h
Ends-Quiet l (err e, s) h = tt
Ends-Quiet l (panic, s) h = tt
Ends-Quiet l (stuck, s) h = h

unwrap-Ends :
    (a : Aead) (h : Sm3) (now : ℕ) (d : List ℕ) (s : Stream)
    → Ends (unwrap a h now d s) (λ _ s'. s'.layer ≡ s.layer)
unfolding unwrap
unwrap-Ends a h now d s =
    Ends-if _ (leb version_tls13 s.layer.version) _ _
      (λ _. Ends-Quiet s.layer (unwrap_application_data h now d s) (unwrap-Quiet h now d s))
      (λ _. refl)

or_deliver-Ends :
    (n : ℕ) (rest : Action Stream (List ℕ)) (got : Option (List ℕ)) (s : Stream)
    → Ends (rest s) (λ _ _. Unit)
    → Ends (or_deliver n rest got s) (λ _ _. Unit)
unfolding deliver
or_deliver-Ends n rest none s h = h
or_deliver-Ends n rest (some payload) s h = tt

read_loop-Ends :
    (a : Aead) (h : Sm3) (now fuel n : ℕ) (s : Stream)
    → unread s.layer < fuel
    → Ends (read_loop a h now fuel n s) (λ _ _. Unit)
unfolding read_loop
read_loop-Ends a h now zero n s l = absurd (omega arith)
read_loop-Ends a h now (suc fuel) n s l =
    Ends-after (λ _ s'. unread s'.layer + 5 ≤ unread s.layer) _ (on_layer (read_record a) s) _
      (Ends-on_layer _ s (read_record a s.layer) (read_record-Ends a s.layer))
      (λ rec s₁ h₁.
        Ends-after (λ _ s'. s'.layer ≡ s₁.layer) _ (raise_if (rec.typ == alert) _ s₁) _
          (Ends-raise_if _ (rec.typ == alert) _ s₁ refl)
          (λ _ s₂ h₂.
            Ends-after (λ _ s'. s'.layer ≡ s₂.layer) _
              (raise_if (not (rec.typ == application_data)) _ s₂) _
              (Ends-raise_if _ (not (rec.typ == application_data)) _ s₂ refl)
              (λ _ s₃ h₃.
                Ends-after (λ _ s'. s'.layer ≡ s₃.layer) _ (unwrap a h now rec.content s₃) _
                  (unwrap-Ends a h now rec.content s₃)
                  (λ got s₄ h₄.
                    let same : unread s₄.layer ≡ unread s₁.layer = ap unread (h₄ ∙ h₃ ∙ h₂) in
                    or_deliver-Ends n (read_loop a h now fuel n) got s₄
                      (read_loop-Ends a h now fuel n s₄ (omega (arith, same)))))))

-- `Read` comes to an end on every connection, with data, an error or a panic, whatever bytes are
-- still to come: its loop and the loops over tickets never run out of fuel.
pub read-Ends :
    (a : Aead) (h : Sm3) (now n : ℕ) (s : Stream) → Ends (read a h now n s) (λ _ _. Unit)
unfolding read
read-Ends a h now n s =
    Ends-if _ (not s.layer.handshake_complete) _ _ (λ _. tt)
      (λ _.
        Ends-if _ (ltb 0 (length s.app_read_buf)) _ _ (λ _. tt)
          (λ _. read_loop-Ends a h now (suc (length s.layer.conn.incoming)) n s (omega arith)))
