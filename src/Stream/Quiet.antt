-- ===== src/Stream/Quiet.antt =====
-- conn.go: the loops over the tickets that come with application data, and the connection below.
use cnnic_gmtls.Base.{
  ℕ, zero, suc, ◌≡◌, ◌≤◌, refl, arith, List, [], ◌∷◌, Bool, true, false, not, ◌==◌, ◌&&◌, ◌-◌,
  Outcome, ok, err, panic, stuck, Error, Returns, IsReturn, length, get_or, if◌then◌else◌,
}
use cnnic_gmtls.Base.State.{Action, after, raise_if}
use cnnic_gmtls.Message.{type_new_session_ticket}
use cnnic_gmtls.Record.{alert, application_data, handshake}
use cnnic_gmtls.Record.InnerType.{is_inner_type_byte, strip_inner_content_type}
use cnnic_gmtls.Record.Layer.{RecordLayer}
use cnnic_gmtls.Schedule.Hkdf.{Sm3, hkdf_expand_label}
use cnnic_gmtls.Schedule.Keys.{derive_resumption_psk}
use cnnic_gmtls.Stream.{Stream}
use cnnic_gmtls.Stream.Tickets.{
  ignore_error, keep_ticket, receive_ticket, parse_and_store_tickets, store_best_effort,
  consume_new_session_tickets, unwrap_inner, unwrap_application_data,
}
use cnnic_gmtls.Ticket.Parse.{
  parse_handshake_message, parse_handshake_message-Returns, parse_new_session_ticket,
  parse_new_session_ticket-IsReturn,
}
use cnnic_gmtls.Ticket.Recognise.{
  all_new_session_tickets, all_new_session_tickets-IsReturn, looks_like_new_session_ticket,
}

-- A method that comes to an end, however it does, with the record layer `l`.
abbrev pub Quiet : {A : Type 0} → RecordLayer → Outcome A × Stream → Type 0
Quiet l (ok a, s) = s.layer ≡ l
Quiet l (err e, s) = s.layer ≡ l
Quiet l (panic, s) = s.layer ≡ l
Quiet l (stuck, s) = ⊥

Quiet-after :
    {A B : Type 0} (l : RecordLayer) (r : Outcome A × Stream) (f : A → Action Stream B)
    → Quiet l r
    → ((a : A) (s : Stream) → s.layer ≡ l → Quiet l (f a s))
    → Quiet l (after f r)
Quiet-after l (ok a, s) f h k = k a s h
Quiet-after l (err e, s) f h k = h
Quiet-after l (panic, s) f h k = h
Quiet-after l (stuck, s) f h k = h

Quiet-lift :
    {A B : Type 0} (P : A → Type 0) (l : RecordLayer) (m : Outcome A) (s : Stream)
    (f : A → Action Stream B)
    → s.layer ≡ l
    → Returns m P
    → ((a : A) → P a → Quiet l (f a s))
    → Quiet l (after f (m, s))
Quiet-lift P l (ok a) s f e h k = k a h
Quiet-lift P l (err x) s f e h k = e
Quiet-lift P l panic s f e h k = elim h [ ]
Quiet-lift P l stuck s f e h k = elim h [ ]

Quiet-raise_if :
    (l : RecordLayer) (test : Bool) (e : Error) (s : Stream)
    → s.layer ≡ l
    → Quiet l (raise_if test e s)
Quiet-raise_if l true e s h = h
Quiet-raise_if l false e s h = h

Quiet-if :
    {A : Type 0} (l : RecordLayer) (test : Bool) (r r' : Outcome A × Stream)
    → Quiet l r
    → Quiet l r'
    → Quiet l (if test then r else r')
Quiet-if l true r r' h k = h
Quiet-if l false r r' h k = k

derive_psk-Quiet :
    (h : Sm3) (secret nonce' : List ℕ) (s : Stream) (l : RecordLayer)
    → s.layer ≡ l
    → Quiet l ((if length secret == 0 then ok [] else derive_resumption_psk h secret nonce'), s)
unfolding derive_resumption_psk hkdf_expand_label
derive_psk-Quiet h secret nonce' s l e = ground (arith)

receive_ticket-Quiet :
    (h : Sm3) (now : ℕ) (body : List ℕ) (s : Stream) (l : RecordLayer)
    → s.layer ≡ l
    → Quiet l (receive_ticket h now body s)
unfolding receive_ticket keep_ticket
receive_ticket-Quiet h now body s l e =
    Quiet-lift _ l (parse_new_session_ticket body) s _ e (parse_new_session_ticket-IsReturn body)
      (λ t _.
        Quiet-after l _ _ (derive_psk-Quiet h s.resumption_master_secret t.nonce s l e)
          (λ psk s₂ h₂. h₂))

parse_and_store-Quiet :
    (h : Sm3) (now fuel : ℕ) (d : List ℕ) (s : Stream) (l : RecordLayer)
    → length d ≤ fuel
    → s.layer ≡ l
    → Quiet l (parse_and_store_tickets h now fuel d s)
unfolding parse_and_store_tickets
parse_and_store-Quiet h now fuel [] s l n e = e
parse_and_store-Quiet h now zero (b ∷ bs) s l n e = absurd (omega arith)
parse_and_store-Quiet h now (suc fuel) (b ∷ bs) s l n e =
    Quiet-lift _ l (parse_handshake_message (b ∷ bs)) s _ e
      (parse_handshake_message-Returns (b ∷ bs))
      (λ r hr.
        Quiet-after l _ _ (Quiet-raise_if l (not (r.0 == type_new_session_ticket)) _ s e)
          (λ _ s₂ h₂.
            Quiet-after l (receive_ticket h now r.1 s₂) _ (receive_ticket-Quiet h now r.1 s₂ l h₂)
              (λ _ s₃ h₃. parse_and_store-Quiet h now fuel r.2 s₃ l (omega arith) h₃)))

ignore_error-Quiet :
    (l : RecordLayer) (r : Outcome (Unit {0}) × Stream)
    → Quiet l r
    → Quiet l (ignore_error r.0, r.1)
ignore_error-Quiet l (ok x, s) h = h
ignore_error-Quiet l (err e, s) h = h
ignore_error-Quiet l (panic, s) h = h
ignore_error-Quiet l (stuck, s) h = h

store_best_effort-Quiet :
    (h : Sm3) (now : ℕ) (d : List ℕ) (s : Stream) (l : RecordLayer)
    → s.layer ≡ l
    → Quiet l (store_best_effort h now d s)
unfolding store_best_effort
store_best_effort-Quiet h now d s l e =
    ignore_error-Quiet l (parse_and_store_tickets h now (length d) d s)
      (parse_and_store-Quiet h now (length d) d s l (omega arith) e)

consume-Quiet :
    (h : Sm3) (now : ℕ) (d : List ℕ) (s : Stream) (l : RecordLayer)
    → s.layer ≡ l
    → Quiet l (consume_new_session_tickets h now d s)
unfolding consume_new_session_tickets
consume-Quiet h now d s l e =
    Quiet-if l (looks_like_new_session_ticket d) _ _ (store_best_effort-Quiet h now d s l e) (
      Quiet-lift _ l (all_new_session_tickets (length d) d) s _ e
        (all_new_session_tickets-IsReturn (length d) d (omega arith))
        (λ all _. Quiet-if l all _ _ (store_best_effort-Quiet h now d s l e) e))

unwrap_inner-Quiet :
    (h : Sm3) (now : ℕ) (d : List ℕ) (inner : ℕ) (s : Stream) (l : RecordLayer)
    → s.layer ≡ l
    → Quiet l (unwrap_inner h now d inner s)
unfolding unwrap_inner
unwrap_inner-Quiet h now d inner s l e = Quiet-if l (inner == application_data) _ _ e (
    Quiet-if l (inner == alert) _ _ e (
      Quiet-if l ((inner == handshake) && s.layer.handshake_complete) _ _
        (Quiet-after l (consume_new_session_tickets h now d s) _ (consume-Quiet h now d s l e)
          (λ consumed s₂ h₂.
            Quiet-after l _ _ (Quiet-raise_if l (not consumed) _ s₂ h₂) (λ _ s₃ h₃. h₃)))
        e))

strip-IsReturn : (d : List ℕ) → IsReturn (strip_inner_content_type d)
unfolding strip_inner_content_type
strip-IsReturn d = ground (arith)

-- Unwrapping application data comes to an end and leaves the record layer as it was.
pub unwrap-Quiet :
    (h : Sm3) (now : ℕ) (d : List ℕ) (s : Stream)
    → Quiet s.layer (unwrap_application_data h now d s)
unfolding unwrap_application_data
unwrap-Quiet h now d s = Quiet-if s.layer (length d == 0) _ _ refl (
    Quiet-if s.layer (not (is_inner_type_byte (get_or d (length d - 1) 0))) _ _ refl (
      Quiet-lift _ s.layer (strip_inner_content_type d) s _ refl (strip-IsReturn d)
        (λ r _. unwrap_inner-Quiet h now r.0 r.1 s s.layer refl)))
