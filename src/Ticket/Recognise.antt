-- ===== src/Ticket/Recognise.antt =====
-- conn.go: `tls13AllNewSessionTickets` and `tls13LooksLikeNewSessionTicket`.
use cnnic_gmtls.Base.{
  ℕ, zero, suc, ◌≤◌, arith, List, [], ◌∷◌, Bool, true, false, ◌==◌, Bool-cases, inl, inr, Outcome,
  ok, err, panic, stuck, ◌>>=◌, IsReturn, Returns-bind, length,
}
use cnnic_gmtls.Message.{type_new_session_ticket}
use cnnic_gmtls.Ticket.Parse.{parse_handshake_message, parse_handshake_message-Returns}

-- A message that cannot be parsed ends the test.
abbrev pub no_on_error : Outcome Bool → Outcome Bool
no_on_error (err _) = ok false
no_on_error r = r

-- The test of `tls13AllNewSessionTickets`, with at most `fuel` messages.
unfoldable pub all_new_session_tickets : ℕ → List ℕ → Outcome Bool
all_new_session_tickets fuel [] = ok true
all_new_session_tickets zero (b ∷ bs) = stuck
all_new_session_tickets (suc fuel) (b ∷ bs) = no_on_error (do
  (typ, _, rest) ← parse_handshake_message (b ∷ bs)
  elim (typ == type_new_session_ticket) [
    | true ↦ all_new_session_tickets fuel rest
    | false ↦ ok false
  ])

-- `tls13LooksLikeNewSessionTicket`
unfoldable pub looks_like_new_session_ticket : List ℕ → Bool
looks_like_new_session_ticket [] = false
looks_like_new_session_ticket (b ∷ bs) = b == type_new_session_ticket

no_on_error-IsReturn : (m : Outcome Bool) → IsReturn m → IsReturn (no_on_error m)
no_on_error-IsReturn (ok b) h = tt
no_on_error-IsReturn (err e) h = tt
no_on_error-IsReturn panic h = h
no_on_error-IsReturn stuck h = h

-- With as much fuel as there are bytes the test comes to an end.
pub all_new_session_tickets-IsReturn :
    (fuel : ℕ) (d : List ℕ) → length d ≤ fuel → IsReturn (all_new_session_tickets fuel d)
unfolding all_new_session_tickets
all_new_session_tickets-IsReturn fuel [] l = tt
all_new_session_tickets-IsReturn zero (b ∷ bs) l = absurd (omega arith)
all_new_session_tickets-IsReturn (suc fuel) (b ∷ bs) l = no_on_error-IsReturn _ (
    Returns-bind _ _ (parse_handshake_message (b ∷ bs)) _ (parse_handshake_message-Returns (b ∷ bs))
      (λ r hr. elim (Bool-cases (r.0 == type_new_session_ticket)) [
        | inl e ↦ rw e (all_new_session_tickets-IsReturn fuel r.2 (omega arith))
        | inr e ↦ rw e tt
      ]))
