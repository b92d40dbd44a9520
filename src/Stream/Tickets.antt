-- ===== src/Stream/Tickets.antt =====
-- conn.go: `tls13ParseAndStoreTickets`,
-- `tls13ConsumeNewSessionTickets` and `unwrapTLS13ApplicationData`. `now` is the clock during one
-- call.
use cnnic_gmtls.Base.{
  ℕ, zero, suc, ◌-◌, List, [], ◌∷◌, ◌++◌, Bool, true, false, not, ◌&&◌, ◌==◌, if◌then◌else◌, Option,
  none, some, Outcome, ok, err, panic, stuck, message, length, get_or,
}
use cnnic_gmtls.Base.State.{Action, ◌>>=◌, ◌>>◌, pure, gets, modify, lift, raise_if}
use cnnic_gmtls.Message.{type_new_session_ticket}
use cnnic_gmtls.Record.{handshake, alert, application_data}
use cnnic_gmtls.Record.Alert.{alert_error_with_close_notify}
use cnnic_gmtls.Record.InnerType.{is_inner_type_byte, strip_inner_content_type}
use cnnic_gmtls.Schedule.Hkdf.{Sm3}
use cnnic_gmtls.Schedule.Keys.{derive_resumption_psk}
use cnnic_gmtls.Ticket.{SessionTicket}
use cnnic_gmtls.Ticket.Parse.{parse_handshake_message, parse_new_session_ticket}
use cnnic_gmtls.Ticket.Recognise.{all_new_session_tickets, looks_like_new_session_ticket}
use cnnic_gmtls.Ticket.Store.{store_session_ticket}
use cnnic_gmtls.Stream.{Stream}

-- A ticket goes to the connection's list and to that of its configuration.
unfoldable pub keep_ticket : ℕ → SessionTicket → Stream → Stream
keep_ticket now t s = record s {
  tickets = s.tickets ++ (t ∷ []);
  session_tickets = store_session_ticket now s.session_ticket_limit t s.session_tickets;
}

-- An error of `tls13ParseAndStoreTickets` is dropped.
abbrev pub ignore_error : Outcome (Unit {0}) → Outcome Bool
ignore_error (ok _) = ok true
ignore_error (err _) = ok true
ignore_error panic = panic
ignore_error stuck = stuck

module _ (h : Sm3) where
  unfoldable pub receive_ticket : ℕ → List ℕ → Action Stream (Unit {0})
  receive_ticket now body = do
    t ← lift (parse_new_session_ticket body)
    secret ← gets (λ s. s.resumption_master_secret)
    psk ← lift (if length secret == 0 then ok [] else derive_resumption_psk h secret t.nonce)
    modify (keep_ticket now (record t { psk = psk; received_at = now }))

  -- The loop of `tls13ParseAndStoreTickets`.
  unfoldable pub parse_and_store_tickets : ℕ → ℕ → List ℕ → Action Stream (Unit {0})
  parse_and_store_tickets now fuel [] = pure tt
  parse_and_store_tickets now zero (b ∷ bs) = lift stuck
  parse_and_store_tickets now (suc fuel) (b ∷ bs) = do
    (typ, body, rest) ← lift (parse_handshake_message (b ∷ bs))
    raise_if (not (typ == type_new_session_ticket)) (message "unexpected post-handshake type %d")
    receive_ticket now body
    parse_and_store_tickets now fuel rest

  unfoldable pub store_best_effort : ℕ → List ℕ → Action Stream Bool
  store_best_effort now content s =
      let (r, s') = parse_and_store_tickets now (length content) content s in (ignore_error r, s')

  unfoldable pub consume_new_session_tickets : ℕ → List ℕ → Action Stream Bool
  consume_new_session_tickets now content s =
      if looks_like_new_session_ticket content
      then store_best_effort now content s
      else (lift (all_new_session_tickets (length content) content) >>= λ all s'.
            if all then store_best_effort now content s' else (ok false, s'))
          s

  -- What `unwrapTLS13ApplicationData` does with the stripped content; `none` is `consumed`.
  unfoldable pub unwrap_inner : ℕ → List ℕ → ℕ → Action Stream (Option (List ℕ))
  unwrap_inner now content inner s =
      if inner == application_data
      then (ok (some content), s)
      else if inner == alert
      then (err (alert_error_with_close_notify content), s)
      else if (inner == handshake) && s.layer.handshake_complete
      then (do
        consumed ← consume_new_session_tickets now content
        raise_if (not consumed) (message "gmtls: unexpected inner content type %d")
        pure none)
          s
      else (err (message "gmtls: unexpected inner content type %d"), s)

  unfoldable pub unwrap_application_data : ℕ → List ℕ → Action Stream (Option (List ℕ))
  unwrap_application_data now payload s =
      if length payload == 0
      then (ok (some payload), s)
      else if not (is_inner_type_byte (get_or payload (length payload - 1) 0))
      then (ok (some payload), s)
      else (lift (strip_inner_content_type payload) >>= λ r. unwrap_inner now r.0 r.1) s
