-- ===== src/Ticket/Tests.antt =====
-- The theorems on tickets at concrete values.
use Prim.Native.Nat.{max}
use cnnic_gmtls.Base.{
  ℕ, ◌-◌, ◌≡◌, refl, arith, [], ◌∷◌, not, All, some, ok, IsReturn, take, filter, replicate,
}
use cnnic_gmtls.Ticket.{SessionTicket}
use cnnic_gmtls.Ticket.Parse.{
  parse_new_session_ticket, put_new_session_ticket, parse-put_new_session_ticket,
  parse_new_session_ticket-IsReturn,
}
use cnnic_gmtls.Ticket.Store.{
  is_expired, others, effective_limit, store_session_ticket, store_session_ticket_lem,
}
use cnnic_gmtls.Ticket.Offer.{
  is_usable, PskInfo, psk_info, select_from, select_resumption_ticket, build_psk_info, set_binder,
  psk_data, obfuscated_ticket_age, set_binder-build,
}
use cnnic_gmtls.Ticket.Choice.{IsFrom, Covers, select_resumption_ticket-newest}

abbrev ticket : ℕ → ℕ → SessionTicket
ticket name time = record {
  lifetime = 100;
  age_add = 7;
  nonce = 1 ∷ [];
  ticket = name ∷ [];
  psk = 3 ∷ [];
  received_at = time;
}

parse-put_new_session_ticket_example :
    parse_new_session_ticket (put_new_session_ticket 100 7 (1 ∷ []) (9 ∷ []) [])
    ≡ ok (record {
      lifetime = 100;
      age_add = 7;
      nonce = 1 ∷ [];
      ticket = 9 ∷ [];
      psk = [];
      received_at = 0;
    })
parse-put_new_session_ticket_example =
    parse-put_new_session_ticket 100 7 (1 ∷ []) (9 ∷ []) [] (omega arith) (omega arith)
      (omega arith) (omega arith) (omega arith)

parse_new_session_ticket-IsReturn_example : IsReturn (parse_new_session_ticket (replicate 13 200))
parse_new_session_ticket-IsReturn_example = parse_new_session_ticket-IsReturn (replicate 13 200)

-- Two tickets are kept under the limit 1.
store_session_ticket_lem_example :
    store_session_ticket 5 1 (ticket 8 5) (ticket 9 4 ∷ ticket 8 3 ∷ [])
    ≡ ticket 8 5
      ∷ take
          (max 1 (effective_limit 1 - 1))
          (others (ticket 8 5) (filter (λ e. not (is_expired 5 e)) (ticket 9 4 ∷ ticket 8 3 ∷ [])))
store_session_ticket_lem_example =
    store_session_ticket_lem 5 1 (ticket 8 5) (ticket 9 4 ∷ ticket 8 3 ∷ [])

select_resumption_ticket-newest_example :
    IsFrom 5
      (ticket 8 3 ∷ ticket 9 4 ∷ [])
      (select_resumption_ticket 5 (ticket 8 3 ∷ ticket 9 4 ∷ []))
    × All
        (Covers 5 (select_resumption_ticket 5 (ticket 8 3 ∷ ticket 9 4 ∷ [])))
        (ticket 8 3 ∷ ticket 9 4 ∷ [])
select_resumption_ticket-newest_example =
    select_resumption_ticket-newest 5 (ticket 8 3 ∷ ticket 9 4 ∷ [])

abbrev offer : PskInfo
offer = psk_info 5 (ticket 9 4)

set_binder-build_example :
    (t : SessionTicket) × (select_resumption_ticket 5 (ticket 9 4 ∷ []) ≡ some t)
    × ((set_binder offer (replicate 32 6)).ext.ext_data
        ≡ psk_data (obfuscated_ticket_age 5 t) t (replicate 32 6))
unfolding build_psk_info select_resumption_ticket select_from is_usable
set_binder-build_example = set_binder-build 5 (ticket 9 4 ∷ []) (replicate 32 6) offer refl refl
