-- ===== src/Ticket/Store.antt =====
-- conn.go: `storeSessionTicket`, on the tickets of the configuration. `now` is the time, and a
-- limit of 0 stands for all that are not positive.
use cnnic_gmtls.Base.{
  ℕ, zero, suc, ◌+◌, ◌-◌, ◌*◌, ◌≡◌, refl, arith, List, [], ◌∷◌, Bool, true, false, not, ◌||◌, ltb,
  leb, ◌==◌, ap, ◌∙◌, take, filter, bytes_equal,
}
use Prim.Native.Nat.{max}
use cnnic_gmtls.Ticket.{SessionTicket, second}

-- The tickets that are dropped when another is stored.
unfoldable pub is_expired : ℕ → SessionTicket → Bool
is_expired now t =
    (t.received_at == 0) || (t.lifetime == 0) || ltb (t.lifetime * second) (now - t.received_at)

-- The loop that copies what is left behind the new ticket: `n` tickets stand in the new list, and
-- the test of the limit comes after the copy.
unfoldable pub copy_others : SessionTicket → ℕ → ℕ → List SessionTicket → List SessionTicket
copy_others t limit n [] = []
copy_others t limit n (e ∷ es) = elim (bytes_equal e.ticket t.ticket) [
  | true ↦ copy_others t limit n es
  | false ↦ e ∷ elim (leb limit (n + 1)) [ true ↦ [] | false ↦ copy_others t limit (n + 1) es ]
]

abbrev pub effective_limit : ℕ → ℕ
effective_limit zero = 4
effective_limit (suc n) = suc n

unfoldable pub store_session_ticket :
    ℕ → ℕ → SessionTicket → List SessionTicket → List SessionTicket
unfolding is_expired copy_others
store_session_ticket now limit t tickets =
    let live = filter (λ e. not (is_expired now e)) tickets in
    t ∷ copy_others t (effective_limit limit) 1 live

abbrev pub others : SessionTicket → List SessionTicket → List SessionTicket
others t = filter (λ e. not (bytes_equal e.ticket t.ticket))

copy_others-take :
    (t : SessionTicket) (k n : ℕ) (es : List SessionTicket)
    → copy_others t (n + suc k) n es ≡ take (suc k) (others t es)
unfolding copy_others
copy_others-take t k n [] = refl
copy_others-take t zero n (e ∷ es) = ground (arith, copy_others-take t zero n es)
copy_others-take t (suc k) n (e ∷ es) =
    let m : n + 1 + suc k ≡ n + suc (suc k) = omega arith in
    let next : copy_others t (n + suc (suc k)) (n + 1) es ≡ take (suc k) (others t es) =
      rw m at (copy_others-take t k (n + 1) es) in
    ground (arith, copy_others-take t (suc k) n es, next)

copy_others_one :
    (t : SessionTicket) (es : List SessionTicket) → copy_others t 1 1 es ≡ take 1 (others t es)
unfolding copy_others
copy_others_one t [] = refl
copy_others_one t (e ∷ es) = ground (arith, copy_others_one t es)

-- Storing a ticket puts it first, behind it those of the others that are not expired and have
-- another ticket, in their order: one less than the limit of them, but one of them at least.
pub store_session_ticket_lem :
    (now limit : ℕ) (t : SessionTicket) (tickets : List SessionTicket)
    → store_session_ticket now limit t tickets
      ≡ t
        ∷ take
            (max 1 (effective_limit limit - 1))
            (others t (filter (λ e. not (is_expired now e)) tickets))
unfolding store_session_ticket
store_session_ticket_lem now zero t tickets =
    ap (λ (xs : List SessionTicket). t ∷ xs)
      (copy_others-take t 2 1 (filter (λ e. not (is_expired now e)) tickets))
store_session_ticket_lem now (suc zero) t tickets =
    ap (λ (xs : List SessionTicket). t ∷ xs)
      (copy_others_one t (filter (λ e. not (is_expired now e)) tickets))
store_session_ticket_lem now (suc (suc k)) t tickets =
    let live = filter (λ e. not (is_expired now e)) tickets in
    let m : 1 + suc k ≡ suc (suc k) = omega arith in
    let limit_1 : suc k ≡ max 1 (suc (suc k) - 1) = omega arith in
    let rest : copy_others t (suc (suc k)) 1 live ≡ take (suc k) (others t live) =
      rw m at (copy_others-take t k 1 live) in
    ap (λ (xs : List SessionTicket). t ∷ xs) (rest ∙ ap (λ (n : ℕ). take n (others t live)) limit_1)
