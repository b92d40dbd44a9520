-- ===== src/Ticket/Choice.antt =====
-- conn.go: what `selectResumptionTicket` chooses.
use mathlib.Core.List.{Mem, mem-cons_self, mem-cons_of_mem}
use mathlib.Core.Logic.{◌⊎◌}
use mathlib.Core.Path.{subst}
use mathlib.Core.Option.{some-injective}
use cnnic_gmtls.Base.{
  ℕ, ◌≡◌, ◌≤◌, refl, sym, arith, List, [], ◌∷◌, true, false, ltb, Bool-cases, inl, inr, Option,
  none, some, All,
}
use cnnic_gmtls.Ticket.{SessionTicket}
use cnnic_gmtls.Ticket.Offer.{is_usable, newer, select_from, select_resumption_ticket}

-- What a choice `r` does not lose against the ticket `e`.
abbrev pub Covers : ℕ → Option SessionTicket → SessionTicket → Type 0
Covers now none e = is_usable now e ≡ false
Covers now (some t) e = (is_usable now e ≡ false) ⊎ (e.received_at ≤ t.received_at)

-- A choice `r` comes from `ts`.
abbrev pub IsFrom : ℕ → List SessionTicket → Option SessionTicket → Type 0
IsFrom now ts none = Unit
IsFrom now ts (some t) = (is_usable now t ≡ true) × Mem t ts

-- The running choice against the final one.
abbrev Keeps : Option SessionTicket → Option SessionTicket → Type 0
Keeps none r = Unit
Keeps (some b) none = ⊥
Keeps (some b) (some t) = b.received_at ≤ t.received_at

Keeps-newer :
    (best : Option SessionTicket) (t : SessionTicket) (r : Option SessionTicket)
    → Keeps (newer best t) r
    → Keeps best r × Keeps (some t) r
Keeps-newer none t r h = (tt, h)
Keeps-newer (some b) t none h = elim (Bool-cases (ltb b.received_at t.received_at)) [
  | inl y ↦ absurd (rw y at h)
  | inr n ↦ absurd (rw n at h)
]
Keeps-newer (some b) t (some r) h = ground (arith)

Covers-Keeps :
    (now : ℕ) (t : SessionTicket) (r : Option SessionTicket) → Keeps (some t) r → Covers now r t
Covers-Keeps now t none h = absurd h
Covers-Keeps now t (some r) h = inr h

Covers-unusable :
    (now : ℕ) (t : SessionTicket) (r : Option SessionTicket)
    → is_usable now t ≡ false
    → Covers now r t
Covers-unusable now t none h = h
Covers-unusable now t (some r) h = inl h

select_from-nil : (now : ℕ) (best : Option SessionTicket) → select_from now best [] ≡ best
unfolding select_from
select_from-nil now best = refl

select_from-usable :
    (now : ℕ) (best : Option SessionTicket) (t : SessionTicket) (ts : List SessionTicket)
    → is_usable now t ≡ true
    → select_from now best (t ∷ ts) ≡ select_from now (newer best t) ts
unfolding select_from
select_from-usable now best t ts u = rw u refl

select_from-unusable :
    (now : ℕ) (best : Option SessionTicket) (t : SessionTicket) (ts : List SessionTicket)
    → is_usable now t ≡ false
    → select_from now best (t ∷ ts) ≡ select_from now best ts
unfolding select_from
select_from-unusable now best t ts u = rw u refl

select_from-Keeps :
    (now : ℕ) (best : Option SessionTicket) (ts : List SessionTicket)
    → Keeps best (select_from now best ts) × All (Covers now (select_from now best ts)) ts
select_from-Keeps now none [] = (tt, tt)
select_from-Keeps now (some b) [] = rw (select_from-nil now (some b)) (omega arith, tt)
select_from-Keeps now best (t ∷ ts) = elim (Bool-cases (is_usable now t)) [
  | inl y ↦
      let rest = select_from-Keeps now (newer best t) ts in
      let r = select_from now (newer best t) ts in
      let (kept, this) = Keeps-newer best t r rest.0 in
      subst (λ r. Keeps best r × All (Covers now r) (t ∷ ts))
        (sym (select_from-usable now best t ts y)) (kept, (Covers-Keeps now t r this, rest.1))
  | inr n ↦
      let rest = select_from-Keeps now best ts in
      subst (λ r. Keeps best r × All (Covers now r) (t ∷ ts))
        (sym (select_from-unusable now best t ts n))
        (rest.0, (Covers-unusable now t (select_from now best ts) n, rest.1))
]

-- Where the final choice comes from: it is the running one or comes from `ts`.
abbrev Source : ℕ → Option SessionTicket → List SessionTicket → Option SessionTicket → Type 0
Source now best ts none = Unit
Source now best ts (some t) = (best ≡ some t) ⊎ ((is_usable now t ≡ true) × Mem t ts)

Source-cons :
    (now : ℕ) (best : Option SessionTicket) (t : SessionTicket) (ts : List SessionTicket)
    (r : Option SessionTicket)
    → Source now best ts r
    → Source now best (t ∷ ts) r
Source-cons now best t ts none h = tt
Source-cons now best t ts (some r) (inl e) = inl e
Source-cons now best t ts (some r) (inr (u, m)) = inr (u, mem-cons_of_mem t m)

Source-taken :
    (now : ℕ) (best : Option SessionTicket) (t : SessionTicket) (ts : List SessionTicket)
    (r : SessionTicket)
    → is_usable now t ≡ true
    → some t ≡ some r
    → Source now best (t ∷ ts) (some r)
Source-taken now best t ts r u e =
    let same : t ≡ r = some-injective t r e in inr (rw (sym same) (u, mem-cons_self))

Source-newer :
    (now : ℕ) (best : Option SessionTicket) (t : SessionTicket) (ts : List SessionTicket)
    (r : Option SessionTicket)
    → is_usable now t ≡ true
    → Source now (newer best t) ts r
    → Source now best (t ∷ ts) r
Source-newer now best t ts none u h = tt
Source-newer now best t ts (some r) u (inr (v, m)) = inr (v, mem-cons_of_mem t m)
Source-newer now none t ts (some r) u (inl e) = Source-taken now none t ts r u e
Source-newer now (some b) t ts (some r) u (inl e) =
    elim (Bool-cases (ltb b.received_at t.received_at)) [
      | inl y ↦ Source-taken now (some b) t ts r u (rw y at e)
      | inr n ↦ inl (rw n at e)
    ]

select_from-Source :
    (now : ℕ) (best : Option SessionTicket) (ts : List SessionTicket)
    → Source now best ts (select_from now best ts)
select_from-Source now none [] = rw (select_from-nil now none) tt
select_from-Source now (some b) [] = rw (select_from-nil now (some b)) (inl refl)
select_from-Source now best (t ∷ ts) = elim (Bool-cases (is_usable now t)) [
  | inl y ↦ rw (select_from-usable now best t ts y) (
      Source-newer now best t ts (select_from now (newer best t) ts) y
        (select_from-Source now (newer best t) ts))
  | inr n ↦
      rw (select_from-unusable now best t ts n)
        (Source-cons now best t ts (select_from now best ts) (select_from-Source now best ts))
]

IsFrom-Source :
    (now : ℕ) (ts : List SessionTicket) (r : Option SessionTicket)
    → Source now none ts r
    → IsFrom now ts r
IsFrom-Source now ts none h = tt
IsFrom-Source now ts (some t) (inl e) = ground arith
IsFrom-Source now ts (some t) (inr h) = h

-- The ticket that is offered for resumption is a usable ticket of the store, and no usable ticket
-- of the store came later; none is offered only when no ticket is usable.
pub select_resumption_ticket-newest :
    (now : ℕ) (tickets : List SessionTicket)
    → IsFrom now tickets (select_resumption_ticket now tickets)
      × All (Covers now (select_resumption_ticket now tickets)) tickets
unfolding select_resumption_ticket
select_resumption_ticket-newest now tickets = (
  IsFrom-Source now tickets (select_from now none tickets) (select_from-Source now none tickets),
  (select_from-Keeps now none tickets).1,
)
