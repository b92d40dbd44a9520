-- ===== src/Ticket/Offer.antt =====
-- conn.go: the offer to resume: `selectResumptionTicket`, `obfuscatedTicketAge`,
-- `buildTLS13PSKInfo`, `SetBinder` and `rebuildExtensionsWithPSK`. The clock does not go back
-- behind the time at which a ticket came.
use cnnic_gmtls.Base.{
  ℕ, ◌+◌, ◌-◌, ◌*◌, ◌/◌, ◌%◌, ◌^◌, ◌≡◌, refl, sym, arith, List, [], ◌∷◌, ◌++◌, map, Bool, not, ◌||◌,
  ltb, ◌==◌, if◌then◌else◌, inl, inr, Option-cases, Option, none, some, ◌∙◌, length, length-append,
  take, drop, replicate, put_uint16, put_uint32, take-append, append_assoc, append-nil,
  take-eq_of_length_le, drop-eq_of_length_le,
}
use cnnic_gmtls.Ticket.{SessionTicket, second}
use cnnic_gmtls.Extension.{Extension, extension_pre_shared_key}

unfoldable pub is_usable : ℕ → SessionTicket → Bool
is_usable now t = not (
    (length t.ticket == 0)
    || (length t.psk == 0)
    || (t.lifetime == 0)
    || (t.received_at == 0)
    || ltb (t.lifetime * second) (now - t.received_at))

-- A usable ticket takes the place of an older one.
abbrev pub newer : Option SessionTicket → SessionTicket → Option SessionTicket
newer none t = some t
newer (some best) t = if ltb best.received_at t.received_at then some t else some best

unfoldable pub select_from : ℕ → Option SessionTicket → List SessionTicket → Option SessionTicket
select_from now best [] = best
select_from now best (t ∷ ts) = select_from now (if is_usable now t then newer best t else best) ts

unfoldable pub select_resumption_ticket : ℕ → List SessionTicket → Option SessionTicket
unfolding select_from
select_resumption_ticket now tickets = select_from now none tickets

-- Milliseconds since the ticket came, plus `AgeAdd`, in 32 bits.
unfoldable pub obfuscated_ticket_age : ℕ → SessionTicket → ℕ
obfuscated_ticket_age now t =
    if t.received_at == 0
    then t.age_add
    else ((now - t.received_at) / 1000000 % 2 ^ 32 + t.age_add) % 2 ^ 32

pub record PskInfo : Type 0 where
  pub ext : Extension
  pub psk : List ℕ
  pub binder_start : ℕ
  pub binder_len : ℕ

abbrev pub identities : ℕ → SessionTicket → List ℕ
identities age t = put_uint16 (length t.ticket) ++ (t.ticket ++ put_uint32 age)

-- The data of pre_shared_key: one identity and one binder.
abbrev pub psk_data : ℕ → SessionTicket → List ℕ → List ℕ
psk_data age t binder =
    let ids = identities age t in
    put_uint16 (length ids)
    ++ (ids ++ (put_uint16 (1 + length binder) ++ ((length binder % 256) ∷ binder)))

-- The binder is zeros at first.
abbrev pub psk_info : ℕ → SessionTicket → PskInfo
psk_info now t =
    let age = obfuscated_ticket_age now t in
    record {
      ext = record {
        ext_type = extension_pre_shared_key;
        ext_data = psk_data age t (replicate 32 0);
      };
      psk = t.psk;
      binder_start = 2 + length (identities age t) + 2 + 1;
      binder_len = 32;
    }

unfoldable pub build_psk_info : ℕ → List SessionTicket → Option PskInfo
build_psk_info now tickets = elim (select_resumption_ticket now tickets) [
  | none ↦ none
  | some t ↦ if (length t.psk == 0) || (length t.ticket == 0) then none else some (psk_info now t)
]

-- A binder that is too short for `binder[:p.binderLen]` never comes; it is 32 bytes of HMAC.
unfoldable pub set_binder : PskInfo → List ℕ → PskInfo
set_binder p binder =
    let d = p.ext.ext_data in
    let e = p.ext in
    if (length binder == 0) || ltb (length d) (p.binder_start + p.binder_len) then p else record p {
      ext = record e {
        ext_data =
            take p.binder_start d
            ++ (take p.binder_len binder ++ drop (p.binder_start + p.binder_len) d);
      };
    }

unfoldable pub rebuild_extensions_with_psk : List Extension → PskInfo → List Extension
rebuild_extensions_with_psk exts p =
    map (λ e. if e.ext_type == extension_pre_shared_key then p.ext else e) exts

set_binder-splice :
    (p : PskInfo) (front zeros binder : List ℕ)
    → p.ext.ext_data ≡ front ++ zeros
    → p.binder_start ≡ length front
    → p.binder_len ≡ 32
    → length zeros ≡ 32
    → length binder ≡ 32
    → (set_binder p binder).ext.ext_data ≡ front ++ binder
unfolding set_binder
set_binder-splice p front zeros binder e i n z l =
    let size : length (front ++ zeros) ≡ length front + 32 =
      omega (arith, length-append front zeros, z) in
    let tail : drop (length front + 32) (front ++ zeros) ≡ [] =
      drop-eq_of_length_le (length front + 32) (front ++ zeros) (omega (arith, size)) in
    let whole : take 32 binder ≡ binder = take-eq_of_length_le 32 binder (omega (arith, l)) in
    ground (arith, e, i, n, size, tail, whole, take-append front zeros, append-nil binder)

append_last : (h xs ys zs : List ℕ) → (h ++ (xs ++ ys)) ++ zs ≡ h ++ (xs ++ (ys ++ zs))
append_last h xs ys zs = simp (append_assoc) refl

-- What stands before the binder.
abbrev psk_front : ℕ → SessionTicket → List ℕ
psk_front age t =
    let ids = identities age t in put_uint16 (length ids) ++ (ids ++ (put_uint16 33 ++ (32 ∷ [])))

psk_data-split :
    (age : ℕ) (t : SessionTicket) (binder : List ℕ)
    → length binder ≡ 32
    → psk_data age t binder ≡ psk_front age t ++ binder
psk_data-split age t binder l =
    let ids = identities age t in
    let whole = append_last (put_uint16 (length ids)) ids (put_uint16 33 ++ (32 ∷ [])) binder in
    rw l (sym whole)

length-psk_front :
    (age : ℕ) (t : SessionTicket) → length (psk_front age t) ≡ 2 + length (identities age t) + 2 + 1
length-psk_front age t =
    let ids = identities age t in omega (arith, length-append ids (put_uint16 33 ++ (32 ∷ [])))

set_binder-psk_info :
    (now : ℕ) (t : SessionTicket) (binder : List ℕ)
    → length binder ≡ 32
    → (set_binder (psk_info now t) binder).ext.ext_data
      ≡ psk_data (obfuscated_ticket_age now t) t binder
set_binder-psk_info now t binder l =
    let age = obfuscated_ticket_age now t in
    let zeros : List ℕ = replicate 32 0 in
    set_binder-splice (psk_info now t) (psk_front age t) zeros binder
      (psk_data-split age t zeros refl) (sym (length-psk_front age t)) refl refl l
    ∙ sym (psk_data-split age t binder l)

-- For a binder of 32 bytes and an offer that was built: once the binder is set, the data of the
-- extension is that of the chosen ticket with its age and this binder, which stands in the place
-- of the zeros.
pub set_binder-build :
    (now : ℕ) (tickets : List SessionTicket) (binder : List ℕ) (p : PskInfo)
    → build_psk_info now tickets ≡ some p
    → length binder ≡ 32
    → (t : SessionTicket) × (select_resumption_ticket now tickets ≡ some t)
      × ((set_binder p binder).ext.ext_data ≡ psk_data (obfuscated_ticket_age now t) t binder)
unfolding build_psk_info
set_binder-build now tickets binder p e l =
    elim (Option-cases (select_resumption_ticket now tickets)) [
      | inl nothing ↦ ground (arith, nothing)
      | inr (t, found) ↦ (t, found, ground (arith, found, set_binder-psk_info now t binder l))
    ]
