-- ===== src/Ticket.antt =====
-- conn.go: TLS 1.3 session tickets: reading them, the client's store and the offer to resume.
pub mod Parse
pub mod Recognise
pub mod Store
pub mod Offer
pub mod Choice
pub mod Binder
mod Tests
use cnnic_gmtls.Base.{ℕ, List}

-- `TLS13SessionTicket`. Times are nanoseconds, and 0 is the zero time; slices of no bytes stand for
-- nil.
pub record SessionTicket : Type 0 where
  pub lifetime : ℕ
  pub age_add : ℕ
  pub nonce : List ℕ
  pub ticket : List ℕ
  pub psk : List ℕ
  pub received_at : ℕ

-- A second in nanoseconds.
abbrev pub second : ℕ
second = 1000000000
