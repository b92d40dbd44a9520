-- ===== src/Stream.antt =====
-- conn.go: the application data of a connection and the tickets that come with it.
pub mod Tickets
pub mod Quiet
pub mod Rw
pub mod Termination
pub mod Transfer
mod Tests
use cnnic_gmtls.Base.{ℕ, List}
use cnnic_gmtls.Base.State.{Action}
use cnnic_gmtls.Ticket.{SessionTicket}
use cnnic_gmtls.Record.Layer.{RecordLayer}

-- The part of `Conn` that `Read` and `Write` use, with the tickets of its configuration
-- (`session_tickets`, `session_ticket_limit`). No bytes stand for a nil master secret.
pub record Stream : Type 0 where
  pub layer : RecordLayer
  pub app_read_buf : List ℕ
  pub tickets : List SessionTicket
  pub session_tickets : List SessionTicket
  pub session_ticket_limit : ℕ
  pub resumption_master_secret : List ℕ

-- A step of the record layer.
abbrev pub on_layer : {A : Type 0} → Action RecordLayer A → Action Stream A
on_layer m s = let (r, l) = m s.layer in (r, record s { layer = l })
