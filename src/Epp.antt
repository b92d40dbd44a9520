-- ===== src/Epp.antt =====
-- cmd/internal/eppclient/client.go: the frames of EPP over the connection.
pub mod Frame
mod Tests
