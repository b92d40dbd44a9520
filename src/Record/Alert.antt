-- ===== src/Record/Alert.antt =====
-- conn.go: `parseAlert`, `isCloseNotify`, `alertError`, `alertErrorWithCloseNotify`.
use cnnic_gmtls.Base.{
  ℕ, List, ◌∷◌, Bool, ◌&&◌, ◌==◌, if◌then◌else◌, Option, none, some, Error, message, eof,
}

unfoldable pub parse_alert : List ℕ → Option (ℕ × ℕ)
parse_alert (level ∷ desc ∷ rest) = some (level, desc)
parse_alert _ = none

unfoldable pub is_close_notify : ℕ → ℕ → Bool
is_close_notify level desc = (level == 1) && (desc == 0)

unfoldable pub alert_error : List ℕ → Error
unfolding parse_alert
alert_error content = elim (parse_alert content) [
  | none ↦ message "gmtls: received alert"
  | some _ ↦ message "gmtls: alert level=%d, description=%d"
]

unfoldable pub alert_error_with_close_notify : List ℕ → Error
unfolding parse_alert is_close_notify
alert_error_with_close_notify content = elim (parse_alert content) [
  | none ↦ message "gmtls: invalid alert"
  | some (level, desc) ↦
      if is_close_notify level desc then eof else message "gmtls: alert level=%d desc=%d"
]
