-- ===== src/Ticket/Binder.antt =====
-- conn.go: the binder of the ticket that a ClientHello offers.
use cnnic_gmtls.Base.{ℕ, List, [], ◌∷◌, Outcome, ok, ◌>>=◌, take}
use cnnic_gmtls.Schedule.Hkdf.{Sm3, hash_size, hkdf_expand_label}
use cnnic_gmtls.Schedule.Keys.{derive_early_secret, derive_finished_key}

-- "res binder"
abbrev label_res_binder : List ℕ
label_res_binder = b'r' ∷ b'e' ∷ b's' ∷ b' ' ∷ b'b' ∷ b'i' ∷ b'n' ∷ b'd' ∷ b'e' ∷ b'r' ∷ []

-- The HMAC of the whole ClientHello, which has zeros for the binder.
unfoldable pub compute_binder : Sm3 → List ℕ → List ℕ → Outcome (List ℕ)
compute_binder h psk client_hello = do
  binder_key ← hkdf_expand_label h (derive_early_secret h psk) label_res_binder [] hash_size
  finished_key ← derive_finished_key h binder_key
  ok (take 32 (h.hmac finished_key (h.hash client_hello)))
