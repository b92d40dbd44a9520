-- ===== src/Schedule/Keys.antt =====
-- tls13.go: the secrets and keys of the schedule.
use cnnic_gmtls.Base.{ℕ, List, [], ◌∷◌, some, Outcome, ok, ◌>>=◌, take}
use cnnic_gmtls.Schedule.Hkdf.{Sm3, hash_size, zeros, hkdf_extract, hkdf_expand_label}

-- The labels that are used.
abbrev pub label_derived : List ℕ
label_derived = b'd' ∷ b'e' ∷ b'r' ∷ b'i' ∷ b'v' ∷ b'e' ∷ b'd' ∷ []

-- "c hs traffic", "s hs traffic", "c ap traffic", "s ap traffic"
abbrev traffic : ℕ → ℕ → ℕ → List ℕ
traffic side a b = side ∷ b' ' ∷ a ∷ b ∷ b' ' ∷ b't' ∷ b'r' ∷ b'a' ∷ b'f' ∷ b'f' ∷ b'i' ∷ b'c' ∷ []

abbrev pub label_client_handshake : List ℕ
label_client_handshake = traffic b'c' b'h' b's'

abbrev pub label_server_handshake : List ℕ
label_server_handshake = traffic b's' b'h' b's'

abbrev pub label_client_traffic : List ℕ
label_client_traffic = traffic b'c' b'a' b'p'

abbrev pub label_server_traffic : List ℕ
label_server_traffic = traffic b's' b'a' b'p'

abbrev pub label_finished : List ℕ
label_finished = b'f' ∷ b'i' ∷ b'n' ∷ b'i' ∷ b's' ∷ b'h' ∷ b'e' ∷ b'd' ∷ []

abbrev pub label_resumption : List ℕ
label_resumption = b'r' ∷ b'e' ∷ b's' ∷ b'u' ∷ b'm' ∷ b'p' ∷ b't' ∷ b'i' ∷ b'o' ∷ b'n' ∷ []

abbrev pub label_res_master : List ℕ
label_res_master = b'r' ∷ b'e' ∷ b's' ∷ b' ' ∷ b'm' ∷ b'a' ∷ b's' ∷ b't' ∷ b'e' ∷ b'r' ∷ []

abbrev pub label_key : List ℕ
label_key = b'k' ∷ b'e' ∷ b'y' ∷ []

abbrev pub label_iv : List ℕ
label_iv = b'i' ∷ b'v' ∷ []

module _ (h : Sm3) where
  unfoldable pub derive_secret : List ℕ → List ℕ → List ℕ → Outcome (List ℕ)
  derive_secret secret label hash_value = hkdf_expand_label h secret label hash_value hash_size

  -- `DeriveEarlySecret`: no PSK stands for zeros.
  unfoldable pub derive_early_secret : List ℕ → List ℕ
  derive_early_secret [] = hkdf_extract h zeros (some zeros)
  derive_early_secret (b ∷ psk) = hkdf_extract h (b ∷ psk) (some zeros)

  -- `TranscriptHash(NewSM3())`
  abbrev pub empty_hash : List ℕ
  empty_hash = h.hash []

  unfoldable pub derive_handshake_secret : List ℕ → List ℕ → Outcome (List ℕ)
  derive_handshake_secret early_secret shared_secret = do
    derived ← derive_secret early_secret label_derived empty_hash
    ok (hkdf_extract h shared_secret (some derived))

  unfoldable pub derive_master_secret : List ℕ → Outcome (List ℕ)
  derive_master_secret handshake_secret = do
    derived ← derive_secret handshake_secret label_derived empty_hash
    ok (hkdf_extract h zeros (some derived))

  unfoldable pub derive_traffic_keys : List ℕ → ℕ → ℕ → Outcome (List ℕ × List ℕ)
  derive_traffic_keys secret key_len iv_len = do
    key ← hkdf_expand_label h secret label_key [] key_len
    iv ← hkdf_expand_label h secret label_iv [] iv_len
    ok (key, iv)

  -- The context is the hash of no message, not that of the transcript.
  unfoldable pub derive_resumption_master_secret : List ℕ → Outcome (List ℕ)
  derive_resumption_master_secret master_secret =
      hkdf_expand_label h master_secret label_res_master empty_hash hash_size

  unfoldable pub derive_resumption_psk : List ℕ → List ℕ → Outcome (List ℕ)
  derive_resumption_psk resumption_master_secret nonce =
      hkdf_expand_label h resumption_master_secret label_resumption nonce hash_size

  unfoldable pub derive_finished_key : List ℕ → Outcome (List ℕ)
  derive_finished_key base_key = hkdf_expand_label h base_key label_finished [] hash_size

  unfoldable pub verify_data_tls13 : List ℕ → List ℕ → List ℕ
  verify_data_tls13 finished_key transcript_hash = take 32 (h.hmac finished_key transcript_hash)
