-- ===== src/Extension/Modes.antt =====
-- extensions.go, the small extensions: psk_key_exchange_modes, status_request, ec_point_formats and
-- those with no data.
use cnnic_gmtls.Base.{
  ℕ, ◌+◌, ◌*◌, ◌%◌, ◌≤◌, ◌<◌, ◌≡◌, arith, List, [], ◌∷◌, not, ltb, ◌==◌, length, append-nil,
  Outcome, ok, ◌>>=◌, ◌>>◌, fail_if, IsReturn, get_byte, get_uint16, split, get_uint16-Returns,
  take-append, drop-append, length-drop, drop,
}
use cnnic_gmtls.Extension.{
  Extension, no_extension, extension_psk_modes, extension_status_request,
  extension_supported_points,
}

-- `PSKModeDHE`
abbrev pub psk_mode_dhe : ℕ
psk_mode_dhe = 1

unfoldable pub marshal_psk_kex_modes_extension : List ℕ → Extension
marshal_psk_kex_modes_extension [] = no_extension
marshal_psk_kex_modes_extension (m ∷ ms) = record {
  ext_type = extension_psk_modes;
  ext_data = (length (m ∷ ms) % 256) ∷ m ∷ ms;
}

unfoldable pub parse_psk_kex_modes_extension : List ℕ → Outcome (List ℕ)
unfolding get_byte split
parse_psk_kex_modes_extension data' = do
  fail_if (ltb (length data') 1) "gmtls: invalid psk kex modes extension"
  (modes_len, rest) ← get_byte data'
  fail_if (ltb (length data') (1 + modes_len)) "gmtls: psk kex modes extension truncated"
  (modes, _) ← split modes_len rest
  ok modes

unfoldable pub marshal_status_request_extension : Extension
marshal_status_request_extension = record {
  ext_type = extension_status_request;
  ext_data = 1 ∷ 0 ∷ 0 ∷ 0 ∷ 0 ∷ 0 ∷ [];
}

-- The request is `data[1 : off+extLen]`: both lists with their lengths.
unfoldable pub parse_status_request_extension : List ℕ → Outcome (ℕ × List ℕ)
unfolding get_byte get_uint16 split
parse_status_request_extension data' = do
  fail_if (ltb (length data') 5) "gmtls: invalid status request extension"
  (status_type, body) ← get_byte data'
  fail_if (not (status_type == 1)) "gmtls: unsupported status request type"
  fail_if (ltb (length body) 2) "gmtls: invalid responder id list length"
  (responder_list_len, rest) ← get_uint16 body
  fail_if (ltb (length rest) (responder_list_len + 2)) "gmtls: responder id list truncated"
  (_, rest) ← split responder_list_len rest
  fail_if (ltb (length rest) 2) "gmtls: invalid request extensions length"
  (ext_len, rest) ← get_uint16 rest
  fail_if (ltb (length rest) ext_len) "gmtls: request extensions truncated"
  (request, _) ← split (2 + responder_list_len + 2 + ext_len) body
  ok (status_type, request)

unfoldable pub marshal_ec_point_formats_extension : Extension
marshal_ec_point_formats_extension = record {
  ext_type = extension_supported_points;
  ext_data = 3 ∷ 0 ∷ 1 ∷ 2 ∷ [];
}

unfoldable pub marshal_empty_extension : ℕ → Extension
marshal_empty_extension t = record { ext_type = t; ext_data = [] }

pub parse-marshal_psk_modes :
    (ms : List ℕ)
    → 1 ≤ length ms
    → length ms < 256
    → parse_psk_kex_modes_extension (marshal_psk_kex_modes_extension ms).ext_data ≡ ok ms
unfolding marshal_psk_kex_modes_extension parse_psk_kex_modes_extension
parse-marshal_psk_modes [] lo hi = absurd (omega arith)
parse-marshal_psk_modes (m ∷ ms) lo hi =
    ground (arith, append-nil ms, take-append (m ∷ ms) [], drop-append (m ∷ ms) [])

pub parse_psk_modes-IsReturn : (d : List ℕ) → IsReturn (parse_psk_kex_modes_extension d)
unfolding parse_psk_kex_modes_extension
parse_psk_modes-IsReturn [] = tt
parse_psk_modes-IsReturn (a ∷ d) = ground arith

pub parse_status_request-IsReturn : (d : List ℕ) → IsReturn (parse_status_request_extension d)
unfolding parse_status_request_extension
parse_status_request-IsReturn [] = tt
parse_status_request-IsReturn (a ∷ []) = tt
parse_status_request-IsReturn (a ∷ b ∷ []) = tt
parse_status_request-IsReturn (a ∷ b ∷ c ∷ d) =
    ground (arith, get_uint16-Returns (drop (b * 256 + c) d), length-drop (b * 256 + c) d)
