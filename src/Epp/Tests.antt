-- ===== src/Epp/Tests.antt =====
-- The theorem on frames at a concrete payload.
use cnnic_gmtls.Base.{◌≡◌, arith, [], ◌∷◌, ◌++◌, ok}
use cnnic_gmtls.Epp.Frame.{epp_read_frame, epp_write_frame, read-write_frame}

read-write_frame_example :
    epp_read_frame (epp_write_frame (b'<' ∷ b'>' ∷ []) ++ (0 ∷ [])) ≡ ok (b'<' ∷ b'>' ∷ [], 0 ∷ [])
read-write_frame_example = read-write_frame (b'<' ∷ b'>' ∷ []) (0 ∷ []) (omega arith)
