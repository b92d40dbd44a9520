-- ===== src/Message/Finished.antt =====
-- handshake.go: `finishedMsg`. The message is its verify_data.
use cnnic_gmtls.Base.{
  ℕ, ◌≤◌, ◌≡◌, arith, List, [], ◌∷◌, ◌++◌, not, ◌==◌, length, Outcome, ok, ◌>>=◌, ◌>>◌, fail_if,
  IsReturn, put_uint24, get_byte, split,
}
use cnnic_gmtls.Message.{type_finished}

unfoldable pub marshal : List ℕ → List ℕ
marshal verify_data = type_finished ∷ (put_uint24 (length verify_data) ++ verify_data)

-- `data[0]` and `data[4:]` with no test of the length.
unfoldable pub unmarshal : List ℕ → Outcome (List ℕ)
unfolding get_byte split
unmarshal data' = do
  (t, rest) ← get_byte data'
  fail_if (not (t == type_finished)) "gmtls: not a Finished"
  (_, verify_data) ← split 3 rest
  ok verify_data

pub unmarshal-marshal_finished : (v : List ℕ) → unmarshal (marshal v) ≡ ok v
unfolding unmarshal marshal
unmarshal-marshal_finished v = ground arith

-- A message with its header is taken or refused.
pub unmarshal_finished-IsReturn : (d : List ℕ) → 4 ≤ length d → IsReturn (unmarshal d)
unfolding unmarshal
unmarshal_finished-IsReturn [] h = absurd (omega arith)
unmarshal_finished-IsReturn (a ∷ []) h = absurd (omega arith)
unmarshal_finished-IsReturn (a ∷ b ∷ []) h = absurd (omega arith)
unmarshal_finished-IsReturn (a ∷ b ∷ c ∷ []) h = absurd (omega arith)
unmarshal_finished-IsReturn (a ∷ b ∷ c ∷ e ∷ d) h = ground arith
