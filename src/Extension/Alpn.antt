-- ===== src/Extension/Alpn.antt =====
-- extensions.go, application_layer_protocol_negotiation: `marshalALPNExtension` and
-- `parseALPNExtension`.
use cnnic_gmtls.Base.{
  ℕ, zero, suc, ◌+◌, ◌-◌, ◌*◌, ◌%◌, ◌≤◌, ◌<◌, ◌≡◌, refl, arith, List, [], ◌∷◌, ◌++◌, ltb, length,
  length-append, All, Outcome, ok, stuck, ◌>>=◌, ◌>>◌, fail_if, IsReturn, Returns-bind, put_uint16,
  get_uint16, vector8, vector8-append, vector8-Returns,
}
use cnnic_gmtls.Extension.{Extension, no_extension, extension_alpn}

abbrev pub alpn_names : List (List ℕ) → List ℕ
alpn_names [] = []
alpn_names (p ∷ ps) = (length p % 256) ∷ (p ++ alpn_names ps)

unfoldable pub marshal_alpn_extension : List (List ℕ) → Extension
marshal_alpn_extension [] = no_extension
marshal_alpn_extension (p ∷ ps) =
    let names = alpn_names (p ∷ ps) in
    record { ext_type = extension_alpn; ext_data = put_uint16 (length names) ++ names }

-- `left` is the end of the list less the offset. A name is held against the end of the data, so
-- the last one may go past the end of the list.
pub parse_alpn_names : ℕ → ℕ → List ℕ → Outcome (List (List ℕ))
parse_alpn_names fuel zero rest = ok []
parse_alpn_names zero (suc left) rest = stuck
parse_alpn_names (suc fuel) (suc left) rest = do
  (proto, rest') ← vector8 "gmtls: ALPN extension truncated" "gmtls: ALPN extension truncated" rest
  protocols ← parse_alpn_names fuel (left - length proto) rest'
  ok (proto ∷ protocols)

-- Each round takes a byte at least, so `list_len` rounds are enough.
unfoldable pub parse_alpn_extension : List ℕ → Outcome (List (List ℕ))
unfolding get_uint16
parse_alpn_extension data' = do
  fail_if (ltb (length data') 2) "gmtls: invalid ALPN extension"
  (list_len, rest) ← get_uint16 data'
  fail_if (ltb (length data') (2 + list_len)) "gmtls: ALPN extension truncated"
  parse_alpn_names list_len list_len rest

abbrev pub IsProtocol : List ℕ → Type 0
IsProtocol p = length p < 256

parse_alpn_names-names :
    (ps : List (List ℕ)) (fuel : ℕ)
    → All IsProtocol ps
    → length (alpn_names ps) ≤ fuel
    → parse_alpn_names fuel (length (alpn_names ps)) (alpn_names ps) ≡ ok ps
unfolding parse_alpn_names
parse_alpn_names-names [] fuel h f = refl
parse_alpn_names-names (p ∷ ps) zero h f = absurd (omega arith)
parse_alpn_names-names (p ∷ ps) (suc fuel) h f =
    let e : length (p ++ alpn_names ps) - length p ≡ length (alpn_names ps) =
      omega (arith, length-append p (alpn_names ps)) in
    rw (vector8-append _ _ p (alpn_names ps) h.0, e)
      (rw (parse_alpn_names-names ps fuel h.1 (omega (arith, length-append p (alpn_names ps)))))

-- A list of at least one protocol, each of less than 256 bytes, is read back in order, if it fits the
-- 16-bit length.
pub parse-marshal_alpn :
    (ps : List (List ℕ))
    → 1 ≤ length ps
    → All IsProtocol ps
    → length (alpn_names ps) < 65536
    → parse_alpn_extension (marshal_alpn_extension ps).ext_data ≡ ok ps
unfolding marshal_alpn_extension parse_alpn_extension
parse-marshal_alpn [] l h f = absurd (omega arith)
parse-marshal_alpn (p ∷ ps) l h f =
    ground (arith, parse_alpn_names-names (p ∷ ps) (length (alpn_names (p ∷ ps))) h (omega arith))

parse_alpn_names-IsReturn :
    (fuel left : ℕ) (d : List ℕ) → left ≤ fuel → IsReturn (parse_alpn_names fuel left d)
unfolding parse_alpn_names
parse_alpn_names-IsReturn fuel zero d h = tt
parse_alpn_names-IsReturn zero (suc left) d h = absurd (omega arith)
parse_alpn_names-IsReturn (suc fuel) (suc left) d h =
    Returns-bind _ _ (vector8 _ _ d) _ (vector8-Returns _ _ d) (λ r _.
      Returns-bind (λ _. Unit) _ (parse_alpn_names fuel (left - length r.0) r.1) _
        (parse_alpn_names-IsReturn fuel (left - length r.0) r.1 (omega arith)) (λ _ _. tt))

pub parse_alpn-IsReturn : (d : List ℕ) → IsReturn (parse_alpn_extension d)
unfolding parse_alpn_extension
parse_alpn-IsReturn [] = tt
parse_alpn-IsReturn (a ∷ []) = tt
parse_alpn-IsReturn (a ∷ b ∷ d) =
    let n = a * 256 + b in ground (arith, parse_alpn_names-IsReturn n n d (omega arith))
