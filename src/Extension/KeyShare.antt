-- ===== src/Extension/KeyShare.antt =====
-- extensions.go, key_share: `KeyShareEntry`, the list of a ClientHello and the one entry of a
-- ServerHello.
use cnnic_gmtls.Base.{
  ℕ, zero, suc, ◌+◌, ◌*◌, ◌≤◌, ◌<◌, ◌≡◌, refl, arith, List, [], ◌∷◌, ◌++◌, ltb, length,
  length-append, All, append-nil, Outcome, ok, stuck, ◌>>=◌, ◌>>◌, fail_if, IsReturn, Returns,
  Returns-bind, IsUint16, put_uint16, get_uint16, split, take-append, drop-append, length-drop,
  take,
}
use cnnic_gmtls.Extension.{Extension, no_extension, extension_key_share}

pub record KeyShareEntry : Type 0 where
  pub group : ℕ
  pub key_exchange : List ℕ

abbrev pub put_entry : KeyShareEntry → List ℕ
put_entry e = put_uint16 e.group ++ (put_uint16 (length e.key_exchange) ++ e.key_exchange)

abbrev pub put_entries : List KeyShareEntry → List ℕ
put_entries [] = []
put_entries (e ∷ es) = put_entry e ++ put_entries es

unfoldable pub marshal_key_share_extension : List KeyShareEntry → Extension
marshal_key_share_extension [] = no_extension
marshal_key_share_extension (e ∷ es) =
    let shares = put_entries (e ∷ es) in
    record { ext_type = extension_key_share; ext_data = put_uint16 (length shares) ++ shares }

abbrev key_share_server : KeyShareEntry → List ℕ → Extension
key_share_server e [] = no_extension
key_share_server e (b ∷ bs) = record { ext_type = extension_key_share; ext_data = put_entry e }

unfoldable pub marshal_key_share_server_hello_extension : KeyShareEntry → Extension
marshal_key_share_server_hello_extension e = key_share_server e e.key_exchange

-- `parseKeyShareExtension`, for a ServerHello.
unfoldable pub parse_key_share_extension : List ℕ → Outcome KeyShareEntry
unfolding get_uint16 split
parse_key_share_extension data' = do
  fail_if (ltb (length data') 4) "gmtls: invalid key share extension"
  (group, rest) ← get_uint16 data'
  (key_len, rest) ← get_uint16 rest
  fail_if (ltb (length data') (4 + key_len)) "gmtls: key share extension truncated"
  (key, _) ← split key_len rest
  ok (record { group = group; key_exchange = key })

-- One round of the loop of `parseKeyShareClientHello`.
pub parse_entry : List ℕ → Outcome (KeyShareEntry × List ℕ)
unfolding get_uint16 split
parse_entry payload = do
  fail_if (ltb (length payload) 4) "gmtls: invalid key share entry"
  (group, payload) ← get_uint16 payload
  (key_len, payload) ← get_uint16 payload
  fail_if (ltb (length payload) key_len) "gmtls: key share entry truncated"
  (key, payload) ← split key_len payload
  ok (record { group = group; key_exchange = key }, payload)

-- The loop `for len(payload) > 0`; a round takes four bytes at least.
pub parse_entries : ℕ → List ℕ → Outcome (List KeyShareEntry)
parse_entries fuel [] = ok []
parse_entries zero (b ∷ bs) = stuck
parse_entries (suc fuel) (b ∷ bs) = do
  (entry, payload) ← parse_entry (b ∷ bs)
  entries ← parse_entries fuel payload
  ok (entry ∷ entries)

unfoldable pub parse_key_share_client_hello : List ℕ → Outcome (List KeyShareEntry)
unfolding get_uint16 split
parse_key_share_client_hello data' = do
  fail_if (ltb (length data') 2) "gmtls: invalid key share extension"
  (list_len, rest) ← get_uint16 data'
  fail_if (ltb (length data') (2 + list_len)) "gmtls: key share extension truncated"
  (payload, _) ← split list_len rest
  parse_entries (length payload) payload

abbrev pub IsEntry : KeyShareEntry → Type 0
IsEntry e = IsUint16 e.group × (length e.key_exchange < 65536)

parse_entry-put :
    (e : KeyShareEntry) (rest : List ℕ)
    → IsEntry e
    → parse_entry (put_entry e ++ rest) ≡ ok (e, rest)
unfolding parse_entry
parse_entry-put e rest h =
    let k = e.key_exchange in
    ground (arith, length-append k rest, take-append k rest, drop-append k rest)

parse_entries-put :
    (es : List KeyShareEntry) (fuel : ℕ)
    → All IsEntry es
    → length (put_entries es) ≤ fuel
    → parse_entries fuel (put_entries es) ≡ ok es
unfolding parse_entries
parse_entries-put [] fuel h f = refl
parse_entries-put (e ∷ es) zero h f = absurd (omega arith)
parse_entries-put (e ∷ es) (suc fuel) h f = rw (parse_entry-put e (put_entries es) h.0) (
    rw (
      parse_entries-put es fuel h.1 (omega (arith, length-append e.key_exchange (put_entries es)))))

-- The key shares of a ClientHello, one at least and fitting the 16-bit lengths, are read back,
-- all of them and in order.
pub parse-marshal_key_share :
    (es : List KeyShareEntry)
    → 1 ≤ length es
    → All IsEntry es
    → length (put_entries es) < 65536
    → parse_key_share_client_hello (marshal_key_share_extension es).ext_data ≡ ok es
unfolding marshal_key_share_extension parse_key_share_client_hello
parse-marshal_key_share [] l h f = absurd (omega arith)
parse-marshal_key_share (e ∷ es) l h f =
    let shares = put_entries (e ∷ es) in
    ground (
      arith,
      append-nil shares,
      take-append shares [],
      drop-append shares [],
      parse_entries-put (e ∷ es) (length shares) h (omega arith),
    )

-- So is the one key share of a ServerHello.
pub parse-marshal_key_share_server :
    (e : KeyShareEntry)
    → IsEntry e
    → 1 ≤ length e.key_exchange
    → parse_key_share_extension (marshal_key_share_server_hello_extension e).ext_data ≡ ok e
unfolding marshal_key_share_server_hello_extension parse_key_share_extension
parse-marshal_key_share_server e h l =
    ground (
      arith,
      append-nil e.key_exchange,
      take-append e.key_exchange [],
      drop-append e.key_exchange [],
    )

pub parse_key_share-IsReturn : (d : List ℕ) → IsReturn (parse_key_share_extension d)
unfolding parse_key_share_extension
parse_key_share-IsReturn [] = tt
parse_key_share-IsReturn (a ∷ []) = tt
parse_key_share-IsReturn (a ∷ b ∷ []) = tt
parse_key_share-IsReturn (a ∷ b ∷ c ∷ []) = tt
parse_key_share-IsReturn (a ∷ b ∷ c ∷ e ∷ d) = ground arith

parse_entry-Returns : (d : List ℕ) → Returns (parse_entry d) (λ r. length r.1 + 4 ≤ length d)
unfolding parse_entry
parse_entry-Returns [] = tt
parse_entry-Returns (a ∷ []) = tt
parse_entry-Returns (a ∷ b ∷ []) = tt
parse_entry-Returns (a ∷ b ∷ c ∷ []) = tt
parse_entry-Returns (a ∷ b ∷ c ∷ e ∷ d) = ground (arith, length-drop (c * 256 + e) d)

parse_entries-IsReturn : (fuel : ℕ) (d : List ℕ) → length d ≤ fuel → IsReturn (parse_entries fuel d)
unfolding parse_entries
parse_entries-IsReturn fuel [] h = tt
parse_entries-IsReturn zero (a ∷ d) h = absurd (omega arith)
parse_entries-IsReturn (suc fuel) (a ∷ d) h =
    Returns-bind _ _ (parse_entry (a ∷ d)) _ (parse_entry-Returns (a ∷ d)) (λ r p.
      Returns-bind (λ _. Unit) _ (parse_entries fuel r.1) _
        (parse_entries-IsReturn fuel r.1 (omega arith)) (λ _ _. tt))

-- No bytes make the reading of a ClientHello's key shares panic, and its loop ends.
pub parse_key_share_client-IsReturn : (d : List ℕ) → IsReturn (parse_key_share_client_hello d)
unfolding parse_key_share_client_hello
parse_key_share_client-IsReturn [] = tt
parse_key_share_client-IsReturn (a ∷ []) = tt
parse_key_share_client-IsReturn (a ∷ b ∷ d) =
    let payload = take (a * 256 + b) d in
    ground (arith, parse_entries-IsReturn (length payload) payload (omega arith))
