-- ===== src/Message/ClientHello.antt =====
-- handshake.go: `clientHelloMsg`. A session id of no bytes stands for nil.
use cnnic_gmtls.Base.{
  ℕ, ◌+◌, ◌*◌, ◌/◌, ◌%◌, ◌<◌, ◌≡◌, arith, List, [], ◌∷◌, ◌++◌, ltb, length, length-append, All,
  Outcome, ok, ◌>>=◌, ◌>>◌, fail_if, IsReturn, Returns-bind, IsUint16, put_uint16, put_uint24,
  put_uint16s, length-put_uint16s, get_uint16, get_uint16s, get_uint16s-put, get_uint16s-Returns,
  vector8, vector8-append, vector8-Returns,
}
use cnnic_gmtls.Extension.{Extension}
use cnnic_gmtls.Message.{type_client_hello}
use cnnic_gmtls.Message.Extensions.{
  put_extensions, marshal_extensions, hello_extensions, hello_header, IsExtension,
  hello_extensions-marshal, hello_extensions-IsReturn, hello_header-put, hello_header-Returns,
}

pub record ClientHelloMsg : Type 0 where
  pub version : ℕ
  pub random : List ℕ
  pub session_id : List ℕ
  pub cipher_suites : List ℕ
  pub compression_methods : List ℕ
  pub extensions : List Extension

-- What stands behind the random.
abbrev client_hello_tail : ClientHelloMsg → List ℕ
client_hello_tail m =
    (length m.session_id % 256)
    ∷ (m.session_id
        ++ (put_uint16 (length m.cipher_suites * 2)
            ++ (put_uint16s m.cipher_suites
                ++ ((length m.compression_methods % 256)
                    ∷ (m.compression_methods ++ marshal_extensions m.extensions)))))

abbrev client_hello_body : ClientHelloMsg → List ℕ
client_hello_body m = put_uint16 m.version ++ (m.random ++ client_hello_tail m)

unfoldable pub marshal : ClientHelloMsg → List ℕ
marshal m = let body = client_hello_body m in type_client_hello ∷ (put_uint24 (length body) ++ body)

-- The suites are `suiteLen/2` reads of two bytes, so an odd length leaves a byte unread.
unfoldable pub read_suites : List ℕ → Outcome (List ℕ × List ℕ)
unfolding get_uint16
read_suites rest = do
  fail_if (ltb (length rest) 2) "gmtls: invalid cipher suites"
  (suite_len, rest) ← get_uint16 rest
  fail_if (ltb (length rest) suite_len) "gmtls: cipher suites length mismatch"
  get_uint16s (suite_len / 2) rest

unfoldable pub unmarshal : List ℕ → Outcome ClientHelloMsg
unmarshal data' = do
  (version, random, rest) ←
      hello_header type_client_hello "gmtls: invalid ClientHello" "gmtls: not a ClientHello" data'
  (session_id, rest) ← vector8 "gmtls: invalid ClientHello message" "gmtls: invalid session ID" rest
  (cipher_suites, rest) ← read_suites rest
  (compression_methods, rest) ←
      vector8 "gmtls: invalid compression methods" "gmtls: compression methods length mismatch" rest
  extensions ← hello_extensions rest
  ok (record {
    version = version;
    random = random;
    session_id = session_id;
    cipher_suites = cipher_suites;
    compression_methods = compression_methods;
    extensions = extensions;
  })

-- Each part fits its length field, and the random has its 32 bytes.
pub record IsValid (m : ClientHelloMsg) : Type 0 where
  pub version_fits : IsUint16 m.version
  pub random_fits : length m.random ≡ 32
  pub session_id_fits : length m.session_id < 256
  pub suites_fit : length m.cipher_suites < 32768
  pub suites_are : All IsUint16 m.cipher_suites
  pub compression_fits : length m.compression_methods < 256
  pub extensions_are : All IsExtension m.extensions
  pub extensions_fit : length (put_extensions m.extensions) < 65536

read_suites-put :
    (vs rest : List ℕ)
    → length vs < 32768
    → All IsUint16 vs
    → read_suites (put_uint16 (length vs * 2) ++ (put_uint16s vs ++ rest)) ≡ ok (vs, rest)
unfolding read_suites
read_suites-put vs rest l h =
    ground
      (arith, length-append (put_uint16s vs) rest, length-put_uint16s vs, get_uint16s-put vs rest h)

read_suites-IsReturn : (d : List ℕ) → IsReturn (read_suites d)
unfolding read_suites
read_suites-IsReturn [] = tt
read_suites-IsReturn (a ∷ []) = tt
read_suites-IsReturn (a ∷ b ∷ d) = ground (arith, get_uint16s-Returns ((a * 256 + b) / 2) d)

-- `unmarshal` reads back every field of a ClientHello that `marshal` wrote, if the fields fit
-- the widths of the message: a random of 32 bytes, lists that fit their lengths, 16-bit numbers.
pub unmarshal-marshal_client_hello : (m : ClientHelloMsg) → IsValid m → unmarshal (marshal m) ≡ ok m
unfolding unmarshal marshal
unmarshal-marshal_client_hello m v = rw (
  hello_header-put type_client_hello (length (client_hello_body m)) m.version _ _ m.random
      (client_hello_tail m) v.version_fits v.random_fits (omega (arith, length-append {0})),
  vector8-append _ _ m.session_id _ v.session_id_fits,
  read_suites-put m.cipher_suites _ v.suites_fit v.suites_are,
  vector8-append _ _ m.compression_methods _ v.compression_fits,
  hello_extensions-marshal m.extensions v.extensions_are v.extensions_fit,
)

-- No input makes the `unmarshal` of a ClientHello panic, and its loops end.
pub unmarshal_client_hello-IsReturn : (d : List ℕ) → IsReturn (unmarshal d)
unfolding unmarshal
unmarshal_client_hello-IsReturn d =
    Returns-bind _ _ (hello_header _ _ _ d) _ (hello_header-Returns _ _ _ d) (λ h _.
      Returns-bind _ _ (vector8 _ _ h.2) _ (vector8-Returns _ _ h.2) (λ s _.
        Returns-bind (λ _. Unit) _ (read_suites s.1) _ (read_suites-IsReturn s.1)
          (λ c _. Returns-bind _ _ (vector8 _ _ c.1) _ (vector8-Returns _ _ c.1) (λ p _.
            Returns-bind (λ _. Unit) _ (hello_extensions p.1) _ (hello_extensions-IsReturn p.1)
              (λ _ _. tt)))))
