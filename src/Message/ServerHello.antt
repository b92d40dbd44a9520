-- ===== src/Message/ServerHello.antt =====
-- handshake.go: `serverHelloMsg`. A session id of no bytes stands for nil.
use cnnic_gmtls.Base.{
  ℕ, ◌%◌, ◌<◌, ◌≡◌, arith, List, [], ◌∷◌, ◌++◌, ltb, length, length-append, All, Outcome, ok, ◌>>=◌,
  ◌>>◌, fail_if, IsReturn, Returns-bind, IsUint16, put_uint16, put_uint24, get_byte, get_uint16,
  vector8, vector8-append, vector8-Returns,
}
use cnnic_gmtls.Extension.{Extension}
use cnnic_gmtls.Message.{type_server_hello}
use cnnic_gmtls.Message.Extensions.{
  put_extensions, marshal_extensions, hello_extensions, hello_header, IsExtension,
  hello_extensions-marshal, hello_extensions-IsReturn, hello_header-put, hello_header-Returns,
}

pub record ServerHelloMsg : Type 0 where
  pub version : ℕ
  pub random : List ℕ
  pub session_id : List ℕ
  pub cipher_suite : ℕ
  pub compression : ℕ
  pub extensions : List Extension

abbrev server_hello_tail : ServerHelloMsg → List ℕ
server_hello_tail m =
    (length m.session_id % 256)
    ∷ (m.session_id
        ++ (put_uint16 m.cipher_suite ++ (m.compression ∷ marshal_extensions m.extensions)))

abbrev server_hello_body : ServerHelloMsg → List ℕ
server_hello_body m = put_uint16 m.version ++ (m.random ++ server_hello_tail m)

unfoldable pub marshal : ServerHelloMsg → List ℕ
marshal m = let body = server_hello_body m in type_server_hello ∷ (put_uint24 (length body) ++ body)

-- The suite and the compression method.
unfoldable pub read_choice : List ℕ → Outcome (ℕ × ℕ × List ℕ)
unfolding get_byte get_uint16
read_choice rest = do
  fail_if (ltb (length rest) 2) "gmtls: invalid ServerHello message"
  (cipher_suite, rest) ← get_uint16 rest
  fail_if (ltb (length rest) 1) "gmtls: invalid compression method"
  (compression, rest) ← get_byte rest
  ok (cipher_suite, compression, rest)

unfoldable pub unmarshal : List ℕ → Outcome ServerHelloMsg
unmarshal data' = do
  (version, random, rest) ←
      hello_header type_server_hello "gmtls: invalid ServerHello" "gmtls: not a ServerHello" data'
  (session_id, rest) ← vector8 "gmtls: invalid ServerHello message" "gmtls: invalid session ID" rest
  (cipher_suite, compression, rest) ← read_choice rest
  extensions ← hello_extensions rest
  ok (record {
    version = version;
    random = random;
    session_id = session_id;
    cipher_suite = cipher_suite;
    compression = compression;
    extensions = extensions;
  })

pub record IsValid (m : ServerHelloMsg) : Type 0 where
  pub version_fits : IsUint16 m.version
  pub random_fits : length m.random ≡ 32
  pub session_id_fits : length m.session_id < 256
  pub suite_fits : IsUint16 m.cipher_suite
  pub extensions_are : All IsExtension m.extensions
  pub extensions_fit : length (put_extensions m.extensions) < 65536

read_choice-put :
    (suite c : ℕ) (rest : List ℕ)
    → IsUint16 suite
    → read_choice (put_uint16 suite ++ (c ∷ rest)) ≡ ok (suite, c, rest)
unfolding read_choice
read_choice-put suite c rest h = ground arith

read_choice-IsReturn : (d : List ℕ) → IsReturn (read_choice d)
unfolding read_choice
read_choice-IsReturn [] = tt
read_choice-IsReturn (a ∷ []) = tt
read_choice-IsReturn (a ∷ b ∷ []) = tt
read_choice-IsReturn (a ∷ b ∷ c ∷ d) = ground arith

-- `unmarshal` reads back every field of a ServerHello that `marshal` wrote, if the fields fit
-- the widths of the message: a random of 32 bytes, lists that fit their lengths, 16-bit numbers.
pub unmarshal-marshal_server_hello : (m : ServerHelloMsg) → IsValid m → unmarshal (marshal m) ≡ ok m
unfolding unmarshal marshal
unmarshal-marshal_server_hello m v = rw (
  hello_header-put type_server_hello (length (server_hello_body m)) m.version _ _ m.random
      (server_hello_tail m) v.version_fits v.random_fits (omega (arith, length-append {0})),
  vector8-append _ _ m.session_id _ v.session_id_fits,
  read_choice-put m.cipher_suite m.compression _ v.suite_fits,
  hello_extensions-marshal m.extensions v.extensions_are v.extensions_fit,
)

-- No input makes the `unmarshal` of a ServerHello panic, and its loops end.
pub unmarshal_server_hello-IsReturn : (d : List ℕ) → IsReturn (unmarshal d)
unfolding unmarshal
unmarshal_server_hello-IsReturn d =
    Returns-bind _ _ (hello_header _ _ _ d) _ (hello_header-Returns _ _ _ d) (λ h _.
      Returns-bind _ _ (vector8 _ _ h.2) _ (vector8-Returns _ _ h.2) (λ s _.
        Returns-bind (λ _. Unit) _ (read_choice s.1) _ (read_choice-IsReturn s.1)
          (λ c _.
            Returns-bind (λ _. Unit) _ (hello_extensions c.2) _ (hello_extensions-IsReturn c.2)
              (λ _ _. tt))))
